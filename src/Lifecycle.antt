-- ===== src/Lifecycle.antt =====
-- `pyflex/lifecycle.py`, with `AsyncCallback` of `pyflex/util.py` and the filter threads of
-- `pyflex/__init__.py`: how a keeper starts, runs its callbacks and shuts down.
mod Callback
mod Init
mod State
mod Blocks
mod Loop
mod Exit
mod Tests
pub mod Callbacks
pub mod Termination
pub mod Shutdown
unfoldable pub use Callback.*
unfoldable pub use Init.*
unfoldable pub use State.*
unfoldable pub use Blocks.*
unfoldable pub use Loop.*
unfoldable pub use Exit.*
