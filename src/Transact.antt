-- ===== src/Transact.antt =====
-- `pyflex/__init__.py`: sending a transaction. One call of `Transact.transact_async` is a prologue
-- and a loop; the loop runs in rounds, and between two rounds other tasks run.
mod State
mod Nonce
mod Price
mod Receipt
mod Loop
mod Start
mod Recovered
mod Tests
pub mod Raise
pub mod Answers
pub mod Calls
pub mod Pending
pub mod Calling
pub mod Ordering
pub mod Replacing
pub mod Refusing
pub mod Endings
pub mod Rounds
pub mod Serial
pub mod Receipts
pub mod Escalation
unfoldable pub use State.*
unfoldable pub use Nonce.*
unfoldable pub use Price.*
unfoldable pub use Receipt.*
unfoldable pub use Loop.*
unfoldable pub use Start.*
unfoldable pub use Recovered.*
