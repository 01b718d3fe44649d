-- ===== src/Batch.antt =====
-- `pyflex/transactional.py` and the conversions of `pyflex/util.py`: batches of invocations in one
-- script.
mod Bytes
mod Script
pub mod Decoding
mod Tests
unfoldable pub use Bytes.*
unfoldable pub use Script.*
