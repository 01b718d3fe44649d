-- ===== src/Exchange.antt =====
-- `pyflex/zrx.py`: orders of the 0x exchange, its client and that of its relayers.
pub mod Order
pub mod Zrx
pub mod Events
pub mod Json
pub mod Remaining
mod Tests
