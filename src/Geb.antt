-- ===== src/Geb.antt =====
-- `pyflex/gf.py`: the clients of the GEB core contracts.
pub mod Types
pub mod Coding
pub mod Engine
pub mod Modification
pub mod Validity
pub mod History
pub mod Chunks
pub mod Past
pub mod Rounding
pub mod Liquidation
pub mod Liquidating
pub mod Accounting
pub mod Oracle
pub mod Collector
pub mod Adapters
mod Tests
