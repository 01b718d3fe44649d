-- ===== src/Gas.antt =====
-- `pyflex/gas.py`: the gas price strategies. Prices, seconds and increments are natural numbers:
-- amounts of Wei and times that have passed.
pub mod Float
mod Strategies
pub mod IncreasingPrice
mod Product
pub mod GeometricPrice
mod Tests
unfoldable pub use Strategies.*
