-- ===== src/Numeric.antt =====
-- `pyflex/numeric.py`: the fixed-point numbers `Wad`, `Ray` and `Rad`.
pub mod Value
pub mod Wad
pub mod Ray
pub mod Rad
pub mod Classes
pub mod Amount
pub mod Precision
pub mod Division
pub mod Convert
pub mod Integer
pub mod Order
mod Tests
