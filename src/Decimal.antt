-- ===== src/Decimal.antt =====
-- What `pyflex/numeric.py` and `pyflex/gas.py` use of Python's decimal module and of true division.
--
-- A decimal number is computed to 28 significant digits, the last one rounded half to even: the
-- default context, which no line of the repository changes. A true division of integers gives the
-- nearest double, 53 binary digits, rounded half to even.
mod Defs
pub mod Digits
pub mod Rounding
pub mod Significant
pub mod Scaling
pub mod Quotient
pub mod Context
pub mod Truediv
unfoldable pub use Defs.*
