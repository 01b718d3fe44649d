-- ===== src/Auctions.antt =====
-- `pyflex/auctions.py`: the clients of the auction houses.
pub mod House
pub mod Active
pub mod English
pub mod Surplus
pub mod Debt
pub mod FixedDiscount
pub mod IncreasingDiscount
pub mod StakedToken
pub mod Laws
pub mod Open
mod Tests
