-- ===== src/Tokens.antt =====
-- Tokens: the amounts of `pyflex/model.py` and the contracts of `pyflex/token.py`.
pub mod Token
pub mod Contracts
pub mod Amounts
mod Tests
