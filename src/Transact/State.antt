-- ===== src/Transact/State.antt =====
-- `pyflex/__init__.py`: the objects that a transaction consists of, and what the node answers.
-- Accounts, addresses and transaction hashes are only compared, so they are numbers. A moment is a
-- number of microseconds.
use pyflex.Base.{ℕ, Bool, false, Option, none, some, List, []}
use pyflex.Gas.{GasPrice}

-- `TransactStatus`
pub data Status : Type 0 where
  new in_progress finished : Status

-- `NonceCalculation`
pub data NonceCalculation : Type 0 where
  tx_count parity_nextnonce serial parity_serial : NonceCalculation

-- What `Transact` keeps of a transaction that changes while it is executed. `gas_price_last` is
-- `None` once the node has chosen the price of the last send.
pub record Tx : Type 0 where
  pub status : Status
  pub nonce : Option ℕ
  pub replaced : Bool
  pub initial_time : Option ℕ
  pub gas_price : Option GasPrice
  pub gas_price_last : Option ℕ
  pub tx_hashes : List ℕ

-- `Transact.__init__`
abbrev pub new_tx : Tx
new_tx = record {
  status = new;
  nonce = none;
  replaced = false;
  initial_time = none;
  gas_price = none;
  gas_price_last = some 0;
  tx_hashes = [];
}

-- The global dictionary `next_nonce`, by account.
abbrev pub Nonces : Type 0
Nonces = List (ℕ × ℕ)

-- `Receipt`, as far as the loop reads it.
pub record Receipt : Type 0 where
  pub transaction_hash : ℕ
  pub successful : Bool

-- A call of `sendTransaction` or `transact` on the node: the transaction's sender, gas limit, gas
-- price and nonce, and the hash that the node returns, or `none` for an exception.
pub record Sent : Type 0 where
  pub from_account : ℕ
  pub gas : ℕ
  pub price : Option ℕ
  pub nonce : ℕ
  pub hash : Option ℕ
