-- ===== src/Transact/Price.antt =====
-- `pyflex/__init__.py`: the gas limit, the gas estimate and the test whether a price is due.
use pyflex.Base.{ℕ, ◌+◌, ◌*◌, Bool, true, false, Option, none, some, ltb, if◌then◌else◌}
use pyflex.Base.Results.{Result, ok, err, Error, type_error}
use pyflex.Decimal.{round_sig}

-- What `Transact.estimated_gas` returns: a number, or the bytes that a call of a raw transaction
-- returned.
pub data Estimate : Type 0 where
  units : ℕ → Estimate
  call_result : Estimate

-- What is called: a contract with raw data, a method of a contract, or no contract.
pub data Target : Type 0 where
  raw_data method plain_transfer : Target

-- `Transact.estimated_gas`, by the node's answer to `estimateGas`, where `none` stands for an
-- exception, and by whether the `call` that follows an exception succeeds.
unfoldable pub estimated_gas : Target → Option ℕ → Bool → Result Estimate
estimated_gas raw_data (some n) call_ok = ok (units n)
estimated_gas raw_data none call_ok = if call_ok then ok call_result else err Error.exception
estimated_gas method (some n) call_ok = ok (units n)
estimated_gas method none call_ok = err Error.exception
estimated_gas plain_transfer estimate call_ok = ok (units 21000)

abbrev pub default_buffer : ℕ
default_buffer = 100000

-- `gas_estimate + …`
unfoldable pub add_to : Estimate → ℕ → Result ℕ
add_to (units n) buffer = ok (n + buffer)
add_to call_result buffer = err type_error

-- `Transact._gas`
unfoldable pub gas_limit : Estimate → Option ℕ → Option ℕ → Result ℕ
unfolding add_to
gas_limit estimate (some gas) (some gas_buffer) = err Error.exception
gas_limit estimate (some gas) none = ok gas
gas_limit estimate none (some gas_buffer) = add_to estimate gas_buffer
gas_limit estimate none none = add_to estimate default_buffer

-- `value > last * 1.125`: 1.125 is 9 / 8, so eight times the product is the nearest double to nine
-- times the nearest double to `last`.
unfoldable pub exceeds_last : ℕ → ℕ → Bool
unfolding round_sig
exceeds_last value last = ltb (round_sig 2 53 (9 * round_sig 2 53 last)) (8 * value)

-- `not transaction_was_sent or (value is not None and value > last * 1.125)`
unfoldable pub is_due : Bool → Option ℕ → Option ℕ → Result Bool
unfolding exceeds_last
is_due false value last = ok true
is_due true none last = ok false
is_due true (some value) none = err type_error
is_due true (some value) (some last) = ok (exceeds_last value last)
