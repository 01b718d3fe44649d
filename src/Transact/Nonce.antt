-- ===== src/Transact/Nonce.antt =====
-- `pyflex/__init__.py`: `next_nonce`, `_get_nonce_calc` and the choice of a nonce.
use pyflex.Base.{ℕ, max, Bool, true, false, ◌||◌, Option, none, some, List, [], ◌∷◌}
use pyflex.Base.{◌==◌, if◌then◌else◌, ◌&&◌}
use pyflex.Base.Results.{Result, Error, ok, err, ◌>>=◌, key_error}
use pyflex.Transact.State.{
  NonceCalculation, tx_count, parity_nextnonce, serial, parity_serial, Nonces,
}

-- `next_nonce[account]`
unfoldable pub lookup : ℕ → Nonces → Option ℕ
lookup account [] = none
lookup account ((k, v) ∷ nonces) = if k == account then some v else lookup account nonces

-- `next_nonce[account] = nonce`
unfoldable pub insert : ℕ → ℕ → Nonces → Nonces
insert account nonce [] = (account, nonce) ∷ []
insert account nonce ((k, v) ∷ nonces) =
    if k == account then (account, nonce) ∷ nonces else (k, v) ∷ insert account nonce nonces

-- `text in other`, on characters.
unfoldable pub starts_with : List ℕ → List ℕ → Bool
starts_with [] other = true
starts_with (c ∷ text) [] = false
starts_with (c ∷ text) (d ∷ other) = (c == d) && starts_with text other

unfoldable pub is_in : List ℕ → List ℕ → Bool
unfolding starts_with
is_in text [] = starts_with text []
is_in text (d ∷ other) = starts_with text (d ∷ other) || is_in text other

unfoldable pub any_in : List (List ℕ) → List ℕ → Bool
unfolding is_in
any_in [] other = false
any_in (text ∷ texts) other = is_in text other || any_in texts other

-- `_get_nonce_calc`, with the entry of its cache, the provider's `endpoint_uri`, the node's
-- `clientVersion` in lower case and the four names that are searched for in them.
unfoldable pub get_nonce_calc :
    Option NonceCalculation
    → (providers : List (List ℕ)) (parity openethereum : List ℕ) (endpoint_uri client : List ℕ)
    → NonceCalculation
unfolding any_in
get_nonce_calc (some calculation) providers parity openethereum endpoint_uri client = calculation
get_nonce_calc none providers parity openethereum endpoint_uri client =
    if any_in providers endpoint_uri
    then serial
    else if is_in parity client || is_in openethereum client
    then parity_nextnonce
    else tx_count

-- What the node answers to the calculation: the pending transaction count, and
-- `parity_nextNonce`; `none` stands for an exception.
pub record NonceAnswers : Type 0 where
  pub pending_count : Option ℕ
  pub parity_next : Option ℕ

abbrev pub answer : Option ℕ → Result ℕ
answer none = err Error.exception
answer (some n) = ok n

abbrev pub entry : Option ℕ → Result ℕ
entry none = err key_error
entry (some n) = ok n

-- The `nonce` that the branches of `transact_async` choose for a transaction without one.
unfoldable pub choose_nonce : NonceCalculation → NonceAnswers → ℕ → Nonces → Result ℕ
unfolding lookup
choose_nonce parity_nextnonce a account nonces = answer a.parity_next
choose_nonce tx_count a account nonces = answer a.pending_count
choose_nonce serial a account nonces = do
  count ← answer a.pending_count
  next ← entry (lookup account nonces)
  ok (max count next)
choose_nonce parity_serial a account nonces = do
  count ← answer a.parity_next
  next ← entry (lookup account nonces)
  ok (max count next)
