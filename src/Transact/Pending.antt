-- ===== src/Transact/Pending.antt =====
-- `pyflex/__init__.py`: what `get_pending_transactions` finds and what `cancel_async` sends.
use pyflex.Base.{ℕ, Bool, true, false, Option, none, some, List, [], ◌∷◌, ◌++◌, map}
use pyflex.Base.{◌≡◌, refl, ap, sym, ◌∙◌, if◌then◌else◌, ◌==◌}
use pyflex.Base.Results.{Result, ok, err}
use pyflex.Gas.{GasPrice, get_gas_price}
use pyflex.Transact.State.{NonceCalculation}
use pyflex.Transact.Price.{exceeds_last}
use pyflex.Transact.Raise.{IsRaise, exceeds_last-IsRaise}
use pyflex.Transact.Loop.{Outcome, running, returned, raised, seconds_elapsed}
use pyflex.Transact.Recovered.{
  Recovered, Item, filter_items, drain, is_pending, recover, asks_parity, get_pending_transactions,
  CancelRound, CancelState, any_receipt, found_or_on, compare_price, after_send, cancel_round,
  cancel_rounds, cancel_async, cancel_at, cancel_if, cancel_with, cancel_more, first_cancel,
  begin_cancel,
}

-- If the node's nonces are not calculated by a Parity node, then `get_pending_transactions` finds
-- nothing, whatever transactions the node lists: the iterator has been read before it is used.
get_pending_transactions_empty :
    (calculation : NonceCalculation) (address : ℕ) (items : List Item)
    → asks_parity calculation ≡ false
    → get_pending_transactions calculation address items ≡ []
unfolding get_pending_transactions drain
get_pending_transactions_empty calculation address items e =
    let own = filter_items (λ i. i.from_address == address) items in
    ap (λ b. if b then map (recover address) (filter_items is_pending own) else []) e

-- The prices of a cancellation, the latest first: each one exceeds the one before it by an eighth,
-- but for the rounding of doubles, and the first one exceeds `gas` so.
abbrev pub EscalatesFrom : ℕ → List ℕ → Type 0
EscalatesFrom gas [] = Unit
EscalatesFrom gas (price ∷ []) = IsRaise gas price
EscalatesFrom gas (price ∷ last ∷ prices) = IsRaise last price × EscalatesFrom gas (last ∷ prices)

abbrev pub latest : ℕ → List ℕ → ℕ
latest gas [] = gas
latest gas (price ∷ _) = price

-- The state of a cancellation.
IsCancelling : ℕ → CancelState → Type 0
IsCancelling gas s = EscalatesFrom gas s.prices × (s.gas_price_last ≡ some (latest gas s.prices))

escalate :
    (gas price : ℕ) (prices : List ℕ)
    → EscalatesFrom gas prices
    → exceeds_last price (latest gas prices) ≡ true
    → EscalatesFrom gas (price ∷ prices)
escalate gas price [] h e = exceeds_last-IsRaise price gas e
escalate gas price (last ∷ prices) h e = (exceeds_last-IsRaise price last e, h)

-- What holds at the end of a round.
AfterRound : ℕ → Outcome × CancelState → Type 0
AfterRound gas (running, s) = IsCancelling gas s
AfterRound gas (returned _, s) = EscalatesFrom gas s.prices
AfterRound gas (raised _, s) = EscalatesFrom gas s.prices

after_send-AfterRound :
    (gas : ℕ) (r : CancelRound) (s : CancelState)
    → IsCancelling gas s
    → AfterRound gas (after_send r s)
unfolding after_send AfterRound IsCancelling
after_send-AfterRound gas r s h =
    elim (any_receipt r.find s.tx_hashes) as (λ x. AfterRound gas (found_or_on x, s)) [
      | err e ↦ h.0
      | ok true ↦ h.0
      | ok false ↦ h
    ]

cancel_at-AfterRound :
    (gas : ℕ) (x : Option ℕ) (value : ℕ) (r : CancelRound) (s : CancelState)
    → IsCancelling gas s
    → exceeds_last value (latest gas s.prices) ≡ true
    → AfterRound gas (cancel_at x value r s)
unfolding cancel_at AfterRound IsCancelling
cancel_at-AfterRound gas none value r s h e = h.0
cancel_at-AfterRound gas (some hash) value r s h e =
    let t : CancelState = record {
      gas_price_last = some value;
      tx_hashes = s.tx_hashes ++ (hash ∷ []);
      prices = value ∷ s.prices;
    } in
    after_send-AfterRound gas r t (escalate gas value s.prices h.0 e, refl)

compared : {a b : Bool} → ok a ≡ ok b → a ≡ b
compared e = ap (λ x. elim x [ ok a ↦ a | err _ ↦ false ]) e

cancel_if-AfterRound :
    (gas : ℕ) (x : Result Bool) (value : ℕ) (r : CancelRound) (s : CancelState)
    → IsCancelling gas s
    → compare_price (some value) s.gas_price_last ≡ x
    → AfterRound gas (cancel_if x value r s)
unfolding cancel_if AfterRound IsCancelling compare_price
cancel_if-AfterRound gas (err e) value r s h c = h.0
cancel_if-AfterRound gas (ok false) value r s h c = after_send-AfterRound gas r s h
cancel_if-AfterRound gas (ok true) value r s h c =
    cancel_at-AfterRound gas r.send value r s h
      (compared (sym (ap (λ last. compare_price (some value) last) h.1) ∙ c))

cancel_with-AfterRound :
    (gas : ℕ) (x : Result (Option ℕ)) (r : CancelRound) (s : CancelState)
    → IsCancelling gas s
    → AfterRound gas (cancel_with x r s)
unfolding cancel_with AfterRound IsCancelling
cancel_with-AfterRound gas (err e) r s h = h.0
cancel_with-AfterRound gas (ok none) r s h = h.0
cancel_with-AfterRound gas (ok (some value)) r s h =
    cancel_if-AfterRound gas (compare_price (some value) s.gas_price_last) value r s h refl

cancel_more-AfterRound :
    (gas : ℕ) (x : Outcome × CancelState) (next : CancelState → Outcome × CancelState)
    → AfterRound gas x
    → ((s : CancelState) → IsCancelling gas s → AfterRound gas (next s))
    → AfterRound gas (cancel_more x next)
unfolding AfterRound
cancel_more-AfterRound gas (running, s) next h f = f s h
cancel_more-AfterRound gas (returned _, s) next h f = h
cancel_more-AfterRound gas (raised _, s) next h f = h

cancel_rounds-AfterRound :
    (gas : ℕ) (gas_price : GasPrice) (initial_time : ℕ) (rs : List CancelRound) (s : CancelState)
    → IsCancelling gas s
    → AfterRound gas (cancel_rounds gas_price initial_time rs s)
unfolding cancel_rounds cancel_round AfterRound
cancel_rounds-AfterRound gas gas_price initial_time [] s h = h
cancel_rounds-AfterRound gas gas_price initial_time (r ∷ rs) s h =
    cancel_more-AfterRound gas (cancel_round gas_price initial_time r s)
      (cancel_rounds gas_price initial_time rs)
      (cancel_with-AfterRound gas
        (get_gas_price gas_price (seconds_elapsed r.now (some initial_time))) r s h)
      (cancel_rounds-AfterRound gas gas_price initial_time rs)

begin_cancel-AfterRound :
    (gas : ℕ) (x : Result (Option ℕ)) (gas_price : GasPrice) (now : ℕ) (rs : List CancelRound)
    (s : CancelState)
    → IsCancelling gas s
    → AfterRound gas (begin_cancel x gas_price now rs s)
unfolding begin_cancel AfterRound IsCancelling
begin_cancel-AfterRound gas (err e) gas_price now rs s h = h.0
begin_cancel-AfterRound gas (ok none) gas_price now rs s h = h.0
begin_cancel-AfterRound gas (ok (some value)) gas_price now rs s h =
    cancel_rounds-AfterRound gas gas_price now rs s h

escalates : (gas : ℕ) (x : Outcome × CancelState) → AfterRound gas x → EscalatesFrom gas x.1.prices
unfolding AfterRound IsCancelling
escalates gas (running, s) h = h.0
escalates gas (returned _, s) h = h
escalates gas (raised _, s) h = h

-- Over any rounds, whatever the strategy and the node's answers: the first price that
-- `cancel_async` sends is more than 9 / 8 of the gas price of the transaction in the mempool, and
-- every later one is more than 9 / 8 of the one before it, less a part of `2 ^ -52` of that, which
-- two roundings of doubles may take.
pub cancel_async-EscalatesFrom :
    (gas_price : GasPrice) (now : ℕ) (rs : List CancelRound) (t : Recovered)
    → EscalatesFrom t.current_gas (cancel_async gas_price now rs t).1.prices
unfolding cancel_async IsCancelling
cancel_async-EscalatesFrom gas_price now rs t =
    escalates t.current_gas (cancel_async gas_price now rs t) (
      begin_cancel-AfterRound t.current_gas (get_gas_price gas_price 0) gas_price now rs
        (first_cancel t) (tt, refl))
