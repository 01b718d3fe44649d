-- ===== src/Transact/Recovered.antt =====
-- `pyflex/__init__.py`: `get_pending_transactions` and `RecoveredTransact`.
use pyflex.Base.{ℕ, Bool, true, false, Option, none, some, List, [], ◌∷◌, ◌++◌}
use pyflex.Base.{◌==◌, if◌then◌else◌, map}
use pyflex.Base.Results.{Result, Error, ok, err, ◌>>=◌, type_error, not_implemented}
use pyflex.Gas.{GasPrice, get_gas_price}
use pyflex.Transact.State.{
  Status, Tx, new_tx, NonceCalculation, tx_count, parity_nextnonce, serial, parity_serial,
}
use pyflex.Transact.Price.{exceeds_last}
use pyflex.Transact.Receipt.{RawReceipt, get_receipt}
use pyflex.Transact.Loop.{Outcome, running, returned, raised, seconds_elapsed}
use pyflex.Transact.Start.{is_new}

-- `RecoveredTransact`: what it adds to a `Transact`.
pub record Recovered : Type 0 where
  pub tx : Tx
  pub address : ℕ
  pub current_gas : ℕ

-- `RecoveredTransact.__init__`
unfoldable pub new_recovered : ℕ → ℕ → ℕ → ℕ → Recovered
new_recovered address nonce latest_tx_hash current_gas = record {
  tx = record new_tx { nonce = some nonce; tx_hashes = latest_tx_hash ∷ [] };
  address = address;
  current_gas = current_gas;
}

-- A transaction in the node's answer.
pub record Item : Type 0 where
  pub from_address : ℕ
  pub block_number : Option ℕ
  pub nonce : ℕ
  pub hash : ℕ
  pub gas_price : ℕ

unfoldable pub filter_items : (Item → Bool) → List Item → List Item
filter_items keep [] = []
filter_items keep (i ∷ items) =
    let rest = filter_items keep items in if keep i then i ∷ rest else rest

-- `list(iterator)` returns what an iterator has left, and leaves nothing in it.
unfoldable pub drain : List Item → List Item × List Item
drain iterator = (iterator, [])

abbrev pub is_pending : Item → Bool
is_pending i = elim i.block_number [ none ↦ true | some _ ↦ false ]

abbrev pub recover : ℕ → Item → Recovered
recover address i = new_recovered address i.nonce i.hash i.gas_price

abbrev pub asks_parity : NonceCalculation → Bool
asks_parity tx_count = false
asks_parity parity_nextnonce = true
asks_parity serial = false
asks_parity parity_serial = true

-- `get_pending_transactions`. `filter` makes an iterator, which `map` reads on.
unfoldable pub get_pending_transactions : NonceCalculation → ℕ → List Item → List Recovered
unfolding filter_items drain new_recovered
get_pending_transactions calculation address items =
    let own = filter_items (λ i. i.from_address == address) items in
    if asks_parity calculation
    then map (recover address) (filter_items is_pending own)
    else (let (listed, left) = drain own in map (recover address) left)

-- `RecoveredTransact.transact_async`, wrapped by `_track_status`.
unfoldable pub transact_recovered : Recovered → Outcome × Recovered
transact_recovered t =
    if is_new t.tx.status
    then (raised not_implemented, record t { tx = record (t.tx) { status = Status.finished } })
    else (raised Error.exception, t)

-- What a round of `cancel_async` meets; `none` stands for an exception.
pub record CancelRound : Type 0 where
  pub now : ℕ
  pub send : Option ℕ
  pub find : ℕ → Result (Option RawReceipt)

-- Some hash has a receipt, of whatever status. There is no `result_function`.
unfoldable pub any_receipt : (ℕ → Result (Option RawReceipt)) → List ℕ → Result Bool
unfolding get_receipt
any_receipt find [] = ok false
any_receipt find (tx_hash ∷ hashes) =
    let rest = any_receipt find hashes in
    get_receipt (λ _. ok tt) (find tx_hash) >>= λ receipt. elim receipt [
      | none ↦ rest
      | some _ ↦ ok true
    ]

-- `value > last * 1.125`, where `None` on either side raises.
unfoldable pub compare_price : Option ℕ → Option ℕ → Result Bool
unfolding exceeds_last
compare_price none last = err type_error
compare_price (some value) none = err type_error
compare_price (some value) (some last) = ok (exceeds_last value last)

-- The state of `cancel_async`, with the prices sent, the latest first.
pub record CancelState : Type 0 where
  pub gas_price_last : Option ℕ
  pub tx_hashes : List ℕ
  pub prices : List ℕ

abbrev pub found_or_on : Result Bool → Outcome
found_or_on (err e) = raised e
found_or_on (ok true) = returned none
found_or_on (ok false) = running

unfoldable pub after_send : CancelRound → CancelState → Outcome × CancelState
unfolding any_receipt
after_send r s = (found_or_on (any_receipt r.find s.tx_hashes), s)

-- What follows `self.gas_price_last = gas_price_value`: a transfer of nothing to oneself with the
-- same nonce.
unfoldable pub cancel_at : Option ℕ → ℕ → CancelRound → CancelState → Outcome × CancelState
unfolding after_send
cancel_at none value r s = (raised Error.exception, record s { gas_price_last = some value })
cancel_at (some tx_hash) value r s = after_send r (record {
  gas_price_last = some value;
  tx_hashes = s.tx_hashes ++ (tx_hash ∷ []);
  prices = value ∷ s.prices;
})

unfoldable pub cancel_if : Result Bool → ℕ → CancelRound → CancelState → Outcome × CancelState
unfolding after_send cancel_at
cancel_if (err e) value r s = (raised e, s)
cancel_if (ok false) value r s = after_send r s
cancel_if (ok true) value r s = cancel_at r.send value r s

unfoldable pub cancel_with : Result (Option ℕ) → CancelRound → CancelState → Outcome × CancelState
unfolding compare_price cancel_if
cancel_with (err e) r s = (raised e, s)
cancel_with (ok none) r s = (raised type_error, s)
cancel_with (ok (some value)) r s =
    cancel_if (compare_price (some value) s.gas_price_last) value r s

-- A round of `while True`.
unfoldable pub cancel_round : GasPrice → ℕ → CancelRound → CancelState → Outcome × CancelState
unfolding get_gas_price seconds_elapsed cancel_with
cancel_round gas_price initial_time r s =
    cancel_with (get_gas_price gas_price (seconds_elapsed r.now (some initial_time))) r s

abbrev pub cancel_more :
    Outcome × CancelState → (CancelState → Outcome × CancelState) → Outcome × CancelState
cancel_more (running, s) next = next s
cancel_more (returned receipt, s) next = (returned receipt, s)
cancel_more (raised e, s) next = (raised e, s)

unfoldable pub cancel_rounds : GasPrice → ℕ → List CancelRound → CancelState → Outcome × CancelState
unfolding cancel_round
cancel_rounds gas_price initial_time [] s = (running, s)
cancel_rounds gas_price initial_time (r ∷ rs) s =
    cancel_more (cancel_round gas_price initial_time r s) (cancel_rounds gas_price initial_time rs)

abbrev pub first_cancel : Recovered → CancelState
first_cancel t = record { gas_price_last = some t.current_gas; tx_hashes = []; prices = [] }

unfoldable pub begin_cancel :
    Result (Option ℕ) → GasPrice → ℕ → List CancelRound → CancelState → Outcome × CancelState
unfolding cancel_rounds
begin_cancel (err e) gas_price now rs s = (raised e, s)
begin_cancel (ok none) gas_price now rs s = (raised type_error, s)
begin_cancel (ok (some value)) gas_price now rs s = cancel_rounds gas_price now rs s

-- `RecoveredTransact.cancel_async`. The first price is compared for a warning only, but `None`
-- raises there already.
unfoldable pub cancel_async : GasPrice → ℕ → List CancelRound → Recovered → Outcome × CancelState
unfolding get_gas_price begin_cancel
cancel_async gas_price now rs t =
    begin_cancel (get_gas_price gas_price 0) gas_price now rs (first_cancel t)
