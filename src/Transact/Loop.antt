-- ===== src/Transact/Loop.antt =====
-- `pyflex/__init__.py`: the loop of `Transact.transact_async`, a round at a time.
use pyflex.Base.{ℕ, zero, suc, ◌+◌, ◌-◌, ◌/◌, Bool, true, false, ◌||◌, Option, none, some}
use pyflex.Base.{List, [], ◌∷◌, ◌++◌, ltb, if◌then◌else◌}
use pyflex.Base.Results.{Result, Error, ok, err, ◌>>=◌}
use pyflex.Gas.{GasPrice, get_gas_price, fixed, update_gas_price}
use pyflex.Transact.State.{Tx, NonceCalculation, Nonces, Receipt, Sent}
use pyflex.Transact.Nonce.{insert, NonceAnswers, choose_nonce}
use pyflex.Transact.Price.{is_due}
use pyflex.Transact.Receipt.{RawReceipt, get_receipt}

-- One of the ten attempts to find a receipt: whether another task has replaced the transaction by
-- then, what the node answers to `getTransactionReceipt`, what `result_function` does with a receipt
-- (`ok tt`, if there is no such function), and the transaction count that is asked for again at the
-- attempt's end, where `none` stands for an exception.
pub record Attempt : Type 0 where
  pub replaced_by_now : Bool
  pub find : ℕ → Result (Option RawReceipt)
  pub result_function : Receipt → Result (Unit {0})
  pub count_again : Option ℕ

-- What a round meets: first what other tasks have done since the last one, then the answers of the
-- clock and the node, where `none` stands for an exception.
pub record Round : Type 0 where
  pub replaced_meanwhile : Bool
  pub updated_price : Option ℕ
  pub other_nonces : Nonces
  pub now : ℕ
  pub latest_count : Option ℕ
  pub attempt : ℕ → Attempt
  pub replaced_tx_sent : Bool
  pub nonce_answers : NonceAnswers
  pub replaced_in_lock : Bool
  pub send : Option ℕ

-- What the prologue has fixed.
pub record Config : Type 0 where
  pub from_account : ℕ
  pub gas : ℕ
  pub calculation : NonceCalculation

-- The transaction, the global dictionary, and the calls that have sent it, the latest first.
pub record LoopState : Type 0 where
  pub tx : Tx
  pub nonces : Nonces
  pub sent : List Sent

pub data Outcome : Type 0 where
  running : Outcome
  returned : Option Receipt → Outcome
  raised : Error → Outcome

unfoldable pub insert_all : Nonces → Nonces → Nonces
unfolding insert
insert_all [] nonces = nonces
insert_all ((k, v) ∷ more) nonces = insert_all more (insert k v nonces)

-- `FixedGasPrice.update_gas_price`, called by another task.
unfoldable pub update_strategy : Option ℕ → Option GasPrice → Option GasPrice
unfolding update_gas_price
update_strategy (some price) (some (fixed g)) = some (fixed (update_gas_price price g))
update_strategy _ strategy = strategy

-- What other tasks have done.
unfoldable pub meanwhile : Round → LoopState → LoopState
unfolding insert_all update_strategy
meanwhile r s = record s {
  tx = record (s.tx) {
    replaced = s.tx.replaced || r.replaced_meanwhile;
    gas_price = update_strategy r.updated_price s.tx.gas_price;
  };
  nonces = insert_all r.other_nonces s.nonces;
}

-- `self._get_receipt(tx_hash)` in this attempt.
unfoldable pub receipt_of : Attempt → ℕ → Result (Option Receipt)
unfolding get_receipt
receipt_of a tx_hash = get_receipt a.result_function (a.find tx_hash)

-- The first receipt that is found decides, unless an exception comes first.
unfoldable pub first_receipt :
    Result (Option Receipt) → Result (Option (Option Receipt)) → Result (Option (Option Receipt))
first_receipt (err e) rest = err e
first_receipt (ok none) rest = rest
first_receipt (ok (some receipt)) rest =
    ok (some (if receipt.successful then some receipt else none))

-- `for tx_hash in self.tx_hashes`
unfoldable pub check_hashes : Attempt → List ℕ → Result (Option (Option Receipt))
unfolding receipt_of first_receipt
check_hashes a [] = ok none
check_hashes a (tx_hash ∷ hashes) = first_receipt (receipt_of a tx_hash) (check_hashes a hashes)

-- Without a receipt, the log's text asks for the transaction count before the next attempt.
unfoldable pub result_or :
    Result (Option (Option Receipt)) → Option ℕ → Result (Option Receipt) → Result (Option Receipt)
result_or (err e) count rest = err e
result_or (ok (some result)) count rest = ok result
result_or (ok none) none rest = err Error.exception
result_or (ok none) (some _) rest = rest

-- `for attempt in range(1, 11)`, with the attempts that are left and the number of the next one.
unfoldable pub search_receipt : ℕ → ℕ → (ℕ → Attempt) → Bool → List ℕ → Result (Option Receipt)
unfolding check_hashes result_or
search_receipt zero i attempt replaced hashes = ok none
search_receipt (suc left) i attempt replaced hashes =
    let rest = search_receipt left (i + 1) attempt replaced hashes in
    if replaced || (attempt i).replaced_by_now
    then ok none
    else result_or (check_hashes (attempt i) hashes) (attempt i).count_again rest

-- `except Exception`: it is raised again if nothing has been sent.
unfoldable pub raise_if : List ℕ → Error → LoopState → Outcome × LoopState
raise_if [] e s = (raised e, s)
raise_if (tx_hash ∷ hashes) e s = (running, s)

abbrev pub send_failed : Error → LoopState → Outcome × LoopState
send_failed e s = raise_if s.tx.tx_hashes e s

abbrev pub with_nonce : Config → LoopState → ℕ → ℕ × LoopState
with_nonce c s n = (
  n,
  record s {
    tx = record (s.tx) { nonce = some n };
    nonces = insert c.from_account (n + 1) s.nonces;
  },
)

-- The nonce in the lock. Only a new one is written to `next_nonce`.
unfoldable pub nonce_or : Option ℕ → Config → NonceAnswers → LoopState → Result (ℕ × LoopState)
unfolding choose_nonce insert
nonce_or (some n) c answers s = ok (n, s)
nonce_or none c answers s =
    choose_nonce c.calculation answers c.from_account s.nonces >>= λ n. ok (with_nonce c s n)

abbrev pub assign_nonce : Config → NonceAnswers → LoopState → Result (ℕ × LoopState)
assign_nonce c answers s = nonce_or s.tx.nonce c answers s

abbrev pub logged : Config → Option ℕ → Option ℕ → ℕ → LoopState → LoopState
logged c price answered n s =
    let call : Sent = record {
      from_account = c.from_account;
      gas = c.gas;
      price = price;
      nonce = n;
      hash = answered;
    } in
    record s { sent = call ∷ s.sent }

-- `self._func(…)` and what follows it in the lock.
unfoldable pub call_node : Config → Option ℕ → Option ℕ → ℕ → LoopState → Outcome × LoopState
unfolding raise_if
call_node c price none n s = send_failed Error.exception (logged c price none n s)
call_node c price (some tx_hash) n s = (
  running,
  record (logged c price (some tx_hash) n s) {
    tx = record (s.tx) { tx_hashes = s.tx.tx_hashes ++ (tx_hash ∷ []) };
  },
)

-- What follows the choice of a nonce.
unfoldable pub send_with :
    Result (ℕ × LoopState) → Config → Round → Option ℕ → LoopState → Outcome × LoopState
unfolding call_node raise_if
send_with (err e) c r price s = send_failed e s
send_with (ok (n, t)) c r price s =
    if r.replaced_in_lock
    then (returned none, record t { tx = record (t.tx) { replaced = true } })
    else call_node c price r.send n t

abbrev pub priced : Option ℕ → LoopState → LoopState
priced price s = record s { tx = record (s.tx) { gas_price_last = price } }

-- The body of `if not transaction_was_sent or …`.
unfoldable pub send_round : Config → Round → Option ℕ → LoopState → Outcome × LoopState
unfolding nonce_or send_with
send_round c r price s =
    send_with (assign_nonce c r.nonce_answers (priced price s)) c r price (priced price s)

abbrev pub is_empty : List ℕ → Bool
is_empty [] = true
is_empty (_ ∷ _) = false

-- `transaction_was_sent`
unfoldable pub was_sent : Round → LoopState → Bool
was_sent r s = (if is_empty s.tx.tx_hashes then false else true) || r.replaced_tx_sent

-- `int(time.time() - self.initial_time)`, by a clock that does not run backwards.
unfoldable pub seconds_elapsed : ℕ → Option ℕ → ℕ
seconds_elapsed now none = 0
seconds_elapsed now (some initial_time) = (now - initial_time) / 1000000

-- The price at this time. The prologue has given the transaction a strategy.
unfoldable pub price_of : Option GasPrice → ℕ → Result (Option ℕ)
unfolding get_gas_price
price_of none elapsed = err Error.type_error
price_of (some strategy) elapsed = get_gas_price strategy elapsed

unfoldable pub send_if : Result Bool → Config → Round → Option ℕ → LoopState → Outcome × LoopState
unfolding send_round
send_if (err e) c r price s = (raised e, s)
send_if (ok false) c r price s = (running, s)
send_if (ok true) c r price s = send_round c r price s

unfoldable pub send_at : Result (Option ℕ) → Config → Round → LoopState → Outcome × LoopState
unfolding was_sent is_due send_if
send_at (err e) c r s = (raised e, s)
send_at (ok price) c r s = send_if (is_due (was_sent r s) price s.tx.gas_price_last) c r price s

-- The second half of a round, for a transaction that no block contains.
unfoldable pub unmined_round : Config → Round → LoopState → Outcome × LoopState
unfolding price_of seconds_elapsed send_at
unmined_round c r s =
    if s.tx.replaced
    then (returned none, s)
    else send_at (price_of s.tx.gas_price (seconds_elapsed r.now s.tx.initial_time)) c r s

-- Whether a transaction of the account with this nonce or a later one is in a block.
unfoldable pub is_mined : Option ℕ → Option ℕ → Result Bool
is_mined none latest_count = ok false
is_mined (some n) none = err Error.exception
is_mined (some n) (some count) = ok (ltb n count)

-- A search ends the call, by its result or its exception.
abbrev pub searched : Result (Option Receipt) → Outcome
searched (ok receipt) = returned receipt
searched (err e) = raised e

unfoldable pub round_if : Result Bool → Config → Round → LoopState → Outcome × LoopState
unfolding search_receipt unmined_round
round_if (err e) c r s = (raised e, s)
round_if (ok true) c r s =
    (searched (search_receipt 10 1 r.attempt s.tx.replaced s.tx.tx_hashes), s)
round_if (ok false) c r s = unmined_round c r s

-- A round of `while True`, from what other tasks have left.
unfoldable pub own_round : Config → Round → LoopState → Outcome × LoopState
unfolding is_mined round_if
own_round c r s = round_if (is_mined s.tx.nonce r.latest_count) c r s

unfoldable pub round : Config → Round → LoopState → Outcome × LoopState
unfolding meanwhile own_round
round c r s = own_round c r (meanwhile r s)

abbrev pub continue_with :
    Outcome × LoopState → (LoopState → Outcome × LoopState) → Outcome × LoopState
continue_with (running, s) next = next s
continue_with (returned receipt, s) next = (returned receipt, s)
continue_with (raised e, s) next = (raised e, s)

-- The loop, over the rounds that it meets; it may still be running at their end.
unfoldable pub rounds : Config → List Round → LoopState → Outcome × LoopState
unfolding round
rounds c [] s = (running, s)
rounds c (r ∷ rs) s = continue_with (round c r s) (rounds c rs)
