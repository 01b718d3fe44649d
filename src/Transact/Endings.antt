-- ===== src/Transact/Endings.antt =====
-- `pyflex/__init__.py`: how the loop ends, and what does not end it.
use pyflex.Base.{ℕ, Bool, true, false, Option, none, some, List, [], ◌∷◌, ◌++◌, All}
use pyflex.Base.{◌≡◌, ◌≢◌, refl, sym, subst, if◌then◌else◌, arith}
use pyflex.Base.Results.{Result, Error, ok, err, ◌>>=◌}
use pyflex.Gas.{GasPrice, Fixed, update_gas_price, fixed, get_gas_price}
use pyflex.Transact.State.{Tx, Receipt}
use pyflex.Transact.Nonce.{NonceAnswers, choose_nonce}
use pyflex.Transact.Price.{is_due}
use pyflex.Transact.Loop.{
  Config, LoopState, Outcome, running, returned, raised, Round, meanwhile, raise_if, assign_nonce,
  nonce_or, send_with, priced, with_nonce, price_of, send_if, send_at, round_if, seconds_elapsed,
  call_node, send_round, was_sent, unmined_round, is_mined, own_round, round, rounds, continue_with,
  is_empty, logged, update_strategy, searched, search_receipt,
}
use pyflex.Transact.Answers.{IsOk, IsSome, IsAnswering, search_receipt-IsOk}

-- A round in which the node can be reached.
abbrev pub IsReachable : Round → Type 0
IsReachable r = IsSome r.latest_count × ((i : ℕ) → IsAnswering (r.attempt i))

abbrev pub IsFixed : Option GasPrice → Type 0
IsFixed strategy = (g : Fixed) × (strategy ≡ some (fixed g))

-- A transaction of a fixed price that has been sent with a price.
abbrev pub IsSent : Tx → Type 0
IsSent tx = (is_empty tx.tx_hashes ≡ false) × IsFixed tx.gas_price × IsSome tx.gas_price_last

-- The loop goes on with such a transaction or returns.
abbrev pub IsSteady : Outcome → LoopState → Type 0
IsSteady running s = IsSent s.tx
IsSteady (returned _) s = Unit
IsSteady (raised _) s = ⊥

raise_if-IsSteady :
    (hashes : List ℕ) (e : Error) (s : LoopState)
    → is_empty hashes ≡ false
    → IsSent s.tx
    → IsSteady (raise_if hashes e s).0 (raise_if hashes e s).1
unfolding raise_if
raise_if-IsSteady [] e s h k = ground arith
raise_if-IsSteady (_ ∷ _) e s h k = k

not_empty : (hashes : List ℕ) (h : ℕ) → is_empty (hashes ++ (h ∷ [])) ≡ false
not_empty [] h = refl
not_empty (_ ∷ _) h = refl

call_node-IsSteady :
    (c : Config) (price answered : Option ℕ) (n : ℕ) (s : LoopState)
    → IsSent s.tx
    → IsSteady (call_node c price answered n s).0 (call_node c price answered n s).1
unfolding call_node
call_node-IsSteady c price none n s h =
    raise_if-IsSteady s.tx.tx_hashes Error.exception (logged c price none n s) h.0 h
call_node-IsSteady c price (some hash) n s (h, f, l) = (not_empty s.tx.tx_hashes hash, f, l)

IsChosen : Result (ℕ × LoopState) → Type 0
IsChosen (err e) = Unit
IsChosen (ok (n, t)) = IsSent t.tx

nonce_or-IsChosen :
    (m : Option ℕ) (c : Config) (a : NonceAnswers) (s : LoopState)
    → IsSent s.tx
    → IsChosen (nonce_or m c a s)
unfolding nonce_or IsChosen
nonce_or-IsChosen (some n) c a s h = h
nonce_or-IsChosen none c a s h =
    elim (choose_nonce c.calculation a c.from_account s.nonces)
      as (λ x. IsChosen (x >>= λ n. ok (with_nonce c s n))) [ err e ↦ tt | ok n ↦ h ]

send_with-IsSteady :
    (x : Result (ℕ × LoopState)) (c : Config) (r : Round) (price : Option ℕ) (s : LoopState)
    → IsSent s.tx
    → IsChosen x
    → IsSteady (send_with x c r price s).0 (send_with x c r price s).1
unfolding send_with IsChosen
send_with-IsSteady (err e) c r price s h k = raise_if-IsSteady s.tx.tx_hashes e s h.0 h
send_with-IsSteady (ok (n, t)) c r price s h k =
    let replaced : Outcome × LoopState =
      (returned none, record t { tx = record (t.tx) { replaced = true } }) in
    let sent : Outcome × LoopState = call_node c price r.send n t in
    elim (r.replaced_in_lock)
      as (λ b. IsSteady (if b then replaced else sent).0 (if b then replaced else sent).1) [
        | true ↦ tt
        | false ↦ call_node-IsSteady c price r.send n t k
      ]

send_round-IsSteady :
    (c : Config) (r : Round) (price : ℕ) (s : LoopState)
    → IsSent s.tx
    → IsSteady (send_round c r (some price) s).0 (send_round c r (some price) s).1
unfolding send_round
send_round-IsSteady c r price s (h, f, l) =
    let p = priced (some price) s in
    send_with-IsSteady (assign_nonce c r.nonce_answers p) c r (some price) p (h, f, tt)
      (nonce_or-IsChosen s.tx.nonce c r.nonce_answers p (h, f, tt))

-- A price can be compared with the latest one.
abbrev pub IsDecided : Result Bool → Type 0
IsDecided (err e) = ⊥
IsDecided (ok b) = Unit

is_due-IsDecided :
    (sent : Bool) (price : ℕ) (last : Option ℕ)
    → IsSome last
    → IsDecided (is_due sent (some price) last)
unfolding is_due
is_due-IsDecided false price last h = tt
is_due-IsDecided true price none h = h
is_due-IsDecided true price (some last) h = tt

send_if-IsSteady :
    (x : Result Bool) (c : Config) (r : Round) (price : ℕ) (s : LoopState)
    → IsSent s.tx
    → IsDecided x
    → IsSteady (send_if x c r (some price) s).0 (send_if x c r (some price) s).1
unfolding send_if
send_if-IsSteady (err e) c r price s h d = d
send_if-IsSteady (ok false) c r price s h d = h
send_if-IsSteady (ok true) c r price s h d = send_round-IsSteady c r price s h

send_at-IsSteady :
    (g : Fixed) (elapsed : ℕ) (c : Config) (r : Round) (s : LoopState)
    → IsSent s.tx
    → IsSteady
        (send_at (price_of (some (fixed g)) elapsed) c r s).0
        (send_at (price_of (some (fixed g)) elapsed) c r s).1
unfolding send_at price_of get_gas_price
send_at-IsSteady g elapsed c r s (h, f, l) =
    send_if-IsSteady (is_due (was_sent r s) (some g.gas_price) s.tx.gas_price_last) c r g.gas_price
      s (h, f, l) (is_due-IsDecided (was_sent r s) g.gas_price s.tx.gas_price_last l)

unmined_round-IsSteady :
    (c : Config) (r : Round) (s : LoopState)
    → IsSent s.tx
    → IsSteady (unmined_round c r s).0 (unmined_round c r s).1
unfolding unmined_round
unmined_round-IsSteady c r s (h, (g, e), l) =
    let elapsed = seconds_elapsed r.now s.tx.initial_time in
    let sent = send_at (price_of s.tx.gas_price elapsed) c r s in
    let ended : Outcome × LoopState = (returned none, s) in
    elim (s.tx.replaced)
      as (λ b. IsSteady (if b then ended else sent).0 (if b then ended else sent).1) [
        | true ↦ tt
        | false ↦
            subst
              (λ o.
                IsSteady (send_at (price_of o elapsed) c r s).0
                  (send_at (price_of o elapsed) c r s).1)
              (sym e) (send_at-IsSteady g elapsed c r s (h, (g, e), l))
      ]

searched-IsSteady : (x : Result (Option Receipt)) (s : LoopState) → IsOk x → IsSteady (searched x) s
searched-IsSteady (ok receipt) s h = tt
searched-IsSteady (err e) s h = h

round_if-IsSteady :
    (x : Result Bool) (c : Config) (r : Round) (s : LoopState)
    → IsSent s.tx
    → ((i : ℕ) → IsAnswering (r.attempt i))
    → IsDecided x
    → IsSteady (round_if x c r s).0 (round_if x c r s).1
unfolding round_if
round_if-IsSteady (err e) c r s h a d = d
round_if-IsSteady (ok true) c r s h a d =
    searched-IsSteady (search_receipt 10 1 r.attempt s.tx.replaced s.tx.tx_hashes) s
      (search_receipt-IsOk 10 1 r.attempt s.tx.replaced s.tx.tx_hashes a)
round_if-IsSteady (ok false) c r s h a d = unmined_round-IsSteady c r s h

pub is_mined-IsDecided :
    (nonce latest_count : Option ℕ) → IsSome latest_count → IsDecided (is_mined nonce latest_count)
unfolding is_mined
is_mined-IsDecided none latest_count h = tt
is_mined-IsDecided (some n) none h = h
is_mined-IsDecided (some n) (some count) h = tt

-- `update_gas_price` leaves the strategy a fixed price.
updated-IsFixed : (price : Option ℕ) (g : Fixed) → IsFixed (update_strategy price (some (fixed g)))
unfolding update_strategy
updated-IsFixed none g = (g, refl)
updated-IsFixed (some price) g = (update_gas_price price g, refl)

meanwhile-IsSent : (r : Round) (s : LoopState) → IsSent s.tx → IsSent (meanwhile r s).tx
unfolding meanwhile
meanwhile-IsSent r s (h, (g, e), l) = (
  h,
  subst (λ o. IsFixed (update_strategy r.updated_price o)) (sym e)
      (updated-IsFixed r.updated_price g),
  l,
)

continue_with-IsSteady :
    (x : Outcome × LoopState) (next : LoopState → Outcome × LoopState)
    → IsSteady x.0 x.1
    → ((t : LoopState) → IsSent t.tx → IsSteady (next t).0 (next t).1)
    → IsSteady (continue_with x next).0 (continue_with x next).1
continue_with-IsSteady (running, t) next h f = f t h
continue_with-IsSteady (returned _, t) next h f = h
continue_with-IsSteady (raised _, t) next h f = absurd h

rounds-IsSteady :
    (c : Config) (rs : List Round) (s : LoopState)
    → IsSent s.tx
    → All IsReachable rs
    → IsSteady (rounds c rs s).0 (rounds c rs s).1
unfolding rounds round own_round
rounds-IsSteady c [] s h k = h
rounds-IsSteady c (r ∷ rs) s h ((l, a), k) =
    let t = meanwhile r s in
    continue_with-IsSteady (round c r s) (rounds c rs)
      (round_if-IsSteady (is_mined t.tx.nonce r.latest_count) c r t (meanwhile-IsSent r s h) a
        (is_mined-IsDecided t.tx.nonce r.latest_count l))
      (λ t h. rounds-IsSteady c rs t h k)

not_raised : (o : Outcome) (s : LoopState) (e : Error) → IsSteady o s → o ≢ raised e
not_raised running s e h = λ k. ground arith
not_raised (returned _) s e h = λ k. ground arith
not_raised (raised _) s e h = λ k. h

-- For a transaction that has a hash, a fixed price as its strategy and a price for its last send,
-- and rounds in which the node can be reached: the loop raises no exception, although any of its
-- sends and of its requests for a nonce may fail, any receipt may be missing, and the status of a
-- receipt may be neither 0 nor 1. That the node can be reached means: it tells the account's
-- transaction count whenever it is asked, `getTransactionReceipt` raises no exception but
-- `ValueError`, `KeyError` and `TransactionNotFound`, the receipts' logs can be decoded, and
-- `result_function` raises none.
pub rounds_raise_nothing :
    (c : Config) (rs : List Round) (s : LoopState) (e : Error)
    → IsSent s.tx
    → All IsReachable rs
    → (rounds c rs s).0 ≢ raised e
rounds_raise_nothing c rs s e h k =
    not_raised (rounds c rs s).0 (rounds c rs s).1 e (rounds-IsSteady c rs s h k)
