-- ===== src/Transact/Escalation.antt =====
-- `pyflex/__init__.py`: the prices of the calls that the loop makes.
use pyflex.Base.{ℕ, Bool, true, false, ◌||◌, Option, none, some, List, [], ◌∷◌, ◌++◌}
use pyflex.Base.{arith, ◌≡◌, ◌≢◌, refl, ap, sym, subst, ◌∙◌, if◌then◌else◌}
use pyflex.Base.Results.{Result, Error, ok, err, ◌>>=◌}
use pyflex.Transact.State.{Tx, Sent, Receipt}
use pyflex.Transact.Nonce.{NonceAnswers, choose_nonce}
use pyflex.Transact.Price.{is_due}
use pyflex.Transact.Raise.{IsRaise, exceeds_last-IsRaise}
use pyflex.Transact.Loop.{
  Config, LoopState, Outcome, running, returned, raised, Round, meanwhile, raise_if, assign_nonce,
  nonce_or, send_with, priced, with_nonce, price_of, send_if, send_at, round_if, seconds_elapsed,
  call_node, send_round, was_sent, unmined_round, is_mined, own_round, round, rounds, continue_with,
  is_empty, logged, searched, search_receipt,
}

-- A price that is more than 1.125 times another one, but for the rounding of doubles. A call
-- without a price follows none and is followed by none.
abbrev pub Exceeds : Option ℕ → Option ℕ → Type 0
Exceeds none last = ⊥
Exceeds (some value) none = ⊥
Exceeds (some value) (some last) = IsRaise last value

abbrev pub CanFollow : Option ℕ → List Sent → Type 0
CanFollow price [] = Unit
CanFollow price (call ∷ _) = Exceeds price call.price

-- Every call has a price that exceeds the price of the call before it.
abbrev pub IsEscalating : List Sent → Type 0
IsEscalating [] = Unit
IsEscalating (call ∷ calls) = CanFollow call.price calls × IsEscalating calls

-- The transaction remembers the latest call's price and nonce, and has a hash.
abbrev pub Remembers : List Sent → Tx → Type 0
Remembers [] tx = Unit
Remembers (call ∷ _) tx =
    (tx.gas_price_last ≡ call.price)
    × (is_empty tx.tx_hashes ≡ false)
    × (tx.nonce ≡ some call.nonce)

-- What holds after a round. A call that has ended need not remember.
abbrev pub IsOrderly : Outcome → LoopState → Type 0
IsOrderly running s = IsEscalating s.sent × Remembers s.sent s.tx
IsOrderly (returned _) s = IsEscalating s.sent
IsOrderly (raised _) s = IsEscalating s.sent

not_empty : (hashes : List ℕ) (h : ℕ) → is_empty (hashes ++ (h ∷ [])) ≡ false
not_empty [] h = refl
not_empty (_ ∷ _) h = refl

raise_if-IsOrderly :
    (hashes : List ℕ) (e : Error) (s : LoopState)
    → IsEscalating s.sent
    → (is_empty hashes ≡ false → Remembers s.sent s.tx)
    → IsOrderly (raise_if hashes e s).0 (raise_if hashes e s).1
unfolding raise_if
raise_if-IsOrderly [] e s h k = h
raise_if-IsOrderly (_ ∷ _) e s h k = (h, k refl)

call_node-IsOrderly :
    (c : Config) (price answered : Option ℕ) (n : ℕ) (s : LoopState)
    → s.tx.nonce ≡ some n
    → s.tx.gas_price_last ≡ price
    → CanFollow price s.sent
    → IsEscalating s.sent
    → IsOrderly (call_node c price answered n s).0 (call_node c price answered n s).1
unfolding call_node
call_node-IsOrderly c price none n s e l f h =
    raise_if-IsOrderly s.tx.tx_hashes Error.exception (logged c price none n s) (f, h)
      (λ k. (l, k, e))
call_node-IsOrderly c price (some tx_hash) n s e l f h =
    ((f, h), (l, not_empty s.tx.tx_hashes tx_hash, e))

-- The choice of a nonce fails only before the first call.
none-some : {n : ℕ} → none ≢ some n
none-some e = absurd (subst (λ o. elim o [ none ↦ Unit {0} | some _ ↦ ⊥ ]) e tt)

IsChosen : Option ℕ → LoopState → Result (ℕ × LoopState) → Type 0
IsChosen price s (err e) = s.sent ≡ []
IsChosen price s (ok (n, t)) =
    (t.tx.nonce ≡ some n)
    × (t.tx.gas_price_last ≡ price)
    × CanFollow price t.sent
    × IsEscalating t.sent

orderly_first : (s : LoopState) → s.sent ≡ [] → IsEscalating s.sent × Remembers s.sent s.tx
orderly_first s e = subst (λ calls. IsEscalating calls × Remembers calls s.tx) (sym e) (tt, tt)

send_with-IsOrderly :
    (x : Result (ℕ × LoopState)) (c : Config) (r : Round) (price : Option ℕ) (s : LoopState)
    → IsChosen price s x
    → IsOrderly (send_with x c r price s).0 (send_with x c r price s).1
unfolding send_with IsChosen
send_with-IsOrderly (err e) c r price s h =
    let (k, l) = orderly_first s h in raise_if-IsOrderly s.tx.tx_hashes e s k (λ _. l)
send_with-IsOrderly (ok (n, t)) c r price s (e, l, f, h) =
    let replaced : Outcome × LoopState =
      (returned none, record t { tx = record (t.tx) { replaced = true } }) in
    let sent : Outcome × LoopState = call_node c price r.send n t in
    elim (r.replaced_in_lock)
      as (λ b. IsOrderly (if b then replaced else sent).0 (if b then replaced else sent).1) [
        | true ↦ h
        | false ↦ call_node-IsOrderly c price r.send n t e l f h
      ]

-- A transaction without a nonce has made no call.
unsent : (calls : List Sent) (tx : Tx) → Remembers calls tx → tx.nonce ≡ none → calls ≡ []
unsent [] tx h e = refl
unsent (call ∷ calls) tx (_, _, k) e = absurd (none-some (sym e ∙ k))

choice-IsChosen :
    (x : Result ℕ) (c : Config) (price : Option ℕ) (s : LoopState)
    → s.tx.gas_price_last ≡ price
    → CanFollow price s.sent
    → IsEscalating s.sent
    → s.sent ≡ []
    → IsChosen price s (x >>= λ n. ok (with_nonce c s n))
unfolding IsChosen
choice-IsChosen (err e) c price s l f h u = u
choice-IsChosen (ok n) c price s l f h u = (refl, l, f, h)

nonce_or-IsChosen :
    (m : Option ℕ) (c : Config) (a : NonceAnswers) (price : Option ℕ) (s : LoopState)
    → s.tx.nonce ≡ m
    → s.tx.gas_price_last ≡ price
    → CanFollow price s.sent
    → IsEscalating s.sent
    → (s.tx.nonce ≡ none → s.sent ≡ [])
    → IsChosen price s (nonce_or m c a s)
unfolding nonce_or IsChosen
nonce_or-IsChosen (some n) c a price s e l f h u = (e, l, f, h)
nonce_or-IsChosen none c a price s e l f h u =
    choice-IsChosen (choose_nonce c.calculation a c.from_account s.nonces) c price s l f h (u e)

send_round-IsOrderly :
    (c : Config) (r : Round) (price : Option ℕ) (s : LoopState)
    → IsEscalating s.sent
    → Remembers s.sent s.tx
    → CanFollow price s.sent
    → IsOrderly (send_round c r price s).0 (send_round c r price s).1
unfolding send_round
send_round-IsOrderly c r price s h k f =
    let p = priced price s in
    send_with-IsOrderly (assign_nonce c r.nonce_answers p) c r price p
      (nonce_or-IsChosen s.tx.nonce c r.nonce_answers price p refl refl f h (unsent s.sent s.tx k))

-- A price that is due after a call exceeds the latest one.
due-Exceeds : (price last : Option ℕ) → is_due true price last ≡ ok true → Exceeds price last
unfolding is_due
due-Exceeds none last d = ground arith
due-Exceeds (some value) none d = ground arith
due-Exceeds (some value) (some last) d = exceeds_last-IsRaise value last (ground arith)

-- A price that is due can follow the calls that have been made.
due-CanFollow :
    (r : Round) (price : Option ℕ) (s : LoopState) (calls : List Sent)
    → Remembers calls s.tx
    → is_due (was_sent r s) price s.tx.gas_price_last ≡ ok true
    → CanFollow price calls
unfolding was_sent
due-CanFollow r price s [] k d = tt
due-CanFollow r price s (call ∷ calls) (l, t, _) d =
    let sent : was_sent r s ≡ true =
      ap (λ b. (if b then false else true) || r.replaced_tx_sent) t in
    subst (Exceeds price) l (
      due-Exceeds price s.tx.gas_price_last
        (subst (λ b. is_due b price s.tx.gas_price_last ≡ ok true) sent d))

send_if-IsOrderly :
    (x : Result Bool) (c : Config) (r : Round) (price : Option ℕ) (s : LoopState)
    → IsEscalating s.sent
    → Remembers s.sent s.tx
    → (x ≡ ok true → CanFollow price s.sent)
    → IsOrderly (send_if x c r price s).0 (send_if x c r price s).1
unfolding send_if
send_if-IsOrderly (err e) c r price s h k f = h
send_if-IsOrderly (ok false) c r price s h k f = (h, k)
send_if-IsOrderly (ok true) c r price s h k f = send_round-IsOrderly c r price s h k (f refl)

send_at-IsOrderly :
    (x : Result (Option ℕ)) (c : Config) (r : Round) (s : LoopState)
    → IsEscalating s.sent
    → Remembers s.sent s.tx
    → IsOrderly (send_at x c r s).0 (send_at x c r s).1
unfolding send_at
send_at-IsOrderly (err e) c r s h k = h
send_at-IsOrderly (ok price) c r s h k =
    send_if-IsOrderly (is_due (was_sent r s) price s.tx.gas_price_last) c r price s h k
      (due-CanFollow r price s s.sent k)

unmined_round-IsOrderly :
    (c : Config) (r : Round) (s : LoopState)
    → IsEscalating s.sent
    → Remembers s.sent s.tx
    → IsOrderly (unmined_round c r s).0 (unmined_round c r s).1
unfolding unmined_round
unmined_round-IsOrderly c r s h k =
    let x = price_of s.tx.gas_price (seconds_elapsed r.now s.tx.initial_time) in
    let sent = send_at x c r s in
    let ended : Outcome × LoopState = (returned none, s) in
    elim (s.tx.replaced)
      as (λ b. IsOrderly (if b then ended else sent).0 (if b then ended else sent).1) [
        | true ↦ h
        | false ↦ send_at-IsOrderly x c r s h k
      ]

searched-IsOrderly :
    (x : Result (Option Receipt)) (s : LoopState) → IsEscalating s.sent → IsOrderly (searched x) s
searched-IsOrderly (ok receipt) s h = h
searched-IsOrderly (err e) s h = h

round_if-IsOrderly :
    (x : Result Bool) (c : Config) (r : Round) (s : LoopState)
    → IsEscalating s.sent
    → Remembers s.sent s.tx
    → IsOrderly (round_if x c r s).0 (round_if x c r s).1
unfolding round_if
round_if-IsOrderly (err e) c r s h k = h
round_if-IsOrderly (ok true) c r s h k =
    searched-IsOrderly (search_receipt 10 1 r.attempt s.tx.replaced s.tx.tx_hashes) s h
round_if-IsOrderly (ok false) c r s h k = unmined_round-IsOrderly c r s h k

-- What other tasks do is not what the transaction remembers of its calls.
meanwhile-Remembers :
    (calls : List Sent) (r : Round) (s : LoopState)
    → Remembers calls s.tx
    → Remembers calls (meanwhile r s).tx
unfolding meanwhile
meanwhile-Remembers [] r s k = tt
meanwhile-Remembers (call ∷ calls) r s k = k

round-IsOrderly :
    (c : Config) (r : Round) (s : LoopState)
    → IsEscalating s.sent
    → Remembers s.sent s.tx
    → IsOrderly (round c r s).0 (round c r s).1
unfolding round meanwhile own_round
round-IsOrderly c r s h k =
    round_if-IsOrderly (is_mined s.tx.nonce r.latest_count) c r (meanwhile r s) h
      (meanwhile-Remembers s.sent r s k)

continue_with-IsOrderly :
    (x : Outcome × LoopState) (next : LoopState → Outcome × LoopState)
    → IsOrderly x.0 x.1
    → ((t : LoopState)
        → IsEscalating t.sent
        → Remembers t.sent t.tx
        → IsOrderly (next t).0 (next t).1)
    → IsOrderly (continue_with x next).0 (continue_with x next).1
continue_with-IsOrderly (running, t) next (h, k) f = f t h k
continue_with-IsOrderly (returned _, t) next h f = h
continue_with-IsOrderly (raised _, t) next h f = h

rounds-IsOrderly :
    (c : Config) (rs : List Round) (s : LoopState)
    → IsEscalating s.sent
    → Remembers s.sent s.tx
    → IsOrderly (rounds c rs s).0 (rounds c rs s).1
unfolding rounds
rounds-IsOrderly c [] s h k = (h, k)
rounds-IsOrderly c (r ∷ rs) s h k =
    continue_with-IsOrderly (round c r s) (rounds c rs) (round-IsOrderly c r s h k)
      (rounds-IsOrderly c rs)

escalating : (o : Outcome) (s : LoopState) → IsOrderly o s → IsEscalating s.sent
escalating running s (h, _) = h
escalating (returned _) s h = h
escalating (raised _) s h = h

-- Over any rounds, whatever the node answers and other tasks do: if the calls in the log escalate
-- and the transaction remembers the latest of them, then the calls in the log at the end escalate,
-- too. They escalate if every price is more than 9 / 8 of the price of the call before it, less a
-- part of `2 ^ -52` of that, which two roundings of doubles may take. An empty log meets the
-- hypotheses; so does a log that ends with the call of a transaction that is replaced.
pub rounds-IsEscalating :
    (c : Config) (rs : List Round) (s : LoopState)
    → IsEscalating s.sent
    → Remembers s.sent s.tx
    → IsEscalating (rounds c rs s).1.sent
rounds-IsEscalating c rs s h k =
    escalating (rounds c rs s).0 (rounds c rs s).1 (rounds-IsOrderly c rs s h k)
