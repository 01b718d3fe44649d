-- ===== src/Transact/Receipts.antt =====
-- `pyflex/__init__.py`: the receipts that `Transact.transact_async` returns.
use pyflex.Base.{ℕ, zero, suc, ◌+◌, Bool, true, false, ◌||◌, Option, none, some, List, [], ◌∷◌}
use pyflex.Base.{◌≡◌, inl, inr, refl, subst, if◌then◌else◌, Any}
use pyflex.Base.Results.{Result, Error, ok, err}
use pyflex.Transact.State.{Receipt}
use pyflex.Transact.Price.{is_due}
use pyflex.Transact.Loop.{
  Config, LoopState, Outcome, running, returned, raised, Round, Attempt, meanwhile, raise_if,
  send_with, send_if, send_at, round_if, call_node, send_round, unmined_round, own_round, round,
  rounds, continue_with, check_hashes, search_receipt, first_receipt, result_or, assign_nonce,
  receipt_of, searched, priced, was_sent, price_of, seconds_elapsed, is_mined,
}

-- The attempt's answer for one of the hashes is the receipt.
abbrev pub IsAnswered : Attempt → List ℕ → Receipt → Type 0
IsAnswered a hashes receipt = Any (λ h. receipt_of a h ≡ ok (some receipt)) hashes

-- What a search may return: nothing, or a successful receipt of one of the hashes.
abbrev pub IsGood : (ℕ → Attempt) → List ℕ → Result (Option Receipt) → Type 0
IsGood attempt hashes (err e) = Unit
IsGood attempt hashes (ok none) = Unit
IsGood attempt hashes (ok (some receipt)) =
    (receipt.successful ≡ true) × ((i : ℕ) × IsAnswered (attempt i) hashes receipt)

-- What one attempt may return.
IsFair : Attempt → List ℕ → Result (Option (Option Receipt)) → Type 0
IsFair a hashes (err e) = Unit
IsFair a hashes (ok none) = Unit
IsFair a hashes (ok (some none)) = Unit
IsFair a hashes (ok (some (some receipt))) =
    (receipt.successful ≡ true) × IsAnswered a hashes receipt

first_found :
    (b : Bool) (receipt : Receipt) (a : Attempt) (hashes : List ℕ)
    → receipt.successful ≡ b
    → IsAnswered a hashes receipt
    → IsFair a hashes (ok (some (if b then some receipt else none)))
unfolding IsFair
first_found true receipt a hashes e k = (e, k)
first_found false receipt a hashes e k = tt

first_receipt-IsFair :
    (a : Attempt) (h : ℕ) (hashes : List ℕ) (x : Result (Option Receipt))
    (rest : Result (Option (Option Receipt)))
    → receipt_of a h ≡ x
    → IsFair a hashes rest
    → IsFair a (h ∷ hashes) (first_receipt x rest)
unfolding first_receipt IsFair
first_receipt-IsFair a h hashes (err x) rest e f = tt
first_receipt-IsFair a h hashes (ok none) (err x) e f = tt
first_receipt-IsFair a h hashes (ok none) (ok none) e f = tt
first_receipt-IsFair a h hashes (ok none) (ok (some none)) e f = tt
first_receipt-IsFair a h hashes (ok none) (ok (some (some receipt))) e (k, l) = (k, inr l)
first_receipt-IsFair a h hashes (ok (some receipt)) rest e f =
    first_found receipt.successful receipt a (h ∷ hashes) refl (inl e)

check_hashes-IsFair : (a : Attempt) (hashes : List ℕ) → IsFair a hashes (check_hashes a hashes)
unfolding check_hashes IsFair
check_hashes-IsFair a [] = tt
check_hashes-IsFair a (h ∷ hashes) =
    first_receipt-IsFair a h hashes (receipt_of a h) (check_hashes a hashes) refl
      (check_hashes-IsFair a hashes)

result_or-IsGood :
    (attempt : ℕ → Attempt) (i : ℕ) (hashes : List ℕ) (x : Result (Option (Option Receipt)))
    (count : Option ℕ) (rest : Result (Option Receipt))
    → IsFair (attempt i) hashes x
    → IsGood attempt hashes rest
    → IsGood attempt hashes (result_or x count rest)
unfolding result_or IsFair
result_or-IsGood attempt i hashes (err e) count rest f g = tt
result_or-IsGood attempt i hashes (ok none) none rest f g = tt
result_or-IsGood attempt i hashes (ok none) (some _) rest f g = g
result_or-IsGood attempt i hashes (ok (some none)) count rest f g = tt
result_or-IsGood attempt i hashes (ok (some (some receipt))) count rest (e, a) g = (e, (i, a))

search_receipt-IsGood :
    (left i : ℕ) (attempt : ℕ → Attempt) (replaced : Bool) (hashes : List ℕ)
    → IsGood attempt hashes (search_receipt left i attempt replaced hashes)
unfolding search_receipt
search_receipt-IsGood zero i attempt replaced hashes = tt
search_receipt-IsGood (suc left) i attempt replaced hashes =
    let a = attempt i in
    let rest = search_receipt left (i + 1) attempt replaced hashes in
    let found = result_or (check_hashes a hashes) a.count_again rest in
    elim (replaced || a.replaced_by_now)
      as (λ b. IsGood attempt hashes (if b then ok none else found)) [
        | true ↦ tt
        | false ↦
            result_or-IsGood attempt i hashes (check_hashes a hashes) a.count_again rest
              (check_hashes-IsFair a hashes)
              (search_receipt-IsGood left (i + 1) attempt replaced hashes)
      ]

-- No receipt is returned.
NoReceipt : Outcome → Type 0
NoReceipt running = Unit
NoReceipt (raised _) = Unit
NoReceipt (returned none) = Unit
NoReceipt (returned (some _)) = ⊥

raise_if-NoReceipt :
    (hashes : List ℕ) (e : Error) (s : LoopState) → NoReceipt (raise_if hashes e s).0
unfolding raise_if NoReceipt
raise_if-NoReceipt [] e s = tt
raise_if-NoReceipt (_ ∷ _) e s = tt

call_node-NoReceipt :
    (c : Config) (price answered : Option ℕ) (n : ℕ) (s : LoopState)
    → NoReceipt (call_node c price answered n s).0
unfolding call_node NoReceipt
call_node-NoReceipt c price none n s = raise_if-NoReceipt s.tx.tx_hashes _ _
call_node-NoReceipt c price (some h) n s = tt

send_with-NoReceipt :
    (x : Result (ℕ × LoopState)) (c : Config) (r : Round) (price : Option ℕ) (s : LoopState)
    → NoReceipt (send_with x c r price s).0
unfolding send_with NoReceipt
send_with-NoReceipt (err e) c r price s = raise_if-NoReceipt s.tx.tx_hashes e s
send_with-NoReceipt (ok (n, t)) c r price s =
    let replaced : Outcome × LoopState =
      (returned none, record t { tx = record (t.tx) { replaced = true } }) in
    let sent : Outcome × LoopState = call_node c price r.send n t in
    elim (r.replaced_in_lock) as (λ b. NoReceipt (if b then replaced else sent).0) [
      | true ↦ tt
      | false ↦ call_node-NoReceipt c price r.send n t
    ]

send_if-NoReceipt :
    (x : Result Bool) (c : Config) (r : Round) (price : Option ℕ) (s : LoopState)
    → NoReceipt (send_if x c r price s).0
unfolding send_if send_round NoReceipt
send_if-NoReceipt (err e) c r price s = tt
send_if-NoReceipt (ok false) c r price s = tt
send_if-NoReceipt (ok true) c r price s =
    let p = priced price s in send_with-NoReceipt (assign_nonce c r.nonce_answers p) c r price p

send_at-NoReceipt :
    (x : Result (Option ℕ)) (c : Config) (r : Round) (s : LoopState) → NoReceipt (send_at x c r s).0
unfolding send_at NoReceipt
send_at-NoReceipt (err e) c r s = tt
send_at-NoReceipt (ok price) c r s =
    send_if-NoReceipt (is_due (was_sent r s) price s.tx.gas_price_last) c r price s

unmined_round-NoReceipt :
    (c : Config) (r : Round) (s : LoopState) → NoReceipt (unmined_round c r s).0
unfolding unmined_round NoReceipt
unmined_round-NoReceipt c r s =
    let x = price_of s.tx.gas_price (seconds_elapsed r.now s.tx.initial_time) in
    let ended : Outcome × LoopState = (returned none, s) in
    elim (s.tx.replaced) as (λ b. NoReceipt (if b then ended else send_at x c r s).0) [
      | true ↦ tt
      | false ↦ send_at-NoReceipt x c r s
    ]

-- What may be returned after some rounds, the last of which has found it.
abbrev pub IsReturned : List Round → Outcome → LoopState → Type 0
IsReturned rs running s = Unit
IsReturned rs (raised _) s = Unit
IsReturned rs (returned none) s = Unit
IsReturned rs (returned (some receipt)) s =
    (receipt.successful ≡ true)
    × Any (λ r. (i : ℕ) × IsAnswered (r.attempt i) s.tx.tx_hashes receipt) rs

unreturned : (rs : List Round) (o : Outcome) (s : LoopState) → NoReceipt o → IsReturned rs o s
unfolding NoReceipt
unreturned rs running s h = tt
unreturned rs (raised _) s h = tt
unreturned rs (returned none) s h = tt
unreturned rs (returned (some _)) s h = absurd h

found-IsReturned :
    (r : Round) (rs : List Round) (x : Result (Option Receipt)) (s : LoopState)
    → IsGood r.attempt s.tx.tx_hashes x
    → IsReturned (r ∷ rs) (searched x) s
found-IsReturned r rs (err e) s h = tt
found-IsReturned r rs (ok none) s h = tt
found-IsReturned r rs (ok (some receipt)) s (e, f) = (e, inl f)

round_if-IsReturned :
    (x : Result Bool) (rs : List Round) (c : Config) (r : Round) (s : LoopState)
    → IsReturned (r ∷ rs) (round_if x c r s).0 (round_if x c r s).1
unfolding round_if
round_if-IsReturned (err e) rs c r s = tt
round_if-IsReturned (ok true) rs c r s =
    found-IsReturned r rs (search_receipt 10 1 r.attempt s.tx.replaced s.tx.tx_hashes) s
      (search_receipt-IsGood 10 1 r.attempt s.tx.replaced s.tx.tx_hashes)
round_if-IsReturned (ok false) rs c r s =
    unreturned (r ∷ rs) (unmined_round c r s).0 (unmined_round c r s).1
      (unmined_round-NoReceipt c r s)

later-IsReturned :
    (r : Round) (rs : List Round) (o : Outcome) (s : LoopState)
    → IsReturned rs o s
    → IsReturned (r ∷ rs) o s
later-IsReturned r rs running s h = tt
later-IsReturned r rs (raised _) s h = tt
later-IsReturned r rs (returned none) s h = tt
later-IsReturned r rs (returned (some receipt)) s (e, f) = (e, inr f)

continue_with-IsReturned :
    (r : Round) (rs : List Round) (x : Outcome × LoopState) (next : LoopState → Outcome × LoopState)
    → IsReturned (r ∷ rs) x.0 x.1
    → ((t : LoopState) → IsReturned rs (next t).0 (next t).1)
    → IsReturned (r ∷ rs) (continue_with x next).0 (continue_with x next).1
continue_with-IsReturned r rs (running, t) next h f =
    later-IsReturned r rs (next t).0 (next t).1 (f t)
continue_with-IsReturned r rs (returned _, t) next h f = h
continue_with-IsReturned r rs (raised _, t) next h f = h

rounds-IsReturned :
    (c : Config) (rs : List Round) (s : LoopState)
    → IsReturned rs (rounds c rs s).0 (rounds c rs s).1
unfolding rounds round own_round
rounds-IsReturned c [] s = tt
rounds-IsReturned c (r ∷ rs) s =
    let t = meanwhile r s in
    continue_with-IsReturned r rs (round c r s) (rounds c rs)
      (round_if-IsReturned (is_mined t.tx.nonce r.latest_count) rs c r t) (rounds-IsReturned c rs)

-- If the loop returns a receipt, then the receipt is successful, and in one of the rounds the node
-- has given it as the answer for one of the transaction's hashes.
pub rounds_receipt :
    (c : Config) (rs : List Round) (s : LoopState) (receipt : Receipt)
    → (rounds c rs s).0 ≡ returned (some receipt)
    → (receipt.successful ≡ true)
      × Any (λ r. (i : ℕ) × IsAnswered (r.attempt i) (rounds c rs s).1.tx.tx_hashes receipt) rs
rounds_receipt c rs s receipt e =
    subst (λ o. IsReturned rs o (rounds c rs s).1) e (rounds-IsReturned c rs s)
