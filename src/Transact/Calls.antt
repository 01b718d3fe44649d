-- ===== src/Transact/Calls.antt =====
-- `pyflex/__init__.py`: the calls that the loop makes, and the nonce that they have.
use pyflex.Base.{ℕ, Bool, true, false, Option, none, some, List, [], ◌∷◌}
use pyflex.Base.{◌≡◌, ◌≢◌, refl, sym, subst, ◌∙◌, All, if◌then◌else◌}
use pyflex.Base.Results.{Result, Error, ok, err, ◌>>=◌}
use pyflex.Transact.State.{Sent}
use pyflex.Transact.Nonce.{NonceAnswers, choose_nonce}
use pyflex.Transact.Price.{is_due}
use pyflex.Transact.Loop.{
  Config, LoopState, Outcome, running, returned, raised, Round, meanwhile, raise_if, assign_nonce,
  nonce_or, send_with, priced, with_nonce, price_of, send_if, send_at, round_if, seconds_elapsed,
  call_node, send_round, was_sent, unmined_round, is_mined, own_round, round, rounds, continue_with,
}

-- A call that the configuration and a nonce explain.
abbrev pub IsCall : Config → Option ℕ → Sent → Type 0
IsCall c n call = (n ≡ some call.nonce) × (call.from_account ≡ c.from_account) × (call.gas ≡ c.gas)

-- Every call of the log has the transaction's nonce, and the configuration's sender and gas limit.
abbrev pub IsConsistent : Config → LoopState → Type 0
IsConsistent c s = All (IsCall c s.tx.nonce) s.sent

-- The state `t` follows `s`: a nonce stays, and only a nonce makes the log longer.
abbrev pub Follows : Config → LoopState → LoopState → Type 0
Follows c s t =
    (IsConsistent c s → IsConsistent c t) × ((n : ℕ) → s.tx.nonce ≡ some n → t.tx.nonce ≡ some n)

pub Follows-refl : (c : Config) (s : LoopState) → Follows c s s
Follows-refl c s = (λ h. h, λ n e. e)

pub Follows-trans : (c : Config) (s t u : LoopState) → Follows c s t → Follows c t u → Follows c s u
Follows-trans c s t u (f, g) (h, i) = (λ x. h (f x), λ n e. i n (g n e))

pub raise_if-eq : (hashes : List ℕ) (e : Error) (s : LoopState) → (raise_if hashes e s).1 ≡ s
unfolding raise_if
raise_if-eq [] e s = refl
raise_if-eq (_ ∷ _) e s = refl

-- A call that has been made with the nonce `n` of the transaction.
call_node-Follows :
    (c : Config) (price answered : Option ℕ) (n : ℕ) (s : LoopState)
    → s.tx.nonce ≡ some n
    → Follows c s (call_node c price answered n s).1
unfolding call_node
call_node-Follows c price none n s e =
    subst (Follows c s) (sym (raise_if-eq _ _ _)) (λ h. ((e, refl, refl), h), λ m f. f)
call_node-Follows c price (some tx_hash) n s e = (λ h. ((e, refl, refl), h), λ m f. f)

-- A nonce that is assigned stays, and the log too.
IsAssigned : Config → LoopState → Result (ℕ × LoopState) → Type 0
IsAssigned c s (err e) = Unit
IsAssigned c s (ok (n, t)) = (t.tx.nonce ≡ some n) × Follows c s t

none-some : {n : ℕ} → none ≢ some n
none-some e = absurd (subst (λ o. elim o [ none ↦ Unit {0} | some _ ↦ ⊥ ]) e tt)

-- Without a nonce there is no call.
no-IsCall :
    (c : Config) (m : Option ℕ) (calls : List Sent)
    → All (IsCall c none) calls
    → All (IsCall c m) calls
no-IsCall c m [] h = tt
no-IsCall c m (call ∷ calls) ((e, _, _), _) = absurd (none-some e)

with_nonce-Follows :
    (c : Config) (n : ℕ) (s : LoopState) → s.tx.nonce ≡ none → Follows c s (with_nonce c s n).1
with_nonce-Follows c n s e = (
  λ h. no-IsCall c (some n) s.sent (subst (λ m. All (IsCall c m) s.sent) e h),
  λ m f. absurd (none-some (sym e ∙ f)),
)

choice-IsAssigned :
    (c : Config) (s : LoopState) (r : Result ℕ)
    → s.tx.nonce ≡ none
    → IsAssigned c s (r >>= λ n. ok (with_nonce c s n))
unfolding IsAssigned
choice-IsAssigned c s (err e) h = tt
choice-IsAssigned c s (ok n) h = (refl, with_nonce-Follows c n s h)

nonce_or-IsAssigned :
    (m : Option ℕ) (c : Config) (a : NonceAnswers) (s : LoopState)
    → s.tx.nonce ≡ m
    → IsAssigned c s (nonce_or m c a s)
unfolding nonce_or IsAssigned
nonce_or-IsAssigned none c a s e =
    choice-IsAssigned c s (choose_nonce c.calculation a c.from_account s.nonces) e
nonce_or-IsAssigned (some n) c a s e = (e, Follows-refl c s)

send_with-Follows :
    (x : Result (ℕ × LoopState)) (c : Config) (r : Round) (price : Option ℕ) (s : LoopState)
    → IsAssigned c s x
    → Follows c s (send_with x c r price s).1
unfolding send_with IsAssigned
send_with-Follows (err e) c r price s h =
    subst (Follows c s) (sym (raise_if-eq _ _ _)) (Follows-refl c s)
send_with-Follows (ok (n, t)) c r price s (e, f) =
    elim (r.replaced_in_lock)
      as (λ b.
        Follows c s
          (if b
            then (returned none, record t { tx = record (t.tx) { replaced = true } })
            else call_node c price r.send n t).1) [
              | true ↦ f
              | false ↦
                  Follows-trans c s t (call_node c price r.send n t).1 f
                    (call_node-Follows c price r.send n t e)
            ]

send_round-Follows :
    (c : Config) (r : Round) (price : Option ℕ) (s : LoopState)
    → Follows c s (send_round c r price s).1
unfolding send_round
send_round-Follows c r price s =
    let p = priced price s in
    send_with-Follows (assign_nonce c r.nonce_answers p) c r price p
      (nonce_or-IsAssigned s.tx.nonce c r.nonce_answers p refl)

send_if-Follows :
    (x : Result Bool) (c : Config) (r : Round) (price : Option ℕ) (s : LoopState)
    → Follows c s (send_if x c r price s).1
unfolding send_if
send_if-Follows (err e) c r price s = Follows-refl c s
send_if-Follows (ok false) c r price s = Follows-refl c s
send_if-Follows (ok true) c r price s = send_round-Follows c r price s

send_at-Follows :
    (x : Result (Option ℕ)) (c : Config) (r : Round) (s : LoopState)
    → Follows c s (send_at x c r s).1
unfolding send_at
send_at-Follows (err e) c r s = Follows-refl c s
send_at-Follows (ok price) c r s =
    send_if-Follows (is_due (was_sent r s) price s.tx.gas_price_last) c r price s

unmined_round-Follows :
    (c : Config) (r : Round) (s : LoopState) → Follows c s (unmined_round c r s).1
unfolding unmined_round
unmined_round-Follows c r s =
    let x = price_of s.tx.gas_price (seconds_elapsed r.now s.tx.initial_time) in
    elim (s.tx.replaced)
      as (λ b. Follows c s (if b then (returned none, s) else send_at x c r s).1) [
        | true ↦ Follows-refl c s
        | false ↦ send_at-Follows x c r s
      ]

round_if-Follows :
    (x : Result Bool) (c : Config) (r : Round) (s : LoopState) → Follows c s (round_if x c r s).1
unfolding round_if
round_if-Follows (err e) c r s = Follows-refl c s
round_if-Follows (ok true) c r s = Follows-refl c s
round_if-Follows (ok false) c r s = unmined_round-Follows c r s

pub round-Follows : (c : Config) (r : Round) (s : LoopState) → Follows c s (round c r s).1
unfolding round meanwhile own_round
round-Follows c r s = round_if-Follows (is_mined s.tx.nonce r.latest_count) c r (meanwhile r s)

continue_with-Follows :
    (c : Config) (s : LoopState) (x : Outcome × LoopState) (next : LoopState → Outcome × LoopState)
    → ((t : LoopState) → Follows c t (next t).1)
    → Follows c s x.1
    → Follows c s (continue_with x next).1
continue_with-Follows c s (running, t) next f h = Follows-trans c s t (next t).1 h (f t)
continue_with-Follows c s (returned _, t) next f h = h
continue_with-Follows c s (raised _, t) next f h = h

pub rounds-Follows : (c : Config) (rs : List Round) (s : LoopState) → Follows c s (rounds c rs s).1
unfolding rounds
rounds-Follows c [] s = Follows-refl c s
rounds-Follows c (r ∷ rs) s =
    continue_with-Follows c s (round c r s) (rounds c rs) (rounds-Follows c rs)
      (round-Follows c r s)

-- Over any rounds: if every call in the log has the transaction's nonce, the sender of the
-- configuration and its gas limit, then this holds of every call in the log at the end, too.
pub rounds-IsConsistent :
    (c : Config) (rs : List Round) (s : LoopState)
    → IsConsistent c s
    → IsConsistent c (rounds c rs s).1
rounds-IsConsistent c rs s h = (rounds-Follows c rs s).0 h

-- Over any rounds, whatever the node answers and other tasks do, a transaction that has a nonce
-- keeps it.
pub rounds-nonce :
    (c : Config) (rs : List Round) (s : LoopState) (n : ℕ)
    → s.tx.nonce ≡ some n
    → (rounds c rs s).1.tx.nonce ≡ some n
rounds-nonce c rs s n e = (rounds-Follows c rs s).1 n e
