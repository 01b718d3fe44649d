-- ===== src/Transact/Refusing.antt =====
-- `pyflex/__init__.py`: what `Transact.transact_async` does if the gas cannot be estimated.
use pyflex.Base.{ℕ, Bool, true, false, Option, none, some, List, []}
use pyflex.Base.{◌≡◌, ◌⊎◌, inl, inr, refl, sym, subst, ap, ◌∙◌, if◌then◌else◌, arith}
use pyflex.Base.Results.{Result, Error, ok, err, value_error}
use pyflex.Transact.State.{in_progress, Tx, Nonces}
use pyflex.Transact.Nonce.{lookup, insert}
use pyflex.Transact.Price.{Target, raw_data, method, estimated_gas}
use pyflex.Transact.Loop.{
  Config, LoopState, Outcome, running, returned, raised, Round, rounds, continue_with,
}
use pyflex.Transact.Start.{
  Kwargs, Begin, Looks, Begun, first_nonce, estimate_or_default, estimate_of, estimate_with,
  prepare, first_config, first_state, prologue, run, body, close, is_new, transact_async, stop,
  account_of, may_start,
}

-- A target whose gas has to be estimated, and cannot be by a call either.
abbrev pub IsFailing : Target → Bool → Type 0
IsFailing target call_ok = (target ≡ method) ⊎ ((target ≡ raw_data) × (call_ok ≡ false))

-- The call has ended without a receipt.
abbrev pub IsVain : Outcome → Type 0
IsVain running = ⊥
IsVain (returned none) = Unit
IsVain (returned (some _)) = ⊥
IsVain (raised _) = Unit

-- No nonce is taken: `next_nonce` is the same, or it has got its first entry for the account, which is
-- the pending transaction count.
abbrev pub IsUntaken : ℕ → Option ℕ → Nonces → Nonces → Type 0
IsUntaken account pending nonces left =
    (left ≡ nonces)
    ⊎ ((lookup account nonces ≡ none)
        × ((n : ℕ) × (pending ≡ some n) × (left ≡ insert account n nonces)))

-- Nothing has been sent, and no nonce is taken.
abbrev pub IsRefused : ℕ → Option ℕ → Nonces → Outcome × LoopState × Option Tx → Type 0
IsRefused account pending nonces (outcome, s, _) =
    IsVain outcome × (s.sent ≡ []) × IsUntaken account pending nonces s.nonces

no_estimate :
    (target : Target) (call_ok : Bool)
    → IsFailing target call_ok
    → estimate_or_default (estimated_gas target none call_ok) none ≡ none
unfolding estimate_or_default estimated_gas
no_estimate target call_ok (inl e) =
    subst (λ t. estimate_or_default (estimated_gas t none call_ok) none ≡ none) (sym e) refl
no_estimate target call_ok (inr (e, f)) =
    subst (λ t. estimate_or_default (estimated_gas t none call_ok) none ≡ none) (sym e)
      (ap (λ b. estimate_or_default (estimated_gas raw_data none b) none) f)

estimate_of-none :
    (b : Begin)
    → IsFailing b.target b.call_ok
    → b.estimate ≡ none
    → b.gas_estimate_for_bad_txs ≡ none
    → estimate_of b ≡ none
unfolding estimate_of
estimate_of-none b failing e f =
    ap (λ x. estimate_or_default (estimated_gas b.target x b.call_ok) b.gas_estimate_for_bad_txs) e
    ∙ ap (λ x. estimate_or_default (estimated_gas b.target none b.call_ok) x) f
    ∙ no_estimate b.target b.call_ok failing

ok-eq : {a b : Nonces} → ok a ≡ ok b → b ≡ a
ok-eq {a} e = ap (λ x. elim x [ err _ ↦ a | ok r ↦ r ]) (sym e)

first_entry :
    (account : ℕ) (found pending : Option ℕ) (nonces known : Nonces)
    → lookup account nonces ≡ found
    → elim found [
      | some _ ↦ ok nonces
      | none ↦ elim pending [ none ↦ err Error.exception | some n ↦ ok (insert account n nonces) ]
    ]
      ≡ ok known
    → IsUntaken account pending nonces known
first_entry account (some _) pending nonces known e h = inl (ok-eq h)
first_entry account none none nonces known e h = ground arith
first_entry account none (some n) nonces known e h = inr (e, (n, refl, ok-eq h))

first_nonce-IsUntaken :
    (account : ℕ) (pending : Option ℕ) (nonces known : Nonces)
    → first_nonce account pending nonces ≡ ok known
    → IsUntaken account pending nonces known
unfolding first_nonce
first_nonce-IsUntaken account pending nonces known h =
    first_entry account (lookup account nonces) pending nonces known refl h

-- What the prologue leaves.
IsStopped : Kwargs → Begin → Nonces → Begun → Type 0
IsStopped k b nonces begun =
    IsVain begun.outcome
    × (begun.state.sent ≡ [])
    × IsUntaken (account_of k b) b.pending_count nonces begun.state.nonces

prepare-IsStopped :
    (k : Kwargs) (b : Begin) (looks : Looks) (x : Result Nonces) (c : Config) (s : LoopState)
    → first_nonce (account_of k b) b.pending_count s.nonces ≡ x
    → estimate_of b ≡ none
    → s.sent ≡ []
    → IsStopped k b s.nonces (prepare x k b looks c s)
unfolding prepare estimate_with IsStopped
prepare-IsStopped k b looks (err e) c s f h u = (tt, u, inl refl)
prepare-IsStopped k b looks (ok known) c s f h u =
    subst (λ x. IsStopped k b s.nonces (estimate_with x k b looks c (record s { nonces = known })))
      (sym h) (tt, u, first_nonce-IsUntaken (account_of k b) b.pending_count s.nonces known f)

prologue-IsStopped :
    (k : Kwargs) (b : Begin) (looks : Looks) (tx : Tx) (nonces : Nonces)
    → estimate_of b ≡ none
    → IsStopped k b nonces (prologue k b looks tx nonces)
unfolding prologue IsStopped
prologue-IsStopped k b looks tx nonces h =
    let c = first_config k b in
    let s = first_state b tx nonces in
    let x = first_nonce (account_of k b) b.pending_count nonces in
    let stopped = stop (raised value_error) c s in
    elim (k.unknown)
      as (λ u. IsStopped k b nonces (if u then stopped else prepare x k b looks c s)) [
        | true ↦ (tt, refl, inl refl)
        | false ↦ prepare-IsStopped k b looks x c s refl h refl
      ]

close-IsRefused :
    (account : ℕ) (pending : Option ℕ) (nonces : Nonces) (o : Outcome) (s : LoopState)
    (old : Option Tx) (next : LoopState → Outcome × LoopState)
    → IsVain o
    → s.sent ≡ []
    → IsUntaken account pending nonces s.nonces
    → let (outcome, t) = continue_with (o, s) next in
      IsRefused account pending nonces (close (outcome, t, old))
close-IsRefused account pending nonces running s old next h e f = absurd h
close-IsRefused account pending nonces (returned none) s old next h e f = (tt, e, f)
close-IsRefused account pending nonces (returned (some _)) s old next h e f = absurd h
close-IsRefused account pending nonces (raised _) s old next h e f = (tt, e, f)

-- If the node does not estimate the gas of a transaction that calls a contract (nor call it, for raw
-- data), and no estimate is configured for such transactions, then, whatever the arguments, the
-- transaction's state, the one it replaces and the rounds that would follow: the call of
-- `transact_async` ends without a receipt, has sent nothing, and has taken no nonce.
pub transact_async_refuses :
    (k : Kwargs) (b : Begin) (looks : Looks) (rs : List Round) (tx : Tx) (nonces : Nonces)
    → IsFailing b.target b.call_ok
    → b.estimate ≡ none
    → b.gas_estimate_for_bad_txs ≡ none
    → IsRefused (account_of k b) b.pending_count nonces (transact_async k b looks rs tx nonces)
unfolding transact_async body run IsStopped
transact_async_refuses k b looks rs tx nonces failing e f =
    let t = record tx { status = in_progress } in
    let begun = prologue k b looks t nonces in
    let stopped : IsStopped k b nonces begun =
      prologue-IsStopped k b looks t nonces (estimate_of-none b failing e f) in
    let call = close (body k b looks rs t nonces) in
    let refused : Outcome × LoopState × Option Tx =
      (raised Error.exception, record { tx = tx; nonces = nonces; sent = [] }, none) in
    elim (is_new tx.status)
      as (λ n. IsRefused (account_of k b) b.pending_count nonces (if n then call else refused)) [
        | true ↦
            close-IsRefused (account_of k b) b.pending_count nonces begun.outcome begun.state
              begun.replaced_tx
              (λ s. if may_start looks then rounds begun.config rs s else (running, s)) stopped.0
              stopped.1 stopped.2
        | false ↦ (tt, refl, inl refl)
      ]
