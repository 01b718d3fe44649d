-- ===== src/Transact/Calling.antt =====
-- `pyflex/__init__.py`: what a whole call of `Transact.transact_async` sends.
use pyflex.Base.{ℕ, Bool, true, false, Option, none, some, List, [], All, All-imp}
use pyflex.Base.{◌≡◌, ◌≢◌, refl, sym, subst, ◌∙◌, if◌then◌else◌, arith}
use pyflex.Base.Results.{Result, Error, ok, err, value_error}
use pyflex.Transact.State.{in_progress, Tx, Nonces, Sent}
use pyflex.Transact.Price.{Estimate, gas_limit}
use pyflex.Transact.Loop.{
  Config, LoopState, Outcome, running, returned, raised, Round, rounds, continue_with,
}
use pyflex.Transact.Calls.{IsCall, rounds-IsConsistent}
use pyflex.Transact.Start.{
  Kwargs, Begin, Looks, Begun, first_nonce, estimate_of, wait_for, replace_by, replace_with,
  may_start, account_of, begin_with, estimate_with, prepare, first_config, first_state, prologue,
  run, body, close, is_new, transact_async, stop,
}

-- The account and the gas limit that the code computes.
abbrev pub IsLimit : Kwargs → Begin → ℕ → Type 0
IsLimit k b gas =
    (e : Estimate) × (estimate_of b ≡ some e) × (gas_limit e k.gas k.gas_buffer ≡ ok gas)

-- What the prologue hands over to the loop.
IsPrepared : Kwargs → Begin → Begun → Type 0
IsPrepared k b begun =
    (begun.state.sent ≡ [])
    × (begun.outcome ≡ running
        → (begun.config.from_account ≡ account_of k b) × IsLimit k b begun.config.gas)

module _ (k : Kwargs) (b : Begin) where
  stop-IsPrepared :
      (o : Outcome) (c : Config) (s : LoopState)
      → s.sent ≡ []
      → o ≢ running
      → IsPrepared k b (stop o c s)
  unfolding IsPrepared
  stop-IsPrepared o c s e n = (e, λ r. absurd (n r))

  raised-running : (e : Error) → raised e ≢ running
  raised-running e = λ h. ground arith

  returned-running : returned none ≢ running
  returned-running = λ h. ground arith

  replace_by-IsPrepared :
      (old : Option Tx) (c : Config) (s : LoopState)
      → s.sent ≡ []
      → c.from_account ≡ account_of k b
      → IsLimit k b c.gas
      → IsPrepared k b (replace_by old k b c s)
  unfolding replace_by IsPrepared
  replace_by-IsPrepared none c s e f g = (e, λ _. (f, g))
  replace_by-IsPrepared (some old) c s e f g = (e, λ _. (f, g))

  replace_with-IsPrepared :
      (looks : Looks) (c : Config) (s : LoopState)
      → s.sent ≡ []
      → c.from_account ≡ account_of k b
      → IsLimit k b c.gas
      → IsPrepared k b (replace_with looks k b c s)
  unfolding replace_with IsPrepared
  replace_with-IsPrepared none c s e f g = (e, λ _. (f, g))
  replace_with-IsPrepared (some looks) c s e f g = replace_by-IsPrepared (wait_for looks) c s e f g

  begin_with-IsPrepared :
      (x : Result ℕ) (e : Estimate) (looks : Looks) (c : Config) (s : LoopState)
      → s.sent ≡ []
      → c.from_account ≡ account_of k b
      → estimate_of b ≡ some e
      → gas_limit e k.gas k.gas_buffer ≡ x
      → IsPrepared k b (begin_with x k b looks c s)
  unfolding begin_with
  begin_with-IsPrepared (err x) e looks c s h f g l =
      stop-IsPrepared (raised x) c s h (raised-running x)
  begin_with-IsPrepared (ok gas) e looks c s h f g l =
      replace_with-IsPrepared looks (record c { gas = gas }) _ h f (e, g, l)

  estimate_with-IsPrepared :
      (x : Option Estimate) (looks : Looks) (c : Config) (s : LoopState)
      → s.sent ≡ []
      → c.from_account ≡ account_of k b
      → estimate_of b ≡ x
      → IsPrepared k b (estimate_with x k b looks c s)
  unfolding estimate_with
  estimate_with-IsPrepared none looks c s h f g =
      stop-IsPrepared (returned none) c s h returned-running
  estimate_with-IsPrepared (some e) looks c s h f g =
      begin_with-IsPrepared (gas_limit e k.gas k.gas_buffer) e looks c s h f g refl

  prepare-IsPrepared :
      (x : Result Nonces) (looks : Looks) (c : Config) (s : LoopState)
      → s.sent ≡ []
      → c.from_account ≡ account_of k b
      → IsPrepared k b (prepare x k b looks c s)
  unfolding prepare
  prepare-IsPrepared (err e) looks c s h f = stop-IsPrepared (raised e) c s h (raised-running e)
  prepare-IsPrepared (ok known) looks c s h f =
      estimate_with-IsPrepared (estimate_of b) looks c (record s { nonces = known }) h f refl

  prologue-IsPrepared :
      (looks : Looks) (tx : Tx) (nonces : Nonces) → IsPrepared k b (prologue k b looks tx nonces)
  unfolding prologue
  prologue-IsPrepared looks tx nonces =
      let c = first_config k b in
      let s = first_state b tx nonces in
      let stopped = stop (raised value_error) c s in
      let prepared = prepare (first_nonce (account_of k b) b.pending_count nonces) k b looks c s in
      elim (k.unknown) as (λ u. IsPrepared k b (if u then stopped else prepared)) [
        | true ↦ stop-IsPrepared (raised value_error) c s refl (raised-running value_error)
        | false ↦
            prepare-IsPrepared (first_nonce (account_of k b) b.pending_count nonces) looks c s refl
              refl
      ]

  -- A call with that account and limit.
  abbrev pub IsComputed : Sent → Type 0
  IsComputed call = (call.from_account ≡ account_of k b) × IsLimit k b call.gas

  none_sent : (calls : List Sent) → calls ≡ [] → All IsComputed calls
  none_sent calls e = subst (All IsComputed) (sym e) tt

  rounds-IsComputed :
      (c : Config) (rs : List Round) (s : LoopState)
      → s.sent ≡ []
      → c.from_account ≡ account_of k b
      → IsLimit k b c.gas
      → All IsComputed (rounds c rs s).1.sent
  rounds-IsComputed c rs s h f g =
      All-imp (λ call (_, d, e). (d ∙ f, subst (IsLimit k b) (sym e) g)) (rounds c rs s).1.sent
        (rounds-IsConsistent c rs s (subst (All (IsCall c s.tx.nonce)) (sym h) tt))

  loop-IsComputed :
      (may : Bool) (o : Outcome) (c : Config) (rs : List Round) (s : LoopState)
      → s.sent ≡ []
      → (o ≡ running → (c.from_account ≡ account_of k b) × IsLimit k b c.gas)
      → All IsComputed
          (continue_with (o, s) (λ t. if may then rounds c rs t else (running, t))).1.sent
  loop-IsComputed true running c rs s h f = rounds-IsComputed c rs s h (f refl).0 (f refl).1
  loop-IsComputed false running c rs s h f = none_sent s.sent h
  loop-IsComputed may (returned _) c rs s h f = none_sent s.sent h
  loop-IsComputed may (raised _) c rs s h f = none_sent s.sent h

  body-IsComputed :
      (looks : Looks) (rs : List Round) (tx : Tx) (nonces : Nonces)
      → All IsComputed (body k b looks rs tx nonces).1.sent
  unfolding body run IsPrepared
  body-IsComputed looks rs tx nonces =
      let begun = prologue k b looks tx nonces in
      let prepared : IsPrepared k b begun = prologue-IsPrepared looks tx nonces in
      loop-IsComputed (may_start looks) begun.outcome begun.config rs begun.state prepared.0
        prepared.1

pub close-sent : (x : Outcome × LoopState × Option Tx) → (close x).1.sent ≡ x.1.sent
close-sent (running, s, old) = refl
close-sent (returned _, s, old) = refl
close-sent (raised _, s, old) = refl

-- The calls of the whole call.
pub transact_async-IsComputed :
    (k : Kwargs) (b : Begin) (looks : Looks) (rs : List Round) (tx : Tx) (nonces : Nonces)
    → All (IsComputed k b) (transact_async k b looks rs tx nonces).1.sent
unfolding transact_async
transact_async-IsComputed k b looks rs tx nonces =
    let x = body k b looks rs (record tx { status = in_progress }) nonces in
    let refused : Outcome × LoopState × Option Tx =
      (raised Error.exception, record { tx = tx; nonces = nonces; sent = [] }, none) in
    elim (is_new tx.status) as (λ n. All (IsComputed k b) (if n then close x else refused).1.sent) [
      | true ↦
          subst (All (IsComputed k b)) (sym (close-sent x))
            (body-IsComputed k b looks rs (record tx { status = in_progress }) nonces)
      | false ↦ tt
    ]
