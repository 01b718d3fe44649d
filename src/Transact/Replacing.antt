-- ===== src/Transact/Replacing.antt =====
-- `pyflex/__init__.py`: how a whole call of `Transact.transact_async` ends, and replaces another one.
use pyflex.Base.{ℕ, Bool, true, false, Option, none, some, List, [], All, All-imp}
use pyflex.Base.{◌≡◌, ◌≢◌, refl, ap, sym, subst, ◌∙◌, if◌then◌else◌, arith}
use pyflex.Base.Results.{Result, Error, ok, err, value_error}
use pyflex.Transact.State.{new, in_progress, finished, Tx, Nonces, Sent}
use pyflex.Transact.Price.{Estimate, gas_limit}
use pyflex.Transact.Loop.{
  Config, LoopState, Outcome, running, returned, raised, Round, rounds, continue_with,
}
use pyflex.Transact.Calling.{close-sent}
use pyflex.Transact.Calls.{IsCall, rounds-IsConsistent, rounds-nonce}
use pyflex.Transact.Start.{
  Kwargs, Begin, Looks, Begun, first_nonce, estimate_of, wait_for, take_over, replace_by,
  replace_with, may_start, account_of, begin_with, estimate_with, prepare, first_config,
  first_state, prologue, run, body, close, is_new, transact_async, stop,
}

pub transact_async-close :
    (k : Kwargs) (b : Begin) (looks : Looks) (rs : List Round) (tx : Tx) (nonces : Nonces)
    → tx.status ≡ new
    → transact_async k b looks rs tx nonces
      ≡ close (body k b looks rs (record tx { status = in_progress }) nonces)
unfolding transact_async
transact_async-close k b looks rs tx nonces e =
    let x = close (body k b looks rs (record tx { status = in_progress }) nonces) in
    let refused : Outcome × LoopState × Option Tx =
      (raised Error.exception, record { tx = tx; nonces = nonces; sent = [] }, none) in
    ap (λ status. if is_new status then x else refused) e

close-finished :
    (x : Outcome × LoopState × Option Tx) → (close x).0 ≢ running → (close x).1.tx.status ≡ finished
close-finished (running, s, old) h = absurd (h refl)
close-finished (returned _, s, old) h = refl
close-finished (raised _, s, old) h = refl

-- A call that has ended, by a result or an exception, leaves a transaction that it was the first to
-- execute finished.
transact_async_finishes :
    (k : Kwargs) (b : Begin) (looks : Looks) (rs : List Round) (tx : Tx) (nonces : Nonces)
    → tx.status ≡ new
    → (transact_async k b looks rs tx nonces).0 ≢ running
    → (transact_async k b looks rs tx nonces).1.tx.status ≡ finished
transact_async_finishes k b looks rs tx nonces e h =
    let q = transact_async-close k b looks rs tx nonces e in
    ap (λ x. x.1.tx.status) q
    ∙ close-finished (body k b looks rs (record tx { status = in_progress }) nonces)
        (subst (λ x. x.0 ≢ running) q h)

-- What the prologue hands over to the loop of a transaction that is to have the nonce `n`.
HasNonce : ℕ → Begun → Type 0
HasNonce n begun =
    (begun.state.sent ≡ []) × (begun.outcome ≡ running → begun.state.tx.nonce ≡ some n)

module _ (n : ℕ) (looks : List Tx) (old : Tx) (found : wait_for looks ≡ some old)
    (named : old.nonce ≡ some n) (k : Kwargs) (b : Begin) where
  stop-HasNonce :
      (o : Outcome) (c : Config) (s : LoopState)
      → s.sent ≡ []
      → o ≢ running
      → HasNonce n (stop o c s)
  unfolding HasNonce
  stop-HasNonce o c s e h = (e, λ r. absurd (h r))

  raised-running : (e : Error) → raised e ≢ running
  raised-running e = λ h. ground arith

  returned-running : returned none ≢ running
  returned-running = λ h. ground arith

  replace_by-HasNonce :
      (x : Option Tx) (c : Config) (s : LoopState)
      → x ≡ some old
      → s.sent ≡ []
      → HasNonce n (replace_by x k b c s)
  unfolding replace_by HasNonce take_over
  replace_by-HasNonce none c s e h = ground arith
  replace_by-HasNonce (some t) c s e h =
      (h, λ _. ap (λ o. elim o [ none ↦ none | some x ↦ x.nonce ]) e ∙ named)

  begin_with-HasNonce :
      (x : Result ℕ) (c : Config) (s : LoopState)
      → s.sent ≡ []
      → HasNonce n (begin_with x k b (some looks) c s)
  unfolding begin_with replace_with
  begin_with-HasNonce (err e) c s h = stop-HasNonce (raised e) c s h (raised-running e)
  begin_with-HasNonce (ok gas) c s h = replace_by-HasNonce (wait_for looks) _ _ found h

  estimate_with-HasNonce :
      (x : Option Estimate) (c : Config) (s : LoopState)
      → s.sent ≡ []
      → HasNonce n (estimate_with x k b (some looks) c s)
  unfolding estimate_with
  estimate_with-HasNonce none c s h = stop-HasNonce (returned none) c s h returned-running
  estimate_with-HasNonce (some e) c s h = begin_with-HasNonce (gas_limit e k.gas k.gas_buffer) c s h

  prepare-HasNonce :
      (x : Result Nonces) (c : Config) (s : LoopState)
      → s.sent ≡ []
      → HasNonce n (prepare x k b (some looks) c s)
  unfolding prepare
  prepare-HasNonce (err e) c s h = stop-HasNonce (raised e) c s h (raised-running e)
  prepare-HasNonce (ok known) c s h =
      estimate_with-HasNonce (estimate_of b) c (record s { nonces = known }) h

  prologue-HasNonce : (tx : Tx) (nonces : Nonces) → HasNonce n (prologue k b (some looks) tx nonces)
  unfolding prologue
  prologue-HasNonce tx nonces =
      let c = first_config k b in
      let s = first_state b tx nonces in
      let x = first_nonce (account_of k b) b.pending_count nonces in
      let stopped = stop (raised value_error) c s in
      let prepared = prepare x k b (some looks) c s in
      elim (k.unknown) as (λ u. HasNonce n (if u then stopped else prepared)) [
        | true ↦ stop-HasNonce (raised value_error) c s refl (raised-running value_error)
        | false ↦ prepare-HasNonce x c s refl
      ]

abbrev pub WithNonce : ℕ → Sent → Type 0
WithNonce n call = call.nonce ≡ n

none_sent : (n : ℕ) (calls : List Sent) → calls ≡ [] → All (WithNonce n) calls
none_sent n calls e = subst (All (WithNonce n)) (sym e) tt

call_nonce : (m n : ℕ) → some m ≡ some n → n ≡ m
call_nonce m n e = ground arith

rounds-WithNonce :
    (n : ℕ) (c : Config) (rs : List Round) (s : LoopState)
    → s.sent ≡ []
    → s.tx.nonce ≡ some n
    → All (WithNonce n) (rounds c rs s).1.sent
rounds-WithNonce n c rs s h e =
    All-imp (λ call (d, _, _). call_nonce n call.nonce (sym (rounds-nonce c rs s n e) ∙ d))
      (rounds c rs s).1.sent
      (rounds-IsConsistent c rs s (subst (All (IsCall c s.tx.nonce)) (sym h) tt))

loop-WithNonce :
    (n : ℕ) (may : Bool) (o : Outcome) (c : Config) (rs : List Round) (s : LoopState)
    → s.sent ≡ []
    → (o ≡ running → s.tx.nonce ≡ some n)
    → All
        (WithNonce n)
        (continue_with (o, s) (λ t. if may then rounds c rs t else (running, t))).1.sent
loop-WithNonce n true running c rs s h f = rounds-WithNonce n c rs s h (f refl)
loop-WithNonce n false running c rs s h f = none_sent n s.sent h
loop-WithNonce n may (returned _) c rs s h f = none_sent n s.sent h
loop-WithNonce n may (raised _) c rs s h f = none_sent n s.sent h

-- If the transaction to be replaced has the nonce `n` when the waiting loop ends, then every call
-- that `transact_async` makes of the node for its replacement has the nonce `n`.
pub transact_async_replaces :
    (k : Kwargs) (b : Begin) (looks : List Tx) (old : Tx) (n : ℕ) (rs : List Round) (tx : Tx)
    (nonces : Nonces)
    → tx.status ≡ new
    → wait_for looks ≡ some old
    → old.nonce ≡ some n
    → All (WithNonce n) (transact_async k b (some looks) rs tx nonces).1.sent
unfolding HasNonce body run
transact_async_replaces k b looks old n rs tx nonces e found named =
    let t = record tx { status = in_progress } in
    let begun = prologue k b (some looks) t nonces in
    let h : HasNonce n begun = prologue-HasNonce n looks old found named k b t nonces in
    subst (All (WithNonce n))
      (sym (
        ap (λ x. x.1.sent) (transact_async-close k b (some looks) rs tx nonces e)
        ∙ close-sent (body k b (some looks) rs t nonces)))
      (loop-WithNonce n (may_start (some looks)) begun.outcome begun.config rs begun.state h.0 h.1)
