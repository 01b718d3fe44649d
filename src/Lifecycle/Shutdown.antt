-- ===== src/Lifecycle/Shutdown.antt =====
-- `Lifecycle.__exit__`: the initial checks, and the state in which the keeper shuts down.
use pyflex.Base.{ℕ, Bool, true, false, Option, none, some, List, [], ◌∷◌, map, All, Any, leb}
use pyflex.Base.{◌≡◌, ◌≢◌, inl, inr, refl, sym, subst, arith, if◌then◌else◌}
use pyflex.Lifecycle.Callback.{Callback, Thread, alive, no_thread, ended, end_from}
use pyflex.Lifecycle.State.{Lifecycle, Timer}
use pyflex.Lifecycle.Blocks.{start_watching_blocks}
use pyflex.Lifecycle.Exit.{
  Action, Attempt, passes, run_check, Run, first_phases, run_keeper, wait_timer, wait_block,
  wait_for_callbacks, exit, enter, conclude, registered, has_threads,
}

-- If one of the calls comes after the longest wait, or later than that, then the loop of an initial
-- check ends.
run_check_ends :
    (max_wait : ℕ) (attempts : List Attempt)
    → Any (λ a. leb max_wait a.elapsed ≡ true) attempts
    → run_check max_wait attempts ≢ none
unfolding run_check
run_check_ends max_wait [] h = absurd h
run_check_ends max_wait (a ∷ attempts) (inl e) = λ k. ground arith
run_check_ends max_wait (a ∷ attempts) (inr h) =
    λ k. let rest = run_check_ends max_wait attempts h in ground arith

-- What the result of an initial check says of its calls.
abbrev pub IsFair : ℕ → List Attempt → Option Bool → Type 0
IsFair max_wait attempts none = Unit
IsFair max_wait attempts (some true) = Any (λ a. passes a.result ≡ true) attempts
IsFair max_wait attempts (some false) =
    Any (λ a. (passes a.result ≡ false) × (leb max_wait a.elapsed ≡ true)) attempts

later-IsFair :
    (max_wait : ℕ) (a : Attempt) (attempts : List Attempt) (x : Option Bool)
    → IsFair max_wait attempts x
    → IsFair max_wait (a ∷ attempts) x
later-IsFair max_wait a attempts none h = tt
later-IsFair max_wait a attempts (some true) h = inr h
later-IsFair max_wait a attempts (some false) h = inr h

-- An initial check counts as passed only if one of its calls has returned a true value, and it is
-- skipped only if one of its calls has failed after the longest wait.
run_check-IsFair :
    (max_wait : ℕ) (attempts : List Attempt)
    → IsFair max_wait attempts (run_check max_wait attempts)
unfolding run_check
run_check-IsFair max_wait [] = tt
run_check-IsFair max_wait (a ∷ attempts) =
    let rest = run_check max_wait attempts in
    let late = if leb max_wait a.elapsed then some false else rest in
    elim (passes a.result)
        as (λ p.
          passes a.result ≡ p → IsFair max_wait (a ∷ attempts) (if p then some true else late)) [
            | true ↦ λ e. inl e
            | false ↦ λ e.
                (elim (leb max_wait a.elapsed)
                    as (λ q.
                      leb max_wait a.elapsed ≡ q
                      → IsFair max_wait (a ∷ attempts) (if q then some false else rest)) [
                        | true ↦ λ f. inl (e, f)
                        | false ↦ λ f.
                            later-IsFair max_wait a attempts rest
                              (run_check-IsFair max_wait attempts)
                      ])
                  refl
          ]
      refl

-- A callback that no thread runs.
abbrev pub IsQuiet : Callback → Type 0
IsQuiet c = c.thread ≢ alive

end_from-IsQuiet : (t : Thread) (c : Callback) → c.thread ≡ t → IsQuiet (end_from t c)
unfolding end_from
end_from-IsQuiet alive c e = λ h. ground arith
end_from-IsQuiet no_thread c e = λ h. ground arith
end_from-IsQuiet ended c e = λ h. ground arith

wait_timers-IsQuiet : (ts : List Timer) → All (λ t. IsQuiet t.callback) (map wait_timer ts)
wait_timers-IsQuiet [] = tt
wait_timers-IsQuiet (t ∷ ts) =
    (end_from-IsQuiet t.callback.thread t.callback refl, wait_timers-IsQuiet ts)

abbrev pub IsQuietIfSome : Option Callback → Type 0
IsQuietIfSome none = Unit
IsQuietIfSome (some c) = IsQuiet c

wait_block-IsQuiet : (c : Option Callback) → IsQuietIfSome (wait_block c)
wait_block-IsQuiet none = tt
wait_block-IsQuiet (some c) = end_from-IsQuiet c.thread c refl

-- The state of a keeper that has waited for its callbacks.
abbrev pub IsAtRest : Lifecycle → Type 0
IsAtRest l =
    IsQuietIfSome l.on_block_callback
    × All (λ t. IsQuiet t.callback) l.every_timers
    × All (λ t. IsQuiet t.callback) l.event_timers

wait_for_callbacks-IsAtRest : (l : Lifecycle) → IsAtRest (wait_for_callbacks l)
unfolding wait_for_callbacks
wait_for_callbacks-IsAtRest l = (
  wait_block-IsQuiet l.on_block_callback,
  wait_timers-IsQuiet l.every_timers,
  wait_timers-IsQuiet l.event_timers,
)

conclude-IsAtRest :
    (present : Bool) (actions : List Action) (x : Bool × Lifecycle)
    → x.0 ≡ true
    → IsAtRest (conclude present actions x).1
conclude-IsAtRest present actions (false, l) h = ground arith
conclude-IsAtRest present actions (true, l) h = wait_for_callbacks-IsAtRest l

-- If the first phases go on to the main loop and that loop ends, then the shutdown logic and the
-- end of the process come in a state in which no thread runs a callback: the waits for them have
-- come before.
pub exit-IsAtRest :
    (r : Run) (l : Lifecycle) (actions : List Action)
    → first_phases r l ≡ (actions, true)
    → (run_keeper r l).0 ≡ true
    → IsAtRest (exit r l).1
unfolding exit
exit-IsAtRest r l actions e f =
    let present = has_threads (registered r (start_watching_blocks l).0) in
    subst (λ p. IsAtRest (enter r p l).1) (sym e)
      (conclude-IsAtRest present actions (run_keeper r l) f)
