-- ===== src/Lifecycle/Exit.antt =====
-- `Lifecycle.__exit__`: from the first checks to the end of the process.
use pyflex.Base.{ℕ, zero, suc, Bool, true, false, Option, none, some, List, [], ◌∷◌, ◌++◌, map}
use pyflex.Base.{if◌then◌else◌, leb}
use pyflex.Lifecycle.Callback.{Callback, wait, end_from}
use pyflex.Lifecycle.State.{Lifecycle, Timer}
use pyflex.Lifecycle.Blocks.{start_watching_blocks, start_every_timers}
use pyflex.Lifecycle.Loop.{FilterThread, Turn, main_loop}

-- What `__exit__` does, as the keeper sees it.
pub data Action : Type 0 where
  check_account : Action
  use_no_account : Action
  node_wait : Action
  sleep : ℕ → Action
  initial_check : ℕ → Bool → Action
  startup : ℕ → Action
  stop_filters : Action
  shutdown : ℕ → Action
  exit_with : ℕ → Action

-- A call of an initial check: its result, where `none` stands for an exception, and the seconds
-- since the first one.
pub record Attempt : Type 0 where
  pub result : Option Bool
  pub elapsed : ℕ

abbrev pub passes : Option Bool → Bool
passes none = false
passes (some b) = b

-- The loop of one initial check: whether it has passed, or else was skipped; `none` if it is not
-- over after these calls.
unfoldable pub run_check : ℕ → List Attempt → Option Bool
run_check max_wait [] = none
run_check max_wait (a ∷ attempts) =
    let rest = run_check max_wait attempts in
    if passes a.result then some true else if leb max_wait a.elapsed then some false else rest

-- Some actions, and whether the next ones follow.
abbrev pub Phase : Type 0
Phase = List Action × Bool

abbrev pub then_phase : Phase → Phase → Phase
then_phase (actions, true) (more, b) = (actions ++ more, b)
then_phase (actions, false) next = (actions, false)

-- What `__exit__` meets.
pub record Run : Type 0 where
  pub has_account : Bool
  pub unlocked : Bool
  pub attempts : ℕ → List Attempt
  pub turns : List Turn
  pub other_threads : List FilterThread

-- `_check_account_unlocked` ends the process with the status -1, which is 255.
unfoldable pub check_phase : Run → Lifecycle → Phase
check_phase r l =
    if l.has_web3
    then (if r.has_account
        then (if r.unlocked
            then (check_account ∷ [], true)
            else (check_account ∷ exit_with 255 ∷ [], false))
        else (use_no_account ∷ [], true))
    else ([], true)

unfoldable pub sync_phase : Lifecycle → Phase
sync_phase l =
    (if l.has_web3 then (if l.do_wait_for_sync then node_wait ∷ [] else []) else [], true)

abbrev pub sleep_phase : ℕ → Phase
sleep_phase zero = ([], true)
sleep_phase (suc n) = (sleep (suc n) ∷ [], true)

abbrev pub checked : ℕ → Option Bool → Phase
checked f none = ([], false)
checked f (some passed) = (initial_check f passed ∷ [], true)

-- The initial checks, one after the other.
unfoldable pub checks_phase : (ℕ → List Attempt) → List (ℕ × ℕ) → Phase
unfolding run_check
checks_phase attempts [] = ([], true)
checks_phase attempts ((f, max_wait) ∷ more) =
    then_phase (checked f (run_check max_wait (attempts f))) (checks_phase attempts more)

abbrev pub startup_phase : Option ℕ → Phase
startup_phase none = ([], true)
startup_phase (some f) = (startup f ∷ [], true)

unfoldable pub first_phases : Run → Lifecycle → Phase
unfolding check_phase sync_phase checks_phase
first_phases r l = then_phase (check_phase r l) (
    then_phase (sync_phase l) (
      then_phase (sleep_phase l.delay) (
        then_phase (checks_phase r.attempts l.wait_for_functions)
          (startup_phase l.startup_function))))

abbrev pub new_thread : FilterThread
new_thread = record { has_args = true; is_alive = true }

-- The threads that are registered once blocks are watched.
unfoldable pub registered : Run → Bool → List FilterThread
registered r true = r.other_threads ++ (new_thread ∷ [])
registered r false = r.other_threads

-- From `_start_watching_blocks` to the end of `_main_loop`.
unfoldable pub run_keeper : Run → Lifecycle → Bool × Lifecycle
unfolding start_watching_blocks start_every_timers main_loop registered
run_keeper r l =
    let (watching, watched) = start_watching_blocks l in
    main_loop (registered r watching) r.turns (start_every_timers watched)

abbrev pub wait_timer : Timer → Timer
wait_timer t = record t { callback = wait t.callback }

abbrev pub wait_block : Option Callback → Option Callback
wait_block none = none
wait_block (some c) = some (wait c)

-- The waits before the shutdown phase.
unfoldable pub wait_for_callbacks : Lifecycle → Lifecycle
unfolding end_from
wait_for_callbacks l = record l {
  on_block_callback = wait_block l.on_block_callback;
  every_timers = map wait_timer l.every_timers;
  event_timers = map wait_timer l.event_timers;
}

abbrev pub shutdown_actions : Option ℕ → List Action
shutdown_actions none = []
shutdown_actions (some f) = shutdown f ∷ []

-- From the end of the main loop on. `stop_all_filter_threads` is called if a thread is registered.
unfoldable pub last_actions : Bool → Lifecycle → List Action
last_actions present l =
    (if present then stop_filters ∷ [] else [])
    ++ (shutdown_actions l.shutdown_function
        ++ (exit_with (if l.fatal_termination then 10 else 0) ∷ []))

abbrev pub has_threads : List FilterThread → Bool
has_threads [] = false
has_threads (_ ∷ _) = true

abbrev pub conclude : Bool → List Action → Bool × Lifecycle → List Action × Lifecycle
conclude present actions (false, l) = (actions, l)
conclude present actions (true, l) =
    let waited = wait_for_callbacks l in (actions ++ last_actions present waited, waited)

abbrev pub enter : Run → Phase → Lifecycle → List Action × Lifecycle
enter r (actions, false) l = (actions, l)
enter r (actions, true) l =
    conclude (has_threads (registered r (start_watching_blocks l).0)) actions (run_keeper r l)

-- `Lifecycle.__exit__`: what it does, and the state that it ends with, or is in.
unfoldable pub exit : Run → Lifecycle → List Action × Lifecycle
unfolding first_phases run_keeper wait_for_callbacks last_actions registered start_watching_blocks
exit r l = enter r (first_phases r l) l
