-- ===== src/Lifecycle/Tests.antt =====
-- `pyflex/lifecycle.py`: the keepers that the theorems are tried on.
use pyflex.Base.{true, false, none, some, List, [], ◌∷◌, ◌≡◌, ◌⊎◌, refl}
use pyflex.Base.Results.{ok}
use pyflex.Lifecycle.Callback.{new_callback, triggered, thread_ends, waited, steps, Event}
use pyflex.Lifecycle.State.{
  Lifecycle, new_lifecycle, is_terminating, on_startup, on_shutdown, on_block,
}
use pyflex.Lifecycle.Loop.{FilterThread, Turn, main_loop, any_filter_thread_present}
use pyflex.Lifecycle.Exit.{Action, Attempt, Run, first_phases, run_keeper, exit}
use pyflex.Lifecycle.Callbacks.{IsSingle, steps-IsSingle}
use pyflex.Lifecycle.Termination.{HasFatal, main_loop_ended, main_loop-HasFatal}
use pyflex.Lifecycle.Shutdown.{IsAtRest, exit-IsAtRest}

abbrev events : List Event
events =
    triggered true ∷ triggered true ∷ thread_ends ∷ triggered false ∷ triggered true ∷ waited ∷ []

events_end : (steps events new_callback).started ≡ 2
unfolding steps
events_end = refl

steps-IsSingle_example : IsSingle (steps events new_callback)
steps-IsSingle_example = steps-IsSingle events new_callback refl

abbrev dead : FilterThread
dead = record { has_args = false; is_alive = false }

abbrev calm : Turn
calm = record {
  asked_internally = false;
  asked_externally = false;
  block_time = some 5;
  threads = dead ∷ [];
  now = 5;
  syncing = false;
}

-- Six minutes without a block.
abbrev silent : Turn
silent = record calm { block_time = none; now = 360000005 }

abbrev keeper : Lifecycle
keeper = new_lifecycle true

keeper_ends : (main_loop (dead ∷ []) (calm ∷ silent ∷ []) keeper).0 ≡ true
unfolding main_loop new_lifecycle
keeper_ends = refl

main_loop_ended_example :
    (is_terminating (main_loop (dead ∷ []) (calm ∷ silent ∷ []) keeper).1 ≡ true)
    ⊎ ((any_filter_thread_present (dead ∷ []) ≡ false) × (keeper.at_least_one_every ≡ false))
main_loop_ended_example = main_loop_ended (dead ∷ []) (calm ∷ silent ∷ []) keeper keeper_ends

keeper_starts : keeper.fatal_termination ≡ false
unfolding new_lifecycle
keeper_starts = refl

keeper_dies : (main_loop (dead ∷ []) (calm ∷ silent ∷ []) keeper).1.fatal_termination ≡ true
unfolding main_loop new_lifecycle
keeper_dies = refl

main_loop-HasFatal_example : HasFatal keeper.last_block_time (calm ∷ silent ∷ [])
main_loop-HasFatal_example =
    main_loop-HasFatal (dead ∷ []) (calm ∷ silent ∷ []) keeper keeper_starts keeper_dies

registered_startup : on_startup 1 keeper ≡ ok (record keeper { startup_function = some 1 })
unfolding on_startup new_lifecycle
registered_startup = refl

registered_shutdown : on_shutdown 1 keeper ≡ ok (record keeper { shutdown_function = some 1 })
unfolding on_shutdown new_lifecycle
registered_shutdown = refl

registered_block : on_block 1 keeper ≡ ok (record keeper { block_function = some 1 })
unfolding on_block new_lifecycle
registered_block = refl

abbrev attempts : List Attempt
attempts = record { result = none; elapsed = 2 } ∷ record { result = some false; elapsed = 9 } ∷ []

abbrev busy : Lifecycle
busy = record keeper {
  startup_function = some 1;
  block_function = some 2;
  shutdown_function = some 3;
}

abbrev run : Run
run = record {
  has_account = true;
  unlocked = true;
  attempts = λ _. attempts;
  turns = calm ∷ record calm { asked_externally = true } ∷ [];
  other_threads = [];
}

busy_first :
    first_phases run busy ≡ (Action.check_account ∷ Action.node_wait ∷ Action.startup 1 ∷ [], true)
unfolding first_phases new_lifecycle
busy_first = refl

busy_ends : (run_keeper run busy).0 ≡ true
unfolding run_keeper new_lifecycle
busy_ends = refl

exit-IsAtRest_example : IsAtRest (exit run busy).1
exit-IsAtRest_example =
    exit-IsAtRest run busy (Action.check_account ∷ Action.node_wait ∷ Action.startup 1 ∷ [])
      busy_first busy_ends

-- The whole trace of a keeper that a signal ends.
busy_trace :
    (exit run busy).0
    ≡ Action.check_account
      ∷ Action.node_wait
      ∷ Action.startup 1
      ∷ Action.stop_filters
      ∷ Action.shutdown 3
      ∷ Action.exit_with 0
      ∷ []
unfolding exit new_lifecycle
busy_trace = refl
