-- ===== src/Lifecycle/State.antt =====
-- `pyflex/lifecycle.py`: the state of `Lifecycle` and the functions that set it up. Functions that
-- the keeper registers are known by a number.
use pyflex.Base.{ℕ, Bool, true, false, Option, none, some, List, [], ◌∷◌, ◌++◌, if◌then◌else◌, ◌||◌}
use pyflex.Base.Results.{Result, ok, err, assertion_error}
use pyflex.Lifecycle.Callback.{Callback, new_callback}

-- A function that is called with a callback, by a timer or an event.
pub record Timer : Type 0 where
  pub seconds : ℕ
  pub function : ℕ
  pub callback : Callback

-- `Lifecycle`. A moment is a number of microseconds.
pub record Lifecycle : Type 0 where
  pub has_web3 : Bool
  pub do_wait_for_sync : Bool
  pub delay : ℕ
  pub wait_for_functions : List (ℕ × ℕ)
  pub startup_function : Option ℕ
  pub shutdown_function : Option ℕ
  pub block_function : Option ℕ
  pub every_timers : List Timer
  pub event_timers : List Timer
  pub terminated_internally : Bool
  pub terminated_externally : Bool
  pub fatal_termination : Bool
  pub at_least_one_every : Bool
  pub last_block_time : Option ℕ
  pub on_block_callback : Option Callback

-- `Lifecycle.__init__`
unfoldable pub new_lifecycle : Bool → Lifecycle
new_lifecycle has_web3 = record {
  has_web3 = has_web3;
  do_wait_for_sync = true;
  delay = 0;
  wait_for_functions = [];
  startup_function = none;
  shutdown_function = none;
  block_function = none;
  every_timers = [];
  event_timers = [];
  terminated_internally = false;
  terminated_externally = false;
  fatal_termination = false;
  at_least_one_every = false;
  last_block_time = none;
  on_block_callback = none;
}

unfoldable pub wait_for_sync : Bool → Lifecycle → Lifecycle
wait_for_sync wanted l = record l { do_wait_for_sync = wanted }

unfoldable pub initial_delay : ℕ → Lifecycle → Lifecycle
initial_delay seconds l = record l { delay = seconds }

unfoldable pub wait_for : ℕ → ℕ → Lifecycle → Lifecycle
wait_for initial_check max_wait l = record l {
  wait_for_functions = l.wait_for_functions ++ ((initial_check, max_wait) ∷ []);
}

-- A field that may be set only once.
unfoldable pub set_once : Option ℕ → ℕ → Result (Option ℕ)
set_once none function = ok (some function)
set_once (some _) function = err assertion_error

abbrev pub map_ok : Result (Option ℕ) → (Option ℕ → Lifecycle) → Result Lifecycle
map_ok (err e) f = err e
map_ok (ok x) f = ok (f x)

unfoldable pub on_startup : ℕ → Lifecycle → Result Lifecycle
unfolding set_once
on_startup callback l =
    map_ok (set_once l.startup_function callback) (λ x. record l { startup_function = x })

unfoldable pub on_shutdown : ℕ → Lifecycle → Result Lifecycle
unfolding set_once
on_shutdown callback l =
    map_ok (set_once l.shutdown_function callback) (λ x. record l { shutdown_function = x })

unfoldable pub on_block : ℕ → Lifecycle → Result Lifecycle
unfolding set_once
on_block callback l =
    if l.has_web3
    then map_ok (set_once l.block_function callback) (λ x. record l { block_function = x })
    else err assertion_error

abbrev pub new_timer : ℕ → ℕ → Timer
new_timer seconds function = record {
  seconds = seconds;
  function = function;
  callback = new_callback;
}

unfoldable pub on_event : ℕ → ℕ → Lifecycle → Lifecycle
on_event min_frequency callback l = record l {
  event_timers = l.event_timers ++ (new_timer min_frequency callback ∷ []);
}

unfoldable pub every : ℕ → ℕ → Lifecycle → Lifecycle
every frequency callback l = record l {
  every_timers = l.every_timers ++ (new_timer frequency callback ∷ []);
}

unfoldable pub terminate : Lifecycle → Lifecycle
terminate l = record l { terminated_internally = true }

-- `_sigint_sigterm_handler`
unfoldable pub sigint_sigterm_handler : Lifecycle → Lifecycle
sigint_sigterm_handler l =
    if l.terminated_externally then l else record l { terminated_externally = true }

-- The test that every callback stands behind.
abbrev pub is_terminating : Lifecycle → Bool
is_terminating l = l.terminated_internally || (l.terminated_externally || l.fatal_termination)
