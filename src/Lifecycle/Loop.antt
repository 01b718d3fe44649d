-- ===== src/Lifecycle/Loop.antt =====
-- `Lifecycle._main_loop`, and the filter threads of `pyflex/__init__.py`.
use pyflex.Base.{ℕ, ◌-◌, Bool, true, false, not, ◌&&◌, ◌||◌, Option, none, some, List, [], ◌∷◌}
use pyflex.Base.{if◌then◌else◌, ltb}
use pyflex.Lifecycle.State.{Lifecycle}

-- A registered thread: whether it has the fields `_args` and `_kwargs`, which `Thread.run` deletes
-- at its end, and whether it is alive.
pub record FilterThread : Type 0 where
  pub has_args : Bool
  pub is_alive : Bool

unfoldable pub filter_thread_alive : FilterThread → Bool
filter_thread_alive t = t.has_args || not t.is_alive

unfoldable pub all_filter_threads_alive : List FilterThread → Bool
unfolding filter_thread_alive
all_filter_threads_alive [] = true
all_filter_threads_alive (t ∷ ts) = filter_thread_alive t && all_filter_threads_alive ts

unfoldable pub any_filter_thread_present : List FilterThread → Bool
any_filter_thread_present [] = false
any_filter_thread_present (_ ∷ _) = true

-- What a turn of the loop meets after its second of sleep: whether the keeper's logic or a signal
-- has asked for termination, the time of the latest block, and the threads, the clock and the node.
pub record Turn : Type 0 where
  pub asked_internally : Bool
  pub asked_externally : Bool
  pub block_time : Option ℕ
  pub threads : List FilterThread
  pub now : ℕ
  pub syncing : Bool

unfoldable pub overtaken : Turn → Lifecycle → Lifecycle
overtaken m l = record l {
  terminated_internally = l.terminated_internally || m.asked_internally;
  terminated_externally = l.terminated_externally || m.asked_externally;
  last_block_time = elim m.block_time [ none ↦ l.last_block_time | some t ↦ some t ];
}

-- `(now - self._last_block_time).total_seconds() > 300`
unfoldable pub is_stale : ℕ → Option ℕ → Bool
is_stale now none = false
is_stale now (some last) = ltb 300000000 (now - last)

abbrev pub fatal : Lifecycle → Bool × Lifecycle
fatal l = (true, record l { fatal_termination = true })

-- The tests of a turn, in their order; whether the loop ends.
unfoldable pub checks : Turn → Lifecycle → Bool × Lifecycle
unfolding all_filter_threads_alive is_stale
checks m l =
    if l.terminated_internally
    then (true, l)
    else if l.terminated_externally
    then (true, l)
    else if not (all_filter_threads_alive m.threads)
    then fatal l
    else if is_stale m.now l.last_block_time
    then (if m.syncing then (false, l) else fatal l)
    else (false, l)

unfoldable pub turn : Turn → Lifecycle → Bool × Lifecycle
unfolding overtaken checks
turn m l = checks m (overtaken m l)

abbrev pub after_turn : Bool × Lifecycle → (Lifecycle → Bool × Lifecycle) → Bool × Lifecycle
after_turn (true, l) next = (true, l)
after_turn (false, l) next = next l

-- The loop, by whether its condition holds: nothing in it changes the condition.
unfoldable pub loop : List Turn → Lifecycle → Bool × Lifecycle
unfolding turn
loop [] l = (false, l)
loop (m ∷ ms) l = after_turn (turn m l) (loop ms)

-- `_main_loop`
unfoldable pub main_loop : List FilterThread → List Turn → Lifecycle → Bool × Lifecycle
unfolding any_filter_thread_present loop
main_loop registered ms l =
    if any_filter_thread_present registered || l.at_least_one_every then loop ms l else (true, l)
