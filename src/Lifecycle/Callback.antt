-- ===== src/Lifecycle/Callback.antt =====
-- `AsyncCallback` of `pyflex/util.py`: a callback in a thread of its own.
use pyflex.Base.{ℕ, ◌+◌, Bool, true, false, List, [], ◌∷◌, ◌++◌, if◌then◌else◌}

-- `self.thread`: `None`, a thread that is alive, and one that has ended.
pub data Thread : Type 0 where
  no_thread alive ended : Thread

-- `AsyncCallback`, with the numbers of threads that it has started and that have ended.
pub record Callback : Type 0 where
  pub thread : Thread
  pub started : ℕ
  pub completed : ℕ

-- `AsyncCallback.__init__`
abbrev pub new_callback : Callback
new_callback = record { thread = no_thread; started = 0; completed = 0 }

-- What a thread calls, in its order.
pub data Call : Type 0 where
  on_start callback on_finish : Call

-- `thread_target`, by whether `on_start` and `on_finish` are there and the callback ends without an
-- exception.
unfoldable pub thread_target : Bool → Bool → Bool → List Call
thread_target has_start has_finish succeeds =
    (if has_start then on_start ∷ [] else [])
    ++ (callback ∷ (if succeeds then (if has_finish then on_finish ∷ [] else []) else []))

unfoldable pub start : Bool → Callback → Callback
start true c = record { thread = alive; started = c.started + 1; completed = c.completed }
start false c = record c { thread = no_thread }

-- `AsyncCallback.trigger`, by whether the thread can be started.
unfoldable pub trigger_from : Thread → Bool → Callback → Bool × Callback
unfolding start
trigger_from alive can_start c = (false, c)
trigger_from no_thread can_start c = (true, start can_start c)
trigger_from ended can_start c = (true, start can_start c)

abbrev pub trigger : Bool → Callback → Bool × Callback
trigger can_start c = trigger_from c.thread can_start c

-- The thread ends by itself.
unfoldable pub end_from : Thread → Callback → Callback
end_from alive c = record { thread = ended; started = c.started; completed = c.completed + 1 }
end_from no_thread c = c
end_from ended c = c

abbrev pub end_thread : Callback → Callback
end_thread c = end_from c.thread c

-- `AsyncCallback.wait`: `join` returns when the thread has ended.
abbrev pub wait : Callback → Callback
wait c = end_thread c

-- What may happen to a callback, in any order.
pub data Event : Type 0 where
  triggered : Bool → Event
  thread_ends : Event
  waited : Event

unfoldable pub step : Event → Callback → Callback
unfolding trigger_from end_from
step (triggered can_start) c = (trigger can_start c).1
step thread_ends c = end_thread c
step waited c = wait c

unfoldable pub steps : List Event → Callback → Callback
unfolding step
steps [] c = c
steps (e ∷ es) c = steps es (step e c)
