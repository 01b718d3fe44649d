-- ===== src/Lifecycle/Callbacks.antt =====
-- `AsyncCallback` of `pyflex/util.py`: at most one thread at a time.
use pyflex.Base.{ℕ, ◌+◌, Bool, true, false, List, [], ◌∷◌, ◌≡◌, refl, sym, subst, arith}
use pyflex.Lifecycle.Callback.{
  Thread, no_thread, alive, ended, Callback, start, trigger_from, end_from, Event, triggered,
  thread_ends, waited, step, steps,
}

-- The threads that have been started are those that have ended, and one more while it is alive.
abbrev pub IsBalanced : Thread → ℕ → ℕ → Type 0
IsBalanced alive started completed = started ≡ completed + 1
IsBalanced no_thread started completed = started ≡ completed
IsBalanced ended started completed = started ≡ completed

abbrev pub IsSingle : Callback → Type 0
IsSingle c = IsBalanced c.thread c.started c.completed

start-IsSingle : (b : Bool) (c : Callback) → c.started ≡ c.completed → IsSingle (start b c)
unfolding start
start-IsSingle true c h = omega arith
start-IsSingle false c h = h

trigger-IsSingle :
    (t : Thread) (b : Bool) (c : Callback)
    → c.thread ≡ t
    → IsBalanced t c.started c.completed
    → IsSingle (trigger_from t b c).1
unfolding trigger_from
trigger-IsSingle alive b c e h = subst (λ t. IsBalanced t c.started c.completed) (sym e) h
trigger-IsSingle no_thread b c e h = start-IsSingle b c h
trigger-IsSingle ended b c e h = start-IsSingle b c h

end-IsSingle :
    (t : Thread) (c : Callback)
    → c.thread ≡ t
    → IsBalanced t c.started c.completed
    → IsSingle (end_from t c)
unfolding end_from
end-IsSingle alive c e h = omega arith
end-IsSingle no_thread c e h = subst (λ t. IsBalanced t c.started c.completed) (sym e) h
end-IsSingle ended c e h = subst (λ t. IsBalanced t c.started c.completed) (sym e) h

step-IsSingle : (e : Event) (c : Callback) → IsSingle c → IsSingle (step e c)
unfolding step
step-IsSingle (triggered b) c h = trigger-IsSingle c.thread b c refl h
step-IsSingle thread_ends c h = end-IsSingle c.thread c refl h
step-IsSingle waited c h = end-IsSingle c.thread c refl h

-- Whatever the order in which a callback is triggered, waited for and its threads end, and whether
-- or not its threads can be started: the threads that it has started are exactly those that have
-- ended, and one more while its latest thread is alive.
pub steps-IsSingle : (es : List Event) (c : Callback) → IsSingle c → IsSingle (steps es c)
unfolding steps
steps-IsSingle [] c h = h
steps-IsSingle (e ∷ es) c h = steps-IsSingle es (step e c) (step-IsSingle e c h)
