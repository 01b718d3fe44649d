-- ===== src/Lifecycle/Termination.antt =====
-- `pyflex/lifecycle.py`: why the main loop ends, and what follows.
use pyflex.Base.{ℕ, Bool, true, false, ◌||◌, Option, List, [], ◌∷◌}
use pyflex.Base.{
  ◌+◌, ◌<◌, not, none, some, subst, ◌≡◌, ◌⊎◌, inl, inr, refl, arith, All, Any, Bool-cases,
}
use pyflex.Base.Results.{ok, err, assertion_error}
use pyflex.Lifecycle.State.{Lifecycle, is_terminating, on_startup, on_shutdown, on_block, set_once}
use pyflex.Lifecycle.Loop.{
  FilterThread, filter_thread_alive, all_filter_threads_alive, any_filter_thread_present, Turn,
  overtaken, is_stale, checks, turn, after_turn, loop, main_loop,
}

-- Threads that have ended, with the fields deleted that `Thread.run` deletes, count as alive: the
-- main loop does not see that they are dead.
all_filter_threads_alive_ended :
    (ts : List FilterThread)
    → All (λ t. (t.has_args ≡ false) × (t.is_alive ≡ false)) ts
    → all_filter_threads_alive ts ≡ true
unfolding all_filter_threads_alive filter_thread_alive
all_filter_threads_alive_ended [] h = refl
all_filter_threads_alive_ended (t ∷ ts) ((e, f), h) =
    let rest = all_filter_threads_alive_ended ts h in ground arith

-- What a turn that ends the loop has seen.
Ends : Bool × Lifecycle → Type 0
Ends x = x.0 ≡ true → is_terminating x.1 ≡ true

checks-Ends : (m : Turn) (l : Lifecycle) → Ends (checks m l)
unfolding checks Ends
checks-Ends m l = ground arith

not_ended : (l : Lifecycle) → Ends (false, l)
unfolding Ends
not_ended l = λ h. ground arith

after_turn-Ends :
    (x : Bool × Lifecycle) (next : Lifecycle → Bool × Lifecycle)
    → Ends x
    → ((l : Lifecycle) → Ends (next l))
    → Ends (after_turn x next)
unfolding Ends
after_turn-Ends (true, l) next h f = h
after_turn-Ends (false, l) next h f = f l

loop-Ends : (ms : List Turn) (l : Lifecycle) → Ends (loop ms l)
unfolding loop turn
loop-Ends [] l = not_ended l
loop-Ends (m ∷ ms) l =
    after_turn-Ends (checks m (overtaken m l)) (loop ms) (checks-Ends m (overtaken m l))
      (loop-Ends ms)

-- If the main loop has ended, then the keeper is terminating, or there was nothing to wait for:
-- neither a filter thread nor a timer nor an event.
pub main_loop_ended :
    (ts : List FilterThread) (ms : List Turn) (l : Lifecycle)
    → (main_loop ts ms l).0 ≡ true
    → (is_terminating (main_loop ts ms l).1 ≡ true)
      ⊎ ((any_filter_thread_present ts ≡ false) × (l.at_least_one_every ≡ false))
unfolding main_loop Ends
main_loop_ended ts ms l h = let e = loop-Ends ms l in ground arith

-- The main loop takes the thread for dead.
abbrev pub IsLost : FilterThread → Type 0
IsLost t = (t.has_args ≡ false) × (t.is_alive ≡ true)

-- The time of the latest block, in microseconds, once a turn has begun.
abbrev pub known_time : Turn → Option ℕ → Option ℕ
known_time m last = elim m.block_time [ none ↦ last | some t ↦ some t ]

-- More than 300 seconds have passed since then.
abbrev pub IsLate : ℕ → Option ℕ → Type 0
IsLate now none = ⊥
IsLate now (some last) = last + 300000000 < now

-- A turn, with the time of the latest block, that asks for the end of the process with status 10:
-- nobody asks for an end in it, and a thread is taken for dead or blocks have stopped.
abbrev pub IsFatal : Turn → Option ℕ → Type 0
IsFatal m last =
    (m.asked_internally ≡ false)
    × (m.asked_externally ≡ false)
    × (Any IsLost m.threads ⊎ ((m.syncing ≡ false) × IsLate m.now last))

-- One of the turns is such a turn, with the time of the latest block from the turns before it.
abbrev pub HasFatal : Option ℕ → List Turn → Type 0
HasFatal last [] = ⊥
HasFatal last (m ∷ ms) = IsFatal m (known_time m last) ⊎ HasFatal (known_time m last) ms

all_filter_threads_alive-IsLost :
    (ts : List FilterThread) → all_filter_threads_alive ts ≡ false → Any IsLost ts
unfolding all_filter_threads_alive filter_thread_alive
all_filter_threads_alive-IsLost [] h = ground arith
all_filter_threads_alive-IsLost (t ∷ ts) h = elim (Bool-cases (t.has_args || not t.is_alive)) [
  | inl e ↦ inr (all_filter_threads_alive-IsLost ts (ground arith))
  | inr e ↦ inl (ground arith)
]

is_stale-IsLate : (now : ℕ) (last : Option ℕ) → is_stale now last ≡ true → IsLate now last
unfolding is_stale
is_stale-IsLate now none h = ground arith
is_stale-IsLate now (some last) h = ground arith

checks-fatal :
    (m : Turn) (l : Lifecycle)
    → l.fatal_termination ≡ false
    → (checks m l).1.fatal_termination ≡ true
    → (l.terminated_internally ≡ false)
      × (l.terminated_externally ≡ false)
      × (Any IsLost m.threads ⊎ ((m.syncing ≡ false) × IsLate m.now l.last_block_time))
unfolding checks
checks-fatal m l e f = (
  ground arith,
  ground arith,
  elim (Bool-cases (all_filter_threads_alive m.threads)) [
    | inl h ↦ inr (ground arith, is_stale-IsLate m.now l.last_block_time (ground arith))
    | inr h ↦ inl (all_filter_threads_alive-IsLost m.threads h)
  ],
)

turn-IsFatal :
    (m : Turn) (l : Lifecycle)
    → l.fatal_termination ≡ false
    → (turn m l).1.fatal_termination ≡ true
    → IsFatal m (known_time m l.last_block_time)
unfolding turn overtaken
turn-IsFatal m l e f =
    let (internally, externally, why) = checks-fatal m (overtaken m l) e f in
    (ground arith, ground arith, why)

checks-running :
    (m : Turn) (l : Lifecycle)
    → l.fatal_termination ≡ false
    → (checks m l).0 ≡ false
    → (checks m l).1.fatal_termination ≡ false
unfolding checks
checks-running m l e f = ground arith

checks-time : (m : Turn) (l : Lifecycle) → (checks m l).1.last_block_time ≡ l.last_block_time
unfolding checks
checks-time m l = ground arith

after_turn-HasFatal :
    (m : Turn) (ms : List Turn) (last : Option ℕ) (x : Bool × Lifecycle)
    (next : Lifecycle → Bool × Lifecycle)
    → (x.1.fatal_termination ≡ true → IsFatal m last)
    → (x.0 ≡ false → x.1.fatal_termination ≡ false)
    → x.1.last_block_time ≡ last
    → ((l : Lifecycle)
        → l.fatal_termination ≡ false
        → (next l).1.fatal_termination ≡ true
        → HasFatal l.last_block_time ms)
    → (after_turn x next).1.fatal_termination ≡ true
    → IsFatal m last ⊎ HasFatal last ms
after_turn-HasFatal m ms last (true, l) next h k t f e = inl (h e)
after_turn-HasFatal m ms last (false, l) next h k t f e =
    inr (subst (λ d. HasFatal d ms) t (f l (k refl) e))

loop-HasFatal :
    (ms : List Turn) (l : Lifecycle)
    → l.fatal_termination ≡ false
    → (loop ms l).1.fatal_termination ≡ true
    → HasFatal l.last_block_time ms
unfolding loop turn overtaken
loop-HasFatal [] l e f = ground arith
loop-HasFatal (m ∷ ms) l e f =
    let o = overtaken m l in
    after_turn-HasFatal m ms (known_time m l.last_block_time) (turn m l) (loop ms)
      (turn-IsFatal m l e) (checks-running m o e) (checks-time m o) (loop-HasFatal ms) f

-- If the main loop leaves a keeper with a fatal termination that had none, then there was a turn in
-- which nobody asks for an end, and in which either a filter thread is alive and without its
-- arguments, or the node is not syncing and the time of the latest block, as the
-- keeper had it at first or as the turns up to this one have reported it, is more than 300
-- seconds old.
pub main_loop-HasFatal :
    (ts : List FilterThread) (ms : List Turn) (l : Lifecycle)
    → l.fatal_termination ≡ false
    → (main_loop ts ms l).1.fatal_termination ≡ true
    → HasFatal l.last_block_time ms
unfolding main_loop
main_loop-HasFatal ts ms l e f =
    elim (Bool-cases (any_filter_thread_present ts || l.at_least_one_every)) [
      | inl h ↦ loop-HasFatal ms l e (ground arith)
      | inr h ↦ ground arith
    ]

-- The functions for startup, shutdown and new blocks can each be registered only once: whenever
-- one has been, the next call raises an `AssertionError`.
register_once :
    (f g : ℕ) (l startup shutdown block : Lifecycle)
    → on_startup f l ≡ ok startup
    → on_shutdown f l ≡ ok shutdown
    → on_block f l ≡ ok block
    → (on_startup g startup ≡ err assertion_error)
      × (on_shutdown g shutdown ≡ err assertion_error)
      × (on_block g block ≡ err assertion_error)
unfolding on_startup on_shutdown on_block set_once
register_once f g l startup shutdown block h i j = (ground arith, ground arith, ground arith)
