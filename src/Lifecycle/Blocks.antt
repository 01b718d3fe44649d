-- ===== src/Lifecycle/Blocks.antt =====
-- `pyflex/lifecycle.py`: what new blocks, timers and events call.
use pyflex.Base.{ℕ, Bool, true, false, Option, none, some, List, [], ◌∷◌, if◌then◌else◌, leb}
use pyflex.Base.Results.{Result, ok, err, assertion_error}
use pyflex.Lifecycle.Callback.{Callback, new_callback, trigger, trigger_from, wait, end_from}
use pyflex.Lifecycle.State.{Lifecycle, Timer, is_terminating}

-- What `new_block_callback` asks the clock and the node, and whether a thread can be started.
pub record NewBlock : Type 0 where
  pub now : ℕ
  pub number : ℕ
  pub syncing : Bool
  pub max_block_number : ℕ
  pub can_start : Bool

abbrev pub trigger_block : Bool → Option Callback → Option Callback
trigger_block can_start none = none
trigger_block can_start (some c) = some (trigger can_start c).1

-- `new_block_callback` in `_start_watching_blocks`
unfoldable pub new_block_callback : NewBlock → Lifecycle → Lifecycle
unfolding trigger_from
new_block_callback b l =
    let seen = record l { last_block_time = some b.now } in
    if b.syncing
    then seen
    else if leb b.max_block_number b.number
    then (if is_terminating l
        then seen
        else record seen { on_block_callback = trigger_block b.can_start l.on_block_callback })
    else seen

-- `event_filter.get_new_entries()[-1:]`
unfoldable pub last_entry : List NewBlock → List NewBlock
last_entry [] = []
last_entry (b ∷ []) = b ∷ []
last_entry (b ∷ c ∷ bs) = last_entry (c ∷ bs)

unfoldable pub callback_for_each : List NewBlock → Lifecycle → Lifecycle
unfolding new_block_callback
callback_for_each [] l = l
callback_for_each (b ∷ bs) l = callback_for_each bs (new_block_callback b l)

-- A turn of `new_block_watch`. An exception of one of the three kinds that are caught leaves the
-- state as it is; the filter is then made again.
unfoldable pub new_block_watch : Option (List NewBlock) → Lifecycle → Lifecycle
unfolding last_entry callback_for_each
new_block_watch none l = l
new_block_watch (some entries) l = callback_for_each (last_entry entries) l

-- `_start_watching_blocks`: whether a filter thread is registered, too.
unfoldable pub start_watching_blocks : Lifecycle → Bool × Lifecycle
start_watching_blocks l = elim l.block_function [
  | none ↦ (false, l)
  | some _ ↦ (true, record l { on_block_callback = some new_callback })
]

abbrev pub has_timers : List Timer → Bool
has_timers [] = false
has_timers (_ ∷ _) = true

-- `_start_every_timers`, `_start_every_timer` and `_start_event_timer`, as far as they change the
-- state.
unfoldable pub start_every_timers : Lifecycle → Lifecycle
start_every_timers l =
    if has_timers l.every_timers
    then record l { at_least_one_every = true }
    else if has_timers l.event_timers
    then record l { at_least_one_every = true }
    else l

-- `func` of a timer, by whether the keeper is terminating: the callback it leaves, and the delays
-- of the timers that it sets up.
unfoldable pub every_func : Bool → Bool → Timer → Timer × List ℕ
unfolding trigger_from
every_func terminating can_start t = (
  if terminating then t else record t { callback = (trigger can_start t.callback).1 },
  t.seconds ∷ [],
)

-- A turn of `func` of an event: it triggers the callback and waits for it, or raises an
-- `AssertionError`, after which a new thread begins.
unfoldable pub event_func : Bool → Bool → Timer → Result Timer
unfolding trigger_from end_from
event_func terminating can_start t =
    let (invoked, callback) = trigger can_start t.callback in
    if terminating
    then ok t
    else if invoked
    then ok (record t { callback = wait callback })
    else err assertion_error
