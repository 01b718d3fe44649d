-- ===== src/Lifecycle/Init.antt =====
-- `pyflex/lifecycle.py`: the loops that wait for the node and for a thread to start, over the
-- answers that they get. `none` says that a loop is still waiting at their end.
use pyflex.Base.{ℕ, ◌+◌, Bool, true, false, Option, none, some, List, [], ◌∷◌, ◌==◌, if◌then◌else◌}

-- `while self.web3.net.peer_count == 0`, where an exception, `none`, ends the wait.
unfoldable pub wait_for_peer : List (Option ℕ) → Bool
wait_for_peer [] = false
wait_for_peer (none ∷ counts) = true
wait_for_peer (some count ∷ counts) =
    let rest = wait_for_peer counts in if count == 0 then rest else true

-- `while self.web3.eth.syncing`
unfoldable pub wait_until_synced : List Bool → Bool
wait_until_synced [] = false
wait_until_synced (syncing ∷ more) =
    let rest = wait_until_synced more in if syncing then rest else true

-- `_wait_for_init`, by whether the client is a `TestRPC`: whether it has come to its end.
unfoldable pub wait_for_init : Bool → List (Option ℕ) → List Bool → Bool
unfolding wait_for_peer wait_until_synced
wait_for_init test_rpc counts syncings =
    if test_rpc then true else if wait_for_peer counts then wait_until_synced syncings else false

-- `_start_thread_safely`, by whether each attempt succeeds: the seconds that it sleeps.
unfoldable pub start_thread_safely : List Bool → Option ℕ
start_thread_safely [] = none
start_thread_safely (true ∷ attempts) = some 0
start_thread_safely (false ∷ attempts) = elim (start_thread_safely attempts) [
  | none ↦ none
  | some seconds ↦ some (10 + seconds)
]
