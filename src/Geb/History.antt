-- ===== src/Geb/History.antt =====
-- `SAFEEngine.past_safe_modifications` of `pyflex/gf.py`: the events of a range of blocks, asked of the
-- node in chunks.
use pyflex.Base.{
  ℕ, zero, suc, ◌+◌, min, Bool, leb, ltb, ◌&&◌, if◌then◌else◌, List, [], ◌∷◌, ◌++◌, Option, none,
  some, somes,
}
use pyflex.Base.Results.{Result, ok, err, ◌>>=◌, traverse, assertion_error}
use pyflex.Chain.{Codec, same_octets}
use pyflex.Geb.Types.{CollateralType}
use pyflex.Geb.Engine.{LogModifySafeCollateralization, from_event}

-- `list(filter(lambda l: l.collateral_type == collateral_type.name, log_modifications))`
unfoldable pub of_name :
    List ℕ → List LogModifySafeCollateralization → List LogModifySafeCollateralization
of_name name [] = []
of_name name (l ∷ logs) =
    let rest = of_name name logs in if same_octets l.collateral_type name then l ∷ rest else rest

unfoldable pub of_type :
    Option CollateralType
    → List LogModifySafeCollateralization
    → List LogModifySafeCollateralization
unfolding of_name
of_type none logs = logs
of_type (some collateral_type) logs = of_name collateral_type.name logs

-- One chunk: the node's events of the blocks, read and filtered.
unfoldable pub chunk :
    {Raw : Type 0}
    → (Raw → Result (Option LogModifySafeCollateralization))
    → Option CollateralType
    → (ℕ → ℕ → Result (List Raw))
    → ℕ
    → ℕ
    → Result (List LogModifySafeCollateralization)
unfolding of_type
chunk parse collateral_type get_logs start end = do
  logs ← get_logs start end
  log_modifications ← traverse parse logs
  ok (of_type collateral_type (somes log_modifications))

-- `retval.extend` and the rest of the loop, which an exception ends.
unfoldable pub extend :
    {E : Type 0} → Result (List E) → Option (Result (List E)) → Option (Result (List E))
extend (err raised) rest = some (err raised)
extend (ok logs) none = none
extend (ok logs) (some (ok retval)) = some (ok (logs ++ retval))
extend (ok logs) (some (err raised)) = some (err raised)

-- The loop, whose first round is always made; `none` if the fuel is used up.
unfoldable pub chunks :
    {E : Type 0}
    → (ℕ → ℕ → Result (List E))
    → (to_block chunk_size fuel start : ℕ) → Option (Result (List E))
unfolding extend
chunks fetch to_block chunk_size zero start = none
chunks fetch to_block chunk_size (suc fuel) start =
    let rest = chunks fetch to_block chunk_size fuel (start + chunk_size) in
    extend (fetch start (min to_block (start + chunk_size)))
      (if leb (start + chunk_size) to_block then rest else some (ok []))

-- The newest block: the current one by default.
unfoldable pub newest : Option ℕ → ℕ → ℕ
newest none current_block = current_block
newest (some to_block) current_block = to_block

-- `past_safe_modifications`, with as many rounds as there are blocks.
unfoldable pub past_safe_modifications :
    {Raw : Type 0}
    → (is_utf8 : List ℕ → Bool) → Codec Raw
    → (get_logs : ℕ → ℕ → Result (List Raw)) → (current_block from_block : ℕ)
    → (to_block : Option ℕ) → Option CollateralType
    → (chunk_size : ℕ) → Option (Result (List LogModifySafeCollateralization))
unfolding newest chunk chunks from_event
past_safe_modifications is_utf8 codec get_logs current_block from_block to_block collateral_type
      chunk_size =
    let last = newest to_block current_block in
    if ltb from_block current_block
      && (leb from_block last && (leb last current_block && ltb 0 chunk_size))
    then chunks (chunk (from_event is_utf8 codec) collateral_type get_logs) last chunk_size
        (suc last) from_block
    else some (err assertion_error)
