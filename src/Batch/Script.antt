-- ===== src/Batch/Script.antt =====
-- `TxManager.execute` of `pyflex/transactional.py`: the script that it sends.
use pyflex.Base.{ℕ, List, [], ◌∷◌, ◌++◌, length}
use pyflex.Batch.Bytes.{to_bytes}

-- `Invocation`: the bytes of its address and of its call data.
pub record Invocation : Type 0 where
  pub address : List ℕ
  pub calldata : List ℕ

unfoldable pub script_entry : Invocation → List ℕ
unfolding to_bytes
script_entry i = i.address ++ (to_bytes 32 (length i.calldata) ++ i.calldata)

unfoldable pub script : List Invocation → List ℕ
unfolding script_entry
script [] = []
script (i ∷ invocations) = script_entry i ++ script invocations
