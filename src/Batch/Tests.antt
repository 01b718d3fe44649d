-- ===== src/Batch/Tests.antt =====
-- `pyflex/transactional.py`: a batch that the theorems are tried on.
use pyflex.Base.{List, [], ◌∷◌, ◌≡◌, refl, replicate, length, arith}
use pyflex.Batch.Script.{Invocation, script}
use pyflex.Batch.Decoding.{read_script, script_roundtrip}

abbrev batch : List Invocation
batch =
    record { address = replicate 20 7; calldata = 1 ∷ 2 ∷ 3 ∷ [] }
    ∷ record { address = replicate 20 9; calldata = [] }
    ∷ []

script_roundtrip_example : read_script (length batch) (script batch) ≡ batch
script_roundtrip_example = script_roundtrip batch ((refl, omega arith), ((refl, omega arith), tt))
