-- ===== src/Batch/Bytes.antt =====
-- `int_to_bytes32` and `bytes_to_int` of `pyflex/util.py`. A byte is a number below 256.
use pyflex.Base.{ℕ, zero, suc, ◌+◌, ◌*◌, ◌/◌, ◌%◌, ◌^◌, List, [], ◌∷◌, ◌++◌, if◌then◌else◌, ltb}
use pyflex.Base.Int.{ℤ, pos, negsuc}
use pyflex.Base.Results.{Result, ok, err, overflow_error}

-- `n.to_bytes(k, byteorder='big')`, for a number that fits.
unfoldable pub to_bytes : ℕ → ℕ → List ℕ
to_bytes zero n = []
to_bytes (suc k) n = to_bytes k (n / 256) ++ (n % 256 ∷ [])

-- `value.to_bytes(32, byteorder='big')`
unfoldable pub int_to_bytes32 : ℤ → Result (List ℕ)
unfolding to_bytes
int_to_bytes32 (negsuc n) = err overflow_error
int_to_bytes32 (pos n) = if ltb n (256 ^ 32) then ok (to_bytes 32 n) else err overflow_error

unfoldable pub from_bytes : ℕ → List ℕ → ℕ
from_bytes acc [] = acc
from_bytes acc (b ∷ bytes) = from_bytes (acc * 256 + b) bytes

-- `int.from_bytes(value, byteorder='big')`, of bytes, or of a text's characters below 256.
unfoldable pub bytes_to_int : List ℕ → ℕ
unfolding from_bytes
bytes_to_int value = from_bytes 0 value
