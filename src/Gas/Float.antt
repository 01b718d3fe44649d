-- ===== src/Gas/Float.antt =====
-- The doubles that `GeometricGasPrice.get_gas_price` of `pyflex/gas.py` computes with: all are
-- positive, and none is so small that it would be denormal.
use pyflex.Base.{ℕ, ◌+◌, ◌-◌, ◌*◌, ◌/◌, ◌^◌, ltb, if◌then◌else◌, Bool}
use pyflex.Base.Results.{Result, ok, err, overflow_error}
use pyflex.Decimal.{round_sig, float_limit}

-- `finite n e` is `n / 2 ^ e`.
pub data Float : Type 0 where
  finite : ℕ → ℕ → Float
  infinite : Float

-- `float(n)`, of which a multiplication of an `int` with a `float` makes use.
unfoldable pub of_int : ℕ → Result Float
unfolding round_sig
of_int n =
    let r = round_sig 2 53 n in if ltb r float_limit then ok (finite r 0) else err overflow_error

-- A product beyond the largest double is infinite.
unfoldable pub mul : Float → ℕ → ℕ → Float
unfolding round_sig
mul infinite m f = infinite
mul (finite n e) m f =
    let r = round_sig 2 53 (n * m) in
    if ltb r (float_limit * 2 ^ (e + f)) then finite r (e + f) else infinite

-- `limit < x`, compared exactly.
unfoldable pub exceeds : Float → ℕ → Bool
exceeds infinite limit = Bool.true
exceeds (finite n e) limit = ltb (limit * 2 ^ e) n

-- `math.ceil(x)`
unfoldable pub ceil : Float → Result ℕ
ceil infinite = err overflow_error
ceil (finite n e) = ok ((n + (2 ^ e - 1)) / 2 ^ e)
