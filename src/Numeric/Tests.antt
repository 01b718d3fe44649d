-- ===== src/Numeric/Tests.antt =====
-- Runs of `pyflex/numeric.py`, with inputs of `tests/test_numeric.py` among them, and the theorems
-- at concrete values.
use pyflex.Base.{ℕ, ◌+◌, ◌-◌, ◌*◌, ◌/◌, ◌^◌, ◌≤◌, ◌≡◌, ◌≢◌, refl, true, false, arith}
use pyflex.Base.Int.{pos, negsuc, signed}
use pyflex.Base.Results.{ok, err, ◌>>=◌, arithmetic_error}
use pyflex.Numeric.Value
use pyflex.Numeric.Wad
use pyflex.Numeric.Ray
use pyflex.Numeric.Rad
use pyflex.Numeric.Classes.{
  wad, ray, rad, mul, truediv, round, add, sub, mod_value, eq, lt, le, gt, ge,
}
use pyflex.Numeric.Precision.{mul_exact, mul-error}
use pyflex.Numeric.Division.{truediv-floor}
use pyflex.Numeric.Convert.{convert_roundtrip}
use pyflex.Numeric.Integer.{round-nearest}
use pyflex.Numeric.Order.{compare_lem, mixed_classes}

-- `Wad(2000000000000000000) * Wad(3000000000000000000) == Wad(6000000000000000000)`
multiply_wads : Wad.mul (pos (2 * 10 ^ 18)) (Value.wad (pos (3 * 10 ^ 18))) ≡ ok (pos (6 * 10 ^ 18))
unfolding Wad.mul
multiply_wads = refl

-- `Wad(2) * Ray(3000000000000000000000000000) == Wad(6)`
multiply_by_ray : Wad.mul (pos 2) (Value.ray (pos (3 * 10 ^ 27))) ≡ ok (pos 6)
unfolding Wad.mul
multiply_by_ray = refl

-- `Wad(4) / Wad(2) == Wad(2000000000000000000)`
divide_wads : Wad.truediv (pos 4) (Value.wad (pos 2)) ≡ ok (pos (2 * 10 ^ 18))
unfolding Wad.truediv
divide_wads = refl

-- Eleven ones on either side: 29 digits do not survive a product with 1.
long_product : Rad.mul (pos (10 ^ 28 + 1)) (Value.int (pos 1)) ≡ ok (pos (10 ^ 28))
unfolding Rad.mul
long_product = refl

-- `round(Wad.from_number(123.4567), 2) == Wad.from_number(123.46)`, and a tie to even.
round_wads :
    (Wad.round (pos (1234567 * 10 ^ 14)) (pos 2) ≡ pos (12346 * 10 ^ 16))
    × (Wad.round (negsuc (25 * 10 ^ 17 - 1)) (pos 0) ≡ negsuc (2 * 10 ^ 18 - 1))
unfolding Wad.round
round_wads = (refl, refl)

-- Python's remainder of a negative dividend.
modulo : Wad.mod_value (negsuc 6) (Value.wad (pos 4)) ≡ ok (pos 1)
unfolding Wad.mod_value
modulo = refl

mul_exact_example : mul wad (negsuc 4) (Value.ray (pos (3 * 10 ^ 26))) ≡ ok (negsuc 0)
mul_exact_example = mul_exact wad ray (negsuc 4) (pos (3 * 10 ^ 26)) (omega arith)

mul-error_example :
    (z : ℕ) × (mul rad (pos (10 ^ 57 + 7)) (Value.wad (pos 3)) ≡ ok (pos z))
    × (2 * (10 ^ 27 * (z * 10 ^ 18)) ≤ 2 * (10 ^ 27 * ((10 ^ 57 + 7) * 3)) + (10 ^ 57 + 7) * 3)
    × (2 * (10 ^ 27 * ((10 ^ 57 + 7) * 3))
        ≤ 2 * (10 ^ 27 * (z * 10 ^ 18 + 10 ^ 18)) + (10 ^ 57 + 7) * 3)
mul-error_example = mul-error rad wad (pos (10 ^ 57 + 7)) (pos 3) (omega arith)

truediv-floor_example :
    (z : ℕ) × (truediv ray (negsuc 1) (Value.ray (pos 3)) ≡ ok (signed true z))
    × (2 * 10 ^ 27 / 3 ≤ z)
    × (z ≤ 2 * 10 ^ 27 / 3 + 1)
truediv-floor_example =
    truediv-floor ray (negsuc 1) (pos 3) (omega arith) (omega arith) (omega arith)

convert_roundtrip_example :
    ((Ray.new (Value.wad (negsuc 9)) >>= λ r. Wad.new (Value.ray r)) ≡ ok (negsuc 9))
    × ((Rad.new (Value.wad (negsuc 9)) >>= λ r. Wad.new (Value.rad r)) ≡ ok (negsuc 9))
    × ((Rad.new (Value.ray (negsuc 9)) >>= λ r. Ray.new (Value.rad r)) ≡ ok (negsuc 9))
convert_roundtrip_example = convert_roundtrip (negsuc 9) (omega arith)

round-nearest_example :
    (q : ℕ) × (round wad (pos (1234567 * 10 ^ 14)) (pos 2) ≡ pos (q * 10 ^ 16))
    × (2 * (q * 10 ^ 16) ≤ 2 * (1234567 * 10 ^ 14) + 10 ^ 16)
    × (2 * (1234567 * 10 ^ 14) ≤ 2 * (q * 10 ^ 16) + 10 ^ 16)
round-nearest_example = round-nearest wad (pos (1234567 * 10 ^ 14)) 2 (omega arith)

compare_lem_example :
    (eq rad (pos 2) (Value.rad (pos 3)) ≡ ok false)
    × (lt rad (pos 2) (Value.rad (pos 3)) ≡ ok true)
    × (le rad (pos 2) (Value.rad (pos 3)) ≡ ok true)
    × (gt rad (pos 2) (Value.rad (pos 3)) ≡ ok false)
    × (ge rad (pos 2) (Value.rad (pos 3)) ≡ ok false)
compare_lem_example = compare_lem rad (pos 2) (pos 3)

wad≢ray : wad ≢ ray
wad≢ray e = cc

mixed_classes_example :
    (add wad (pos 2) (Value.ray (pos 3)) ≡ err arithmetic_error)
    × (sub wad (pos 2) (Value.ray (pos 3)) ≡ err arithmetic_error)
    × (mod_value wad (pos 2) (Value.ray (pos 3)) ≡ err arithmetic_error)
    × (truediv wad (pos 2) (Value.ray (pos 3)) ≡ err arithmetic_error)
    × (eq wad (pos 2) (Value.ray (pos 3)) ≡ err arithmetic_error)
    × (lt wad (pos 2) (Value.ray (pos 3)) ≡ err arithmetic_error)
    × (le wad (pos 2) (Value.ray (pos 3)) ≡ err arithmetic_error)
    × (gt wad (pos 2) (Value.ray (pos 3)) ≡ err arithmetic_error)
    × (ge wad (pos 2) (Value.ray (pos 3)) ≡ err arithmetic_error)
mixed_classes_example = mixed_classes wad ray (pos 2) (pos 3) wad≢ray
