-- ===== src/Numeric/Value.antt =====
-- `pyflex/numeric.py`: the values that the methods of the three classes tell apart by `isinstance`,
-- and the arithmetic that the three classes write out alike. The magnitudes go through the decimal
-- module and are computed to 28 digits there; `+`, `-`, `%` and comparisons are exact.
use pyflex.Base.{ℕ, ◌*◌, ◌^◌, Bool, true, false, not}
use pyflex.Base.{◌==◌, if◌then◌else◌}
use pyflex.Base.Int.{ℤ, pos, mag, neg_part, is_neg, signed, sign_product, ◌-ℤ◌, mod_ℤ}
use pyflex.Base.Results.{
  Result, ok, err, ◌>>=◌, invalid_operation, division_by_zero, zero_division, map_result,
}
use pyflex.Decimal.{mul_dec, quot_pow10, quot, floordiv, quantize, round_half_even, int_truediv}

-- An instance of one of the classes by its `value`, an `int`, or an object of another type.
pub data Value : Type 0 where
  wad ray rad int : ℤ → Value
  other : Value

-- `int((Decimal(v) // 10 ** k).quantize(1, context=_context))`
unfoldable pub scale_down : ℕ → ℤ → Result ℤ
unfolding floordiv quantize
scale_down k v = do q ← floordiv (mag v) (10 ^ k); quantize (is_neg v) q

-- `int((Decimal(v) / 10 ** k).quantize(1, context=_context))`
unfoldable pub divide_down : ℕ → ℤ → Result ℤ
unfolding quot_pow10 quantize
divide_down k v = quantize (is_neg v) (quot_pow10 (mag v) k)

-- `int((Decimal(v) * 10 ** k).quantize(1, context=_context))`
unfoldable pub scale_up : ℕ → ℤ → Result ℤ
unfolding mul_dec quantize
scale_up k v = quantize (is_neg v) (mul_dec (mag v) (10 ^ k))

-- The product of two values over `10 ** k`.
unfoldable pub scaled_mul : ℕ → ℤ → ℤ → Result ℤ
unfolding mul_dec quot_pow10 quantize
scaled_mul k a b = quantize (sign_product a b) (quot_pow10 (mul_dec (mag a) (mag b)) k)

-- The product with a plain integer.
unfoldable pub int_mul : ℤ → ℤ → Result ℤ
unfolding mul_dec quantize
int_mul a b = quantize (sign_product a b) (mul_dec (mag a) (mag b))

-- The quotient of two values times `10 ** k`. The decimal module tells `0 / 0` from `n / 0`.
unfoldable pub scaled_div : ℕ → ℤ → ℤ → Result ℤ
unfolding mul_dec quot quantize
scaled_div k a b =
    if mag b == 0
    then err (if mag a == 0 then invalid_operation else division_by_zero)
    else quantize (sign_product a b) (quot (mul_dec (mag a) (10 ^ k)) (mag b))

-- `a % b` of two integers.
unfoldable pub checked_mod : ℤ → ℤ → Result ℤ
unfolding mod_ℤ
checked_mod a b = if mag b == 0 then err zero_division else ok (mod_ℤ a b)

-- `int((Decimal(str(number)) * 10 ** k).quantize(1, context=_context))`, for the number of that
-- sign with the digits `c`, the last `frac` of them behind the point.
unfoldable pub of_decimal : ℕ → Bool → ℕ → ℕ → Result ℤ
unfolding quot_pow10 mul_dec quantize
of_decimal k s c frac = quantize s (quot_pow10 (mul_dec c (10 ^ k)) frac)

-- `int(v / 10 ** k)`, through a double.
unfoldable pub int_part : ℕ → ℤ → Result ℤ
unfolding int_truediv
int_part k v = map_result (signed (is_neg v)) (int_truediv (mag v) (10 ^ k))

-- `round(v, -k + ndigits)`: to a multiple of a power of ten, half to even.
unfoldable pub round_to : ℕ → ℤ → ℤ → ℤ
unfolding round_half_even ◌-ℤ◌
round_to k ndigits v =
    let u = 10 ^ neg_part (ndigits -ℤ pos k) in signed (is_neg v) (round_half_even (mag v) u * u)

unfoldable pub abs_ℤ : ℤ → ℤ
abs_ℤ v = pos (mag v)

-- The comparisons that `total_ordering` derives from `<` and `==`.
unfoldable pub gt_from_lt : Result Bool → Result Bool → Result Bool
gt_from_lt lt eq = do l ← lt; if l then ok false else map_result not eq

unfoldable pub le_from_lt : Result Bool → Result Bool → Result Bool
le_from_lt lt eq = do l ← lt; if l then ok true else eq

unfoldable pub ge_from_lt : Result Bool → Result Bool
ge_from_lt lt = map_result not lt
