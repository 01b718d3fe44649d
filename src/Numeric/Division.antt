-- ===== src/Numeric/Division.antt =====
-- `/` and `from_number` of `pyflex/numeric.py`.
use pyflex.Base.{ℕ, ◌+◌, ◌*◌, ◌/◌, ◌^◌, ◌≤◌, ◌<◌, ◌≡◌, refl, ◌∙◌, ap, arith, Bool, ◌==◌}
use pyflex.Base.{if◌then◌else◌, false}
use pyflex.Base.Int.{ℤ, pos, mag, signed, sign_product}
use pyflex.Base.Results.{Error, ok, err, invalid_operation, division_by_zero}
use pyflex.Decimal.{mul_dec, quot, quot_pow10, quantize, prec, context_prec}
use pyflex.Decimal.Context.{quantize_ok, mul_dec_pow, quot-floor, quot_pow10_scaled}
use pyflex.Numeric.Value.{scaled_div, of_decimal}
use pyflex.Numeric.Wad
use pyflex.Numeric.Ray
use pyflex.Numeric.Rad
use pyflex.Numeric.Classes.{Class, wad, ray, rad, decimals, instance_of, truediv, from_number}
use native.Mathlib.Nat.{div-le_self, mul-le-mul_right}

truediv-eq : (c : Class) (a b : ℤ) → truediv c a (instance_of c b) ≡ scaled_div (decimals c) a b
unfolding Wad.truediv Ray.truediv Rad.truediv
truediv-eq wad a b = refl
truediv-eq ray a b = refl
truediv-eq rad a b = refl

nonzero : (m : ℕ) → 0 < m → (m == 0) ≡ false
nonzero m h = ground arith

scaled_div-floor :
    (k : ℕ) (a b : ℤ)
    → 0 < mag b
    → mag a < 10 ^ prec
    → mag a * 10 ^ k / mag b < 10 ^ prec
    → (z : ℕ) × (scaled_div k a b ≡ ok (signed (sign_product a b) z))
      × (mag a * 10 ^ k / mag b ≤ z)
      × (z ≤ mag a * 10 ^ k / mag b + 1)
unfolding scaled_div
scaled_div-floor k a b hb ha hq =
    let q : ℕ = quot (mag a * 10 ^ k) (mag b) in
    let (low, high) = quot-floor (mag a * 10 ^ k) (mag b) hb hq in
    let fits : q < 10 ^ context_prec = omega (arith, high, hq) in
    (
      q,
      ap (λ (t : Bool). if t then err zero_error else quantize (sign_product a b) divided)
            (nonzero (mag b) hb)
          ∙ ap (λ (t : ℕ). quantize (sign_product a b) (quot t (mag b))) (mul_dec_pow (mag a) k ha)
          ∙ quantize_ok (sign_product a b) q fits,
      low,
      high,
    )
  where
    divided : ℕ
    divided = quot (mul_dec (mag a) (10 ^ k)) (mag b)

    zero_error : Error
    zero_error = if mag a == 0 then invalid_operation else division_by_zero

from_number-eq :
    (c : Class) (s : Bool) (n frac : ℕ) → from_number c s n frac ≡ of_decimal (decimals c) s n frac
unfolding Wad.from_number Ray.from_number Rad.from_number
from_number-eq wad s n frac = refl
from_number-eq ray s n frac = refl
from_number-eq rad s n frac = refl

-- The quotient of two instances of a class, where dividend and quotient have at most 28 digits:
-- the exact quotient cut off, or one unit of the last place more, with the sign of a quotient.
pub truediv-floor :
    (c : Class) (a b : ℤ)
    → 0 < mag b
    → mag a < 10 ^ prec
    → mag a * 10 ^ decimals c / mag b < 10 ^ prec
    → (z : ℕ) × (truediv c a (instance_of c b) ≡ ok (signed (sign_product a b) z))
      × (mag a * 10 ^ decimals c / mag b ≤ z)
      × (z ≤ mag a * 10 ^ decimals c / mag b + 1)
truediv-floor c a b hb ha hq = rw (truediv-eq c a b) (scaled_div-floor (decimals c) a b hb ha hq)

-- A division by zero raises: `DivisionByZero`, but `InvalidOperation` for zero by zero.
truediv_zero :
    (c : Class) (a : ℤ)
    → truediv c a (instance_of c (pos 0))
      ≡ err (if mag a == 0 then invalid_operation else division_by_zero)
unfolding scaled_div
truediv_zero c a = truediv-eq c a (pos 0)

scale-le : (c : Class) → 10 ^ decimals c ≤ 10 ^ 45
scale-le wad = omega arith
scale-le ray = omega arith
scale-le rad = omega arith

-- `from_number` of a number of at most 28 digits, `frac` of them behind the point, is that number
-- in units of the last place, cut off.
pub from_number_exact :
    (c : Class) (s : Bool) (n frac : ℕ)
    → n < 10 ^ prec
    → from_number c s n frac ≡ ok (signed s (n * 10 ^ decimals c / 10 ^ frac))
unfolding of_decimal
from_number_exact c s n frac h =
    from_number-eq c s n frac
    ∙ ap (λ (t : ℕ). quantize s (quot_pow10 t frac)) (mul_dec_pow n (decimals c) h)
    ∙ ap (quantize s) (quot_pow10_scaled n (decimals c) frac h)
    ∙ quantize_ok s (n * 10 ^ decimals c / 10 ^ frac) (
        omega (
          arith,
          div-le_self (n * 10 ^ decimals c) (10 ^ frac),
          h,
          scale-le c,
          mul-le-mul_right (10 ^ decimals c) h,
        ))
