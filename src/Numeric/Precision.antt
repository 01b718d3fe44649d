-- ===== src/Numeric/Precision.antt =====
-- `*` and `/` of `pyflex/numeric.py`: exact while the numbers have at most 28 digits, and beyond
-- that off by a known amount.
use pyflex.Base.{ℕ, ◌+◌, ◌*◌, ◌/◌, ◌^◌, ◌≤◌, ◌<◌, ◌≡◌, refl, ◌∙◌, ap, arith}
use pyflex.Base.Int.{ℤ, mag, signed, sign_product}
use pyflex.Base.Results.{ok}
use pyflex.Decimal.{mul_dec, quot_pow10, quantize, prec}
use pyflex.Decimal.Context.{
  quantize_ok, mul_dec_exact, quot_pow10_exact, quot_pow10-mul_dec, mul_dec-error,
}
use pyflex.Decimal.Significant.{pow_pos}
use pyflex.Numeric.Value.{scaled_mul}
use pyflex.Numeric.Wad
use pyflex.Numeric.Ray
use pyflex.Numeric.Rad
use pyflex.Numeric.Classes.{Class, wad, ray, rad, decimals, instance_of, mul}
use native.Mathlib.Nat.{div-le_self, div-mul-le_self, lt-div-mul-add}

-- Which product each class computes.
mul-eq : (c d : Class) (a b : ℤ) → mul c a (instance_of d b) ≡ scaled_mul (decimals d) a b
unfolding Wad.mul Ray.mul Rad.mul
mul-eq wad wad a b = refl
mul-eq wad ray a b = refl
mul-eq wad rad a b = refl
mul-eq ray wad a b = refl
mul-eq ray ray a b = refl
mul-eq ray rad a b = refl
mul-eq rad wad a b = refl
mul-eq rad ray a b = refl
mul-eq rad rad a b = refl

scaled_mul_exact :
    (k : ℕ) (a b : ℤ)
    → mag a * mag b < 10 ^ prec
    → scaled_mul k a b ≡ ok (signed (sign_product a b) (mag a * mag b / 10 ^ k))
unfolding scaled_mul
scaled_mul_exact k a b h =
    ap (quantize (sign_product a b)) (
      ap (λ (t : ℕ). quot_pow10 t k) (mul_dec_exact (mag a) (mag b) h)
      ∙ quot_pow10_exact (mag a * mag b) k h)
    ∙ quantize_ok (sign_product a b) (mag a * mag b / 10 ^ k)
        (omega (arith, div-le_self (mag a * mag b) (10 ^ k), h))

-- Where the product of the two magnitudes stays below `10 ^ 28`, an instance of one class times an
-- instance of any class is the exact product over the scale of the second, cut off towards zero.
pub mul_exact :
    (c d : Class) (a b : ℤ)
    → mag a * mag b < 10 ^ prec
    → mul c a (instance_of d b) ≡ ok (signed (sign_product a b) (mag a * mag b / 10 ^ decimals d))
mul_exact c d a b h = mul-eq c d a b ∙ scaled_mul_exact (decimals d) a b h

-- A product `p` of the magnitudes that has at most 990 digits gives a result `z` of the right sign
-- with `z * 10 ^ k` within one unit of the last place, and one part in `2 * 10 ^ 27`, of `p`.
scaled_mul-error :
    (k : ℕ) (a b : ℤ)
    → mag a * mag b < 10 ^ 990
    → (z : ℕ) × (scaled_mul k a b ≡ ok (signed (sign_product a b) z))
      × (2 * (10 ^ 27 * (z * 10 ^ k)) ≤ 2 * (10 ^ 27 * (mag a * mag b)) + mag a * mag b)
      × (2 * (10 ^ 27 * (mag a * mag b)) ≤ 2 * (10 ^ 27 * (z * 10 ^ k + 10 ^ k)) + mag a * mag b)
unfolding scaled_mul
scaled_mul-error k a b h =
    let p : ℕ = mag a * mag b in
    let r : ℕ = mul_dec (mag a) (mag b) in
    let (up, down) = mul_dec-error (mag a) (mag b) in
    (
      r / 10 ^ k,
      ap (quantize (sign_product a b)) (quot_pow10-mul_dec (mag a) (mag b) k)
          ∙ quantize_ok (sign_product a b) (r / 10 ^ k)
              (omega (arith, up, h, div-le_self r (10 ^ k))),
      omega (arith, up, div-mul-le_self r (10 ^ k)),
      omega (arith, down, lt-div-mul-add {a = r} (pow_pos 10 k (omega arith))),
    )

-- Any product below `10 ^ 990` in magnitude gives a result of the right sign. Its magnitude `z`,
-- times the scale of the second factor, exceeds the exact product by at most one part in
-- `2 * 10 ^ 27`, and falls short of it by at most that and one unit of the last place.
pub mul-error :
    (c d : Class) (a b : ℤ)
    → mag a * mag b < 10 ^ 990
    → (z : ℕ) × (mul c a (instance_of d b) ≡ ok (signed (sign_product a b) z))
      × (2 * (10 ^ 27 * (z * 10 ^ decimals d)) ≤ 2 * (10 ^ 27 * (mag a * mag b)) + mag a * mag b)
      × (2 * (10 ^ 27 * (mag a * mag b))
          ≤ 2 * (10 ^ 27 * (z * 10 ^ decimals d + 10 ^ decimals d)) + mag a * mag b)
mul-error c d a b h = rw (mul-eq c d a b) (scaled_mul-error (decimals d) a b h)
