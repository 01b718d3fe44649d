-- ===== src/Numeric/Convert.antt =====
-- Conversions between the classes of `pyflex/numeric.py`: to more decimal places and back.
use pyflex.Base.{ℕ, zero, suc, ◌*◌, ◌/◌, ◌^◌, ◌≤◌, ◌<◌, ◌≡◌, refl, ◌∙◌, ap, arith, true, Bool}
use pyflex.Base.Int.{ℤ, pos, negsuc, mag, signed, is_neg, mag-signed}
use pyflex.Base.Results.{Result, ok, err, ◌>>=◌, invalid_operation}
use pyflex.Decimal.{mul_dec, quot_pow10, floordiv, quantize, prec, context_prec}
use pyflex.Decimal.Context.{
  quantize_ok, mul_dec_pow, le-mul_dec_pow, mul_dec-error, quot_pow10_multiple, floordiv_ok,
  floordiv_too_long,
}
use pyflex.Decimal.Significant.{pow_pos}
use pyflex.Numeric.Value.{scale_up, scale_down, divide_down}
use pyflex.Numeric.Value
use pyflex.Numeric.Wad
use pyflex.Numeric.Ray
use pyflex.Numeric.Rad
use native.Mathlib.Nat.{mul-div_cancel, mul-pos, le-div_iff_mul-le}

is_neg-signed : (m : ℕ) → 0 < m → is_neg (signed true m) ≡ true
is_neg-signed zero h = absurd (omega arith)
is_neg-signed (suc m) h = refl

-- Scaling keeps the sign.
pub signed_scaled :
    (v : ℤ) (t : ℕ) → 0 < t → signed (is_neg (signed (is_neg v) (mag v * t))) (mag v) ≡ v
signed_scaled (pos n) t h = refl
signed_scaled (negsuc n) t h =
    ap (λ (s : Bool). signed s (suc n)) (is_neg-signed (suc n * t) (mul-pos (omega arith) h))

module _ (k : ℕ) (z : ℤ) where
  scale_down-multiple :
      (m : ℕ) → mag z ≡ m * 10 ^ k → m < 10 ^ prec → scale_down k z ≡ quantize (is_neg z) m
  unfolding scale_down
  scale_down-multiple m e h =
      let exact : m * 10 ^ k / 10 ^ k ≡ m = mul-div_cancel m (pow_pos 10 k (omega arith)) in
      ap (λ (t : ℕ). floordiv t (10 ^ k) >>= quantize (is_neg z)) e
      ∙ ap (λ (r : Result ℕ). r >>= quantize (is_neg z))
          (floordiv_ok (m * 10 ^ k) (10 ^ k) (rw exact h))
      ∙ ap (quantize (is_neg z)) exact

  divide_down-multiple :
      (m : ℕ) → mag z ≡ m * 10 ^ k → m < 10 ^ prec → divide_down k z ≡ quantize (is_neg z) m
  unfolding divide_down
  divide_down-multiple m e h =
      ap (λ (t : ℕ). quantize (is_neg z) (quot_pow10 t k)) e
      ∙ ap (quantize (is_neg z)) (quot_pow10_multiple m k h)

  scale_down_too_long : 10 ^ prec * 10 ^ k ≤ mag z → scale_down k z ≡ err invalid_operation
  unfolding scale_down
  scale_down_too_long h =
      ap (λ (r : Result ℕ). r >>= quantize (is_neg z))
        (floordiv_too_long (mag z) (10 ^ k) ((le-div_iff_mul-le (pow_pos 10 k (omega arith))).1 h))

module _ (k : ℕ) (v : ℤ) (h : mag v < 10 ^ prec) (hk : mag v * 10 ^ k < 10 ^ context_prec) where
  scale_up_ok : scale_up k v ≡ ok (signed (is_neg v) (mag v * 10 ^ k))
  unfolding scale_up
  scale_up_ok =
      ap (quantize (is_neg v)) (mul_dec_pow (mag v) k h)
      ∙ quantize_ok (is_neg v) (mag v * 10 ^ k) hk

  abbrev scaled : ℤ
  scaled = signed (is_neg v) (mag v * 10 ^ k)

  mag-scaled : mag scaled ≡ mag v * 10 ^ k
  mag-scaled = mag-signed (is_neg v) (mag v * 10 ^ k)

  requantized : quantize (is_neg scaled) (mag v) ≡ ok v
  requantized =
      quantize_ok (is_neg (signed (is_neg v) (mag v * 10 ^ k))) (mag v) (omega (arith, h))
      ∙ ap (λ (z : ℤ). ok z) (signed_scaled v (10 ^ k) (pow_pos 10 k (omega arith)))

  scale_down-scale_up : (scale_up k v >>= scale_down k) ≡ ok v
  scale_down-scale_up =
      rw scale_up_ok (scale_down-multiple k scaled (mag v) mag-scaled h ∙ requantized)

  divide_down-scale_up : (scale_up k v >>= divide_down k) ≡ ok v
  divide_down-scale_up =
      rw scale_up_ok (divide_down-multiple k scaled (mag v) mag-scaled h ∙ requantized)

-- What is scaled up beyond 28 digits cannot be scaled down again.
scale_down-scale_up_too_long :
    (k : ℕ) (v : ℤ)
    → 10 ^ prec ≤ mag v
    → 3 * (mag v * 10 ^ k) < 10 ^ context_prec
    → (scale_up k v >>= scale_down k) ≡ err invalid_operation
unfolding scale_up
scale_down-scale_up_too_long k v h hk =
    let r : ℕ = mul_dec (mag v) (10 ^ k) in
    let fits : r < 10 ^ context_prec = omega (arith, (mul_dec-error (mag v) (10 ^ k)).0, hk) in
    ap (λ (t : Result ℤ). t >>= scale_down k) (quantize_ok (is_neg v) r fits)
    ∙ scale_down_too_long k (signed (is_neg v) r) (rw mag-signed (le-mul_dec_pow (mag v) k h))

-- A `Wad` of at most 28 digits survives the way to a `Ray` or a `Rad` and back; so does a `Ray`
-- on the way to a `Rad` and back.
pub convert_roundtrip :
    (v : ℤ)
    → mag v < 10 ^ prec
    → ((Ray.new (Value.wad v) >>= λ r. Wad.new (Value.ray r)) ≡ ok v)
      × ((Rad.new (Value.wad v) >>= λ r. Wad.new (Value.rad r)) ≡ ok v)
      × ((Rad.new (Value.ray v) >>= λ r. Ray.new (Value.rad r)) ≡ ok v)
unfolding Wad.new Ray.new Rad.new
convert_roundtrip v h = (
  scale_down-scale_up 9 v h (omega (arith, h)),
  scale_down-scale_up 27 v h (omega (arith, h)),
  divide_down-scale_up 18 v h (omega (arith, h)),
)

-- A `Wad` of more than 28 digits (and at most 900) does not: the way back raises.
convert_too_long :
    (v : ℤ)
    → 10 ^ prec ≤ mag v
    → mag v < 10 ^ 900
    → ((Ray.new (Value.wad v) >>= λ r. Wad.new (Value.ray r)) ≡ err invalid_operation)
      × ((Rad.new (Value.wad v) >>= λ r. Wad.new (Value.rad r)) ≡ err invalid_operation)
unfolding Wad.new Ray.new Rad.new
convert_too_long v h hv = (
  scale_down-scale_up_too_long 9 v h (omega (arith, hv)),
  scale_down-scale_up_too_long 27 v h (omega (arith, hv)),
)
