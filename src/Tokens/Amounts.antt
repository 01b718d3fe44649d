-- ===== src/Tokens/Amounts.antt =====
-- `Token.normalize_amount` and `unnormalize_amount` of `pyflex/model.py` are exact for tokens of at most
-- 18 decimal places.
use pyflex.Base.{
  ℕ, ◌+◌, ◌-◌, ◌*◌, ◌/◌, ◌^◌, ◌≤◌, ◌<◌, true, false, if◌then◌else◌, ◌≡◌, ◌⊎◌, inl, inr, sym, ap,
  ◌∙◌, arith,
}
use pyflex.Base.Int.{ℤ, pos, mag, is_neg, signed, sign_product, mag-signed}
use pyflex.Base.Results.{ok, ◌>>=◌, map_result}
use pyflex.Decimal.{mul_dec, quot_pow10, quantize, round_sig, prec}
use pyflex.Decimal.Context.{quantize_ok, quot_pow10_scaled}
use pyflex.Decimal.Significant.{pow-add, pow_pos, round_sig_multiple}
use pyflex.Numeric.Value.{scaled_mul}
use pyflex.Numeric.Wad
use pyflex.Numeric.Classes.{wad}
use pyflex.Numeric.Amount.{Amount, amount, times}
use pyflex.Numeric.Convert.{signed_scaled}
use pyflex.Numeric.Division.{from_number_exact}
use pyflex.Tokens.Token.{Token, power, normalize_amount, unnormalize_amount}
use native.Mathlib.Nat.{mul_assoc, mul-div_cancel, mul-lt-mul_of_pos_right, pow-le-pow_right}

sign_of : (v : ℤ) (n : ℕ) → sign_product v (pos n) ≡ is_neg v
sign_of v n = ground arith

-- A product with a power of ten moves the point.
moved :
    (v : ℤ) (m i j e : ℕ)
    → mag v ≡ m * 10 ^ i
    → m < 10 ^ prec
    → i + j ≡ e + 18
    → e ≤ 18
    → scaled_mul 18 v (pos (10 ^ j)) ≡ ok (signed (is_neg v) (m * 10 ^ e))
unfolding scaled_mul mul_dec
moved v m i j e whole short places few =
    let powers : 10 ^ i * 10 ^ j ≡ 10 ^ e * 10 ^ 18 =
      sym (pow-add 10 i j) ∙ ap (λ (t : ℕ). 10 ^ t) places ∙ pow-add 10 e 18 in
    let product : mag v * 10 ^ j ≡ m * 10 ^ (e + 18) =
      ap (λ (t : ℕ). t * 10 ^ j) whole
      ∙ mul_assoc m (10 ^ i) (10 ^ j)
      ∙ ap (λ (t : ℕ). m * t) (powers ∙ sym (pow-add 10 e 18)) in
    let kept : mul_dec (mag v) (10 ^ j) ≡ m * 10 ^ (e + 18) =
      ap (round_sig 10 prec) product ∙ round_sig_multiple 10 prec (omega arith) m (e + 18) short in
    let cut : m * 10 ^ (e + 18) / 10 ^ 18 ≡ m * 10 ^ e =
      ap (λ (t : ℕ). t / 10 ^ 18)
        (ap (λ (t : ℕ). m * t) (pow-add 10 e 18) ∙ sym (mul_assoc m (10 ^ e) (10 ^ 18)))
      ∙ mul-div_cancel (m * 10 ^ e) (omega arith) in
    let small : m * 10 ^ e < 10 ^ prec * 10 ^ e =
      mul-lt-mul_of_pos_right short (pow_pos 10 e (omega arith)) in
    let bound : 10 ^ e ≤ 10 ^ 18 = pow-le-pow_right (omega arith) few in
    ap (λ (t : ℕ). quantize (sign_product v (pos (10 ^ j))) (quot_pow10 t 18)) kept
    ∙ ap (quantize (sign_product v (pos (10 ^ j)))) (quot_pow10_scaled m (e + 18) 18 short ∙ cut)
    ∙ ap (λ s. quantize s (m * 10 ^ e)) (sign_of v (10 ^ j))
    ∙ quantize_ok (is_neg v) (m * 10 ^ e) (omega (arith, small, bound))

le_cases : (b a : ℕ) → (b ≤ a) ⊎ (a < b)
le_cases b a = omega arith

small_power : (k : ℕ) → k ≤ 18 → 10 ^ k < 10 ^ prec
small_power k h =
    let bound : 10 ^ k ≤ 10 ^ 18 = pow-le-pow_right (omega arith) h in omega (arith, bound)

whole : (k j : ℕ) → j ≡ k + 18 → 10 ^ k * 10 ^ 18 / 10 ^ 0 ≡ 10 ^ j
whole k j h =
    let joined : 10 ^ j ≡ 10 ^ k * 10 ^ 18 = ap (λ (t : ℕ). 10 ^ t) h ∙ pow-add 10 k 18 in
    omega (arith, joined)

part : (k j : ℕ) → k + j ≡ 18 → 1 * 10 ^ 18 / 10 ^ k ≡ 10 ^ j
part k j h =
    let split : 10 ^ 18 ≡ 10 ^ j * 10 ^ k =
      ap (λ (t : ℕ). 10 ^ t) {x = 18} {y = j + k} (omega arith) ∙ pow-add 10 j k in
    ap (λ (t : ℕ). t / 10 ^ k) {y = 10 ^ j * 10 ^ k} (omega (arith, split))
    ∙ mul-div_cancel (10 ^ j) (pow_pos 10 k (omega arith))

-- The power of ten as a `Wad`.
power-Wad : (a b j : ℕ) → a + 18 ≡ b + j → a ≤ 18 → b ≤ 18 → power a b ≡ ok (amount (pos (10 ^ j)))
unfolding power
power-Wad a b j e ha hb = elim (le_cases b a) [
  | inl le ↦
      ap
        (λ t.
          map_result amount
            (if t then Wad.from_number false (10 ^ (a - b)) 0 else Wad.from_number false 1 (b - a)))
        {y = true} (ground arith)
      ∙ ap (map_result amount)
          (from_number_exact wad false (10 ^ (a - b)) 0 (small_power (a - b) (omega arith)))
      ∙ ap (λ (n : ℕ). ok (amount (pos n))) (whole (a - b) j (omega arith))
  | inr less ↦
      ap
        (λ t.
          map_result amount
            (if t then Wad.from_number false (10 ^ (a - b)) 0 else Wad.from_number false 1 (b - a)))
        {y = false} (ground arith)
      ∙ ap (map_result amount) (from_number_exact wad false 1 (b - a) (omega arith))
      ∙ ap (λ (n : ℕ). ok (amount (pos n))) (part (b - a) j (omega arith))
]

-- A token of at most 18 decimal places, and an amount below 10^28 units: the amount with 18 places is exact,
-- and it comes back.
pub normalize_amount-unnormalize_amount :
    (token : Token) (a : Amount wad)
    → token.decimals ≤ 18
    → mag a.value < 10 ^ 28
    → (normalize_amount token a
        ≡ ok (amount (signed (is_neg a.value) (mag a.value * 10 ^ (18 - token.decimals)))))
      × ((normalize_amount token a >>= unnormalize_amount token) ≡ ok a)
unfolding normalize_amount unnormalize_amount Wad.mul
normalize_amount-unnormalize_amount token a places short =
    let k : ℕ = 18 - token.decimals in
    let big : ℤ = signed (is_neg a.value) (mag a.value * 10 ^ (18 - token.decimals)) in
    let up : normalize_amount token a ≡ ok (amount big) =
      ap (λ r. r >>= times {c = wad} {d = wad} a)
        (power-Wad 18 token.decimals (36 - token.decimals) (omega arith) (omega arith) places)
      ∙ ap (map_result amount) (
          moved a.value (mag a.value) 0 (36 - token.decimals) (18 - token.decimals) (omega arith)
            short (omega arith) (omega arith)) in
    let down : unnormalize_amount token (amount big) ≡ ok a =
      ap (λ r. r >>= times {c = wad} {d = wad} (amount big))
        (power-Wad token.decimals 18 token.decimals (omega arith) places (omega arith))
      ∙ ap (map_result amount) (
          moved big (mag a.value) (18 - token.decimals) token.decimals 0
            (mag-signed (is_neg a.value) (mag a.value * 10 ^ (18 - token.decimals))) short
            (omega arith) (omega arith))
      ∙ ap (λ (n : ℕ). ok (amount (signed (is_neg big) n))) {y = mag a.value} (omega arith)
      ∙ ap (λ v. ok (amount v))
          (signed_scaled a.value (10 ^ (18 - token.decimals))
            (pow_pos 10 (18 - token.decimals) (omega arith))) in
    (up, ap (λ r. r >>= unnormalize_amount token) up ∙ down)
