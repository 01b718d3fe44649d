-- ===== src/Decimal/Scaling.antt =====
-- Rounding to significant digits commutes with moving the point.
use pyflex.Base.{
  ℕ, ◌+◌, ◌-◌, ◌*◌, ◌/◌, ◌%◌, ◌^◌, ◌≤◌, ◌<◌, ◌⊎◌, inl, inr, ltb, ◌≡◌, sym, ap, ◌∙◌, arith,
}
use pyflex.Decimal.Defs.{digits, unit, round_half_even, round_sig}
use pyflex.Decimal.Digits.{lt-pow-digits, pow-digits-le, digits-le_of_lt-pow, lt-digits_of_pow-le}
use pyflex.Decimal.Significant.{pow-add, pow_pos, round_sig_multiple, round_sig_exact}
use native.Mathlib.Nat.{
  mul-div-mul_right, div-add-mod', mul-lt-mul_of_pos_right, mul-le-mul_right, mul_assoc,
}

mod_scale : (n d c : ℕ) → 0 < c → (n * c) % (d * c) ≡ n % d * c
mod_scale n d c h =
    let whole : (n * c) / (d * c) * (d * c) + (n * c) % (d * c) ≡ n * c =
      div-add-mod' (n * c) (d * c) in
    let part : (n / d * d + n % d) * c ≡ n * c = ap (λ (t : ℕ). t * c) (div-add-mod' n d) in
    let quotient : (n * c) / (d * c) * (d * c) ≡ n / d * (d * c) =
      ap (λ (t : ℕ). t * (d * c)) (mul-div-mul_right n d h) in
    omega (arith, whole, part, quotient)

lt_cases : (x y : ℕ) → (x < y) ⊎ (y ≤ x)
lt_cases x y = omega arith

ltb_scale : (x y c : ℕ) → 0 < c → ltb (x * c) (y * c) ≡ ltb x y
ltb_scale x y c h = elim (lt_cases x y) [
  | inl less ↦ ground (arith, mul-lt-mul_of_pos_right less h)
  | inr le ↦ ground (arith, mul-le-mul_right c le)
]

round_half_even-scale : (n d c : ℕ) → 0 < c → round_half_even (n * c) (d * c) ≡ round_half_even n d
unfolding round_half_even
round_half_even-scale n d c h =
    let q : (n * c) / (d * c) ≡ n / d = mul-div-mul_right n d h in
    let r : 2 * ((n * c) % (d * c)) ≡ 2 * (n % d) * c = omega (arith, mod_scale n d c h) in
    rw (q, r, ltb_scale (2 * (n % d)) d c h, ltb_scale d (2 * (n % d)) c h)

module _ (b p : ℕ) (hb : 2 ≤ b) where
  digits_scale : (n k : ℕ) → b ^ p ≤ n → digits b (n * b ^ k) ≡ digits b n + k
  digits_scale n k h =
      let more : p < digits b n = lt-digits_of_pow-le b n hb p h in
      let low : b ^ (digits b n - 1) ≤ n =
        pow-digits-le b n hb (digits b n - 1) (omega (arith, more)) in
      let up : n * b ^ k < b ^ (digits b n + k) =
        rw pow-add (mul-lt-mul_of_pos_right (lt-pow-digits b n hb) (pow_pos b k hb)) in
      let down : b ^ (digits b n - 1 + k) ≤ n * b ^ k = rw pow-add (mul-le-mul_right (b ^ k) low) in
      omega (
        arith,
        digits-le_of_lt-pow b (n * b ^ k) hb (digits b n + k) up,
        lt-digits_of_pow-le b (n * b ^ k) hb (digits b n - 1 + k) down,
        more,
      )

  -- The power may come before or after the rounding.
  pub round_sig-scale : (n k : ℕ) → round_sig b p (n * b ^ k) ≡ round_sig b p n * b ^ k
  unfolding round_sig unit
  round_sig-scale n k = elim (lt_cases n (b ^ p)) [
    | inl short ↦
        round_sig_multiple b p hb n k short
        ∙ ap (λ (t : ℕ). t * b ^ k) (sym (round_sig_exact b p hb n short))
    | inr long ↦
        let e : digits b (n * b ^ k) - p ≡ digits b n - p + k =
          omega (arith, digits_scale n k long, lt-digits_of_pow-le b n hb p long) in
        let u : b ^ (digits b (n * b ^ k) - p) ≡ b ^ (digits b n - p) * b ^ k =
          ap (λ (t : ℕ). b ^ t) e ∙ pow-add b (digits b n - p) k in
        ap (λ (t : ℕ). round_half_even (n * b ^ k) t * t) u
        ∙ ap (λ (t : ℕ). t * (b ^ (digits b n - p) * b ^ k))
            (round_half_even-scale n (b ^ (digits b n - p)) (b ^ k) (pow_pos b k hb))
        ∙ sym (mul_assoc (round_half_even n (b ^ (digits b n - p))) (b ^ (digits b n - p)) (b ^ k))
  ]
