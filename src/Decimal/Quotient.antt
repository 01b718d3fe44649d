-- ===== src/Decimal/Quotient.antt =====
-- The integer part of a quotient that is rounded to `p` significant digits.
use pyflex.Base.{ℕ, zero, suc, ◌+◌, ◌-◌, ◌*◌, ◌/◌, ◌^◌, ◌≤◌, ◌<◌, ◌≡◌, refl, ◌∙◌, ap, subst}
use pyflex.Base.{arith, le→ltb}
use pyflex.Decimal.Defs.{digits, round_half_even, round_quot}
use pyflex.Decimal.Digits.{digits-le_of_lt-pow, pow-digits-le}
use pyflex.Decimal.Rounding.{round_half_even-floor, round_half_even-error}
use pyflex.Decimal.Significant.{pow_pos, pow-add}
use native.Mathlib.Decide.{dec_le}
use native.Mathlib.Nat.{le_trans, le-div_iff_mul-le, div-mul-le_self, mul-le-mul_right}
use native.Mathlib.Nat.{
  div-lt_iff_lt-mul, div-le_self, lt-div-mul-add, mul-lt-mul_of_pos_right, pow-suc,
  lt_of_mul-lt-mul_left,
}

-- With `s` digits behind the point.
module _ (x y s : ℕ) (hy : 0 < y) (hs : 0 < s) where
  floor-le_scaled : x / y ≤ round_half_even (x * s) y / s
  floor-le_scaled =
      let below : x / y * y ≤ x = div-mul-le_self x y in
      let shifted : x / y * s * y ≤ x * s = omega (arith, mul-le-mul_right s below) in
      let part : x / y * s ≤ x * s / y = (le-div_iff_mul-le hy).1 shifted in
      (le-div_iff_mul-le hs).1 (le_trans part (round_half_even-floor (x * s) y).0)

  scaled-le : round_half_even (x * s) y ≤ (x / y + 1) * s
  scaled-le =
      let above : x < x / y * y + y = lt-div-mul-add hy in
      let shifted : x * s < (x / y + 1) * s * y = omega (arith, mul-lt-mul_of_pos_right above hs) in
      let part : x * s / y < (x / y + 1) * s = (div-lt_iff_lt-mul hy).1 shifted in
      le_trans (round_half_even-floor (x * s) y).1 (omega arith)

  scaled-le_floor_succ : round_half_even (x * s) y / s ≤ x / y + 1
  scaled-le_floor_succ =
      let up : round_half_even (x * s) y < (x / y + 2) * s = omega (arith, scaled-le) in
      let low : round_half_even (x * s) y / s < x / y + 2 = (div-lt_iff_lt-mul hs).1 up in
      omega arith

  -- The integer part is the floor, unless the rounding carries into it.
  scaled-eq_floor :
      round_half_even (x * s) y < (x / y + 1) * s → round_half_even (x * s) y / s ≡ x / y
  scaled-eq_floor h =
      let up : round_half_even (x * s) y / s < x / y + 1 = (div-lt_iff_lt-mul hs).1 h in
      omega (arith, floor-le_scaled)

module _ (b p : ℕ) (hb : 2 ≤ b) (x y : ℕ) (hy : 0 < y) (h : x / y < b ^ p) where
  unfoldable pub scale_of : ℕ
  scale_of = b ^ (p - digits b (x / y))

  pub round_quot-eq : round_quot b p x y ≡ round_half_even (x * scale_of) y / scale_of
  unfolding round_quot scale_of
  round_quot-eq = rw (le→ltb p (digits b (x / y)) (digits-le_of_lt-pow b (x / y) hb p h))

  scale_of_pos : 0 < scale_of
  unfolding scale_of
  scale_of_pos = pow_pos b (p - digits b (x / y)) hb

  -- A quotient with an integer part of at most `p` digits is cut off, or becomes the next integer.
  pub round_quot-floor : (x / y ≤ round_quot b p x y) × (round_quot b p x y ≤ x / y + 1)
  round_quot-floor = rw round_quot-eq (
    floor-le_scaled x y scale_of hy scale_of_pos,
    scaled-le_floor_succ x y scale_of hy scale_of_pos,
  )

-- In base 2 the quotient of a number below `2 ^ p` is cut off: a carry would need a divisor of
-- more than twice the scale.
carry_needs : (x y s : ℕ) → 0 < y → 0 < s → (x / y + 1) * s ≤ round_half_even (x * s) y → 2 * s ≤ y
carry_needs x y s hy hs h =
    let above : x < x / y * y + y = lt-div-mul-add hy in
    let err : 2 * (round_half_even (x * s) y * y) ≤ 2 * (x * s) + y =
      (round_half_even-error (x * s) y hy).0 in
    omega (arith, mul-le-mul_right s above, mul-le-mul_right y h)

divisor_small :
    (p x y k : ℕ) → x < 2 ^ p → digits 2 (x / y) ≡ suc k → suc k ≤ p → y < 2 * 2 ^ (p - suc k)
divisor_small p x y k h e le =
    let low : 2 ^ k ≤ x / y = pow-digits-le 2 (x / y) (omega arith) k e in
    let prod : 2 ^ k * y ≤ x = le_trans (mul-le-mul_right y low) (div-mul-le_self x y) in
    let split : 2 ^ p ≡ 2 ^ k * (2 ^ (p - suc k) * 2) =
      ap (λ (t : ℕ). 2 ^ t) (omega arith)
      ∙ pow-add 2 k (suc (p - suc k))
      ∙ ap (λ (t : ℕ). 2 ^ k * t) (pow-suc 2 (p - suc k)) in
    lt_of_mul-lt-mul_left (2 ^ k) (omega arith)

-- A divisor of `2 * s + t` leaves no room for a carry over `s`, from a dividend below `s`.
no_room : (x s t r : ℕ) → x < s → s ≤ r → ¬ (2 * (r * (2 * s + t)) ≤ 2 * (x * s) + (2 * s + t))
no_room x s t r h c e =
    omega (
      arith,
      e,
      mul-le-mul_right s h,
      mul-le-mul_right (2 * s + t) c,
      mul-le-mul_right t (one_le h),
    )
  where
    one_le : x < s → 1 ≤ s
    one_le lt = omega arith

no_carry_below_one : (x y s : ℕ) → 0 < y → x < s → round_half_even (x * s) y < (x / y + 1) * s
no_carry_below_one x y s hy h = elim (dec_le ((x / y + 1) * s) (round_half_even (x * s) y)) [
  | yes le ↦
      let big : 2 * s ≤ y = carry_needs x y s hy (omega arith) le in
      let wide : y ≡ 2 * s + (y - 2 * s) = omega arith in
      let over : s ≤ round_half_even (x * s) y = omega (arith, le) in
      absurd (
        no_room x s (y - 2 * s) (round_half_even (x * s) y) h over (
          subst (λ (t : ℕ). 2 * (round_half_even (x * s) y * t) ≤ 2 * (x * s) + t) wide
            (round_half_even-error (x * s) y hy).0))
  | no gt ↦ omega arith
]

module _ (p x y : ℕ) (hy : 0 < y) (h : x < 2 ^ p) where
  small_quotient : x / y < 2 ^ p
  small_quotient = omega (arith, div-le_self x y)

  no_carry :
      (k : ℕ)
      → digits 2 (x / y) ≡ k
      → round_half_even (x * 2 ^ (p - k)) y < (x / y + 1) * 2 ^ (p - k)
  no_carry zero e =
      let same : 2 ^ (p - 0) ≡ 2 ^ p = ap (λ (t : ℕ). 2 ^ t) (omega arith) in
      rw same (no_carry_below_one x y (2 ^ p) hy h)
  no_carry (suc k) e =
      elim (dec_le ((x / y + 1) * 2 ^ (p - suc k)) (round_half_even (x * 2 ^ (p - suc k)) y)) [
        | yes le ↦
            let few : suc k ≤ p =
              rw (← e) (digits-le_of_lt-pow 2 (x / y) (omega arith) p small_quotient) in
            let big : 2 * 2 ^ (p - suc k) ≤ y =
              carry_needs x y (2 ^ (p - suc k)) hy (pow_pos 2 (p - suc k) (omega arith)) le in
            absurd (omega (arith, divisor_small p x y k h e few))
        | no gt ↦ omega arith
      ]

  -- Below `2 ^ p` the integer part of the rounded quotient is that of the exact one.
  pub round_quot_binary : round_quot 2 p x y ≡ x / y
  unfolding scale_of
  round_quot_binary =
      round_quot-eq 2 p (omega arith) x y hy small_quotient
      ∙ scaled-eq_floor x y (2 ^ (p - digits 2 (x / y))) hy (pow_pos 2 _ (omega arith))
          (no_carry (digits 2 (x / y)) refl)
