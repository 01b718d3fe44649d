-- ===== src/Decimal/Significant.antt =====
-- Rounding to `p` significant digits: what is kept exactly, the error, monotonicity.
use pyflex.Base.{ℕ, zero, suc, ◌+◌, ◌-◌, ◌*◌, ◌^◌, ◌≤◌, ◌<◌, ◌≡◌, refl, ◌∙◌, ap}
use pyflex.Base.{arith, sym}
use pyflex.Decimal.Defs.{digits, round_half_even, unit, round_sig}
use pyflex.Decimal.Digits.{lt-pow-digits, pow-digits-le, digits-le_of_lt-pow, digits_mono}
use pyflex.Decimal.Rounding.{round_half_even-error, round_half_even_exact, round_half_even_mono}
use native.Mathlib.Decide.{dec_lt, dec_le, ℕ_discrete}
use native.Mathlib.Nat.{mul-one, pow-zero, pow-suc, one-le-pow, mul_assoc, mul-le-mul_right}
use native.Mathlib.Nat.{mul-le-mul_left, one-mul}
use native.Mathlib.Nat.{pow-le-pow_right, mul-lt-mul_of_pos_right, le_trans, add-zero, add-suc}

pub pow-add : (b m n : ℕ) → b ^ (m + n) ≡ b ^ m * b ^ n
pow-add b m zero = rw (add-zero, pow-zero, mul-one)
pow-add b m (suc n) = rw (add-suc, pow-suc, pow-add b m n, pow-suc) (mul_assoc _ _ _)

pub pow_pos : (b e : ℕ) → 2 ≤ b → 0 < b ^ e
pow_pos b e hb = one-le-pow e b (omega arith)

base-le-pow : (b p : ℕ) → 2 ≤ b → 1 ≤ p → b ≤ b ^ p
base-le-pow b zero hb hp = absurd (omega arith)
base-le-pow b (suc p) hb hp = rw pow-suc (omega (arith, mul-le-mul_right b (pow_pos b p hb)))

pow_split : (b e d : ℕ) → e ≤ d → b ^ d ≡ b ^ (d - e) * b ^ e
pow_split b e d h = ap (λ (t : ℕ). b ^ t) (omega arith) ∙ pow-add b (d - e) e

module _ (b p : ℕ) (hb : 2 ≤ b) where
  unit_pos : (n : ℕ) → 0 < unit b p n
  unfolding unit
  unit_pos n = pow_pos b (digits b n - p) hb

  round_sig-eq : (n : ℕ) → round_sig b p n ≡ round_half_even n (unit b p n) * unit b p n
  unfolding round_sig
  round_sig-eq n = refl

  unit-eq : (n : ℕ) → unit b p n ≡ b ^ (digits b n - p)
  unfolding unit
  unit-eq n = refl

  multiple_exact : (n k : ℕ) → n ≡ k * unit b p n → round_sig b p n ≡ n
  multiple_exact n k e =
      let kept : round_half_even n (unit b p n) ≡ k =
        ap (λ (t : ℕ). round_half_even t (unit b p n)) e
        ∙ round_half_even_exact k (unit b p n) (unit_pos n) in
      round_sig-eq n ∙ ap (λ (t : ℕ). t * unit b p n) kept ∙ sym e

  -- A number of at most `p` digits is kept, and so is one followed by zeros.
  pub round_sig_multiple : (n k : ℕ) → n < b ^ p → round_sig b p (n * b ^ k) ≡ n * b ^ k
  round_sig_multiple n k h =
      let big : n * b ^ k < b ^ (p + k) = rw pow-add (mul-lt-mul_of_pos_right h (pow_pos b k hb)) in
      let few : digits b (n * b ^ k) ≤ p + k = digits-le_of_lt-pow b (n * b ^ k) hb (p + k) big in
      let e : ℕ = digits b (n * b ^ k) - p in
      multiple_exact (n * b ^ k) (n * b ^ (k - e)) (
        ap (λ (t : ℕ). n * t) (pow_split b e k (omega arith))
        ∙ sym (mul_assoc n (b ^ (k - e)) (b ^ e))
        ∙ ap (λ (t : ℕ). n * b ^ (k - e) * t) (sym (unit-eq (n * b ^ k))))

  pub round_sig_exact : (n : ℕ) → n < b ^ p → round_sig b p n ≡ n
  round_sig_exact n h = rw (pow-zero, mul-one) at (round_sig_multiple n 0 h)

  round_sig-le-multiple : (n k : ℕ) → n ≤ k * unit b p n → round_sig b p n ≤ k * unit b p n
  round_sig-le-multiple n k h = rw round_sig-eq (
      mul-le-mul_right (unit b p n) (
        rw (round_half_even_exact k (unit b p n) (unit_pos n)) at
          (round_half_even_mono n (k * unit b p n) (unit b p n) (unit_pos n) h)))

  multiple-le-round_sig : (n k : ℕ) → k * unit b p n ≤ n → k * unit b p n ≤ round_sig b p n
  multiple-le-round_sig n k h = rw round_sig-eq (
      mul-le-mul_right (unit b p n) (
        rw (round_half_even_exact k (unit b p n) (unit_pos n)) at
          (round_half_even_mono (k * unit b p n) n (unit b p n) (unit_pos n) h)))

  pow-unit : (n d : ℕ) → digits b n - p ≤ d → b ^ d ≡ b ^ (d - (digits b n - p)) * unit b p n
  pow-unit n d h = rw unit-eq (pow_split b (digits b n - p) d h)

  short_half_even : (n : ℕ) → round_half_even n (unit b p n) ≤ b ^ p
  short_half_even n =
      let low : n < b ^ digits b n = lt-pow-digits b n hb in
      let e : b ^ digits b n ≡ b ^ (digits b n - (digits b n - p)) * unit b p n =
        pow-unit n (digits b n) (omega arith) in
      le_trans
        (rw (round_half_even_exact _ (unit b p n) (unit_pos n)) at (
          round_half_even_mono n (b ^ (digits b n - (digits b n - p)) * unit b p n) (unit b p n)
            (unit_pos n) (omega arith)))
        (pow-le-pow_right (omega arith) (omega arith))

  -- What is rounded has at most `p` digits in front of its zeros.
  pub round_sig-short :
      (n : ℕ) → 1 ≤ p → (q : ℕ) × (j : ℕ) × (round_sig b p n ≡ q * b ^ j) × (q < b ^ p)
  unfolding digits unit
  round_sig-short n hp = elim (dec_lt (round_half_even n (unit b p n)) (b ^ p)) [
    | yes short ↦ (round_half_even n (unit b p n), digits b n - p, round_sig-eq n, short)
    | no long ↦
        let full : round_half_even n (unit b p n) ≡ b ^ p = omega (arith, short_half_even n) in
        (
          1,
          p + (digits b n - p),
          round_sig-eq n
              ∙ ap (λ (t : ℕ). t * unit b p n) full
              ∙ sym (pow-add b p (digits b n - p))
              ∙ sym (one-mul (b ^ (p + (digits b n - p)))),
          le_trans hb (base-le-pow b p hb hp),
        )
  ]

  -- Rounding a second time changes nothing.
  pub round_sig_idem : (n : ℕ) → 1 ≤ p → round_sig b p (round_sig b p n) ≡ round_sig b p n
  round_sig_idem n hp =
      let (q, j, e, short) = round_sig-short n hp in
      ap (round_sig b p) e ∙ round_sig_multiple q j short ∙ sym e

  round_sig-le-pow : (n : ℕ) → round_sig b p n ≤ b ^ digits b n
  round_sig-le-pow n =
      let e : b ^ digits b n ≡ b ^ (digits b n - (digits b n - p)) * unit b p n =
        pow-unit n (digits b n) (omega arith) in
      let low : n < b ^ digits b n = lt-pow-digits b n hb in
      omega (arith, e, round_sig-le-multiple n (b ^ (digits b n - (digits b n - p))) (omega arith))

  pow-le-round_sig : (n k : ℕ) → 1 ≤ p → digits b n ≡ suc k → b ^ k ≤ round_sig b p n
  pow-le-round_sig n k hp h =
      let e : b ^ k ≡ b ^ (k - (digits b n - p)) * unit b p n = pow-unit n k (omega arith) in
      let low : b ^ k ≤ n = pow-digits-le b n hb k h in
      omega (arith, e, multiple-le-round_sig n (b ^ (k - (digits b n - p))) (omega arith))

  mono_same : (n m : ℕ) → n ≤ m → digits b n ≡ digits b m → round_sig b p n ≤ round_sig b p m
  mono_same n m h e =
      let u : unit b p m ≡ unit b p n =
        unit-eq m ∙ ap (λ (t : ℕ). b ^ (t - p)) (sym e) ∙ sym (unit-eq n) in
      rw (round_sig-eq n, round_sig-eq m, u)
        (mul-le-mul_right (unit b p n) (round_half_even_mono n m (unit b p n) (unit_pos n) h))

  error_in_units :
      (n : ℕ)
      → (2 * round_sig b p n ≤ 2 * n + unit b p n) × (2 * n ≤ 2 * round_sig b p n + unit b p n)
  error_in_units n = rw (round_sig-eq n) (round_half_even-error n (unit b p n) (unit_pos n))

  mono_fewer :
      (n m k : ℕ) → 1 ≤ p → digits b n ≤ k → digits b m ≡ suc k → round_sig b p n ≤ round_sig b p m
  mono_fewer n m k hp h e =
      le_trans (round_sig-le-pow n)
        (le_trans (pow-le-pow_right (omega arith) h) (pow-le-round_sig m k hp e))

  -- A larger number is never rounded to a smaller one.
  pub round_sig_mono : (n m : ℕ) → 1 ≤ p → n ≤ m → round_sig b p n ≤ round_sig b p m
  round_sig_mono n m hp h = elim (ℕ_discrete (digits b n) (digits b m)) [
    | yes e ↦ mono_same n m h e
    | no ne ↦
        let le : digits b n ≤ digits b m = digits_mono b n m hb h in
        mono_fewer n m (digits b m - 1) hp (omega arith) (omega arith)
  ]

-- A unit is at most `n / b ^ q`, if there are more than `q + 1` digits.
unit-le : (b q n k : ℕ) → 2 ≤ b → digits b n ≡ suc k → suc q ≤ k → b ^ q * unit b (suc q) n ≤ n
unit-le b q n k hb e h =
    let split : b ^ q * unit b (suc q) n ≡ b ^ k =
      ap (λ (t : ℕ). b ^ q * t) (unit-eq b (suc q) hb n)
      ∙ sym (pow-add b q (digits b n - suc q))
      ∙ ap (λ (t : ℕ). b ^ t) (omega arith) in
    rw split (pow-digits-le b n hb k e)

-- To `q + 1` digits the relative error is at most half of `b ^ -q`, from both sides.
pub round_sig-error :
    (b q n : ℕ)
    → 2 ≤ b
    → (2 * (b ^ q * round_sig b (suc q) n) ≤ 2 * (b ^ q * n) + n)
      × (2 * (b ^ q * n) ≤ 2 * (b ^ q * round_sig b (suc q) n) + n)
round_sig-error b q n hb = elim (dec_le (digits b n) (suc q)) [
  | yes few ↦
      let short : n < b ^ suc q =
        le_trans (lt-pow-digits b n hb) (pow-le-pow_right (omega arith) few) in
      rw (round_sig_exact b (suc q) hb n short) (omega arith)
  | no many ↦
      let (up, down) = error_in_units b (suc q) hb n in
      omega (
        arith,
        mul-le-mul_left (b ^ q) up,
        mul-le-mul_left (b ^ q) down,
        unit-le b q n (digits b n - 1) hb (omega arith) (omega arith),
      )
]
