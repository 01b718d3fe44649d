-- ===== src/Decimal/Digits.antt =====
-- The number of digits brackets the number between two powers of the base.
use pyflex.Base.{ℕ, zero, suc, ◌/◌, ◌^◌, ◌≤◌, ◌<◌, ◌≡◌, refl, inl, inr, arith}
use pyflex.Base.{◌==◌, Bool-cases}
use pyflex.Decimal.Defs.{digits_from, digits}
use native.Mathlib.Decide.{dec_le}
use native.Mathlib.Nat.{pow-suc, pow-zero, div-lt_self, div-lt_iff_lt-mul, div-mul-le_self}
use native.Mathlib.Nat.{mul-le-mul_right, pow-le-pow_right, le_trans}

lt-pow-digits_from : (b f n : ℕ) → 2 ≤ b → n ≤ f → n < b ^ digits_from b f n
unfolding digits_from
lt-pow-digits_from b zero n hb h = omega (arith, pow-zero b)
lt-pow-digits_from b (suc f) n hb h = elim (Bool-cases (n == 0)) [
  | inl e ↦ rw (e, digits_from) (ground (arith, pow-zero b))
  | inr e ↦
      let lt : n / b < n = div-lt_self (ground arith) hb in
      let ih : n / b < b ^ digits_from b f (n / b) =
        lt-pow-digits_from b f (n / b) hb (omega arith) in
      rw (e, digits_from, pow-suc) ((div-lt_iff_lt-mul (omega arith)).0 ih)
]

pow-digits_from-le : (b f n k : ℕ) → 2 ≤ b → n ≤ f → digits_from b f n ≡ suc k → b ^ k ≤ n
unfolding digits_from
pow-digits_from-le b zero n k hb h e = absurd (omega arith)
pow-digits_from-le b (suc f) n zero hb h e = elim (Bool-cases (n == 0)) [
  | inl z ↦ absurd (ground arith)
  | inr z ↦ rw pow-zero (ground arith)
]
pow-digits_from-le b (suc f) n (suc k) hb h e = elim (Bool-cases (n == 0)) [
  | inl z ↦ absurd (ground arith)
  | inr z ↦
      let lt : n / b < n = div-lt_self (ground arith) hb in
      let ih : b ^ k ≤ n / b = pow-digits_from-le b f (n / b) k hb (omega arith) (ground arith) in
      rw pow-suc (le_trans (mul-le-mul_right b ih) (div-mul-le_self n b))
]

module _ (b n : ℕ) (hb : 2 ≤ b) where
  pub lt-pow-digits : n < b ^ digits b n
  unfolding digits
  lt-pow-digits = lt-pow-digits_from b n n hb (omega arith)

  pub pow-digits-le : (k : ℕ) → digits b n ≡ suc k → b ^ k ≤ n
  unfolding digits
  pow-digits-le k e = pow-digits_from-le b n n k hb (omega arith) e

  -- A number below `b ^ p` has at most `p` digits.
  pub digits-le_of_lt-pow : (p : ℕ) → n < b ^ p → digits b n ≤ p
  digits-le_of_lt-pow p h = go (digits b n) refl
    where
      go : (d : ℕ) → digits b n ≡ d → d ≤ p
      go zero e = omega arith
      go (suc k) e = elim (dec_le (suc k) p) [
        | yes le ↦ le
        | no gt ↦
            let low : b ^ p ≤ b ^ k = pow-le-pow_right (omega arith) (omega arith) in
            absurd (omega (arith, pow-digits-le k e))
      ]

  -- A number of at least `b ^ p` has more than `p` digits.
  pub lt-digits_of_pow-le : (p : ℕ) → b ^ p ≤ n → p < digits b n
  lt-digits_of_pow-le p h = elim (dec_le (digits b n) p) [
    | yes le ↦
        let up : b ^ digits b n ≤ b ^ p = pow-le-pow_right (omega arith) le in
        absurd (omega (arith, lt-pow-digits))
    | no gt ↦ omega arith
  ]

pub digits_mono : (b n m : ℕ) → 2 ≤ b → n ≤ m → digits b n ≤ digits b m
digits_mono b n m hb h =
    digits-le_of_lt-pow b n hb (digits b m) (omega (arith, lt-pow-digits b m hb))
