-- ===== src/Decimal/Truediv.antt =====
-- `int(a / b)` through a double.
use pyflex.Base.{ℕ, ◌+◌, ◌-◌, ◌*◌, ◌/◌, ◌^◌, ◌≤◌, ◌<◌, ◌≡◌, ◌∙◌, ap, arith}
use pyflex.Base.Results.{ok}
use pyflex.Decimal.Defs.{
  digits, round_half_even, round_quot, checked_quot, int_truediv, float_limit,
}
use pyflex.Decimal.Rounding.{round_half_even-error}
use pyflex.Decimal.Significant.{pow_pos}
use pyflex.Decimal.Quotient.{round_quot_binary, round_quot-eq, scale_of}
use native.Mathlib.Decide.{dec_lt}
use native.Mathlib.Nat.{div-le_self, pow-le-pow_right, mul-div_cancel, div-eq_of_lt-le}
use native.Mathlib.Nat.{mul-le-mul_right}

checked_quot_ok : (b q : ℕ) → 0 < b → q < float_limit → checked_quot b q ≡ ok q
unfolding checked_quot
checked_quot_ok b q hb h = ground arith

-- Exact below `2 ^ 53`.
pub int_truediv_exact : (a b : ℕ) → 0 < b → a < 2 ^ 53 → int_truediv a b ≡ ok (a / b)
unfolding int_truediv
int_truediv_exact a b hb ha =
    ap (checked_quot b) (round_quot_binary 53 a b hb ha)
    ∙ checked_quot_ok b (a / b) hb (omega (arith, div-le_self a b))

-- What is one short of `n * d` is rounded to it, for a divisor that is large against the scale.
module _ (n d : ℕ) (hn : 1 ≤ n) (hd : 2 ^ 54 < d) where
  positive : 1 ≤ n * d
  positive = omega (arith, mul-le-mul_right d hn)

  one_more : n * d ≡ n * d - 1 + 1
  one_more = omega (arith, positive)

  nearest :
      (s r : ℕ)
      → 2 * s < d
      → (2 * (r * d) ≤ 2 * ((n * d - 1) * s) + d) × (2 * ((n * d - 1) * s) ≤ 2 * (r * d) + d)
      → r ≡ n * s
  nearest s r hs err =
      let whole : (n * d - 1) * s + s ≡ n * s * d = omega (arith, ap (λ (t : ℕ). t * s) one_more) in
      elim (dec_lt r (n * s)) [
        | yes less ↦ absurd (omega (arith, whole, err, mul-le-mul_right d less))
        | no notless ↦ elim (dec_lt (n * s) r) [
          | yes more ↦ absurd (omega (arith, whole, err, mul-le-mul_right d more))
          | no notmore ↦ omega arith
        ]
      ]

  quotient_below : (n * d - 1) / d ≡ n - 1
  quotient_below =
      div-eq_of_lt-le d (omega (arith, ap (λ (t : ℕ). t * d) split, positive))
        (omega (arith, ap (λ (t : ℕ). t * d) split, positive))
    where
      split : n ≡ n - 1 + 1
      split = omega arith

  pub round_quot_carries : n ≤ 2 ^ 53 → round_quot 2 53 (n * d - 1) d ≡ n
  unfolding scale_of
  round_quot_carries h =
      let s : ℕ = 2 ^ (53 - digits 2 ((n * d - 1) / d)) in
      let hs : s ≤ 2 ^ 53 =
        pow-le-pow_right {n = 2} (omega arith) {i = 53 - digits 2 ((n * d - 1) / d)} {j = 53}
          (omega arith) in
      let dpos : 0 < d = omega arith in
      round_quot-eq 2 53 (omega arith) (n * d - 1) d dpos (rw quotient_below (omega arith))
      ∙ ap (λ (t : ℕ). t / s)
          (nearest s (round_half_even ((n * d - 1) * s) d) (omega arith)
            (round_half_even-error ((n * d - 1) * s) d dpos))
      ∙ mul-div_cancel n (pow_pos 2 (53 - digits 2 ((n * d - 1) / d)) (omega arith))

-- An integer just under a multiple is taken for that multiple.
pub int_truediv_carries :
    (n d : ℕ) → 1 ≤ n → n ≤ 2 ^ 53 → 2 ^ 54 < d → int_truediv (n * d - 1) d ≡ ok n
unfolding int_truediv
int_truediv_carries n d hn h hd =
    ap (checked_quot d) (round_quot_carries n d hn hd h)
    ∙ checked_quot_ok d n (omega arith) (omega arith)
