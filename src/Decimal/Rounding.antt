-- ===== src/Decimal/Rounding.antt =====
-- Half-even rounding of one quotient: it errs by half a unit at most, keeps what is exact, and is
-- monotone.
use pyflex.Base.{ℕ, ◌+◌, ◌*◌, ◌/◌, ◌%◌, ◌≤◌, ◌<◌, ◌≡◌, ◌⊎◌, inl, inr, ap, arith}
use pyflex.Decimal.Defs.{round_half_even}
use native.Mathlib.Nat.{mod-lt, div-add-mod, mul-div_cancel, mul-mod_left, le-div_iff_mul-le}
use native.Mathlib.Nat.{div-mul-le_self, le_trans}

-- Down with at most half of the divisor left, or up with at least half.
round_half_even-cases :
    (n d : ℕ)
    → ((round_half_even n d ≡ n / d) × (2 * (n % d) ≤ d))
      ⊎ ((round_half_even n d ≡ n / d + 1) × (d ≤ 2 * (n % d)))
unfolding round_half_even
round_half_even-cases n d = ground arith

-- The result is the floor or the next integer.
pub round_half_even-floor :
    (n d : ℕ) → (n / d ≤ round_half_even n d) × (round_half_even n d ≤ n / d + 1)
unfolding round_half_even
round_half_even-floor n d = ground arith

-- Half of the divisor bounds the error, from both sides.
pub round_half_even-error :
    (n d : ℕ)
    → 0 < d
    → (2 * (round_half_even n d * d) ≤ 2 * n + d) × (2 * n ≤ 2 * (round_half_even n d * d) + d)
round_half_even-error n d hd = elim (round_half_even-cases n d) [
  | inl c ↦ rw c.0 (omega (arith, div-add-mod n d, mod-lt n hd))
  | inr c ↦ rw c.0 (omega (arith, div-add-mod n d, mod-lt n hd))
]

pub round_half_even_exact : (k d : ℕ) → 0 < d → round_half_even (k * d) d ≡ k
unfolding round_half_even
round_half_even_exact k d hd = ground (arith, mul-div_cancel k hd, mul-mod_left k d)

pub div_mono : (n m d : ℕ) → 0 < d → n ≤ m → n / d ≤ m / d
div_mono n m d hd h = (le-div_iff_mul-le hd).1 (le_trans (div-mul-le_self n d) h)

mod-le_of_div-eq : (n m d : ℕ) → n ≤ m → n / d ≡ m / d → n % d ≤ m % d
mod-le_of_div-eq n m d h e =
    omega (arith, div-add-mod n d, div-add-mod m d, ap (λ (t : ℕ). d * t) e)

eq_of_div-mod : (n m d : ℕ) → n / d ≡ m / d → n % d ≡ m % d → n ≡ m
eq_of_div-mod n m d e f = omega (arith, div-add-mod n d, div-add-mod m d, ap (λ (t : ℕ). d * t) e)

pub round_half_even_mono : (n m d : ℕ) → 0 < d → n ≤ m → round_half_even n d ≤ round_half_even m d
round_half_even_mono n m d hd h = ground (
  arith,
  round_half_even-cases n d,
  round_half_even-cases m d,
  div_mono n m d hd h,
  mod-le_of_div-eq n m d h,
  eq_of_div-mod n m d,
)
