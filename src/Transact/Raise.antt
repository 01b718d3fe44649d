-- ===== src/Transact/Raise.antt =====
-- `pyflex/__init__.py`: what `value > last * 1.125` says of the two prices, in whole numbers.
use pyflex.Base.{ℕ, ◌-◌, ◌*◌, ◌^◌, ◌<◌, true, ◌≡◌, arith}
use pyflex.Decimal.{round_sig}
use pyflex.Decimal.Significant.{round_sig-error}
use pyflex.Transact.Price.{exceeds_last}

-- The price is more than 9 / 8 times the last one, less a part of `2 ^ -52` of that for the rounding
-- of two doubles.
abbrev pub IsRaise : ℕ → ℕ → Type 0
IsRaise last value = 9 * last * (2 ^ 52 - 1) < 8 * value * 2 ^ 52

exceeds_last-lt :
    (value last : ℕ)
    → exceeds_last value last ≡ true
    → round_sig 2 53 (9 * round_sig 2 53 last) < 8 * value
unfolding exceeds_last
exceeds_last-lt value last h = ground arith

pub exceeds_last-IsRaise : (value last : ℕ) → exceeds_last value last ≡ true → IsRaise last value
exceeds_last-IsRaise value last h = omega (
  arith,
  exceeds_last-lt value last h,
  (round_sig-error 2 52 last (omega arith)).1,
  (round_sig-error 2 52 (9 * round_sig 2 53 last) (omega arith)).1,
)
