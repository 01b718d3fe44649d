-- ===== src/Numeric/Integer.antt =====
-- `int(…)` and `round(…, ndigits)` of `pyflex/numeric.py`.
use pyflex.Base.{ℕ, ◌+◌, ◌-◌, ◌*◌, ◌/◌, ◌^◌, ◌≤◌, ◌<◌, ◌≡◌, refl, ◌∙◌, ap, arith, subst}
use pyflex.Base.Int.{ℤ, pos, mag, signed, is_neg, signed-mag, neg_part, ◌-ℤ◌}
use pyflex.Base.Results.{ok, map_result}
use pyflex.Decimal.{round_half_even}
use pyflex.Decimal.Rounding.{round_half_even-error, round_half_even_exact}
use pyflex.Decimal.Significant.{pow_pos}
use pyflex.Decimal.Truediv.{int_truediv_exact, int_truediv_carries}
use pyflex.Numeric.Value.{int_part, round_to}
use native.Mathlib.Nat.{mul-one}
use pyflex.Numeric.Wad
use pyflex.Numeric.Ray
use pyflex.Numeric.Rad
use pyflex.Numeric.Classes.{Class, wad, ray, rad, decimals, to_int, round}

to_int-eq : (c : Class) (v : ℤ) → to_int c v ≡ int_part (decimals c) v
unfolding Wad.to_int Ray.to_int Rad.to_int
to_int-eq wad v = refl
to_int-eq ray v = refl
to_int-eq rad v = refl

-- `int(x)` cuts off the decimal places of a value below `2 ^ 53`.
to_int_exact :
    (c : Class) (v : ℤ)
    → mag v < 2 ^ 53
    → to_int c v ≡ ok (signed (is_neg v) (mag v / 10 ^ decimals c))
unfolding int_part
to_int_exact c v h =
    to_int-eq c v
    ∙ ap (map_result (signed (is_neg v)))
        (int_truediv_exact (mag v) (10 ^ decimals c) (pow_pos 10 (decimals c) (omega arith)) h)

scale_wide : (c : Class) → 2 ^ 54 < 10 ^ decimals c
scale_wide wad = omega arith
scale_wide ray = omega arith
scale_wide rad = omega arith

-- `int(x)` is `n`, and not `n - 1`, for the largest amount below a whole number `n` of at most
-- `2 ^ 53`: the division by the scale is carried out in doubles and rounds up.
to_int_carries :
    (c : Class) (n : ℕ) → 1 ≤ n → n ≤ 2 ^ 53 → to_int c (pos (n * 10 ^ decimals c - 1)) ≡ ok (pos n)
unfolding int_part
to_int_carries c n hn h =
    to_int-eq c (pos (n * 10 ^ decimals c - 1))
    ∙ ap (map_result (signed (is_neg (pos (n * 10 ^ decimals c - 1)))))
        (int_truediv_carries n (10 ^ decimals c) hn h (scale_wide c))

round-eq : (c : Class) (v n : ℤ) → round c v n ≡ round_to (decimals c) n v
unfolding Wad.round Ray.round Rad.round
round-eq wad v n = refl
round-eq ray v n = refl
round-eq rad v n = refl

places : (k n : ℕ) → n ≤ k → neg_part (pos n -ℤ pos k) ≡ k - n
unfolding ◌-ℤ◌
places k n h = ground arith

places_enough : (k n : ℕ) → k ≤ n → neg_part (pos n -ℤ pos k) ≡ 0
unfolding ◌-ℤ◌
places_enough k n h = ground arith

-- To a unit of `u`: a multiple of it, at most half of it away, and kept by a second rounding.
round_to-unit :
    (k : ℕ) (n v : ℤ) (e : ℕ)
    → neg_part (n -ℤ pos k) ≡ e
    → round_to k n v ≡ signed (is_neg v) (round_half_even (mag v) (10 ^ e) * 10 ^ e)
unfolding round_to
round_to-unit k n v e h =
    ap (λ (t : ℕ). signed (is_neg v) (round_half_even (mag v) (10 ^ t) * 10 ^ t)) h

-- `round(x, ndigits)` with fewer digits than the class has gives a multiple of the unit of that
-- digit with the sign of `x`, at most half a unit away.
pub round-nearest :
    (c : Class) (v : ℤ) (n : ℕ)
    → n ≤ decimals c
    → (q : ℕ) × (round c v (pos n) ≡ signed (is_neg v) (q * 10 ^ (decimals c - n)))
      × (2 * (q * 10 ^ (decimals c - n)) ≤ 2 * mag v + 10 ^ (decimals c - n))
      × (2 * mag v ≤ 2 * (q * 10 ^ (decimals c - n)) + 10 ^ (decimals c - n))
round-nearest c v n h =
    let u : ℕ = 10 ^ (decimals c - n) in
    let (up, down) = round_half_even-error (mag v) u (pow_pos 10 (decimals c - n) (omega arith)) in
    (
      round_half_even (mag v) u,
      round-eq c v (pos n)
          ∙ round_to-unit (decimals c) (pos n) v (decimals c - n) (places (decimals c) n h),
      up,
      down,
    )

whole : (m : ℕ) → round_half_even m 1 ≡ m
whole m =
    subst (λ (t : ℕ). round_half_even t 1 ≡ m) (mul-one m) (round_half_even_exact m 1 (omega arith))

-- With at least as many digits as the class has, nothing is rounded.
pub round_all_digits : (c : Class) (v : ℤ) (n : ℕ) → decimals c ≤ n → round c v (pos n) ≡ v
round_all_digits c v n h =
    round-eq c v (pos n)
    ∙ round_to-unit (decimals c) (pos n) v 0 (places_enough (decimals c) n h)
    ∙ ap (signed (is_neg v)) (mul-one (round_half_even (mag v) 1) ∙ whole (mag v))
    ∙ signed-mag v
