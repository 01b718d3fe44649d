-- ===== src/Exchange/Remaining.antt =====
-- What is left of an order of `pyflex/zrx.py`.
use pyflex.Base.{true, not, if◌then◌else◌, ◌≡◌, ◌⊎◌, inl, inr, ◌&&◌, refl, ap, ◌∙◌, arith}
use pyflex.Base.Int.{ℤ, pos, ◌≤ℤ◌, ◌-ℤ◌, ltb_ℤ, eqb_ℤ, -ℤ_parts}
use pyflex.Base.Results.{ok}
use pyflex.Numeric.Classes.{wad}
use pyflex.Numeric.Amount.{Amount, amount, minus}
use pyflex.Exchange.Order.{
  Order, or_zero, remaining_after, remaining_buy_amount, remaining_sell_amount,
}

le_cases : (a b : ℤ) → (a ≤ℤ b) ⊎ (b ≤ℤ a)
le_cases a b = ground arith

-- The larger of an amount and nothing.
abbrev clip : ℤ → ℤ
clip v = if not (ltb_ℤ v (pos 0)) && not (eqb_ℤ v (pos 0)) then v else pos 0

or_zero-clip : (a : Amount wad) → or_zero a ≡ ok (amount (clip a.value))
unfolding or_zero
or_zero-clip a = refl

clip_rest : (whole part : ℤ) → part ≤ℤ whole → clip (whole -ℤ part) ≡ whole -ℤ part
clip_rest whole part h = ground (arith, -ℤ_parts whole part)

clip_nothing : (whole part : ℤ) → whole ≤ℤ part → clip (whole -ℤ part) ≡ pos 0
clip_nothing whole part h = ground (arith, -ℤ_parts whole part)

-- Of the amount to buy, the difference is left, or nothing if no less of it is gone; in that case nothing
-- of the amount to sell is left either, and nothing is divided.
remaining_amounts :
    (order : Order) (taken : Amount wad)
    → (taken.value ≤ℤ order.buy_amount.value
        × (remaining_buy_amount (ok taken) order ≡ ok (minus order.buy_amount taken)))
      ⊎ (order.buy_amount.value ≤ℤ taken.value
          × (remaining_buy_amount (ok taken) order ≡ ok (amount (pos 0)))
          × (remaining_sell_amount (ok taken) order ≡ ok (amount (pos 0))))
unfolding remaining_buy_amount remaining_sell_amount minus
remaining_amounts order taken = elim (le_cases taken.value order.buy_amount.value) [
  | inl le ↦ inl (
    le,
    or_zero-clip (minus order.buy_amount taken)
        ∙ ap (λ v. ok (amount v)) (clip_rest order.buy_amount.value taken.value le),
  )
  | inr ge ↦ inr (
    ge,
    or_zero-clip (minus order.buy_amount taken)
        ∙ ap (λ v. ok (amount v)) (clip_nothing order.buy_amount.value taken.value ge),
    ap (remaining_after order taken) {y = true} (ground arith),
  )
]
