-- ===== src/Geb/Rounding.antt =====
-- The rounding of `SAFEEngine.validate_safe_modification` of `pyflex/gf.py`, which computes to 28
-- digits, against the exact comparison of the contract.
use pyflex.Base.{
  ℕ, ◌*◌, ◌/◌, ◌^◌, ◌≤◌, ◌<◌, Bool, true, false, ◌≡◌, sym, ap, ◌∙◌, subst, if◌then◌else◌, ltb,
  arith,
}
use pyflex.Base.Int.{ℤ, pos, ◌≤ℤ◌}
use pyflex.Base.Results.{
  Error, ok, err, ◌>>=◌, map_result, bind_ok, map_ok, ok_inj, invalid_operation,
}
use pyflex.Decimal.{mul_dec, quot_pow10, quantize, round_sig, prec, context_prec, digits}
use pyflex.Decimal.Context.{mul_dec_pow, quot_pow10-mul_dec}
use pyflex.Decimal.Significant.{round_sig_mono}
use pyflex.Decimal.Rounding.{div_mono}
use pyflex.Decimal.Scaling.{round_sig-scale}
use pyflex.Numeric.Value.{Value}
use pyflex.Numeric.Ray
use pyflex.Numeric.Classes.{wad, ray}
use pyflex.Numeric.Amount.{Amount, amount, convert, times}
use pyflex.Geb.Modification.{Figures, is_safe}
use native.Mathlib.Nat.{mul-div-mul_right}

-- Rounding both sides keeps the order, with the price's nine more decimal places.
rounded_le :
    (rate debt locked price : ℕ)
    → rate * debt ≤ locked * price
    → mul_dec rate debt / 10 ^ 18 ≤ mul_dec (locked * 10 ^ 9) price / 10 ^ 27
unfolding mul_dec
rounded_le rate debt locked price h =
    let moved : round_sig 10 prec (locked * 10 ^ 9 * price)
        ≡ round_sig 10 prec (locked * price) * 10 ^ 9 =
      ap (round_sig 10 prec) {x = locked * 10 ^ 9 * price} {y = locked * price * 10 ^ 9}
        (omega arith)
      ∙ round_sig-scale 10 prec (omega arith) (locked * price) 9 in
    let divided : round_sig 10 prec (locked * 10 ^ 9 * price) / 10 ^ 27
        ≡ round_sig 10 prec (locked * price) / 10 ^ 18 =
      ap (λ (t : ℕ). t / 10 ^ 27) moved
      ∙ mul-div-mul_right (round_sig 10 prec (locked * price)) (10 ^ 18) (omega arith) in
    subst (λ (t : ℕ). round_sig 10 prec (rate * debt) / 10 ^ 18 ≤ t) (sym divided)
      (div_mono (round_sig 10 prec (rate * debt)) (round_sig 10 prec (locked * price)) (10 ^ 18)
        (omega arith)
        (round_sig_mono 10 prec (omega arith) (rate * debt) (locked * price) (omega arith) h))

checked : (b : Bool) (raised : Error) (n z : ℤ) → (if b then err raised else ok n) ≡ ok z → z ≡ n
checked true raised n z h = ground arith
checked false raised n z h = sym (ok_inj h)

quantize_value : (n : ℕ) (z : ℤ) → quantize false n ≡ ok z → z ≡ pos n
unfolding quantize
quantize_value n z h = checked (ltb context_prec (digits 10 n)) invalid_operation (pos n) z h

passes :
    (delta_collateral delta_debt : Amount wad) (f : Figures)
    → f.tab.value ≤ℤ f.value.value
    → is_safe delta_collateral delta_debt f ≡ true
unfolding is_safe
passes delta_collateral delta_debt f h = ground arith

ordered : (a b : ℕ) → a ≤ b → pos a ≤ℤ pos b
ordered a b h = omega arith

-- If the debt of a SAFE, without rounding, is at most what its collateral allows, and the collateral has
-- at most 28 digits, then the comparison of the computed amounts passes, whatever the modification.
pub is_safe-exact :
    (delta_collateral delta_debt : Amount wad) (f : Figures) (rate debt locked price : ℕ)
    → times {c = ray} {d = wad} (amount (pos rate)) (amount (pos debt)) ≡ ok f.tab
    → (convert {c = ray} {d = wad} (amount (pos locked)) >>= λ l.
        times {c = ray} {d = ray} l (amount (pos price)))
      ≡ ok f.value
    → locked < 10 ^ 28
    → rate * debt ≤ locked * price
    → is_safe delta_collateral delta_debt f ≡ true
unfolding is_safe Ray.mul Ray.new
is_safe-exact delta_collateral delta_debt f rate debt locked price tab value short le =
    let (t, multiplied, is_tab) =
      map_ok (Ray.mul (pos rate) (Value.wad (pos debt))) amount f.tab tab in
    let (l, converted, scaled) =
      bind_ok (convert {c = ray} {d = wad} (amount (pos locked)))
        (λ l. times {c = ray} {d = ray} l (amount (pos price))) f.value value in
    let (v, is_converted, is_l) = map_ok (Ray.new (Value.wad (pos locked))) amount l converted in
    let l_value : l.value ≡ pos (locked * 10 ^ 9) =
      sym (ap (λ a. a.value) is_l)
      ∙ quantize_value (mul_dec locked (10 ^ 9)) v is_converted
      ∙ ap pos (mul_dec_pow locked 9 short) in
    let (w, is_scaled, is_value) =
      map_ok (Ray.mul (pos (locked * 10 ^ 9)) (Value.ray (pos price))) amount f.value
        (ap (λ x. map_result amount (Ray.mul x (Value.ray (pos price)))) (sym l_value) ∙ scaled) in
    let left : f.tab.value ≡ pos (mul_dec rate debt / 10 ^ 18) =
      sym (ap (λ a. a.value) is_tab)
      ∙ quantize_value (quot_pow10 (mul_dec rate debt) 18) t multiplied
      ∙ ap pos (quot_pow10-mul_dec rate debt 18) in
    let right : f.value.value ≡ pos (mul_dec (locked * 10 ^ 9) price / 10 ^ 27) =
      sym (ap (λ a. a.value) is_value)
      ∙ quantize_value (quot_pow10 (mul_dec (locked * 10 ^ 9) price) 27) w is_scaled
      ∙ ap pos (quot_pow10-mul_dec (locked * 10 ^ 9) price 27) in
    passes delta_collateral delta_debt f (
      subst (λ x. x ≤ℤ f.value.value) (sym left)
        (subst (λ y. pos (mul_dec rate debt / 10 ^ 18) ≤ℤ y) (sym right)
          (ordered (mul_dec rate debt / 10 ^ 18) (mul_dec (locked * 10 ^ 9) price / 10 ^ 27)
            (rounded_le rate debt locked price le))))
