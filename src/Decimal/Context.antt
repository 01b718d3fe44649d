-- ===== src/Decimal/Context.antt =====
-- The decimal operations in the two contexts: where they are exact, how far they err, when they
-- raise.
use pyflex.Base.{ℕ, ◌+◌, ◌*◌, ◌/◌, ◌^◌, ◌≤◌, ◌<◌, ◌≡◌, ◌∙◌, ap, subst}
use pyflex.Base.{arith, le→ltb, lt→ltb, Bool}
use pyflex.Base.Int.{signed}
use pyflex.Base.Results.{ok, err, invalid_operation}
use pyflex.Decimal.Defs.{
  digits, round_sig, prec, context_prec, mul_dec, quot_pow10, quot, floordiv, quantize,
}
use pyflex.Decimal.Digits.{digits-le_of_lt-pow, lt-digits_of_pow-le}
use pyflex.Decimal.Quotient.{round_quot-floor}
use pyflex.Decimal.Significant.{
  pow_pos, round_sig_exact, round_sig_multiple, round_sig_mono, round_sig_idem, round_sig-error,
  pow-add,
}
use native.Mathlib.Nat.{mul-le-mul_right}
use native.Mathlib.Nat.{one-mul, mul-div_cancel}

two-le-ten : 2 ≤ 10
two-le-ten = omega arith

pub quantize_ok : (s : Bool) (n : ℕ) → n < 10 ^ context_prec → quantize s n ≡ ok (signed s n)
unfolding quantize
quantize_ok s n h =
    rw (le→ltb context_prec (digits 10 n) (digits-le_of_lt-pow 10 n two-le-ten context_prec h))

pub quantize_too_long :
    (s : Bool) (n : ℕ) → 10 ^ context_prec ≤ n → quantize s n ≡ err invalid_operation
unfolding quantize
quantize_too_long s n h =
    rw (lt→ltb context_prec (digits 10 n) (lt-digits_of_pow-le 10 n two-le-ten context_prec h))

pub mul_dec_exact : (x y : ℕ) → x * y < 10 ^ prec → mul_dec x y ≡ x * y
unfolding mul_dec
mul_dec_exact x y h = round_sig_exact 10 prec two-le-ten (x * y) h

-- A power of ten only moves the point of a number of at most 28 digits.
pub mul_dec_pow : (x k : ℕ) → x < 10 ^ prec → mul_dec x (10 ^ k) ≡ x * 10 ^ k
unfolding mul_dec
mul_dec_pow x k h = round_sig_multiple 10 prec two-le-ten x k h

-- A power of ten is kept, however large.
round_sig_power : (i j : ℕ) → round_sig 10 prec (10 ^ i * 10 ^ j) ≡ 10 ^ i * 10 ^ j
round_sig_power i j =
    subst (λ (t : ℕ). round_sig 10 prec t ≡ t) (rw (one-mul, pow-add))
      (round_sig_multiple 10 prec two-le-ten 1 (i + j) (omega arith))

pub le-mul_dec_pow : (x k : ℕ) → 10 ^ prec ≤ x → 10 ^ prec * 10 ^ k ≤ mul_dec x (10 ^ k)
unfolding mul_dec
le-mul_dec_pow x k h =
    subst (λ (t : ℕ). t ≤ round_sig 10 prec (x * 10 ^ k)) (round_sig_power prec k)
      (round_sig_mono 10 prec two-le-ten (10 ^ prec * 10 ^ k) (x * 10 ^ k) (omega arith)
        (mul-le-mul_right (10 ^ k) h))

pub quot_pow10_exact : (x k : ℕ) → x < 10 ^ prec → quot_pow10 x k ≡ x / 10 ^ k
unfolding quot_pow10
quot_pow10_exact x k h = ap (λ (t : ℕ). t / 10 ^ k) (round_sig_exact 10 prec two-le-ten x h)

pub quot_pow10_multiple : (x k : ℕ) → x < 10 ^ prec → quot_pow10 (x * 10 ^ k) k ≡ x
unfolding quot_pow10
quot_pow10_multiple x k h =
    ap (λ (t : ℕ). t / 10 ^ k) (round_sig_multiple 10 prec two-le-ten x k h)
    ∙ mul-div_cancel x (pow_pos 10 k two-le-ten)

pub quot-floor : (x y : ℕ) → 0 < y → x / y < 10 ^ prec → (x / y ≤ quot x y) × (quot x y ≤ x / y + 1)
unfolding quot
quot-floor x y hy h = round_quot-floor 10 prec two-le-ten x y hy h

pub floordiv_ok : (x y : ℕ) → x / y < 10 ^ prec → floordiv x y ≡ ok (x / y)
unfolding floordiv
floordiv_ok x y h = rw (lt→ltb (x / y) (10 ^ prec) h)

pub floordiv_too_long : (x y : ℕ) → 10 ^ prec ≤ x / y → floordiv x y ≡ err invalid_operation
unfolding floordiv
floordiv_too_long x y h = rw (le→ltb (x / y) (10 ^ prec) h)

-- The division of a product by a power of ten rounds no further.
pub quot_pow10-mul_dec : (x y k : ℕ) → quot_pow10 (mul_dec x y) k ≡ mul_dec x y / 10 ^ k
unfolding quot_pow10 mul_dec
quot_pow10-mul_dec x y k =
    ap (λ (t : ℕ). t / 10 ^ k) (round_sig_idem 10 prec two-le-ten (x * y) (omega arith))

-- A product is off by at most one part in `2 * 10 ^ 27`.
pub mul_dec-error :
    (x y : ℕ)
    → (2 * (10 ^ 27 * mul_dec x y) ≤ 2 * (10 ^ 27 * (x * y)) + x * y)
      × (2 * (10 ^ 27 * (x * y)) ≤ 2 * (10 ^ 27 * mul_dec x y) + x * y)
unfolding mul_dec
mul_dec-error x y = round_sig-error 10 27 (x * y) two-le-ten

pub quot_pow10_scaled :
    (x k j : ℕ) → x < 10 ^ prec → quot_pow10 (x * 10 ^ k) j ≡ x * 10 ^ k / 10 ^ j
unfolding quot_pow10
quot_pow10_scaled x k j h = ap (λ (t : ℕ). t / 10 ^ j) (round_sig_multiple 10 prec two-le-ten x k h)
