-- ===== src/Gas/Product.antt =====
-- The doubles of `GeometricGasPrice` in `pyflex/gas.py`: a product by a factor of at least 1 never
-- falls.
use pyflex.Base.{ℕ, zero, suc, ◌+◌, ◌*◌, ◌^◌, ◌≤◌, ◌<◌, ◌≡◌, ◌∙◌}
use pyflex.Base.{ap, sym, arith, if◌then◌else◌, Bool, true, false}
use pyflex.Decimal.{round_sig}
use pyflex.Decimal.Significant.{
  round_sig_multiple, round_sig_mono, round_sig-short, pow_pos, pow-add,
}
use pyflex.Gas.Float.{Float, finite, infinite, mul}
use pyflex.Gas.Strategies.{multiply}
use native.Mathlib.Nat.{le_trans, mul-le-mul_right, mul-le-mul_left, le_of_mul-le-mul_right}
use native.Mathlib.Nat.{mul_assoc}

pub two-le : 2 ≤ 2
two-le = omega arith

-- A double: at most 53 binary digits in front of its zeros.
abbrev pub Representable : Float → Type 0
Representable (finite n e) = (q : ℕ) × (j : ℕ) × (n ≡ q * 2 ^ j) × (q < 2 ^ 53)
Representable infinite = Unit

infix 50 ◌≼◌
abbrev pub ◌≼◌ : Float → Float → Type 0
finite n e ≼ finite m f = n * 2 ^ f ≤ m * 2 ^ e
finite n e ≼ infinite = Unit
infinite ≼ finite m f = ⊥
infinite ≼ infinite = Unit

≼_refl : (x : Float) → x ≼ x
≼_refl (finite n e) = omega arith
≼_refl infinite = tt

≼_trans : (x y z : Float) → x ≼ y → y ≼ z → x ≼ z
≼_trans (finite n e) (finite m f) (finite k g) h i =
    le_of_mul-le-mul_right (omega (arith, mul-le-mul_right (2 ^ g) h, mul-le-mul_right (2 ^ e) i))
      (pow_pos 2 f two-le)
≼_trans (finite n e) (finite m f) infinite h i = tt
≼_trans (finite n e) infinite (finite k g) h i = absurd i
≼_trans (finite n e) infinite infinite h i = tt
≼_trans infinite (finite m f) z h i = absurd h
≼_trans infinite infinite z h i = i

finite_or_infinite-Representable :
    (t : Bool) (n e : ℕ)
    → Representable (finite n e)
    → Representable (if t then finite n e else infinite)
finite_or_infinite-Representable true n e r = r
finite_or_infinite-Representable false n e r = tt

≼-finite_or_infinite :
    (t : Bool) (x : Float) (n e : ℕ) → x ≼ finite n e → x ≼ (if t then finite n e else infinite)
≼-finite_or_infinite true x n e h = h
≼-finite_or_infinite false (finite m f) n e h = tt
≼-finite_or_infinite false infinite n e h = tt

mul-Representable : (x : Float) (m f : ℕ) → Representable (mul x m f)
unfolding mul
mul-Representable infinite m f = tt
mul-Representable (finite n e) m f =
    finite_or_infinite-Representable _ (round_sig 2 53 (n * m)) (e + f)
      (round_sig-short 2 53 two-le (n * m) (omega arith))

-- A factor of at least 1 does not make a double smaller.
le-mul : (x : Float) (m f : ℕ) → Representable x → 2 ^ f ≤ m → x ≼ mul x m f
unfolding mul
le-mul infinite m f r h = tt
le-mul (finite n e) m f (q, j, eq, short) h =
    ≼-finite_or_infinite _ (finite n e) (round_sig 2 53 (n * m)) (e + f) (
      rw pow-add (
        omega (
          arith,
          mul-le-mul_right (2 ^ e)
              (le_trans kept (round_sig_mono 2 53 two-le _ _ (omega arith) (mul-le-mul_left n h))),
        )))
  where
    shifted : n * 2 ^ f ≡ q * 2 ^ (j + f)
    shifted =
        ap (λ (t : ℕ). t * 2 ^ f) eq
        ∙ mul_assoc q (2 ^ j) (2 ^ f)
        ∙ ap (λ (t : ℕ). q * t) (sym (pow-add 2 j f))

    kept : n * 2 ^ f ≤ round_sig 2 53 (n * 2 ^ f)
    kept = rw shifted (rw (round_sig_multiple 2 53 two-le q (j + f) short) (omega arith))

module _ (m f : ℕ) (h : 2 ^ f ≤ m) where
  le-multiply : (k : ℕ) (x : Float) → Representable x → x ≼ multiply k m f x
  unfolding multiply
  le-multiply zero x r = ≼_refl x
  le-multiply (suc k) x r =
      ≼_trans x (mul x m f) (multiply k m f (mul x m f)) (le-mul x m f r h)
        (le-multiply k (mul x m f) (mul-Representable x m f))

  pub multiply_mono :
      (k l : ℕ) (x : Float) → k ≤ l → Representable x → multiply k m f x ≼ multiply l m f x
  unfolding multiply
  multiply_mono zero l x le r = le-multiply l x r
  multiply_mono (suc k) zero x le r = absurd (omega arith)
  multiply_mono (suc k) (suc l) x le r =
      multiply_mono k l (mul x m f) (omega arith) (mul-Representable x m f)
