-- ===== src/Base/Int.antt =====
-- Python's integers: unbounded and signed. `negsuc n` is -(n + 1).
use pyflex.Base.Tests.{ltb, leb, ◌==◌, if◌then◌else◌}
use Prim.Native.Nat.{ℕ, zero, suc, ◌+◌, ◌-◌, ◌%◌, ◌≤◌}
use mathlib.Core.Path.{◌≡◌, refl}
use mathlib.Core.Bool.{Bool, true, false}
use native.Mathlib.Omega.{arith}

pub data ℤ : Type 0 where
  pos : ℕ → ℤ
  negsuc : ℕ → ℤ

abbrev pub pos_part : ℤ → ℕ
pos_part (pos n) = n
pos_part (negsuc n) = 0

abbrev pub neg_part : ℤ → ℕ
neg_part (pos n) = 0
neg_part (negsuc n) = suc n

abbrev pub sub_ℕ : ℕ → ℕ → ℤ
sub_ℕ a b = if leb b a then pos (a - b) else negsuc (b - a - 1)

infixl 65 ◌+ℤ◌ ◌-ℤ◌
infix 50 ◌≤ℤ◌
unfoldable pub ◌+ℤ◌ : ℤ → ℤ → ℤ
a +ℤ b = sub_ℕ (pos_part a + pos_part b) (neg_part a + neg_part b)

unfoldable pub ◌-ℤ◌ : ℤ → ℤ → ℤ
a -ℤ b = sub_ℕ (pos_part a + neg_part b) (neg_part a + pos_part b)

abbrev pub ◌≤ℤ◌ : ℤ → ℤ → Type 0
a ≤ℤ b = pos_part a + neg_part b ≤ pos_part b + neg_part a

abbrev pub ltb_ℤ : ℤ → ℤ → Bool
ltb_ℤ a b = ltb (pos_part a + neg_part b) (pos_part b + neg_part a)

abbrev pub eqb_ℤ : ℤ → ℤ → Bool
eqb_ℤ a b = (pos_part a + neg_part b) == (pos_part b + neg_part a)

-- The sign, the magnitude, and the integer that has both. There is no negative zero.
abbrev pub is_neg : ℤ → Bool
is_neg (pos n) = false
is_neg (negsuc n) = true

abbrev pub mag : ℤ → ℕ
mag (pos n) = n
mag (negsuc n) = suc n

abbrev pub signed : Bool → ℕ → ℤ
signed false n = pos n
signed true zero = pos 0
signed true (suc n) = negsuc n

-- The sign of a product or a quotient.
abbrev pub sign_product : ℤ → ℤ → Bool
sign_product a b = if is_neg a then (if is_neg b then false else true) else is_neg b

-- Python's `a % b` for `b` other than 0: the remainder has the sign of the divisor.
unfoldable pub mod_ℤ : ℤ → ℤ → ℤ
mod_ℤ (pos a) (pos b) = pos (a % b)
mod_ℤ (negsuc a) (pos b) = pos (b - 1 - a % b)
mod_ℤ (pos zero) (negsuc b) = pos 0
mod_ℤ (pos (suc a)) (negsuc b) = signed true (b - a % suc b)
mod_ℤ (negsuc a) (negsuc b) = signed true (suc a % suc b)

pub +ℤ_parts :
    (a b : ℤ)
    → pos_part (a +ℤ b) + neg_part a + neg_part b ≡ neg_part (a +ℤ b) + pos_part a + pos_part b
unfolding ◌+ℤ◌
+ℤ_parts a b = ground arith

pub -ℤ_parts :
    (a b : ℤ)
    → pos_part (a -ℤ b) + neg_part a + pos_part b ≡ neg_part (a -ℤ b) + pos_part a + neg_part b
unfolding ◌-ℤ◌
-ℤ_parts a b = ground arith

pub eq_of_parts : (a b : ℤ) → pos_part a + neg_part b ≡ pos_part b + neg_part a → a ≡ b
eq_of_parts a b h = ground arith

pub ruleset int_laws = (arith, +ℤ_parts, -ℤ_parts, eq_of_parts)

pub signed-mag : (a : ℤ) → signed (is_neg a) (mag a) ≡ a
signed-mag (pos n) = refl
signed-mag (negsuc n) = refl

pub mag-signed : (b : Bool) (n : ℕ) → mag (signed b n) ≡ n
mag-signed false n = refl
mag-signed true zero = refl
mag-signed true (suc n) = refl
