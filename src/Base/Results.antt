-- ===== src/Base/Results.antt =====
-- A call that returns or raises, and its `do` notation. Every exception that the modelled code
-- can raise by itself has a constructor.
use mathlib.Core.Bool.{Bool, true, false}
use mathlib.Core.List.{List, [], ◌∷◌}
use mathlib.Core.Path.{◌≡◌, refl}
use native.Mathlib.Omega.{arith}

-- `invalid_operation` and `division_by_zero` are the decimal module's, `zero_division` is Python's.
pub data Error : Type 0 where
  arithmetic_error invalid_operation division_by_zero zero_division overflow_error : Error
  assertion_error value_error type_error key_error index_error name_error : Error
  not_implemented exception : Error

-- What a call of type `R` comes to.
pub data Result {ℓ} (R : Type ℓ) : Type ℓ where
  err : Error → Result R
  ok : R → Result R

abbrev pub map_result {ℓ κ} : {R : Type ℓ} {S : Type κ} → (R → S) → Result R → Result S
map_result f (ok r) = ok (f r)
map_result f (err e) = err e

-- An exception skips the rest of a `do` block.
infixl 5 ◌>>=◌
abbrev pub ◌>>=◌ {ℓ κ} : {R : Type ℓ} {S : Type κ} → Result R → (R → Result S) → Result S
err raised >>= rest = err raised
ok r >>= rest = rest r

-- `assert`, or a test that raises.
abbrev pub guard : Bool → Error → Result (Unit {0})
guard false raised = err raised
guard true raised = ok tt

infixl 5 ◌>>◌
abbrev pub ◌>>◌ {ℓ} : {S : Type ℓ} → Result (Unit {0}) → Result S → Result S
check >> rest = check >>= λ _. rest

-- `list(map(f, xs))`: the first exception ends it.
abbrev pub traverse {ℓ κ} : {A : Type ℓ} {B : Type κ} → (A → Result B) → List A → Result (List B)
traverse f [] = ok []
traverse f (x ∷ xs) = do y ← f x; ys ← traverse f xs; ok (y ∷ ys)

pub ok_inj {ℓ} : {R : Type ℓ} {a b : R} → ok a ≡ ok b → a ≡ b
ok_inj e = cc

-- A call that has returned in two steps.
pub bind_ok {ℓ κ} :
    {R : Type ℓ} {S : Type κ} (r : Result R) (f : R → Result S) (b : S)
    → (r >>= f) ≡ ok b
    → (a : R) × (r ≡ ok a) × (f a ≡ ok b)
bind_ok (ok a) f b h = (a, refl, h)
bind_ok (err raised) f b h = ground arith

pub map_ok {ℓ κ} :
    {R : Type ℓ} {S : Type κ} (r : Result R) (f : R → S) (b : S)
    → map_result f r ≡ ok b
    → (a : R) × (r ≡ ok a) × (f a ≡ b)
map_ok (ok a) f b h = (a, refl, ok_inj h)
map_ok (err raised) f b h = ground arith
