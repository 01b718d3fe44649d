-- ===== src/Numeric/Order.antt =====
-- Comparisons, `min` and `max` of `pyflex/numeric.py`, and the refusal to mix the classes.
use pyflex.Base.{◌+◌, ◌≡◌, ◌≢◌, refl, ◌⊎◌, inl, inr, Bool, not, ◌&&◌}
use pyflex.Base.{List, [], ◌∷◌, map, All, arith, leb, Bool-cases, if◌then◌else◌}
use pyflex.Base.Int.{ℤ, pos_part, neg_part, ltb_ℤ, eqb_ℤ, ◌≤ℤ◌}
use pyflex.Base.Results.{ok, err, arithmetic_error}
use pyflex.Numeric.Wad
use pyflex.Numeric.Ray
use pyflex.Numeric.Rad
use pyflex.Numeric.Classes.{
  Class, wad, ray, rad, instance_of, add, sub, mod_value, truediv, eq, lt, gt, le, ge, min, max,
}

abbrev pub leb_ℤ : ℤ → ℤ → Bool
leb_ℤ a b = leb (pos_part a + neg_part b) (pos_part b + neg_part a)

-- The five comparisons of two instances of one class are those of their integers: `<=`, `>` and
-- `>=`, which `total_ordering` derives, too.
pub compare_lem :
    (c : Class) (a b : ℤ)
    → (eq c a (instance_of c b) ≡ ok (eqb_ℤ a b))
      × (lt c a (instance_of c b) ≡ ok (ltb_ℤ a b))
      × (le c a (instance_of c b) ≡ ok (leb_ℤ a b))
      × (gt c a (instance_of c b) ≡ ok (ltb_ℤ b a))
      × (ge c a (instance_of c b) ≡ ok (leb_ℤ b a))
unfolding Wad.lt Wad.eq Wad.gt Wad.le Wad.ge Ray.lt Ray.eq Ray.gt Ray.le Ray.ge Rad.lt Rad.eq Rad.gt
    Rad.le Rad.ge
compare_lem wad a b = ground arith
compare_lem ray a b = ground arith
compare_lem rad a b = ground arith

-- An instance of another class is refused by every operator but `*`.
pub mixed_classes :
    (c d : Class) (a b : ℤ)
    → c ≢ d
    → (add c a (instance_of d b) ≡ err arithmetic_error)
      × (sub c a (instance_of d b) ≡ err arithmetic_error)
      × (mod_value c a (instance_of d b) ≡ err arithmetic_error)
      × (truediv c a (instance_of d b) ≡ err arithmetic_error)
      × (eq c a (instance_of d b) ≡ err arithmetic_error)
      × (lt c a (instance_of d b) ≡ err arithmetic_error)
      × (le c a (instance_of d b) ≡ err arithmetic_error)
      × (gt c a (instance_of d b) ≡ err arithmetic_error)
      × (ge c a (instance_of d b) ≡ err arithmetic_error)
unfolding Wad.lt Wad.eq Wad.gt Wad.le Wad.ge Ray.lt Ray.eq Ray.gt Ray.le Ray.ge Rad.lt Rad.eq Rad.gt
    Rad.le Rad.ge Wad.add Wad.sub Wad.mod_value Wad.truediv Ray.add Ray.sub Ray.mod_value
    Ray.truediv Rad.add Rad.sub Rad.mod_value Rad.truediv
mixed_classes wad wad a b h = absurd (h refl)
mixed_classes ray ray a b h = absurd (h refl)
mixed_classes rad rad a b h = absurd (h refl)
mixed_classes wad ray a b h = (refl, refl, refl, refl, refl, refl, refl, refl, refl)
mixed_classes wad rad a b h = (refl, refl, refl, refl, refl, refl, refl, refl, refl)
mixed_classes ray wad a b h = (refl, refl, refl, refl, refl, refl, refl, refl, refl)
mixed_classes ray rad a b h = (refl, refl, refl, refl, refl, refl, refl, refl, refl)
mixed_classes rad wad a b h = (refl, refl, refl, refl, refl, refl, refl, refl, refl)
mixed_classes rad ray a b h = (refl, refl, refl, refl, refl, refl, refl, refl, refl)

abbrev pub Among : ℤ → List ℤ → Type 0
Among m [] = ⊥
Among m (v ∷ vs) = (m ≡ v) ⊎ Among m vs

-- The least of a list that is not empty, by the integers.
abbrev pub Least : ℤ → ℤ → List ℤ → Type 0
Least m x vs = Among m (x ∷ vs) × (m ≤ℤ x) × All (λ v. m ≤ℤ v) vs

abbrev pub Greatest : ℤ → ℤ → List ℤ → Type 0
Greatest m x vs = Among m (x ∷ vs) × (x ≤ℤ m) × All (λ v. v ≤ℤ m) vs

abbrev smaller : ℤ → ℤ → ℤ
smaller x y = if ltb_ℤ x y then x else y

abbrev larger : ℤ → ℤ → ℤ
larger x y = if not (ltb_ℤ x y) && not (eqb_ℤ x y) then x else y

least : ℤ → List ℤ → ℤ
least x [] = x
least x (y ∷ vs) = least (smaller x y) vs

greatest : ℤ → List ℤ → ℤ
greatest x [] = x
greatest x (y ∷ vs) = greatest (larger x y) vs

Least-step : (m x y : ℤ) (vs : List ℤ) → Least m (smaller x y) vs → Least m x (y ∷ vs)
Least-step m x y vs h = elim (Bool-cases (ltb_ℤ x y)) [
  | inl e ↦ let h' : Least m x vs = rw e at h in ground arith
  | inr e ↦ let h' : Least m y vs = rw e at h in ground arith
]

Greatest-step : (m x y : ℤ) (vs : List ℤ) → Greatest m (larger x y) vs → Greatest m x (y ∷ vs)
Greatest-step m x y vs h = elim (Bool-cases (not (ltb_ℤ x y) && not (eqb_ℤ x y))) [
  | inl e ↦ let h' : Greatest m x vs = rw e at h in ground arith
  | inr e ↦ let h' : Greatest m y vs = rw e at h in ground arith
]

least-Least : (x : ℤ) (vs : List ℤ) → Least (least x vs) x vs
unfolding least
least-Least x [] = (inl refl, omega arith, tt)
least-Least x (y ∷ vs) = Least-step (least (smaller x y) vs) x y vs (least-Least (smaller x y) vs)

greatest-Greatest : (x : ℤ) (vs : List ℤ) → Greatest (greatest x vs) x vs
unfolding greatest
greatest-Greatest x [] = (inl refl, omega arith, tt)
greatest-Greatest x (y ∷ vs) =
    Greatest-step (greatest (larger x y) vs) x y vs (greatest-Greatest (larger x y) vs)

min-least : (c : Class) (x : ℤ) (vs : List ℤ) → min c x (map (instance_of c) vs) ≡ ok (least x vs)
unfolding Wad.min Ray.min Rad.min least
min-least wad x [] = refl
min-least ray x [] = refl
min-least rad x [] = refl
min-least wad x (y ∷ vs) = min-least wad (smaller x y) vs
min-least ray x (y ∷ vs) = min-least ray (smaller x y) vs
min-least rad x (y ∷ vs) = min-least rad (smaller x y) vs

max-greatest :
    (c : Class) (x : ℤ) (vs : List ℤ) → max c x (map (instance_of c) vs) ≡ ok (greatest x vs)
unfolding Wad.max Ray.max Rad.max greatest
max-greatest wad x [] = refl
max-greatest ray x [] = refl
max-greatest rad x [] = refl
max-greatest wad x (y ∷ vs) = max-greatest wad (larger x y) vs
max-greatest ray x (y ∷ vs) = max-greatest ray (larger x y) vs
max-greatest rad x (y ∷ vs) = max-greatest rad (larger x y) vs

-- `min` and `max` of instances of one class return the least and the greatest of them.
min-max :
    (c : Class) (x : ℤ) (vs : List ℤ)
    → ((m : ℤ) × (min c x (map (instance_of c) vs) ≡ ok m) × Least m x vs)
      × ((m : ℤ) × (max c x (map (instance_of c) vs) ≡ ok m) × Greatest m x vs)
min-max c x vs = (
  (least x vs, min-least c x vs, least-Least x vs),
  (greatest x vs, max-greatest c x vs, greatest-Greatest x vs),
)
