-- ===== src/Numeric/Amount.antt =====
-- Instances of the classes of `pyflex/numeric.py` as values of a type: what the other modules
-- compute with where an object's class is known.
use pyflex.Base.{ℕ, Bool, true, false, not, ◌≡◌, refl}
use pyflex.Base.Int.{ℤ, pos, ◌+ℤ◌, ◌-ℤ◌, ltb_ℤ, eqb_ℤ}
use pyflex.Base.Results.{Result, ok, map_result}
use pyflex.Numeric.Value.{Value}
use pyflex.Numeric.Wad
use pyflex.Numeric.Ray
use pyflex.Numeric.Rad
use pyflex.Numeric.Classes
use pyflex.Numeric.Classes.{Class, wad, ray, rad, instance_of}

pub record Amount (c : Class) : Type 0 where
  pub value : ℤ

abbrev pub amount : {c : Class} → ℤ → Amount c
amount v = record { value = v }

abbrev pub of_nat : {c : Class} → ℕ → Amount c
of_nat n = amount (pos n)

module _ {c : Class} where
  -- `Wad(x)`, `Ray(x)` and `Rad(x)`, of an instance and of an integer.
  abbrev pub convert : {d : Class} → Amount d → Result (Amount c)
  convert {d} a = map_result amount (Classes.new c (instance_of d a.value))

  abbrev pub of_int : ℤ → Result (Amount c)
  of_int v = map_result amount (Classes.new c (Value.int v))

  abbrev pub times : {d : Class} → Amount c → Amount d → Result (Amount c)
  times {d} a b = map_result amount (Classes.mul c a.value (instance_of d b.value))

  abbrev pub over : Amount c → Amount c → Result (Amount c)
  over a b = map_result amount (Classes.truediv c a.value (instance_of c b.value))

  -- `+`, `-` and comparisons of two instances of one class, which never raise.
  unfoldable pub plus : Amount c → Amount c → Amount c
  unfolding ◌+ℤ◌
  plus a b = amount (a.value +ℤ b.value)

  unfoldable pub minus : Amount c → Amount c → Amount c
  unfolding ◌-ℤ◌
  minus a b = amount (a.value -ℤ b.value)

  abbrev pub less : Amount c → Amount c → Bool
  less a b = ltb_ℤ a.value b.value

  abbrev pub same : Amount c → Amount c → Bool
  same a b = eqb_ℤ a.value b.value

  abbrev pub at_most : Amount c → Amount c → Bool
  at_most a b = not (ltb_ℤ b.value a.value)

  -- Python's `min(a, b)`.
  abbrev pub lesser : Amount c → Amount c → Amount c
  lesser a b = elim (less b a) [ true ↦ b | false ↦ a ]

-- The methods of the three classes do what `plus`, `minus`, `less` and `same` do.
plus_lem :
    (c : Class) (a b : Amount c)
    → Classes.add c a.value (instance_of c b.value) ≡ ok (plus a b).value
unfolding plus Wad.add Ray.add Rad.add
plus_lem wad a b = refl
plus_lem ray a b = refl
plus_lem rad a b = refl

minus_lem :
    (c : Class) (a b : Amount c)
    → Classes.sub c a.value (instance_of c b.value) ≡ ok (minus a b).value
unfolding minus Wad.sub Ray.sub Rad.sub
minus_lem wad a b = refl
minus_lem ray a b = refl
minus_lem rad a b = refl
