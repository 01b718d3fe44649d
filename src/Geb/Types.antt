-- ===== src/Geb/Types.antt =====
-- `CollateralType` and `SAFE` of `pyflex/gf.py`. A name is given by its UTF-8 bytes, an address by its
-- number, and an optional argument that is left out is `none`.
use pyflex.Base.{
  ℕ, ◌-◌, Bool, true, false, ◌==◌, if◌then◌else◌, List, [], ◌∷◌, ◌++◌, Option, none, some, length,
  drop, replicate,
}
use pyflex.Base.Results.{Result, ok, err, value_error, assertion_error}
use pyflex.Numeric.Value.{Value}
use pyflex.Numeric.Classes
use pyflex.Numeric.Classes.{Class, wad, ray, rad, instance_of}
use pyflex.Numeric.Amount.{Amount}
use pyflex.Batch.{bytes_to_int, to_bytes as big_endian}
use pyflex.Chain.{to_bytes, same_octets}

pub record CollateralType : Type 0 where
  pub name : List ℕ
  pub accumulated_rate : Option (Amount ray)
  pub safe_collateral : Option (Amount wad)
  pub safe_debt : Option (Amount wad)
  pub safety_price : Option (Amount ray)
  pub liquidation_price : Option (Amount ray)
  pub debt_ceiling : Option (Amount rad)
  pub debt_floor : Option (Amount rad)

-- `CollateralType(name)`
abbrev pub named : List ℕ → CollateralType
named name = record {
  name = name;
  accumulated_rate = none;
  safe_collateral = none;
  safe_debt = none;
  safety_price = none;
  liquidation_price = none;
  debt_ceiling = none;
  debt_floor = none;
}

-- `toBytes`
unfoldable pub type_to_bytes : CollateralType → List ℕ
unfolding to_bytes
type_to_bytes collateral_type = to_bytes collateral_type.name

-- `b.lstrip(bytes(1))`, `b.rstrip(bytes(1))` and `b.strip(bytes(1))`
unfoldable pub lstrip : List ℕ → List ℕ
lstrip [] = []
lstrip (b ∷ bytes) = let rest = lstrip bytes in if b == 0 then rest else b ∷ bytes

unfoldable pub put : ℕ → List ℕ → List ℕ
put b [] = if b == 0 then [] else b ∷ []
put b (c ∷ bytes) = b ∷ c ∷ bytes

unfoldable pub rstrip : List ℕ → List ℕ
unfolding put
rstrip [] = []
rstrip (b ∷ bytes) = put b (rstrip bytes)

unfoldable pub strip : List ℕ → List ℕ
unfolding lstrip rstrip
strip bytes = rstrip (lstrip bytes)

-- `fromBytes`. Whether bytes are UTF-8 is for Python to say.
unfoldable pub type_from_bytes : (List ℕ → Bool) → List ℕ → Result CollateralType
unfolding strip
type_from_bytes is_utf8 bytes =
    let name = strip bytes in if is_utf8 name then ok (named name) else err value_error

-- An optional amount where a method of another amount takes it: `None` is none of its types.
unfoldable pub value_of : {c : Class} → Option (Amount c) → Value
value_of none = Value.other
value_of {c} (some a) = instance_of c a.value

-- `a == b` for two optional amounts of a class. `None == b` is left to the method of `b`.
unfoldable pub eq_optional : {c : Class} → Option (Amount c) → Option (Amount c) → Result Bool
unfolding value_of
eq_optional none none = ok true
eq_optional {c} none (some b) = Classes.eq c b.value Value.other
eq_optional {c} (some a) b = Classes.eq c a.value (value_of b)

-- `a and rest`
unfoldable pub and_then : Result Bool → Result Bool → Result Bool
and_then (ok true) rest = rest
and_then (ok false) rest = ok false
and_then (err raised) rest = err raised

-- `==` of two collateral types, which does not look at their liquidation prices.
unfoldable pub eq_type : CollateralType → CollateralType → Result Bool
unfolding and_then eq_optional same_octets
eq_type a b = and_then (ok (same_octets a.name b.name)) (
    and_then (eq_optional a.accumulated_rate b.accumulated_rate) (
      and_then (eq_optional a.safe_collateral b.safe_collateral) (
        and_then (eq_optional a.safe_debt b.safe_debt) (
          and_then (eq_optional a.safety_price b.safety_price) (
            and_then (eq_optional a.debt_ceiling b.debt_ceiling)
              (eq_optional a.debt_floor b.debt_floor))))))

pub record Safe : Type 0 where
  pub address : ℕ
  pub collateral_type : Option CollateralType
  pub locked_collateral : Option (Amount wad)
  pub generated_debt : Option (Amount wad)

-- `SAFE(address)`
abbrev pub safe_at : ℕ → Safe
safe_at address = record {
  address = address;
  collateral_type = none;
  locked_collateral = none;
  generated_debt = none;
}

-- `toBytes`: the 40 hexadecimal digits of the address behind 24 zeros.
unfoldable pub safe_to_bytes : Safe → List ℕ
unfolding big_endian
safe_to_bytes safe = replicate 12 0 ++ big_endian 20 safe.address

-- `fromBytes`: `Address` refuses the hexadecimal text of fewer than 20 bytes.
unfoldable pub safe_from_bytes : List ℕ → Result Safe
unfolding bytes_to_int
safe_from_bytes safe =
    let last = drop (length safe - 20) safe in
    if length last == 20 then ok (safe_at (bytes_to_int last)) else err value_error

unfoldable eq_optional_type : Option CollateralType → Option CollateralType → Result Bool
unfolding eq_type
eq_optional_type none none = ok true
eq_optional_type (some a) (some b) = eq_type a b
eq_optional_type none (some b) = err assertion_error
eq_optional_type (some a) none = err assertion_error

-- `==` of two SAFEs: their addresses and their types, by the assertion and the method of the type.
unfoldable pub eq_safe : Safe → Safe → Result Bool
unfolding and_then eq_optional_type
eq_safe a b =
    and_then (ok (a.address == b.address)) (eq_optional_type a.collateral_type b.collateral_type)
