-- ===== src/Numeric/Ray.antt =====
-- `pyflex/numeric.py`: class `Ray`, 27 decimal places. `self` is its `value`.
use pyflex.Base.{ℕ, Bool, not, ◌&&◌, List, [], ◌∷◌, if◌then◌else◌}
use pyflex.Base.Int.{ℤ, ◌+ℤ◌, ◌-ℤ◌, ltb_ℤ, eqb_ℤ}
use pyflex.Base.Results.{Result, ok, err, arithmetic_error}
use pyflex.Numeric.Value.{
  Value, wad, ray, rad, int, other, scale_up, divide_down, scaled_mul, int_mul, scaled_div,
  checked_mod, of_decimal, int_part, round_to, abs_ℤ, gt_from_lt, le_from_lt, ge_from_lt,
}

-- `Ray(value)`
unfoldable pub new : Value → Result ℤ
unfolding scale_up divide_down
new (ray v) = ok v
new (wad v) = scale_up 9 v
new (rad v) = divide_down 18 v
new (int v) = ok v
new other = err arithmetic_error

-- `Ray.from_number`
unfoldable pub from_number : Bool → ℕ → ℕ → Result ℤ
unfolding of_decimal
from_number s c frac = of_decimal 27 s c frac

unfoldable pub add : ℤ → Value → Result ℤ
unfolding ◌+ℤ◌
add self (ray v) = ok (self +ℤ v)
add self _ = err arithmetic_error

unfoldable pub sub : ℤ → Value → Result ℤ
unfolding ◌-ℤ◌
sub self (ray v) = ok (self -ℤ v)
sub self _ = err arithmetic_error

unfoldable pub mod_value : ℤ → Value → Result ℤ
unfolding checked_mod
mod_value self (ray v) = checked_mod self v
mod_value self _ = err arithmetic_error

unfoldable pub mul : ℤ → Value → Result ℤ
unfolding scaled_mul int_mul
mul self (ray v) = scaled_mul 27 self v
mul self (wad v) = scaled_mul 18 self v
mul self (rad v) = scaled_mul 45 self v
mul self (int v) = int_mul self v
mul self other = err arithmetic_error

unfoldable pub truediv : ℤ → Value → Result ℤ
unfolding scaled_div
truediv self (ray v) = scaled_div 27 self v
truediv self _ = err arithmetic_error

unfoldable pub abs : ℤ → ℤ
unfolding abs_ℤ
abs self = abs_ℤ self

unfoldable pub eq : ℤ → Value → Result Bool
eq self (ray v) = ok (eqb_ℤ self v)
eq self _ = err arithmetic_error

unfoldable pub lt : ℤ → Value → Result Bool
lt self (ray v) = ok (ltb_ℤ self v)
lt self _ = err arithmetic_error

-- What `total_ordering` adds.
unfoldable pub gt : ℤ → Value → Result Bool
unfolding lt eq gt_from_lt
gt self o = gt_from_lt (lt self o) (eq self o)

unfoldable pub le : ℤ → Value → Result Bool
unfolding lt eq le_from_lt
le self o = le_from_lt (lt self o) (eq self o)

unfoldable pub ge : ℤ → Value → Result Bool
unfolding lt ge_from_lt
ge self o = ge_from_lt (lt self o)

-- `int(self)`
unfoldable pub to_int : ℤ → Result ℤ
unfolding int_part
to_int self = int_part 27 self

-- `round(self, ndigits)`
unfoldable pub round : ℤ → ℤ → ℤ
unfolding round_to
round self ndigits = round_to 27 ndigits self

-- `Ray.min(x, *args)` and `Ray.max(x, *args)`, for a first argument that is a `Ray`: the
-- comparison raises at the first argument that is not.
unfoldable pub min : ℤ → List Value → Result ℤ
min x [] = ok x
min x (ray y ∷ args) = min (if ltb_ℤ x y then x else y) args
min x (_ ∷ args) = err arithmetic_error

unfoldable pub max : ℤ → List Value → Result ℤ
max x [] = ok x
max x (ray y ∷ args) = max (if not (ltb_ℤ x y) && not (eqb_ℤ x y) then x else y) args
max x (_ ∷ args) = err arithmetic_error
