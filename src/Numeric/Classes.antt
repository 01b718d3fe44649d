-- ===== src/Numeric/Classes.antt =====
-- The three classes of `pyflex/numeric.py` side by side: the method that a call on an instance
-- reaches, so that one statement covers all of them.
use pyflex.Base.{ℕ, Bool, List}
use pyflex.Base.Int.{ℤ}
use pyflex.Base.Results.{Result}
use pyflex.Numeric.Value.{Value}
use pyflex.Numeric.Wad
use pyflex.Numeric.Ray
use pyflex.Numeric.Rad

pub data Class : Type 0 where
  wad ray rad : Class

-- The number of decimal places.
abbrev pub decimals : Class → ℕ
decimals wad = 18
decimals ray = 27
decimals rad = 45

-- The instance of a class that has the given `value`.
abbrev pub instance_of : Class → ℤ → Value
instance_of wad v = Value.wad v
instance_of ray v = Value.ray v
instance_of rad v = Value.rad v

abbrev pub new : Class → Value → Result ℤ
new wad = Wad.new
new ray = Ray.new
new rad = Rad.new

abbrev pub from_number : Class → Bool → ℕ → ℕ → Result ℤ
from_number wad = Wad.from_number
from_number ray = Ray.from_number
from_number rad = Rad.from_number

abbrev pub add : Class → ℤ → Value → Result ℤ
add wad = Wad.add
add ray = Ray.add
add rad = Rad.add

abbrev pub sub : Class → ℤ → Value → Result ℤ
sub wad = Wad.sub
sub ray = Ray.sub
sub rad = Rad.sub

abbrev pub mod_value : Class → ℤ → Value → Result ℤ
mod_value wad = Wad.mod_value
mod_value ray = Ray.mod_value
mod_value rad = Rad.mod_value

abbrev pub mul : Class → ℤ → Value → Result ℤ
mul wad = Wad.mul
mul ray = Ray.mul
mul rad = Rad.mul

abbrev pub truediv : Class → ℤ → Value → Result ℤ
truediv wad = Wad.truediv
truediv ray = Ray.truediv
truediv rad = Rad.truediv

abbrev pub eq : Class → ℤ → Value → Result Bool
eq wad = Wad.eq
eq ray = Ray.eq
eq rad = Rad.eq

abbrev pub lt : Class → ℤ → Value → Result Bool
lt wad = Wad.lt
lt ray = Ray.lt
lt rad = Rad.lt

abbrev pub gt : Class → ℤ → Value → Result Bool
gt wad = Wad.gt
gt ray = Ray.gt
gt rad = Rad.gt

abbrev pub le : Class → ℤ → Value → Result Bool
le wad = Wad.le
le ray = Ray.le
le rad = Rad.le

abbrev pub ge : Class → ℤ → Value → Result Bool
ge wad = Wad.ge
ge ray = Ray.ge
ge rad = Rad.ge

abbrev pub to_int : Class → ℤ → Result ℤ
to_int wad = Wad.to_int
to_int ray = Ray.to_int
to_int rad = Rad.to_int

abbrev pub round : Class → ℤ → ℤ → ℤ
round wad = Wad.round
round ray = Ray.round
round rad = Rad.round

abbrev pub min : Class → ℤ → List Value → Result ℤ
min wad = Wad.min
min ray = Ray.min
min rad = Rad.min

abbrev pub max : Class → ℤ → List Value → Result ℤ
max wad = Wad.max
max ray = Ray.max
max rad = Rad.max
