-- ===== src/Gas/Strategies.antt =====
-- The strategies of `pyflex/gas.py`, their constructors' assertions and `get_gas_price`.
use pyflex.Base.{ℕ, zero, suc, ◌+◌, ◌*◌, ◌^◌, Option, none, some, ltb, if◌then◌else◌, min, max}
use pyflex.Base.Int.{ℤ, pos, negsuc}
use pyflex.Base.Results.{Result, ok, err, ◌>>=◌, ◌>>◌, guard, assertion_error, not_implemented}
use pyflex.Decimal.{int_truediv}
use pyflex.Gas.Float
use pyflex.Gas.Float.{Float}

-- `GasPrice.GWEI`
abbrev pub gwei : ℕ
gwei = 1000000000

-- `FixedGasPrice`
pub record Fixed : Type 0 where
  pub gas_price : ℕ

-- `FixedGasPrice.update_gas_price`
unfoldable pub update_gas_price : ℕ → Fixed → Fixed
update_gas_price new_gas_price g = record g { gas_price = new_gas_price }

-- `IncreasingGasPrice`
pub record Increasing : Type 0 where
  pub initial_price : ℕ
  pub increase_by : ℕ
  pub every_secs : ℕ
  pub max_price : Option ℕ

-- `GeometricGasPrice`; the coefficient is the double `coefficient_num / 2 ^ coefficient_exp`.
pub record Geometric : Type 0 where
  pub initial_price : ℕ
  pub every_secs : ℕ
  pub coefficient_num : ℕ
  pub coefficient_exp : ℕ
  pub max_price : Option ℕ

-- `assert(n > 0)`
unfoldable pub positive : ℤ → Result ℕ
positive (pos (suc n)) = ok (suc n)
positive (pos zero) = err assertion_error
positive (negsuc n) = err assertion_error

-- `if max_price is not None: assert(max_price > 0)`
unfoldable pub positive_limit : Option ℤ → Result (Option ℕ)
unfolding positive
positive_limit none = ok none
positive_limit (some m) = positive m >>= λ n. ok (some n)

-- `IncreasingGasPrice.__init__`
unfoldable pub new_increasing : ℤ → ℤ → ℤ → Option ℤ → Result Increasing
unfolding positive positive_limit
new_increasing initial_price increase_by every_secs max_price = do
  i ← positive initial_price
  b ← positive increase_by
  e ← positive every_secs
  m ← positive_limit max_price
  ok (record { initial_price = i; increase_by = b; every_secs = e; max_price = m })

-- `GeometricGasPrice.__init__`, for a coefficient that is a double of at least 0.
unfoldable pub new_geometric : ℤ → ℤ → ℕ → ℕ → Option ℤ → Result Geometric
unfolding positive positive_limit
new_geometric initial_price every_secs num exp max_price = do
  i ← positive initial_price
  e ← positive every_secs
  guard (ltb (2 ^ exp) num) assertion_error
  m ← positive_limit max_price
  ok (record {
    initial_price = i;
    every_secs = e;
    coefficient_num = num;
    coefficient_exp = exp;
    max_price = m;
  })

-- The limit, where there is one.
abbrev pub capped : Option ℕ → ℕ → ℕ
capped none price = price
capped (some limit) price = min price limit

-- `IncreasingGasPrice.get_gas_price`
unfoldable pub increasing_price : Increasing → ℕ → Result ℕ
unfolding int_truediv
increasing_price g time_elapsed = do
  steps ← int_truediv time_elapsed g.every_secs
  ok (capped g.max_price (g.initial_price + steps * g.increase_by))

-- The rounds of the loop, on a product that has become a double.
unfoldable pub multiply : ℕ → ℕ → ℕ → Float → Float
unfolding Float.mul
multiply zero m f x = x
multiply (suc rounds) m f x = multiply rounds m f (Float.mul x m f)

-- `min(result, self.max_price)` and `math.ceil(result)`
unfoldable pub ceil_capped : Option ℕ → Float → Result ℕ
unfolding Float.exceeds Float.ceil
ceil_capped none x = Float.ceil x
ceil_capped (some limit) x = if Float.exceeds x limit then ok limit else Float.ceil x

-- The loop starts from an `int`, which the first multiplication converts.
unfoldable pub geometric_rounds : Geometric → ℕ → Result ℕ
unfolding multiply ceil_capped Float.of_int
geometric_rounds g zero = ok (capped g.max_price g.initial_price)
geometric_rounds g (suc rounds) = do
  start ← Float.of_int g.initial_price
  ceil_capped g.max_price (multiply (suc rounds) g.coefficient_num g.coefficient_exp start)

-- `GeometricGasPrice.get_gas_price`
unfoldable pub geometric_price : Geometric → ℕ → Result ℕ
unfolding int_truediv geometric_rounds
geometric_price g time_elapsed =
    if ltb time_elapsed g.every_secs
    then ok g.initial_price
    else (int_truediv time_elapsed g.every_secs >>= geometric_rounds g)

-- An instance of a subclass of `GasPrice`. The base class and `NodeAwareGasPrice` are abstract.
pub data GasPrice : Type 0 where
  abstract default_price : GasPrice
  fixed : Fixed → GasPrice
  increasing : Increasing → GasPrice
  geometric : Geometric → GasPrice

-- `get_gas_price`: `none` leaves the price to the node.
unfoldable pub get_gas_price : GasPrice → ℕ → Result (Option ℕ)
unfolding increasing_price geometric_price
get_gas_price abstract time_elapsed = err not_implemented
get_gas_price default_price time_elapsed = ok none
get_gas_price (fixed g) time_elapsed = ok (some g.gas_price)
get_gas_price (increasing g) time_elapsed = increasing_price g time_elapsed >>= λ p. ok (some p)
get_gas_price (geometric g) time_elapsed = geometric_price g time_elapsed >>= λ p. ok (some p)

-- `NodeAwareGasPrice.get_node_gas_price`, by the node's answer.
unfoldable pub get_node_gas_price : ℕ → ℕ
get_node_gas_price answer = max answer (1 * gwei)
