-- ===== src/Gas/Tests.antt =====
-- Runs of `pyflex/gas.py`, with inputs of `tests/test_gas.py`, and the theorems at concrete values.
use pyflex.Base.{ℕ, ◌≤◌, ◌≡◌, refl, none, some, arith}
use pyflex.Base.Int.{pos}
use pyflex.Base.Results.{ok, err, assertion_error}
use pyflex.Gas.{
  Increasing, Geometric, new_increasing, new_geometric, increasing_price, geometric_price,
  get_gas_price, fixed, default_price, update_gas_price,
}
use pyflex.Gas.IncreasingPrice.{increasing_price_lem}
use pyflex.Gas.GeometricPrice.{geometric_price_lem}

abbrev rising : Increasing
rising = record { initial_price = 1000; increase_by = 100; every_secs = 60; max_price = some 2500 }

abbrev growing : Geometric
growing = record {
  initial_price = 100;
  every_secs = 10;
  coefficient_num = 9;
  coefficient_exp = 3;
  max_price = some 2500;
}

abbrev falling : Geometric
falling = record {
  initial_price = 100;
  every_secs = 10;
  coefficient_num = 9;
  coefficient_exp = 3;
  max_price = some 80;
}

-- `test_gas_price_should_obey_max_value` of the increasing strategy.
rising_prices :
    (increasing_price rising 59 ≡ ok 1000)
    × (increasing_price rising 60 ≡ ok 1100)
    × (increasing_price rising 119 ≡ ok 1100)
    × (increasing_price rising 1000000 ≡ ok 2500)
unfolding increasing_price
rising_prices = (refl, refl, refl, refl)

-- 100, 112.5, 126.5625 and the limit.
growing_prices :
    (geometric_price growing 9 ≡ ok 100)
    × (geometric_price growing 10 ≡ ok 113)
    × (geometric_price growing 20 ≡ ok 127)
    × (geometric_price growing 1000 ≡ ok 2500)
unfolding geometric_price
growing_prices = (refl, refl, refl, refl)

refused :
    (new_increasing (pos 1000) (pos 0) (pos 60) none ≡ err assertion_error)
    × (new_geometric (pos 100) (pos 10) 8 3 none ≡ err assertion_error)
unfolding new_increasing new_geometric
refused = (refl, refl)

updated :
    (get_gas_price (fixed (update_gas_price 16 (record { gas_price = 9 }))) 60 ≡ ok (some 16))
    × (get_gas_price default_price 60 ≡ ok none)
unfolding get_gas_price update_gas_price
updated = (refl, refl)

new_rising : new_increasing (pos 1000) (pos 100) (pos 60) (some (pos 2500)) ≡ ok rising
unfolding new_increasing
new_rising = refl

new_growing : new_geometric (pos 100) (pos 10) 9 3 (some (pos 2500)) ≡ ok growing
unfolding new_geometric
new_growing = refl

new_falling : new_geometric (pos 100) (pos 10) 9 3 (some (pos 80)) ≡ ok falling
unfolding new_geometric
new_falling = refl

increasing_price_lem_example :
    (p q : ℕ) × (increasing_price rising 100 ≡ ok p)
    × (increasing_price rising 5000 ≡ ok q)
    × (p ≤ q)
    × (1000 ≤ p)
    × (q ≤ 2500)
increasing_price_lem_example =
    increasing_price_lem (pos 1000) (pos 100) (pos 60) (some (pos 2500)) 100 5000 new_rising
      (omega arith) (omega arith)

geometric_price_lem_example :
    (p q : ℕ) × (geometric_price growing 5 ≡ ok p)
    × (geometric_price growing 55 ≡ ok q)
    × (100 ≤ p)
    × (p ≤ q)
    × (q ≤ 2500)
geometric_price_lem_example =
    geometric_price_lem (pos 100) (pos 10) 9 3 (some (pos 2500)) 2500 5 55 new_growing refl
      (omega arith) (omega arith) (omega arith) (omega arith)
