-- ===== src/Gas/IncreasingPrice.antt =====
-- `IncreasingGasPrice` of `pyflex/gas.py`.
use pyflex.Base.{ℕ, ◌+◌, ◌*◌, ◌/◌, ◌^◌, ◌≤◌, ◌<◌, ◌≡◌, none, some, Option, arith}
use pyflex.Base.{ap}
use pyflex.Base.Int.{ℤ}
use pyflex.Base.Results.{Result, ok, ◌>>=◌}
use pyflex.Decimal.Truediv.{int_truediv_exact}
use pyflex.Gas.Strategies.{Increasing, new_increasing, capped, increasing_price}
use native.Mathlib.Nat.{le-div_iff_mul-le, div-mul-le_self, le_trans, mul-le-mul_right}

-- The price before the limit, by whole intervals.
abbrev pub uncapped : Increasing → ℕ → ℕ
uncapped g t = g.initial_price + t / g.every_secs * g.increase_by

increasing_price-eq :
    (g : Increasing) (t : ℕ)
    → 0 < g.every_secs
    → t < 2 ^ 53
    → increasing_price g t ≡ ok (capped g.max_price (uncapped g t))
unfolding increasing_price
increasing_price-eq g t he ht =
    ap
      (λ (r : Result ℕ).
        r >>= λ steps. ok (capped g.max_price (g.initial_price + steps * g.increase_by)))
      (int_truediv_exact t g.every_secs he ht)

pub div_mono : (n m d : ℕ) → 0 < d → n ≤ m → n / d ≤ m / d
div_mono n m d hd h = (le-div_iff_mul-le hd).1 (le_trans (div-mul-le_self n d) h)

uncapped_mono : (g : Increasing) (t u : ℕ) → 0 < g.every_secs → t ≤ u → uncapped g t ≤ uncapped g u
uncapped_mono g t u he h =
    omega (arith, mul-le-mul_right g.increase_by (div_mono t u g.every_secs he h))

capped_mono : (limit : Option ℕ) (p q : ℕ) → p ≤ q → capped limit p ≤ capped limit q
capped_mono none p q h = h
capped_mono (some m) p q h = omega arith

abbrev pub Within : Option ℕ → ℕ → Type 0
Within none p = Unit
Within (some m) p = p ≤ m

capped-Within : (limit : Option ℕ) (p : ℕ) → Within limit (capped limit p)
capped-Within none p = tt
capped-Within (some m) p = omega arith

-- Every instance has a positive interval.
new_increasing-positive :
    (i b e : ℤ) (limit : Option ℤ) {g : Increasing}
    → new_increasing i b e limit ≡ ok g
    → (0 < g.every_secs) × (0 < g.initial_price) × (0 < g.increase_by)
unfolding new_increasing
new_increasing-positive i b e limit h = ground arith

-- A constructed strategy has a price at every time below `2 ^ 53` seconds. The price never falls,
-- is the initial price or the limit at least, and is within the limit.
pub increasing_price_lem :
    (i b e : ℤ) (limit : Option ℤ) {g : Increasing} (t u : ℕ)
    → new_increasing i b e limit ≡ ok g
    → t ≤ u
    → u < 2 ^ 53
    → (p q : ℕ) × (increasing_price g t ≡ ok p)
      × (increasing_price g u ≡ ok q)
      × (p ≤ q)
      × (capped g.max_price g.initial_price ≤ p)
      × Within g.max_price q
increasing_price_lem i b e limit {g} t u h ht hu =
    let he : 0 < g.every_secs = (new_increasing-positive i b e limit h).0 in
    (
      capped g.max_price (uncapped g t),
      capped g.max_price (uncapped g u),
      increasing_price-eq g t he (omega arith),
      increasing_price-eq g u he hu,
      capped_mono g.max_price (uncapped g t) (uncapped g u) (uncapped_mono g t u he ht),
      capped_mono g.max_price g.initial_price (uncapped g t) (omega arith),
      capped-Within g.max_price (uncapped g u),
    )
