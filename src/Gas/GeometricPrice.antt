-- ===== src/Gas/GeometricPrice.antt =====
-- `GeometricGasPrice` of `pyflex/gas.py`: the prices that its doubles give.
use pyflex.Base.{ℕ, suc, ◌+◌, ◌-◌, ◌*◌, ◌/◌, ◌^◌, ◌≤◌, ◌<◌, ◌≡◌, ◌∙◌, refl, some, Option}
use pyflex.Base.{ap, sym, arith, ltb, if◌then◌else◌, lt→ltb, le→ltb, Bool, min}
use pyflex.Base.Results.{Result, ok, err, ◌>>=◌, overflow_error}
use pyflex.Base.Int.{ℤ}
use pyflex.Decimal.{round_sig, float_limit, int_truediv}
use pyflex.Decimal.Truediv.{int_truediv_exact}
use pyflex.Decimal.Significant.{round_sig_exact, pow_pos}
use pyflex.Gas.Float.{Float, finite, infinite, of_int}
use pyflex.Gas.IncreasingPrice.{div_mono}
use pyflex.Gas.Product.{◌≼◌, multiply_mono, two-le}
use pyflex.Gas.Strategies.{
  Geometric, new_geometric, multiply, ceil_capped, geometric_rounds, geometric_price,
}
use native.Mathlib.Decide.{dec_lt}
use native.Mathlib.Nat.{
  mul-le-mul_right, le_of_mul-le-mul_right, div-eq_of_lt, lt_of_mul-lt-mul_right,
  mul-lt-mul_of_pos_right,
}
use native.Mathlib.Nat.{div-lt_iff_lt-mul, lt-div-mul-add, le-div_iff_mul-le}

-- The integer above a double is the least one that is not smaller.
ceil-le : (n e c : ℕ) → n ≤ c * 2 ^ e → (n + (2 ^ e - 1)) / 2 ^ e ≤ c
ceil-le n e c h =
    let positive : 0 < 2 ^ e = pow_pos 2 e two-le in
    let below : n + (2 ^ e - 1) < (c + 1) * 2 ^ e = omega arith in
    let small : (n + (2 ^ e - 1)) / 2 ^ e < c + 1 = (div-lt_iff_lt-mul positive).1 below in
    omega arith

le-ceil : (n e : ℕ) → n ≤ (n + (2 ^ e - 1)) / 2 ^ e * 2 ^ e
le-ceil n e =
    let positive : 0 < 2 ^ e = pow_pos 2 e two-le in
    omega (arith, lt-div-mul-add {a = n + (2 ^ e - 1)} positive)

ceil_mono :
    (n e m f : ℕ) → finite n e ≼ finite m f → (n + (2 ^ e - 1)) / 2 ^ e ≤ (m + (2 ^ f - 1)) / 2 ^ f
ceil_mono n e m f h =
    let c : ℕ = (m + (2 ^ f - 1)) / 2 ^ f in
    ceil-le n e c (
      le_of_mul-le-mul_right (omega (arith, h, mul-le-mul_right (2 ^ e) (le-ceil m f)))
        (pow_pos 2 f two-le))

-- What `min` and `ceil` leave of a double, under a limit.
limited : ℕ → Float → ℕ
limited limit infinite = limit
limited limit (finite n e) = if ltb (limit * 2 ^ e) n then limit else (n + (2 ^ e - 1)) / 2 ^ e

ceil_capped-limited : (limit : ℕ) (x : Float) → ceil_capped (some limit) x ≡ ok (limited limit x)
unfolding ceil_capped limited
ceil_capped-limited limit infinite = refl
ceil_capped-limited limit (finite n e) = ground arith

limited-le : (limit : ℕ) (x : Float) → limited limit x ≤ limit
unfolding limited
limited-le limit infinite = omega arith
limited-le limit (finite n e) = ground (arith, ceil-le n e limit)

-- What a smaller number exceeds, a larger one exceeds too.
exceeds_both : (limit n e m f : ℕ) → finite n e ≼ finite m f → limit * 2 ^ e < n → limit * 2 ^ f < m
exceeds_both limit n e m f h lt =
    lt_of_mul-lt-mul_right (2 ^ e)
      (omega (arith, mul-lt-mul_of_pos_right lt (pow_pos 2 f two-le), h))

limited_mono : (limit : ℕ) (x y : Float) → x ≼ y → limited limit x ≤ limited limit y
unfolding limited
limited_mono limit infinite infinite h = omega arith
limited_mono limit infinite (finite m f) h = absurd h
limited_mono limit (finite n e) infinite h = ground (arith, ceil-le n e limit)
limited_mono limit (finite n e) (finite m f) h =
    ground (arith, ceil_mono n e m f h, ceil-le n e limit, exceeds_both limit n e m f h)

-- An initial price of at most 53 binary digits is itself a double.
of_int_exact : (n : ℕ) → n < 2 ^ 53 → of_int n ≡ ok (finite n 0)
unfolding of_int
of_int_exact n h =
    let kept : round_sig 2 53 n ≡ n = round_sig_exact 2 53 two-le n h in
    ap (λ (r : ℕ). if ltb r float_limit then ok (finite r 0) else err overflow_error) kept
    ∙ ap (λ (b : Bool). if b then ok (finite n 0) else err overflow_error)
        (lt→ltb n float_limit (omega arith))

limited_int : (limit n : ℕ) → n ≤ limit → min n limit ≡ limited limit (finite n 0)
unfolding limited
limited_int limit n h = ground arith

-- The price with a limit, by whole intervals: also before the first interval has passed, provided
-- that the initial price is within the limit.
module _ (limit : ℕ) (g : Geometric) where
  product : ℕ → Float
  product k = multiply k g.coefficient_num g.coefficient_exp (finite g.initial_price 0)

  geometric_rounds-suc :
      (k : ℕ)
      → g.max_price ≡ some limit
      → g.initial_price < 2 ^ 53
      → geometric_rounds g (suc k) ≡ ok (limited limit (product (suc k)))
  unfolding geometric_rounds product
  geometric_rounds-suc k hl hp =
      ap
        (λ (r : Result Float). r >>= λ x.
          ceil_capped g.max_price (multiply (suc k) g.coefficient_num g.coefficient_exp x))
        (of_int_exact g.initial_price hp)
      ∙ ap (λ (o : Option ℕ). ceil_capped o (product (suc k))) hl
      ∙ ceil_capped-limited limit (product (suc k))

  late_price :
      (t : ℕ)
      → g.max_price ≡ some limit
      → g.initial_price < 2 ^ 53
      → 0 < g.every_secs
      → g.every_secs ≤ t
      → t < 2 ^ 53
      → geometric_price g t ≡ ok (limited limit (product (t / g.every_secs)))
  unfolding geometric_price
  late_price t hl hp he late ht =
      let whole : 1 ≤ t / g.every_secs = (le-div_iff_mul-le he).1 (omega arith) in
      let step : t / g.every_secs ≡ suc (t / g.every_secs - 1) = omega arith in
      ap
        (λ (b : Bool).
          if b then ok g.initial_price else (int_truediv t g.every_secs >>= geometric_rounds g))
        (le→ltb t g.every_secs late)
      ∙ ap (λ (r : Result ℕ). r >>= geometric_rounds g) (int_truediv_exact t g.every_secs he ht)
      ∙ ap (geometric_rounds g) step
      ∙ geometric_rounds-suc (t / g.every_secs - 1) hl hp
      ∙ ap (λ (k : ℕ). ok (limited limit (product k))) (sym step)

  early_price : (t : ℕ) → t < g.every_secs → geometric_price g t ≡ ok g.initial_price
  unfolding geometric_price
  early_price t early =
      ap
        (λ (b : Bool).
          if b then ok g.initial_price else (int_truediv t g.every_secs >>= geometric_rounds g))
        (lt→ltb t g.every_secs early)

  first_price : g.initial_price ≤ limit → g.initial_price ≡ limited limit (product 0)
  unfolding product multiply
  first_price h = omega (arith, limited_int limit g.initial_price h)

  geometric_price-eq :
      (t : ℕ)
      → g.max_price ≡ some limit
      → g.initial_price ≤ limit
      → g.initial_price < 2 ^ 53
      → 0 < g.every_secs
      → t < 2 ^ 53
      → geometric_price g t ≡ ok (limited limit (product (t / g.every_secs)))
  geometric_price-eq t hl hi hp he ht = elim (dec_lt t g.every_secs) [
    | yes early ↦
        early_price t early
        ∙ ap (λ (p : ℕ). ok p) (first_price hi)
        ∙ ap (λ (k : ℕ). ok (limited limit (product k))) (sym (div-eq_of_lt early))
    | no late ↦ late_price t hl hp he (omega arith) ht
  ]

  product_mono :
      (k l : ℕ)
      → 2 ^ g.coefficient_exp ≤ g.coefficient_num
      → g.initial_price < 2 ^ 53
      → k ≤ l
      → product k ≼ product l
  unfolding product
  product_mono k l hc hp h =
      multiply_mono g.coefficient_num g.coefficient_exp hc k l (finite g.initial_price 0) h
        (g.initial_price, 0, omega arith, hp)

-- Every instance has a positive interval and a coefficient of at least 1.
new_geometric-valid :
    (i e : ℤ) (num exp : ℕ) (max_price : Option ℤ) {g : Geometric}
    → new_geometric i e num exp max_price ≡ ok g
    → (0 < g.every_secs) × (2 ^ g.coefficient_exp ≤ g.coefficient_num)
unfolding new_geometric
new_geometric-valid i e num exp max_price h = ground arith

-- A constructed strategy with a limit, whose initial price is within the limit and below `2 ^ 53`,
-- has a price at every time below `2 ^ 53` seconds: at least the initial price, at most the limit,
-- and never falling, whatever the coefficient and its rounding, and also when the product of the
-- doubles becomes infinite.
pub geometric_price_lem :
    (i e : ℤ) (num exp : ℕ) (max_price : Option ℤ) (limit : ℕ) {g : Geometric} (t u : ℕ)
    → new_geometric i e num exp max_price ≡ ok g
    → g.max_price ≡ some limit
    → g.initial_price ≤ limit
    → g.initial_price < 2 ^ 53
    → t ≤ u
    → u < 2 ^ 53
    → (p q : ℕ) × (geometric_price g t ≡ ok p)
      × (geometric_price g u ≡ ok q)
      × (g.initial_price ≤ p)
      × (p ≤ q)
      × (q ≤ limit)
geometric_price_lem i e num exp max_price limit {g} t u h hl hi hp ht hu =
    let (he, hc) = new_geometric-valid i e num exp max_price h in
    let k : ℕ = t / g.every_secs in
    let l : ℕ = u / g.every_secs in
    let low : limited limit (product limit g 0) ≤ limited limit (product limit g k) =
      limited_mono limit (product limit g 0) (product limit g k)
        (product_mono limit g 0 k hc hp (omega arith)) in
    (
      limited limit (product limit g k),
      limited limit (product limit g l),
      geometric_price-eq limit g t hl hi hp he (omega arith),
      geometric_price-eq limit g u hl hi hp he hu,
      omega (arith, low, first_price limit g hi),
      limited_mono limit (product limit g k) (product limit g l)
          (product_mono limit g k l hc hp (div_mono t u g.every_secs he ht)),
      limited-le limit (product limit g l),
    )

-- The limit is not applied before the first interval has passed. So a strategy whose initial price
-- is above its limit starts with that price, and falls to the limit or below it afterwards.
geometric_price_falls :
    (i e : ℤ) (num exp : ℕ) (max_price : Option ℤ) (limit : ℕ) {g : Geometric} (t u : ℕ)
    → new_geometric i e num exp max_price ≡ ok g
    → g.max_price ≡ some limit
    → limit < g.initial_price
    → g.initial_price < 2 ^ 53
    → t < g.every_secs
    → g.every_secs ≤ u
    → u < 2 ^ 53
    → (q : ℕ) × (geometric_price g t ≡ ok g.initial_price)
      × (geometric_price g u ≡ ok q)
      × (q ≤ limit)
geometric_price_falls i e num exp max_price limit {g} t u h hl hi hp ht hu hu' = (
  limited limit (product limit g (u / g.every_secs)),
  early_price limit g t ht,
  late_price limit g u hl hp (omega arith) hu hu',
  limited-le limit (product limit g (u / g.every_secs)),
)
