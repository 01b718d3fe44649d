-- ===== src/Decimal/Defs.antt =====
-- Rounding to a number of significant digits in a base.
use pyflex.Base.{ℕ, zero, suc, ◌+◌, ◌-◌, ◌*◌, ◌/◌, ◌%◌, ◌^◌, Bool, true, false}
use pyflex.Base.{ltb, ◌==◌, if◌then◌else◌}
use pyflex.Base.Int.{ℤ, signed}
use pyflex.Base.Results.{Result, ok, err, invalid_operation, zero_division, overflow_error}

-- The number of digits of `n` in base `b`; 0 has none. The fuel `n` is enough for `2 ≤ b`.
unfoldable pub digits_from : ℕ → ℕ → ℕ → ℕ
digits_from b zero n = 0
digits_from b (suc fuel) n = elim (n == 0) [ true ↦ 0 | false ↦ suc (digits_from b fuel (n / b)) ]

unfoldable pub digits : ℕ → ℕ → ℕ
unfolding digits_from
digits b n = digits_from b n n

-- The integer nearest to `n / d`, the even one of two.
unfoldable pub round_half_even : ℕ → ℕ → ℕ
round_half_even n d =
    let q = n / d in
    let r = n % d in
    if ltb (2 * r) d then q else if ltb d (2 * r) then q + 1 else if (q % 2) == 0 then q else q + 1

-- The weight of the last of `p` significant digits of `n`, at least 1.
unfoldable pub unit : ℕ → ℕ → ℕ → ℕ
unfolding digits
unit b p n = b ^ (digits b n - p)

-- An integer to `p` significant digits.
unfoldable pub round_sig : ℕ → ℕ → ℕ → ℕ
unfolding round_half_even unit
round_sig b p n = let u = unit b p n in round_half_even n u * u

-- The integer part of the quotient `n / d`, once it is rounded to `p` significant digits. If the
-- quotient has an integer part of `k` digits, `p - k` digits follow the point. (A quotient below 1
-- is taken to `p` digits behind the point, which decides as well whether it is rounded to 1.)
unfoldable pub round_quot : ℕ → ℕ → ℕ → ℕ → ℕ
unfolding digits round_half_even
round_quot b p n d =
    let k = digits b (n / d) in
    if ltb p k
    then (let u = b ^ (k - p) in round_half_even n (d * u) * u)
    else (let s = b ^ (p - k) in round_half_even (n * s) d / s)

-- The precision of the default context, and that of `numeric._context`.
abbrev pub prec : ℕ
prec = 28

abbrev pub context_prec : ℕ
context_prec = 1000

-- The magnitude of a product of two integers taken as decimals.
unfoldable pub mul_dec : ℕ → ℕ → ℕ
unfolding round_sig
mul_dec x y = round_sig 10 prec (x * y)

-- The integer part of `x / 10 ^ k`: the division rounds `x` and moves its point, and the
-- quantization that follows cuts off what is behind the point.
unfoldable pub quot_pow10 : ℕ → ℕ → ℕ
unfolding round_sig
quot_pow10 x k = round_sig 10 prec x / 10 ^ k

-- The integer part of `x / y`, likewise.
unfoldable pub quot : ℕ → ℕ → ℕ
unfolding round_quot
quot x y = round_quot 10 prec x y

-- `x // y` refuses a quotient of more than 28 digits.
unfoldable pub floordiv : ℕ → ℕ → Result ℕ
floordiv x y = let q = x / y in if ltb q (10 ^ prec) then ok q else err invalid_operation

-- `int(d.quantize(1, context=_context))`, for the integer part `n` of `d` and its sign.
unfoldable pub quantize : Bool → ℕ → Result ℤ
unfolding digits
quantize s n = if ltb context_prec (digits 10 n) then err invalid_operation else ok (signed s n)

-- The largest power of two that a double does not reach.
abbrev pub float_limit : ℕ
float_limit = 2 ^ 1024

-- `int(a / b)` on integers: the nearest double, or an error, and then its integer part.
unfoldable pub checked_quot : ℕ → ℕ → Result ℕ
checked_quot b q =
    if b == 0 then err zero_division else if ltb q float_limit then ok q else err overflow_error

unfoldable pub int_truediv : ℕ → ℕ → Result ℕ
unfolding round_quot checked_quot
int_truediv a b = checked_quot b (round_quot 2 53 a b)
