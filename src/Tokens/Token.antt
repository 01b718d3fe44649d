-- ===== src/Tokens/Token.antt =====
-- `Token` of `pyflex/model.py`: a token's decimal places and its amounts.
use pyflex.Base.{
  ℕ, ◌-◌, ◌^◌, Bool, true, false, ◌&&◌, ◌==◌, leb, if◌then◌else◌, List, Option, none, some,
}
use pyflex.Base.Results.{Result, ◌>>=◌, map_result}
use pyflex.Numeric.Wad
use pyflex.Numeric.Classes.{wad}
use pyflex.Numeric.Amount.{Amount, amount, times}
use pyflex.Chain.{zero_address, same_octets}

-- A name is given by its UTF-8 bytes. Decimal places are not negative.
pub record Token : Type 0 where
  pub name : List ℕ
  pub address : Option ℕ
  pub decimals : ℕ

-- `Wad.from_number(10 ** (a - b))`: an integer, or a double whose text is that power of ten.
unfoldable pub power : ℕ → ℕ → Result (Amount wad)
unfolding Wad.from_number
power a b =
    map_result amount
      (if leb b a then Wad.from_number false (10 ^ (a - b)) 0 else Wad.from_number false 1 (b - a))

unfoldable pub min_amount : Token → Result (Amount wad)
unfolding power
min_amount token = power 0 token.decimals

unfoldable pub normalize_amount : Token → Amount wad → Result (Amount wad)
unfolding power
normalize_amount token a = power 18 token.decimals >>= times {c = wad} {d = wad} a

unfoldable pub unnormalize_amount : Token → Amount wad → Result (Amount wad)
unfolding power
unnormalize_amount token a = power token.decimals 18 >>= times {c = wad} {d = wad} a

unfoldable same_address : Option ℕ → Option ℕ → Bool
same_address none none = true
same_address (some a) (some b) = a == b
same_address none (some b) = false
same_address (some a) none = false

unfoldable pub is_eth : Token → Bool
unfolding same_address
is_eth token = same_address token.address (some zero_address)

-- `__eq__`
unfoldable pub eq_token : Token → Token → Bool
unfolding same_address same_octets
eq_token a b =
    same_octets a.name b.name && (same_address a.address b.address && (a.decimals == b.decimals))
