-- ===== src/Tokens/Tests.antt =====
-- `pyflex/model.py`: a token that the theorems are tried on.
use pyflex.Base.{◌*◌, ◌^◌, [], ◌∷◌, some, ◌≡◌, arith}
use pyflex.Base.Int.{pos}
use pyflex.Base.Results.{ok, ◌>>=◌}
use pyflex.Numeric.Amount.{amount}
use pyflex.Tokens.Token.{Token, normalize_amount, unnormalize_amount}
use pyflex.Tokens.Amounts.{normalize_amount-unnormalize_amount}

-- "USDC"
abbrev usdc : Token
usdc = record { name = 85 ∷ 83 ∷ 68 ∷ 67 ∷ []; address = some 77; decimals = 6 }

normalize_amount-unnormalize_amount_example :
    (normalize_amount usdc (amount (pos 2500000)) ≡ ok (amount (pos (2500000 * 10 ^ 12))))
    × ((normalize_amount usdc (amount (pos 2500000)) >>= unnormalize_amount usdc)
        ≡ ok (amount (pos 2500000)))
normalize_amount-unnormalize_amount_example =
    normalize_amount-unnormalize_amount usdc (amount (pos 2500000)) (omega arith) (omega arith)
