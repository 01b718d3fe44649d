-- ===== src/Tokens/Contracts.antt =====
-- The tokens of `pyflex/token.py`: the values of their contracts and their transactions.
use pyflex.Base.{ℕ, ◌-◌, ◌^◌, [], ◌∷◌}
use pyflex.Base.Int.{pos}
use pyflex.Base.Results.{Result}
use pyflex.Numeric.Classes.{wad}
use pyflex.Numeric.Amount.{Amount, amount}
use pyflex.Chain.{number, address, Call, Contract, transact, read_address, read_amount}

unfoldable pub total_supply : Contract → Result (Amount wad)
unfolding read_amount
total_supply contract = read_amount wad contract "totalSupply" []

unfoldable pub balance_of : Contract → ℕ → Result (Amount wad)
unfolding read_amount
balance_of contract account = read_amount wad contract "balanceOf" (address account ∷ [])

unfoldable pub allowance_of : Contract → ℕ → ℕ → Result (Amount wad)
unfolding read_amount
allowance_of contract account payee =
    read_amount wad contract "allowance" (address account ∷ address payee ∷ [])

unfoldable pub transfer : ℕ → ℕ → Amount wad → Call
transfer self recipient value =
    transact self "transfer" (address recipient ∷ number value.value ∷ [])

unfoldable pub transfer_from : ℕ → ℕ → ℕ → Amount wad → Call
transfer_from self source destination value =
    transact self "transferFrom" (address source ∷ address destination ∷ number value.value ∷ [])

unfoldable pub approve : ℕ → ℕ → Amount wad → Call
approve self payee limit = transact self "approve" (address payee ∷ number limit.value ∷ [])

-- The default limit of `approve`.
abbrev pub no_limit : Amount wad
no_limit = amount (pos (2 ^ 256 - 1))

-- `DSToken`

unfoldable pub owner : Contract → Result ℕ
unfolding read_address
owner contract = read_address contract "owner" []

unfoldable pub authority : Contract → Result ℕ
unfolding read_address
authority contract = read_address contract "authority" []

unfoldable pub set_authority : ℕ → ℕ → Call
set_authority self account = transact self "setAuthority" (address account ∷ [])

unfoldable pub mint : ℕ → Amount wad → Call
mint self value = transact self "mint(uint256)" (number value.value ∷ [])

unfoldable pub mint_to : ℕ → ℕ → Amount wad → Call
mint_to self account value =
    transact self "mint(address,uint256)" (address account ∷ number value.value ∷ [])

unfoldable pub burn : ℕ → Amount wad → Call
burn self value = transact self "burn(uint256)" (number value.value ∷ [])

unfoldable pub burn_from : ℕ → ℕ → Amount wad → Call
burn_from self account value =
    transact self "burn(address,uint256)" (address account ∷ number value.value ∷ [])

-- `DSEthToken`: a deposit is paid with the transaction.
unfoldable pub deposit : ℕ → Amount wad → Call × Amount wad
deposit self value = (transact self "deposit" [], value)

unfoldable pub withdraw : ℕ → Amount wad → Call
withdraw self value = transact self "withdraw" (number value.value ∷ [])
