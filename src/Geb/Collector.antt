-- ===== src/Geb/Collector.antt =====
-- `TaxCollector`, `CoinSavingsAccount` and `GebStaking` of `pyflex/gf.py`.
use pyflex.Base.{ℕ, Bool, [], ◌∷◌}
use pyflex.Base.Int.{ℤ}
use pyflex.Base.Results.{Result, ◌>>=◌}
use pyflex.Numeric.Classes.{wad, ray}
use pyflex.Numeric.Amount.{Amount}
use pyflex.Chain.{
  address, octets, Call, Contract, transact, at, int_of, amount_of, read_int, read_amount,
  read_bool,
}
use pyflex.Geb.Types.{CollateralType, type_to_bytes}

unfoldable pub initialize_collateral_type : ℕ → CollateralType → Call
unfolding type_to_bytes
initialize_collateral_type self collateral_type =
    transact self "initializeCollateralType" (octets (type_to_bytes collateral_type) ∷ [])

unfoldable pub authorized_accounts : Contract → ℕ → Result Bool
unfolding read_bool
authorized_accounts contract account =
    read_bool contract "authorizedAccounts" (address account ∷ [])

unfoldable pub tax_single : ℕ → CollateralType → Call
unfolding type_to_bytes
tax_single self collateral_type =
    transact self "taxSingle" (octets (type_to_bytes collateral_type) ∷ [])

unfoldable pub global_stability_fee : Contract → Result (Amount ray)
unfolding read_amount
global_stability_fee contract = read_amount ray contract "globalStabilityFee" []

unfoldable pub stability_fee : Contract → CollateralType → Result (Amount ray)
unfolding type_to_bytes at amount_of
stability_fee contract collateral_type =
    contract "collateralTypes" (octets (type_to_bytes collateral_type) ∷ [])
    >>= at 0
    >>= amount_of ray

unfoldable pub update_time : Contract → CollateralType → Result ℤ
unfolding type_to_bytes at int_of
update_time contract collateral_type =
    contract "collateralTypes" (octets (type_to_bytes collateral_type) ∷ []) >>= at 1 >>= int_of

-- `CoinSavingsAccount`

unfoldable pub savings_of : Contract → ℕ → Result (Amount wad)
unfolding read_amount
savings_of contract account = read_amount wad contract "savings" (address account ∷ [])

unfoldable pub total_savings : Contract → Result (Amount wad)
unfolding read_amount
total_savings contract = read_amount wad contract "totalSavings" []

unfoldable pub savings_rate : Contract → Result (Amount ray)
unfolding read_amount
savings_rate contract = read_amount ray contract "savingsRate" []

unfoldable pub accumulated_rate : Contract → Result (Amount ray)
unfolding read_amount
accumulated_rate contract = read_amount ray contract "accumulatedRates" []

unfoldable pub update_accumulated_rate : ℕ → Call
update_accumulated_rate self = transact self "updateAccumulatedRate" []

-- The time of the last update in seconds, of which Python makes a `datetime`.
unfoldable pub savings_update_time : Contract → Result ℤ
unfolding read_int
savings_update_time contract = read_int contract "updateTime" []

-- `approve`: the approval function is called with the token at `source` and the account as its spender.
unfoldable pub approve : {R : Type 0} → (ℕ → ℕ → R) → ℕ → ℕ → R
approve approval_function self source = approval_function source self

-- `GebStaking`

unfoldable pub can_auction_tokens : Contract → Result Bool
unfolding read_bool
can_auction_tokens contract = read_bool contract "canAuctionTokens" []

unfoldable pub can_print_protocol_tokens : Contract → Result Bool
unfolding read_bool
can_print_protocol_tokens contract = read_bool contract "canPrintProtocolTokens" []

unfoldable pub system_coins_to_request : Contract → Result (Amount wad)
unfolding read_amount
system_coins_to_request contract = read_amount wad contract "systemCoinsToRequest" []

unfoldable pub tokens_to_auction : Contract → Result (Amount wad)
unfolding read_amount
tokens_to_auction contract = read_amount wad contract "tokensToAuction" []

unfoldable pub max_concurrent_auctions : Contract → Result ℤ
unfolding read_int
max_concurrent_auctions contract = read_int contract "maxConcurrentAuctions" []

unfoldable pub auction_ancestor_tokens : ℕ → Call
auction_ancestor_tokens self = transact self "auctionAncestorTokens" []
