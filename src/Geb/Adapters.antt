-- ===== src/Geb/Adapters.antt =====
-- The token adapters and the flash proxies of the keepers of `pyflex/gf.py`.
use Prim.Native.String.{String}
use pyflex.Base.{ℕ, Bool, List, [], ◌∷◌}
use pyflex.Base.Int.{ℤ}
use pyflex.Base.Results.{Result, ok, ◌>>=◌}
use pyflex.Numeric.Classes.{wad}
use pyflex.Numeric.Amount.{Amount}
use pyflex.Chain.{Abi, number, numbers, address, Call, Contract, transact, read, read_address}
use pyflex.Geb.Types.{CollateralType, Safe, type_from_bytes}
use pyflex.Auctions.House
use pyflex.Geb.Engine.{bytes_of}

-- `approve`: the approval function is called with the token at `source` and the adapter as its spender.
unfoldable pub approve : {R : Type 0} → (ℕ → ℕ → R) → ℕ → ℕ → R
approve approval_function self source = approval_function source self

unfoldable pub join : ℕ → ℕ → Amount wad → Call
join self usr wad_amount = transact self "join" (address usr ∷ number wad_amount.value ∷ [])

unfoldable pub exit : ℕ → ℕ → Amount wad → Call
exit self usr wad_amount = transact self "exit" (address usr ∷ number wad_amount.value ∷ [])

-- The addresses of the tokens of `CoinJoin` and `BasicCollateralJoin`.

unfoldable pub system_coin : Contract → Result ℕ
unfolding read_address
system_coin contract = read_address contract "systemCoin" []

unfoldable pub collateral : Contract → Result ℕ
unfolding read_address
collateral contract = read_address contract "collateral" []

unfoldable read_type : (List ℕ → Bool) → Contract → String → List Abi → Result CollateralType
unfolding read bytes_of type_from_bytes
read_type is_utf8 contract function arguments =
    read contract function arguments >>= bytes_of >>= type_from_bytes is_utf8

unfoldable pub collateral_type : (List ℕ → Bool) → Contract → Result CollateralType
unfolding read_type
collateral_type is_utf8 contract = read_type is_utf8 contract "collateralType" []

-- `GebETHKeeperFlashProxy`

unfoldable pub auction_house : Contract → Result ℕ
unfolding read_address
auction_house contract = read_address contract "auctionHouse" []

unfoldable pub liquidation_engine : Contract → Result ℕ
unfolding read_address
liquidation_engine contract = read_address contract "liquidationEngine" []

unfoldable pub liquidate_and_settle_safe : ℕ → Safe → Call
liquidate_and_settle_safe self safe =
    transact self "liquidateAndSettleSAFE" (address safe.address ∷ [])

-- `settle_auction`, of one auction or of a list of them.
pub data AuctionIds : Type 0 where
  one : ℤ → AuctionIds
  several : List ℤ → AuctionIds

unfoldable pub settle_auction : ℕ → AuctionIds → Call
settle_auction self (one auction_id) =
    transact self "settleAuction(uint256)" (number auction_id ∷ [])
settle_auction self (several auction_ids) =
    transact self "settleAuction(uint256[])" (numbers auction_ids ∷ [])

-- `GebMCKeeperFlashProxy`
unfoldable pub liquidate_and_settle_safe_of : ℕ → ℕ → Safe → Call
liquidate_and_settle_safe_of self collateral_join safe =
    transact self "liquidateAndSettleSAFE" (address collateral_join ∷ address safe.address ∷ [])

unfoldable pub settle_auction_of : ℕ → ℕ → ℤ → Call
settle_auction_of self collateral_join auction_id =
    transact self "settleAuction" (address collateral_join ∷ number auction_id ∷ [])

-- `Collateral.approve`: the adapter may modify the SAFEs of the auction house's engine and take its token.
-- The two approval functions are those of the user.
unfoldable pub approve_collateral :
    {R : Type 0}
    → (modification directly : ℕ → ℕ → Result R) → (adapter token : ℕ)
    → (collateral_auction_house : Contract) → Result (R × R)
unfolding House.safe_engine approve
approve_collateral modification directly adapter token collateral_auction_house = do
  engine ← House.safe_engine collateral_auction_house
  modifying ← approve modification adapter engine
  taking ← approve directly adapter token
  ok (modifying, taking)
