-- ===== src/Geb/Accounting.antt =====
-- `AccountingEngine` of `pyflex/gf.py`: the values of its contract and its transactions.
use pyflex.Base.{ℕ, Bool, [], ◌∷◌}
use pyflex.Base.Int.{ℤ}
use pyflex.Base.Results.{Result, ok, ◌>>=◌}
use pyflex.Numeric.Classes.{wad, rad}
use pyflex.Numeric.Amount.{Amount, minus}
use pyflex.Chain.{
  number, address, Call, Contract, transact, read_int, read_address, read_amount, read_positive,
  read_bool,
}
use pyflex.Geb.Engine
use pyflex.Geb.Engine.{bytes_of}

unfoldable pub add_authorization : ℕ → ℕ → Call
add_authorization self account = transact self "addAuthorization" (address account ∷ [])

unfoldable pub authorized_accounts : Contract → ℕ → Result Bool
unfolding read_bool
authorized_accounts contract account =
    read_bool contract "authorizedAccounts" (address account ∷ [])

unfoldable pub extra_surplus_is_transferred : Contract → Result Bool
unfolding read_bool
extra_surplus_is_transferred contract = read_bool contract "extraSurplusIsTransferred" []

unfoldable pub contract_enabled : Contract → Result Bool
unfolding read_positive
contract_enabled contract = read_positive contract "contractEnabled" []

unfoldable pub surplus_auction_house : Contract → Result ℕ
unfolding read_address
surplus_auction_house contract = read_address contract "surplusAuctionHouse" []

unfoldable pub post_settlement_surplus_drain : Contract → Result ℕ
unfolding read_address
post_settlement_surplus_drain contract = read_address contract "postSettlementSurplusDrain" []

unfoldable pub disable_cooldown : Contract → Result ℤ
unfolding read_int
disable_cooldown contract = read_int contract "disableCooldown" []

unfoldable pub debt_auction_house : Contract → Result ℕ
unfolding read_address
debt_auction_house contract = read_address contract "debtAuctionHouse" []

unfoldable pub total_queued_debt : Contract → Result (Amount rad)
unfolding read_amount
total_queued_debt contract = read_amount rad contract "totalQueuedDebt" []

unfoldable pub debt_queue_of : Contract → ℤ → Result (Amount rad)
unfolding read_amount
debt_queue_of contract block_time = read_amount rad contract "debtQueue" (number block_time ∷ [])

unfoldable pub total_on_auction_debt : Contract → Result (Amount rad)
unfolding read_amount
total_on_auction_debt contract = read_amount rad contract "totalOnAuctionDebt" []

-- The debt that is neither queued nor on auction. `engine` is the contract of the SAFE engine.
unfoldable pub unqueued_unauctioned_debt :
    (self : ℕ) → Contract → (engine : Contract) → Result (Amount rad)
unfolding Engine.debt_balance total_queued_debt total_on_auction_debt minus
unqueued_unauctioned_debt self contract engine = do
  debt ← Engine.debt_balance engine self
  queued ← total_queued_debt contract
  on_auction ← total_on_auction_debt contract
  ok (minus (minus debt queued) on_auction)

unfoldable pub pop_debt_delay : Contract → Result ℤ
unfolding read_int
pop_debt_delay contract = read_int contract "popDebtDelay" []

unfoldable pub initial_debt_auction_minted_tokens : Contract → Result (Amount wad)
unfolding read_amount
initial_debt_auction_minted_tokens contract =
    read_amount wad contract "initialDebtAuctionMintedTokens" []

unfoldable pub debt_auction_bid_size : Contract → Result (Amount rad)
unfolding read_amount
debt_auction_bid_size contract = read_amount rad contract "debtAuctionBidSize" []

unfoldable pub surplus_auction_amount_to_sell : Contract → Result (Amount rad)
unfolding read_amount
surplus_auction_amount_to_sell contract = read_amount rad contract "surplusAuctionAmountToSell" []

unfoldable pub surplus_auction_delay : Contract → Result ℤ
unfolding read_int
surplus_auction_delay contract = read_int contract "surplusAuctionDelay" []

unfoldable pub last_surplus_auction_time : Contract → Result ℤ
unfolding read_int
last_surplus_auction_time contract = read_int contract "lastSurplusAuctionTime" []

unfoldable pub surplus_buffer : Contract → Result (Amount rad)
unfolding read_amount
surplus_buffer contract = read_amount rad contract "surplusBuffer" []

unfoldable pub pop_debt_from_queue : ℕ → ℤ → Call
pop_debt_from_queue self block_time = transact self "popDebtFromQueue" (number block_time ∷ [])

-- The transactions below are logged with values that the contracts must have.
unfoldable pub settle_debt : (self : ℕ) → Contract → (engine : Contract) → Amount rad → Result Call
unfolding Engine.coin_balance unqueued_unauctioned_debt
settle_debt self contract engine rad_amount = do
  coin_balance ← Engine.coin_balance engine self
  unqueued ← unqueued_unauctioned_debt self contract engine
  ok (transact self "settleDebt" (number rad_amount.value ∷ []))

unfoldable pub cancel_auctioned_debt_with_surplus : ℕ → Amount rad → Call
cancel_auctioned_debt_with_surplus self rad_amount =
    transact self "cancelAuctionedDebtWithSurplus" (number rad_amount.value ∷ [])

unfoldable pub auction_debt : (self : ℕ) → Contract → (engine : Contract) → Result Call
unfolding unqueued_unauctioned_debt
auction_debt self contract engine = do
  unqueued ← unqueued_unauctioned_debt self contract engine
  ok (transact self "auctionDebt" [])

unfoldable pub auction_surplus : (self : ℕ) → (engine : Contract) → Result Call
unfolding Engine.coin_balance
auction_surplus self engine = do
  coin_balance ← Engine.coin_balance engine self
  ok (transact self "auctionSurplus" [])
