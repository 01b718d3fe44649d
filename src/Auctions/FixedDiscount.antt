-- ===== src/Auctions/FixedDiscount.antt =====
-- `FixedDiscountCollateralAuctionHouse` of `pyflex/auctions.py`.
pub mod Reading
use Prim.Native.String.{String}
use text.Mathlib.Text.{◌==◌ as same_text}
use pyflex.Base.{
  ℕ, suc, Bool, ◌&&◌, if◌then◌else◌, List, [], ◌∷◌, ◌++◌, Option, none, some, ◌≡◌, refl, ap, ◌∙◌,
}
use pyflex.Base.Int.{ℤ, pos}
use pyflex.Base.Results.{
  Result, ok, err, ◌>>=◌, map_result, guard, assertion_error, name_error, not_implemented,
  type_error, value_error,
}
use pyflex.Numeric.Classes.{wad, rad, ray}
use pyflex.Numeric.Amount.{Amount, amount, less, of_int}
use pyflex.Numeric.Wad
use pyflex.Numeric.Rad
use pyflex.Numeric.Ray
use pyflex.Chain.{
  Abi, number, address, octets, words, Call, Contract, at, Args, get, int_of, address_of, amount_of,
  read, read_int, read_address, read_amount, read_positive, is_octets, to_bytes, Log, Codec,
  signature,
}
use pyflex.Auctions.House.{Auction, is_active, active_test, active_auctions, auctions_started}

pub record Bid : Type 0 where
  pub id : ℤ
  pub raised_amount : Amount rad
  pub sold_amount : Amount wad
  pub amount_to_sell : Amount wad
  pub amount_to_raise : Amount rad
  pub auction_deadline : ℤ
  pub forgone_collateral_receiver : ℕ
  pub auction_income_recipient : ℕ

unfoldable pub bid_of : ℤ → List Abi → Result Bid
unfolding at int_of address_of amount_of
bid_of id array = do
  raised_amount ← at 0 array >>= amount_of rad
  sold_amount ← at 1 array >>= amount_of wad
  amount_to_sell ← at 2 array >>= amount_of wad
  amount_to_raise ← at 3 array >>= amount_of rad
  auction_deadline ← at 4 array >>= int_of
  forgone_collateral_receiver ← at 5 array >>= address_of
  auction_income_recipient ← at 6 array >>= address_of
  ok (record {
    id = id;
    raised_amount = raised_amount;
    sold_amount = sold_amount;
    amount_to_sell = amount_to_sell;
    amount_to_raise = amount_to_raise;
    auction_deadline = auction_deadline;
    forgone_collateral_receiver = forgone_collateral_receiver;
    auction_income_recipient = auction_income_recipient;
  })

unfoldable pub bids : Contract → ℤ → Result Bid
unfolding bid_of
bids contract id = contract "bids" (number id ∷ []) >>= bid_of id

unfoldable pub get_collateral_median_price : Contract → Result (Amount ray)
unfolding read_amount
get_collateral_median_price contract = read_amount ray contract "getCollateralMedianPrice" []

unfoldable pub minimum_bid : Contract → Result (Amount wad)
unfolding read_amount
minimum_bid contract = read_amount wad contract "minimumBid" []

unfoldable pub discount : Contract → Result (Amount wad)
unfolding read_amount
discount contract = read_amount wad contract "discount" []

unfoldable pub last_read_redemption_price : Contract → Result (Amount wad)
unfolding read_amount
last_read_redemption_price contract = read_amount wad contract "lastReadRedemptionPrice" []

-- The assertion of the constructor, of the bytes of "FIXED_DISCOUNT".
unfoldable pub init : Contract → Result (Unit {0})
unfolding read is_octets to_bytes
init contract = do
  auction_type ← read contract "AUCTION_TYPE" []
  guard
      (is_octets auction_type
        (to_bytes (70 ∷ 73 ∷ 88 ∷ 69 ∷ 68 ∷ 95 ∷ 68 ∷ 73 ∷ 83 ∷ 67 ∷ 79 ∷ 85 ∷ 78 ∷ 84 ∷ [])))
      assertion_error

-- The test of `active_auctions`, which does not look at the time.
unfoldable pub for_sale : ℕ → Bid → Bool
for_sale index bid =
    less (amount (pos 0)) bid.amount_to_sell && less (amount (pos 0)) bid.amount_to_raise

unfoldable pub active : Contract → Result (List Bid)
unfolding for_sale bids active_auctions auctions_started
active contract = active_auctions for_sale (bids contract) (auctions_started contract)

-- `get_final_token_prices`: the two values as the contract answers them.
unfoldable pub get_final_token_prices : Contract → Result (List Abi)
unfolding read
get_final_token_prices contract = read contract "lastReadRedemptionPrice" [] >>= λ price.
    contract "getFinalTokenPrices" (price ∷ [])

unfoldable pair_of : List Abi → Result (Amount wad × Amount wad)
unfolding amount_of
pair_of (collateral ∷ bid ∷ []) = do
  collateral_wad ← amount_of wad collateral
  bid_wad ← amount_of wad bid
  ok (collateral_wad, bid_wad)
pair_of [] = err value_error
pair_of (collateral ∷ []) = err value_error
pair_of (collateral ∷ bid ∷ other ∷ others) = err value_error

unfoldable pub get_approximate_collateral_bought :
    Contract → ℤ → Amount wad → Result (Amount wad × Amount wad)
unfolding pair_of
get_approximate_collateral_bought contract id wad_amount =
    contract "getApproximateCollateralBought" (number id ∷ number wad_amount.value ∷ []) >>= pair_of

-- The first assertion names `forgoneCollateralReceiver`, which is not defined.
unfoldable pub start_auction : ℕ → ℕ → ℕ → Amount rad → Amount wad → Amount rad → Result Call
start_auction self forgone_collateral_receiver auction_income_recipient amount_to_raise
      amount_to_sell bid_amount =
    err name_error

unfoldable pub buy_collateral : ℕ → ℤ → Amount wad → Call
buy_collateral self id wad_amount = record {
  contract = self;
  function = "buyCollateral";
  arguments = number id ∷ number wad_amount.value ∷ [];
}

unfoldable pub get_collateral_bought : ℕ → ℤ → Amount wad → Call
get_collateral_bought self id wad_amount = record {
  contract = self;
  function = "getCollateralBought";
  arguments = number id ∷ number wad_amount.value ∷ [];
}

pub record StartAuctionLog : Type 0 where
  pub id : Abi
  pub auctions_started : ℤ
  pub amount_to_sell : Amount wad
  pub initial_bid : Amount rad
  pub amount_to_raise : Amount rad
  pub forgone_collateral_receiver : ℕ
  pub auction_income_recipient : ℕ
  pub auction_deadline : ℤ
  pub block : ℕ
  pub tx_hash : String

unfoldable pub start_auction_event_log : Log → Result StartAuctionLog
unfolding get int_of address_of amount_of
start_auction_event_log log = do
  id ← get "id" log.args
  auctions_started ← get "auctionsStarted" log.args >>= int_of
  amount_to_sell ← get "amountToSell" log.args >>= amount_of wad
  initial_bid ← get "initialBid" log.args >>= amount_of rad
  amount_to_raise ← get "amountToRaise" log.args >>= amount_of rad
  forgone_collateral_receiver ← get "forgoneCollateralReceiver" log.args >>= address_of
  auction_income_recipient ← get "auctionIncomeRecipient" log.args >>= address_of
  auction_deadline ← get "auctionDeadline" log.args >>= int_of
  ok (record {
    id = id;
    auctions_started = auctions_started;
    amount_to_sell = amount_to_sell;
    initial_bid = initial_bid;
    amount_to_raise = amount_to_raise;
    forgone_collateral_receiver = forgone_collateral_receiver;
    auction_income_recipient = auction_income_recipient;
    auction_deadline = auction_deadline;
    block = log.block_number;
    tx_hash = log.transaction_hash;
  })

pub record BuyCollateralLog : Type 0 where
  pub id : Abi
  pub wad_amount : Amount wad
  pub bought_collateral : Amount wad
  pub block : ℕ
  pub tx_hash : String
  pub raw : Log

unfoldable pub buy_collateral_event_log : Log → Result BuyCollateralLog
unfolding get int_of address_of amount_of
buy_collateral_event_log log = do
  id ← get "id" log.args
  wad_amount ← get "wad" log.args >>= amount_of wad
  bought_collateral ← get "boughtCollateral" log.args >>= amount_of wad
  ok (record {
    id = id;
    wad_amount = wad_amount;
    bought_collateral = bought_collateral;
    block = log.block_number;
    tx_hash = log.transaction_hash;
    raw = log;
  })

pub record SettleAuctionLog : Type 0 where
  pub id : Abi
  pub leftover_collateral : Amount wad
  pub block : ℕ
  pub tx_hash : String
  pub raw : Log

unfoldable pub settle_auction_event_log : Log → Result SettleAuctionLog
unfolding get int_of address_of amount_of
settle_auction_event_log log = do
  id ← get "id" log.args
  leftover_collateral ← get "leftoverCollateral" log.args >>= amount_of wad
  ok (record {
    id = id;
    leftover_collateral = leftover_collateral;
    block = log.block_number;
    tx_hash = log.transaction_hash;
    raw = log;
  })

pub data Event : Type 0 where
  start_auction_event : StartAuctionLog → Event
  buy_collateral_event : BuyCollateralLog → Event
  settle_auction_event : SettleAuctionLog → Event

-- What web3 makes of an event whose signature is one of the house's.
unfoldable pub parse_as : {Raw : Type 0} → Codec Raw → Raw → String → Result (Option Event)
unfolding start_auction_event_log buy_collateral_event_log settle_auction_event_log
parse_as codec event topic =
    if same_text topic "0xdf7b5cd0ee6547c7389d2ac00ee0c1cd3439542399d6c8c520cc69c7409c0990"
    then map_result (λ log. some (start_auction_event log))
        (codec.get_event_data "StartAuction" event >>= start_auction_event_log)
    else if same_text topic "0xa4a1133e32fac37643a1fe1db4631daadb462c8662ae16004e67f0b8bb608383"
    then map_result (λ log. some (buy_collateral_event log))
        (codec.get_event_data "BuyCollateral" event >>= buy_collateral_event_log)
    else if same_text topic "0xef063949eb6ef5abef19139d9c75a558424ffa759302cfe445f8d2d327376fe4"
    then map_result (λ log. some (settle_auction_event log))
        (codec.get_event_data "SettleAuction" event >>= settle_auction_event_log)
    else ok none

unfoldable pub parse_event : {Raw : Type 0} → Codec Raw → Raw → Result (Option Event)
unfolding signature parse_as
parse_event codec event = signature codec event >>= parse_as codec event
