-- ===== src/Auctions/IncreasingDiscount.antt =====
-- `IncreasingDiscountCollateralAuctionHouse` of `pyflex/auctions.py`.
pub mod Reading
use Prim.Native.String.{String}
use text.Mathlib.Text.{◌==◌ as same_text}
use pyflex.Base.{
  ℕ, suc, Bool, ◌&&◌, if◌then◌else◌, List, [], ◌∷◌, ◌++◌, Option, none, some, ◌≡◌, refl, ap, ◌∙◌,
}
use pyflex.Base.Int.{ℤ, pos}
use pyflex.Base.Results.{
  Result, ok, err, ◌>>=◌, map_result, guard, assertion_error, name_error, not_implemented,
  type_error, value_error,
}
use pyflex.Numeric.Classes.{wad, rad, ray}
use pyflex.Numeric.Amount.{Amount, amount, less, of_int}
use pyflex.Numeric.Wad
use pyflex.Numeric.Rad
use pyflex.Numeric.Ray
use pyflex.Chain.{
  Abi, number, address, octets, words, Call, Contract, at, Args, get, int_of, address_of, amount_of,
  read, read_int, read_address, read_amount, read_positive, is_octets, to_bytes, Log, Codec,
  signature,
}
use pyflex.Auctions.House.{Auction, is_active, active_test, active_auctions, auctions_started}
use pyflex.Auctions.FixedDiscount.{Event, parse_as}

pub record Bid : Type 0 where
  pub id : ℤ
  pub amount_to_sell : Amount wad
  pub amount_to_raise : Amount rad
  pub current_discount : Amount wad
  pub max_discount : Amount wad
  pub per_second_discount_update_rate : Amount ray
  pub latest_discount_update_time : ℤ
  pub discount_increase_deadline : ℤ
  pub forgone_collateral_receiver : ℕ
  pub auction_income_recipient : ℕ

unfoldable pub bid_of : ℤ → List Abi → Result Bid
unfolding at int_of address_of amount_of
bid_of id array = do
  amount_to_sell ← at 0 array >>= amount_of wad
  amount_to_raise ← at 1 array >>= amount_of rad
  current_discount ← at 2 array >>= amount_of wad
  max_discount ← at 3 array >>= amount_of wad
  per_second_discount_update_rate ← at 4 array >>= amount_of ray
  latest_discount_update_time ← at 5 array >>= int_of
  discount_increase_deadline ← at 6 array >>= int_of
  forgone_collateral_receiver ← at 7 array >>= address_of
  auction_income_recipient ← at 8 array >>= address_of
  ok (record {
    id = id;
    amount_to_sell = amount_to_sell;
    amount_to_raise = amount_to_raise;
    current_discount = current_discount;
    max_discount = max_discount;
    per_second_discount_update_rate = per_second_discount_update_rate;
    latest_discount_update_time = latest_discount_update_time;
    discount_increase_deadline = discount_increase_deadline;
    forgone_collateral_receiver = forgone_collateral_receiver;
    auction_income_recipient = auction_income_recipient;
  })

unfoldable pub bids : Contract → ℤ → Result Bid
unfolding bid_of
bids contract id = contract "bids" (number id ∷ []) >>= bid_of id

unfoldable pub get_collateral_median_price : Contract → Result (Amount ray)
unfolding read_amount
get_collateral_median_price contract = read_amount ray contract "getCollateralMedianPrice" []

unfoldable pub minimum_bid : Contract → Result (Amount wad)
unfolding read_amount
minimum_bid contract = read_amount wad contract "minimumBid" []

unfoldable pub min_discount : Contract → Result (Amount wad)
unfolding read_amount
min_discount contract = read_amount wad contract "minDiscount" []

unfoldable pub max_discount : Contract → Result (Amount wad)
unfolding read_amount
max_discount contract = read_amount wad contract "maxDiscount" []

unfoldable pub per_second_discount_update_rate : Contract → Result (Amount ray)
unfolding read_amount
per_second_discount_update_rate contract = read_amount ray contract "perSecondDiscountUpdateRate" []

unfoldable pub max_discount_update_rate_timeline : Contract → Result ℤ
unfolding read_int
max_discount_update_rate_timeline contract = read_int contract "maxDiscountUpdateRateTimeline" []

unfoldable pub last_read_redemption_price : Contract → Result (Amount wad)
unfolding read_amount
last_read_redemption_price contract = read_amount wad contract "lastReadRedemptionPrice" []

-- The test of `active_auctions`, which does not look at the time.
unfoldable pub for_sale : ℕ → Bid → Bool
for_sale index bid =
    less (amount (pos 0)) bid.amount_to_sell && less (amount (pos 0)) bid.amount_to_raise

unfoldable pub active : Contract → Result (List Bid)
unfolding for_sale bids active_auctions auctions_started
active contract = active_auctions for_sale (bids contract) (auctions_started contract)

-- `get_final_token_prices`: the two values as the contract answers them.
unfoldable pub get_final_token_prices : Contract → Result (List Abi)
unfolding read
get_final_token_prices contract = read contract "lastReadRedemptionPrice" [] >>= λ price.
    contract "getFinalTokenPrices" (price ∷ [])

unfoldable pair_of : List Abi → Result (Amount wad × Amount wad)
unfolding amount_of
pair_of (collateral ∷ bid ∷ []) = do
  collateral_wad ← amount_of wad collateral
  bid_wad ← amount_of wad bid
  ok (collateral_wad, bid_wad)
pair_of [] = err value_error
pair_of (collateral ∷ []) = err value_error
pair_of (collateral ∷ bid ∷ other ∷ others) = err value_error

unfoldable pub get_approximate_collateral_bought :
    Contract → ℤ → Amount wad → Result (Amount wad × Amount wad)
unfolding pair_of
get_approximate_collateral_bought contract id wad_amount =
    contract "getApproximateCollateralBought" (number id ∷ number wad_amount.value ∷ []) >>= pair_of

-- The first assertion names `forgoneCollateralReceiver`, which is not defined.
unfoldable pub start_auction : ℕ → ℕ → ℕ → Amount rad → Amount wad → Amount rad → Result Call
start_auction self forgone_collateral_receiver auction_income_recipient amount_to_raise
      amount_to_sell bid_amount =
    err name_error

unfoldable pub buy_collateral : ℕ → ℤ → Amount wad → Call
buy_collateral self id wad_amount = record {
  contract = self;
  function = "buyCollateral";
  arguments = number id ∷ number wad_amount.value ∷ [];
}

unfoldable pub get_collateral_bought : ℕ → ℤ → Amount wad → Call
get_collateral_bought self id wad_amount = record {
  contract = self;
  function = "getCollateralBought";
  arguments = number id ∷ number wad_amount.value ∷ [];
}

-- `parse_event` makes the events of the other house, whose log classes it names.
unfoldable pub parse_event : {Raw : Type 0} → Codec Raw → Raw → Result (Option Event)
unfolding signature parse_as
parse_event codec event = signature codec event >>= parse_as codec event
