-- ===== src/Auctions/StakedToken.antt =====
-- `StakedTokenAuctionHouse` of `pyflex/auctions.py`.
pub mod Reading
use Prim.Native.String.{String}
use text.Mathlib.Text.{◌==◌ as same_text}
use pyflex.Base.{
  ℕ, suc, Bool, ◌&&◌, if◌then◌else◌, List, [], ◌∷◌, ◌++◌, Option, none, some, ◌≡◌, refl, ap, ◌∙◌,
}
use pyflex.Base.Int.{ℤ, pos}
use pyflex.Base.Results.{
  Result, ok, err, ◌>>=◌, map_result, guard, assertion_error, name_error, not_implemented,
  type_error, value_error,
}
use pyflex.Numeric.Classes.{wad, rad, ray}
use pyflex.Numeric.Amount.{Amount, amount, less, of_int}
use pyflex.Numeric.Wad
use pyflex.Numeric.Rad
use pyflex.Numeric.Ray
use pyflex.Chain.{
  Abi, number, address, octets, words, Call, Contract, at, Args, get, int_of, address_of, amount_of,
  read, read_int, read_address, read_amount, read_positive, is_octets, to_bytes, Log, Codec,
  signature,
}
use pyflex.Auctions.House.{Auction, is_active, active_test, active_auctions, auctions_started}

pub record Bid : Type 0 where
  pub id : ℤ
  pub bid_amount : Amount rad
  pub amount_to_sell : Amount wad
  pub high_bidder : ℕ
  pub bid_expiry : ℤ
  pub auction_deadline : ℤ

unfoldable pub bid_of : ℤ → List Abi → Result Bid
unfolding at int_of address_of amount_of
bid_of id array = do
  bid_amount ← at 0 array >>= amount_of rad
  amount_to_sell ← at 1 array >>= amount_of wad
  high_bidder ← at 2 array >>= address_of
  bid_expiry ← at 3 array >>= int_of
  auction_deadline ← at 4 array >>= int_of
  ok (record {
    id = id;
    bid_amount = bid_amount;
    amount_to_sell = amount_to_sell;
    high_bidder = high_bidder;
    bid_expiry = bid_expiry;
    auction_deadline = auction_deadline;
  })

unfoldable pub bids : Contract → ℤ → Result Bid
unfolding bid_of
bids contract id = contract "bids" (number id ∷ []) >>= bid_of id

unfoldable pub bid_duration : Contract → Result ℤ
unfolding read_int
bid_duration contract = read_int contract "bidDuration" []

unfoldable pub bid_increase : Contract → Result (Amount wad)
unfolding read_amount
bid_increase contract = read_amount wad contract "bidIncrease" []

unfoldable pub min_bid_decrease : Contract → Result (Amount wad)
unfolding read_amount
min_bid_decrease contract = read_amount wad contract "minBidDecrease" []

unfoldable pub contract_enabled : Contract → Result Bool
unfolding read_positive
contract_enabled contract = read_positive contract "contractEnabled" []

unfoldable pub active_staked_token_auctions : Contract → Result ℤ
unfolding read_int
active_staked_token_auctions contract = read_int contract "activeStakedTokenAuctions" []

-- The test of the base class's loop, where `clock` gives the time at which an auction is looked at.
unfoldable pub auction : Bid → Auction
auction bid = record {
  high_bidder = bid.high_bidder;
  bid_expiry = bid.bid_expiry;
  auction_deadline = bid.auction_deadline;
}

unfoldable pub active : (ℕ → ℕ) → Contract → Result (List Bid)
unfolding auction bids active_test active_auctions auctions_started
active clock contract =
    active_auctions (active_test clock auction) (bids contract) (auctions_started contract)

-- `raise NotImplemented()`: calling `NotImplemented` is a type error.
unfoldable pub start_auction : ℕ → Amount wad → Amount wad → Result Call
start_auction initial_bidder amount_to_sell bid_amount = err type_error

unfoldable pub increase_bid_size : ℕ → ℤ → Amount wad → Amount rad → Call
increase_bid_size self id amount_to_buy bid_amount = record {
  contract = self;
  function = "increaseBidSize";
  arguments = number id ∷ number amount_to_buy.value ∷ number bid_amount.value ∷ [];
}

unfoldable pub restart_auction : ℕ → ℤ → Call
restart_auction self id = record {
  contract = self;
  function = "restartAuction";
  arguments = number id ∷ [];
}

unfoldable pub terminate_auction_prematurely : ℕ → ℤ → Call
terminate_auction_prematurely self id = record {
  contract = self;
  function = "terminateAuctionPrematurely";
  arguments = number id ∷ [];
}

pub record StartAuctionLog : Type 0 where
  pub id : Abi
  pub amount_to_sell : Amount wad
  pub amount_to_bid : Amount rad
  pub income_receiver : ℕ
  pub auction_deadline : ℤ
  pub active_staked_token_auctions : ℤ
  pub block : ℕ
  pub tx_hash : String

unfoldable pub start_auction_event_log : Log → Result StartAuctionLog
unfolding get int_of address_of amount_of
start_auction_event_log log = do
  id ← get "id" log.args
  amount_to_sell ← get "amountToSell" log.args >>= amount_of wad
  amount_to_bid ← get "amountToBid" log.args >>= amount_of rad
  income_receiver ← get "incomeReceiver" log.args >>= address_of
  auction_deadline ← get "auctionDeadline" log.args >>= int_of
  active_staked_token_auctions ← get "activeStakedTokenAuctions" log.args >>= int_of
  ok (record {
    id = id;
    amount_to_sell = amount_to_sell;
    amount_to_bid = amount_to_bid;
    income_receiver = income_receiver;
    auction_deadline = auction_deadline;
    active_staked_token_auctions = active_staked_token_auctions;
    block = log.block_number;
    tx_hash = log.transaction_hash;
  })

pub record IncreaseBidSizeLog : Type 0 where
  pub id : ℤ
  pub high_bidder : ℕ
  pub amount_to_buy : Amount wad
  pub bid : Amount rad
  pub bid_expiry : ℤ
  pub block : ℕ
  pub tx_hash : String

unfoldable pub increase_bid_size_event_log : Log → Result IncreaseBidSizeLog
unfolding get int_of address_of amount_of
increase_bid_size_event_log log = do
  id ← get "id" log.args >>= int_of
  high_bidder ← get "highBidder" log.args >>= address_of
  amount_to_buy ← get "amountToBuy" log.args >>= amount_of wad
  bid ← get "bid" log.args >>= amount_of rad
  bid_expiry ← get "bidExpiry" log.args >>= int_of
  ok (record {
    id = id;
    high_bidder = high_bidder;
    amount_to_buy = amount_to_buy;
    bid = bid;
    bid_expiry = bid_expiry;
    block = log.block_number;
    tx_hash = log.transaction_hash;
  })

pub record SettleAuctionLog : Type 0 where
  pub id : ℤ
  pub active_debt_auctions : ℤ
  pub block : ℕ
  pub tx_hash : String

unfoldable pub settle_auction_event_log : Log → Result SettleAuctionLog
unfolding get int_of address_of amount_of
settle_auction_event_log log = do
  id ← get "id" log.args >>= int_of
  active_debt_auctions ← get "id" log.args >>= int_of
  ok (record {
    id = id;
    active_debt_auctions = active_debt_auctions;
    block = log.block_number;
    tx_hash = log.transaction_hash;
  })

pub data Event : Type 0 where
  start_auction_event : StartAuctionLog → Event
  increase_bid_size_event : IncreaseBidSizeLog → Event
  settle_auction_event : SettleAuctionLog → Event

-- What web3 makes of an event whose signature is one of the house's.
unfoldable pub parse_as : {Raw : Type 0} → Codec Raw → Raw → String → Result (Option Event)
unfolding start_auction_event_log increase_bid_size_event_log settle_auction_event_log
parse_as codec event topic =
    if same_text topic "0x9102bd0b66dcb83f469f1122a583dc797657b114141460c59230fc1b41f48229"
    then map_result (λ log. some (start_auction_event log))
        (codec.get_event_data "StartAuction" event >>= start_auction_event_log)
    else if same_text topic "0xd87c815d5a67c2e130ad04b714d87a6fb69d5a6df0dbb0f1639cd9fe292201f9"
    then map_result (λ log. some (increase_bid_size_event log))
        (codec.get_event_data "IncreaseBidSize" event >>= increase_bid_size_event_log)
    else if same_text topic "0xef063949eb6ef5abef19139d9c75a558424ffa759302cfe445f8d2d327376fe4"
    then map_result (λ log. some (settle_auction_event log))
        (codec.get_event_data "SettleAuction" event >>= settle_auction_event_log)
    else ok none

unfoldable pub parse_event : {Raw : Type 0} → Codec Raw → Raw → Result (Option Event)
unfolding signature parse_as
parse_event codec event = signature codec event >>= parse_as codec event
