-- ===== src/Auctions/English/Reading.antt =====
-- `EnglishCollateralAuctionHouse` of `pyflex/auctions.py`: its auctions and events come back from their codes.
use Prim.Native.String.{String}
use text.Mathlib.Text.{◌==◌ as same_text}
use pyflex.Base.{All, none, false, List, [], ◌∷◌, ◌++◌, some, ◌≡◌, ap, ◌∙◌}
use pyflex.Base.Results.{ok, ◌>>=◌, map_result}
use pyflex.Numeric.Wad
use pyflex.Numeric.Rad
use pyflex.Numeric.Ray
use pyflex.Chain.{Abi, number, address, Contract, Args, Log, Codec, first_topic}
use pyflex.Auctions.English.{
  Bid, bid_of, bids, Event, start_auction_event, increase_bid_size_event,
  decrease_sold_amount_event, settle_auction_event, start_auction_event_log,
  increase_bid_size_event_log, decrease_sold_amount_event_log, settle_auction_event_log,
  parse_event, parse_as,
}

-- The values that the function `bids` of the contract answers, in the order of its ABI.
unfoldable pub abi_of : Bid → List Abi
abi_of bid =
    number bid.bid_amount.value
    ∷ number bid.amount_to_sell.value
    ∷ address bid.high_bidder
    ∷ number bid.bid_expiry
    ∷ number bid.auction_deadline
    ∷ address bid.forgone_collateral_receiver
    ∷ address bid.auction_income_recipient
    ∷ number bid.amount_to_raise.value
    ∷ []

-- The auction that the contract answers is the one that `bids` returns.
pub bids_roundtrip :
    (contract : Contract) (bid : Bid)
    → contract "bids" (number bid.id ∷ []) ≡ ok (abi_of bid)
    → bids contract bid.id ≡ ok bid
unfolding bids abi_of Wad.new Rad.new Ray.new
bids_roundtrip contract bid answered = ap (λ answer. answer >>= bid_of bid.id) answered

-- What the contract emits: the topic of an event, its name, and its arguments as the ABI has them.
unfoldable pub topic_of : Event → String
topic_of (start_auction_event log) =
    "0xdf7b5cd0ee6547c7389d2ac00ee0c1cd3439542399d6c8c520cc69c7409c0990"
topic_of (increase_bid_size_event log) =
    "0xd87c815d5a67c2e130ad04b714d87a6fb69d5a6df0dbb0f1639cd9fe292201f9"
topic_of (decrease_sold_amount_event log) =
    "0x8c63feacc784a7f735e454365ba433f17d17293b02c57d98dad113977dbf0f13"
topic_of (settle_auction_event log) =
    "0x03af424b0e12d91ea31fe7f2c199fc02c9ede38f9aa1bdc019a8087b41445f7a"

unfoldable pub name_of : Event → String
name_of (start_auction_event log) = "StartAuction"
name_of (increase_bid_size_event log) = "IncreaseBidSize"
name_of (decrease_sold_amount_event log) = "DecreaseSoldAmount"
name_of (settle_auction_event log) = "SettleAuction"

unfoldable args_of : Event → Args
args_of (start_auction_event log) =
    ("id", number log.id)
    ∷ ("amountToSell", number log.amount_to_sell.value)
    ∷ ("initialBid", number log.bid_amount.value)
    ∷ ("amountToRaise", number log.amount_to_raise.value)
    ∷ ("forgoneCollateralReceiver", address log.forgone_collateral_receiver)
    ∷ ("auctionIncomeRecipient", address log.auction_income_recipient)
    ∷ []
args_of (increase_bid_size_event log) =
    ("id", number log.id)
    ∷ ("highBidder", address log.high_bidder)
    ∷ ("amountToBuy", number log.amount_to_buy.value)
    ∷ ("rad", number log.rad_amount.value)
    ∷ ("bidExpiry", number log.bid_expiry)
    ∷ []
args_of (decrease_sold_amount_event log) =
    ("id", number log.id)
    ∷ ("highBidder", address log.high_bidder)
    ∷ ("amountToBuy", number log.amount_to_buy.value)
    ∷ ("rad", number log.rad_amount.value)
    ∷ ("bidExpiry", number log.bid_expiry)
    ∷ []
args_of (settle_auction_event log) = ("id", log.id) ∷ []

-- The event as web3 decodes it, with arguments that the client does not read behind the others.
unfoldable pub log_of : Args → Event → Log
unfolding args_of
log_of more (start_auction_event log) = record {
  args = args_of (start_auction_event log) ++ more;
  block_number = log.block;
  transaction_hash = log.tx_hash;
}
log_of more (increase_bid_size_event log) = record {
  args = args_of (increase_bid_size_event log) ++ more;
  block_number = log.block;
  transaction_hash = log.tx_hash;
}
log_of more (decrease_sold_amount_event log) = record {
  args = args_of (decrease_sold_amount_event log) ++ more;
  block_number = log.block;
  transaction_hash = log.tx_hash;
}
log_of more (settle_auction_event log) = record {
  args = args_of (settle_auction_event log) ++ more;
  block_number = log.block;
  transaction_hash = log.tx_hash;
}

-- The decoded event becomes the log of its class.
parse_as_lem :
    {Raw : Type 0} (codec : Codec Raw) (event : Raw) (more : Args) (e : Event)
    → codec.get_event_data (name_of e) event ≡ ok (log_of more e)
    → parse_as codec event (topic_of e) ≡ ok (some e)
unfolding parse_as topic_of name_of log_of Wad.new Rad.new Ray.new
parse_as_lem codec event more (start_auction_event log) decoded =
    ap
      (λ answer.
        map_result (λ log. some (start_auction_event log)) (answer >>= start_auction_event_log))
      decoded
parse_as_lem codec event more (increase_bid_size_event log) decoded =
    ap
      (λ answer.
        map_result (λ log. some (increase_bid_size_event log))
          (answer >>= increase_bid_size_event_log))
      decoded
parse_as_lem codec event more (decrease_sold_amount_event log) decoded =
    ap
      (λ answer.
        map_result (λ log. some (decrease_sold_amount_event log))
          (answer >>= decrease_sold_amount_event_log))
      decoded
parse_as_lem codec event more (settle_auction_event log) decoded =
    ap
      (λ answer.
        map_result (λ log. some (settle_auction_event log)) (answer >>= settle_auction_event_log))
      decoded

-- An event that the contract emits, with its topic first and its arguments as the ABI has them, is
-- the event that `parse_event` returns.
pub parse_event_roundtrip :
    {Raw : Type 0} (codec : Codec Raw) (event : Raw) (indexed : List String) (more : Args)
    (e : Event)
    → codec.topics event ≡ topic_of e ∷ indexed
    → codec.get_event_data (name_of e) event ≡ ok (log_of more e)
    → parse_event codec event ≡ ok (some e)
unfolding parse_event
parse_event_roundtrip codec event indexed more e topics decoded =
    ap (λ ts. first_topic ts >>= parse_as codec event) topics
    ∙ parse_as_lem codec event more e decoded

-- The topics that the client knows.
abbrev pub signatures : List String
signatures =
    "0xdf7b5cd0ee6547c7389d2ac00ee0c1cd3439542399d6c8c520cc69c7409c0990"
    ∷ "0xd87c815d5a67c2e130ad04b714d87a6fb69d5a6df0dbb0f1639cd9fe292201f9"
    ∷ "0x8c63feacc784a7f735e454365ba433f17d17293b02c57d98dad113977dbf0f13"
    ∷ "0x03af424b0e12d91ea31fe7f2c199fc02c9ede38f9aa1bdc019a8087b41445f7a" ∷ []

parse_as_foreign :
    {Raw : Type 0} (codec : Codec Raw) (event : Raw) (topic : String)
    → All (λ s. same_text topic s ≡ false) signatures
    → parse_as codec event topic ≡ ok none
unfolding parse_as
parse_as_foreign codec event topic (h0, (h1, (h2, (h3, h)))) = simp (h0, h1, h2, h3)

-- An event with another topic is not the house's.
pub parse_event_foreign :
    {Raw : Type 0} (codec : Codec Raw) (event : Raw) (indexed : List String) (topic : String)
    → All (λ s. same_text topic s ≡ false) signatures
    → codec.topics event ≡ topic ∷ indexed
    → parse_event codec event ≡ ok none
unfolding parse_event
parse_event_foreign codec event indexed topic foreign topics =
    ap (λ ts. first_topic ts >>= parse_as codec event) topics
    ∙ parse_as_foreign codec event topic foreign
