-- ===== src/Auctions/StakedToken/Reading.antt =====
-- `StakedTokenAuctionHouse` of `pyflex/auctions.py`: its auctions and events come back from their codes.
use Prim.Native.String.{String}
use text.Mathlib.Text.{◌==◌ as same_text}
use pyflex.Base.{All, none, false, List, [], ◌∷◌, ◌++◌, some, ◌≡◌, sym, ap, ◌∙◌}
use pyflex.Base.Results.{ok, ◌>>=◌, map_result}
use pyflex.Numeric.Wad
use pyflex.Numeric.Rad
use pyflex.Numeric.Ray
use pyflex.Chain.{Abi, number, address, Contract, Args, Log, Codec, first_topic}
use pyflex.Auctions.StakedToken.{
  Bid, bid_of, bids, Event, start_auction_event, increase_bid_size_event, settle_auction_event,
  start_auction_event_log, increase_bid_size_event_log, settle_auction_event_log, parse_event,
  parse_as,
}

-- The values that the function `bids` of the contract answers, in the order of its ABI.
unfoldable pub abi_of : Bid → List Abi
abi_of bid =
    number bid.bid_amount.value
    ∷ number bid.amount_to_sell.value
    ∷ address bid.high_bidder
    ∷ number bid.bid_expiry
    ∷ number bid.auction_deadline
    ∷ []

-- The auction that the contract answers is the one that `bids` returns.
pub bids_roundtrip :
    (contract : Contract) (bid : Bid)
    → contract "bids" (number bid.id ∷ []) ≡ ok (abi_of bid)
    → bids contract bid.id ≡ ok bid
unfolding bids abi_of Wad.new Rad.new Ray.new
bids_roundtrip contract bid answered = ap (λ answer. answer >>= bid_of bid.id) answered

-- What the contract emits: the topic of an event, its name, and its arguments as the ABI has them.
unfoldable pub topic_of : Event → String
topic_of (start_auction_event log) =
    "0x9102bd0b66dcb83f469f1122a583dc797657b114141460c59230fc1b41f48229"
topic_of (increase_bid_size_event log) =
    "0xd87c815d5a67c2e130ad04b714d87a6fb69d5a6df0dbb0f1639cd9fe292201f9"
topic_of (settle_auction_event log) =
    "0xef063949eb6ef5abef19139d9c75a558424ffa759302cfe445f8d2d327376fe4"

unfoldable pub name_of : Event → String
name_of (start_auction_event log) = "StartAuction"
name_of (increase_bid_size_event log) = "IncreaseBidSize"
name_of (settle_auction_event log) = "SettleAuction"

unfoldable args_of : Event → Args
args_of (start_auction_event log) =
    ("id", log.id)
    ∷ ("amountToSell", number log.amount_to_sell.value)
    ∷ ("amountToBid", number log.amount_to_bid.value)
    ∷ ("incomeReceiver", address log.income_receiver)
    ∷ ("auctionDeadline", number log.auction_deadline)
    ∷ ("activeStakedTokenAuctions", number log.active_staked_token_auctions)
    ∷ []
args_of (increase_bid_size_event log) =
    ("id", number log.id)
    ∷ ("highBidder", address log.high_bidder)
    ∷ ("amountToBuy", number log.amount_to_buy.value)
    ∷ ("bid", number log.bid.value)
    ∷ ("bidExpiry", number log.bid_expiry)
    ∷ []
args_of (settle_auction_event log) = ("id", number log.id) ∷ []

-- The event as web3 decodes it, with arguments that the client does not read behind the others.
unfoldable pub log_of : Args → Event → Log
unfolding args_of
log_of more (start_auction_event log) = record {
  args = args_of (start_auction_event log) ++ more;
  block_number = log.block;
  transaction_hash = log.tx_hash;
}
log_of more (increase_bid_size_event log) = record {
  args = args_of (increase_bid_size_event log) ++ more;
  block_number = log.block;
  transaction_hash = log.tx_hash;
}
log_of more (settle_auction_event log) = record {
  args = args_of (settle_auction_event log) ++ more;
  block_number = log.block;
  transaction_hash = log.tx_hash;
}

-- An event whose log can be one of the client's: the client takes its number of active auctions from the identifier.
unfoldable pub IsRead : Args → Event → Type 0
unfolding log_of
IsRead more (start_auction_event log) = Unit
IsRead more (increase_bid_size_event log) = Unit
IsRead more (settle_auction_event log) = log.active_debt_auctions ≡ log.id

-- The decoded event becomes the log of its class.
parse_as_lem :
    {Raw : Type 0} (codec : Codec Raw) (event : Raw) (more : Args) (e : Event)
    (read : IsRead more e)
    → codec.get_event_data (name_of e) event ≡ ok (log_of more e)
    → parse_as codec event (topic_of e) ≡ ok (some e)
unfolding parse_as topic_of name_of log_of IsRead Wad.new Rad.new Ray.new
parse_as_lem codec event more (start_auction_event log) read decoded =
    ap
      (λ answer.
        map_result (λ log. some (start_auction_event log)) (answer >>= start_auction_event_log))
      decoded
parse_as_lem codec event more (increase_bid_size_event log) read decoded =
    ap
      (λ answer.
        map_result (λ log. some (increase_bid_size_event log))
          (answer >>= increase_bid_size_event_log))
      decoded
parse_as_lem codec event more (settle_auction_event log) read decoded =
    ap
      (λ answer.
        map_result (λ log. some (settle_auction_event log)) (answer >>= settle_auction_event_log))
      decoded
    ∙ ap
        (λ v. ok (
          some (
            settle_auction_event (record {
              id = log.id;
              active_debt_auctions = v;
              block = log.block;
              tx_hash = log.tx_hash;
            }))))
        (sym read)

-- An event that the contract emits, with its topic first and its arguments as the ABI has them, is
-- the event that `parse_event` returns.
pub parse_event_roundtrip :
    {Raw : Type 0} (codec : Codec Raw) (event : Raw) (indexed : List String) (more : Args)
    (e : Event)
    → codec.topics event ≡ topic_of e ∷ indexed
    → IsRead more e
    → codec.get_event_data (name_of e) event ≡ ok (log_of more e)
    → parse_event codec event ≡ ok (some e)
unfolding parse_event
parse_event_roundtrip codec event indexed more e topics read decoded =
    ap (λ ts. first_topic ts >>= parse_as codec event) topics
    ∙ parse_as_lem codec event more e read decoded

-- The topics that the client knows.
abbrev pub signatures : List String
signatures =
    "0x9102bd0b66dcb83f469f1122a583dc797657b114141460c59230fc1b41f48229"
    ∷ "0xd87c815d5a67c2e130ad04b714d87a6fb69d5a6df0dbb0f1639cd9fe292201f9"
    ∷ "0xef063949eb6ef5abef19139d9c75a558424ffa759302cfe445f8d2d327376fe4" ∷ []

parse_as_foreign :
    {Raw : Type 0} (codec : Codec Raw) (event : Raw) (topic : String)
    → All (λ s. same_text topic s ≡ false) signatures
    → parse_as codec event topic ≡ ok none
unfolding parse_as
parse_as_foreign codec event topic (h0, (h1, (h2, h))) = simp (h0, h1, h2)

-- An event with another topic is not the house's.
pub parse_event_foreign :
    {Raw : Type 0} (codec : Codec Raw) (event : Raw) (indexed : List String) (topic : String)
    → All (λ s. same_text topic s ≡ false) signatures
    → codec.topics event ≡ topic ∷ indexed
    → parse_event codec event ≡ ok none
unfolding parse_event
parse_event_foreign codec event indexed topic foreign topics =
    ap (λ ts. first_topic ts >>= parse_as codec event) topics
    ∙ parse_as_foreign codec event topic foreign
