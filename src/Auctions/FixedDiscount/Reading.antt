-- ===== src/Auctions/FixedDiscount/Reading.antt =====
-- `FixedDiscountCollateralAuctionHouse` of `pyflex/auctions.py`: its auctions and events come back from their codes.
use Prim.Native.String.{String}
use text.Mathlib.Text.{◌==◌ as same_text}
use pyflex.Base.{All, none, false, List, [], ◌∷◌, ◌++◌, some, ◌≡◌, sym, ap, ◌∙◌}
use pyflex.Base.Results.{ok, ◌>>=◌, map_result}
use pyflex.Numeric.Wad
use pyflex.Numeric.Rad
use pyflex.Numeric.Ray
use pyflex.Chain.{Abi, number, address, Contract, Args, Log, Codec, first_topic}
use pyflex.Auctions.FixedDiscount.{
  Bid, bid_of, bids, Event, start_auction_event, buy_collateral_event, settle_auction_event,
  start_auction_event_log, buy_collateral_event_log, settle_auction_event_log, parse_event,
  parse_as,
}

-- The values that the function `bids` of the contract answers, in the order of its ABI.
unfoldable pub abi_of : Bid → List Abi
abi_of bid =
    number bid.raised_amount.value
    ∷ number bid.sold_amount.value
    ∷ number bid.amount_to_sell.value
    ∷ number bid.amount_to_raise.value
    ∷ number bid.auction_deadline
    ∷ address bid.forgone_collateral_receiver
    ∷ address bid.auction_income_recipient
    ∷ []

-- The auction that the contract answers is the one that `bids` returns.
pub bids_roundtrip :
    (contract : Contract) (bid : Bid)
    → contract "bids" (number bid.id ∷ []) ≡ ok (abi_of bid)
    → bids contract bid.id ≡ ok bid
unfolding bids abi_of Wad.new Rad.new Ray.new
bids_roundtrip contract bid answered = ap (λ answer. answer >>= bid_of bid.id) answered

-- What the contract emits: the topic of an event, its name, and its arguments as the ABI has them.
unfoldable pub topic_of : Event → String
topic_of (start_auction_event log) =
    "0xdf7b5cd0ee6547c7389d2ac00ee0c1cd3439542399d6c8c520cc69c7409c0990"
topic_of (buy_collateral_event log) =
    "0xa4a1133e32fac37643a1fe1db4631daadb462c8662ae16004e67f0b8bb608383"
topic_of (settle_auction_event log) =
    "0xef063949eb6ef5abef19139d9c75a558424ffa759302cfe445f8d2d327376fe4"

unfoldable pub name_of : Event → String
name_of (start_auction_event log) = "StartAuction"
name_of (buy_collateral_event log) = "BuyCollateral"
name_of (settle_auction_event log) = "SettleAuction"

unfoldable args_of : Event → Args
args_of (start_auction_event log) =
    ("id", log.id)
    ∷ ("auctionsStarted", number log.auctions_started)
    ∷ ("amountToSell", number log.amount_to_sell.value)
    ∷ ("initialBid", number log.initial_bid.value)
    ∷ ("amountToRaise", number log.amount_to_raise.value)
    ∷ ("forgoneCollateralReceiver", address log.forgone_collateral_receiver)
    ∷ ("auctionIncomeRecipient", address log.auction_income_recipient)
    ∷ ("auctionDeadline", number log.auction_deadline)
    ∷ []
args_of (buy_collateral_event log) =
    ("id", log.id)
    ∷ ("wad", number log.wad_amount.value)
    ∷ ("boughtCollateral", number log.bought_collateral.value)
    ∷ []
args_of (settle_auction_event log) =
    ("id", log.id) ∷ ("leftoverCollateral", number log.leftover_collateral.value) ∷ []

-- The event as web3 decodes it, with arguments that the client does not read behind the others.
unfoldable pub log_of : Args → Event → Log
unfolding args_of
log_of more (start_auction_event log) = record {
  args = args_of (start_auction_event log) ++ more;
  block_number = log.block;
  transaction_hash = log.tx_hash;
}
log_of more (buy_collateral_event log) = record {
  args = args_of (buy_collateral_event log) ++ more;
  block_number = log.block;
  transaction_hash = log.tx_hash;
}
log_of more (settle_auction_event log) = record {
  args = args_of (settle_auction_event log) ++ more;
  block_number = log.block;
  transaction_hash = log.tx_hash;
}

-- An event whose log can be one of the client's: the log keeps the event as it was decoded.
unfoldable pub IsRead : Args → Event → Type 0
unfolding log_of
IsRead more (start_auction_event log) = Unit
IsRead more (buy_collateral_event log) = log.raw ≡ log_of more (buy_collateral_event log)
IsRead more (settle_auction_event log) = log.raw ≡ log_of more (settle_auction_event log)

-- The decoded event becomes the log of its class.
parse_as_lem :
    {Raw : Type 0} (codec : Codec Raw) (event : Raw) (more : Args) (e : Event)
    (read : IsRead more e)
    → codec.get_event_data (name_of e) event ≡ ok (log_of more e)
    → parse_as codec event (topic_of e) ≡ ok (some e)
unfolding parse_as topic_of name_of log_of IsRead Wad.new Rad.new Ray.new
parse_as_lem codec event more (start_auction_event log) read decoded =
    ap
      (λ answer.
        map_result (λ log. some (start_auction_event log)) (answer >>= start_auction_event_log))
      decoded
parse_as_lem codec event more (buy_collateral_event log) read decoded =
    ap
      (λ answer.
        map_result (λ log. some (buy_collateral_event log)) (answer >>= buy_collateral_event_log))
      decoded
    ∙ ap
        (λ v. ok (
          some (
            buy_collateral_event (record {
              id = log.id;
              wad_amount = log.wad_amount;
              bought_collateral = log.bought_collateral;
              block = log.block;
              tx_hash = log.tx_hash;
              raw = v;
            }))))
        (sym read)
parse_as_lem codec event more (settle_auction_event log) read decoded =
    ap
      (λ answer.
        map_result (λ log. some (settle_auction_event log)) (answer >>= settle_auction_event_log))
      decoded
    ∙ ap
        (λ v. ok (
          some (
            settle_auction_event (record {
              id = log.id;
              leftover_collateral = log.leftover_collateral;
              block = log.block;
              tx_hash = log.tx_hash;
              raw = v;
            }))))
        (sym read)

-- An event that the contract emits, with its topic first and its arguments as the ABI has them, is
-- the event that `parse_event` returns.
pub parse_event_roundtrip :
    {Raw : Type 0} (codec : Codec Raw) (event : Raw) (indexed : List String) (more : Args)
    (e : Event)
    → codec.topics event ≡ topic_of e ∷ indexed
    → IsRead more e
    → codec.get_event_data (name_of e) event ≡ ok (log_of more e)
    → parse_event codec event ≡ ok (some e)
unfolding parse_event
parse_event_roundtrip codec event indexed more e topics read decoded =
    ap (λ ts. first_topic ts >>= parse_as codec event) topics
    ∙ parse_as_lem codec event more e read decoded

-- The topics that the client knows.
abbrev pub signatures : List String
signatures =
    "0xdf7b5cd0ee6547c7389d2ac00ee0c1cd3439542399d6c8c520cc69c7409c0990"
    ∷ "0xa4a1133e32fac37643a1fe1db4631daadb462c8662ae16004e67f0b8bb608383"
    ∷ "0xef063949eb6ef5abef19139d9c75a558424ffa759302cfe445f8d2d327376fe4" ∷ []

parse_as_foreign :
    {Raw : Type 0} (codec : Codec Raw) (event : Raw) (topic : String)
    → All (λ s. same_text topic s ≡ false) signatures
    → parse_as codec event topic ≡ ok none
unfolding parse_as
parse_as_foreign codec event topic (h0, (h1, (h2, h))) = simp (h0, h1, h2)

-- An event with another topic is not the house's.
pub parse_event_foreign :
    {Raw : Type 0} (codec : Codec Raw) (event : Raw) (indexed : List String) (topic : String)
    → All (λ s. same_text topic s ≡ false) signatures
    → codec.topics event ≡ topic ∷ indexed
    → parse_event codec event ≡ ok none
unfolding parse_event
parse_event_foreign codec event indexed topic foreign topics =
    ap (λ ts. first_topic ts >>= parse_as codec event) topics
    ∙ parse_as_foreign codec event topic foreign
