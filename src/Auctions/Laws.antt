-- ===== src/Auctions/Laws.antt =====
-- The six auction houses of `pyflex/auctions.py` together: reading an auction, an event and the
-- events of the last blocks.
use Prim.Native.String.{String}
use text.Mathlib.Text.{◌==◌ as same_text}
use pyflex.Base.{ℕ, false, List, [], ◌∷◌, Option, none, some, somes, map, All, ◌≡◌, refl, ap, ◌∙◌}
use pyflex.Base.Int.{ℤ}
use pyflex.Base.Results.{Result, ok, ◌>>=◌, traverse}
use pyflex.Chain.{Abi, number, Contract, Args, Log, Codec, first_block}
use pyflex.Auctions.House.{past_logs}
use pyflex.Auctions.English
use pyflex.Auctions.Surplus
use pyflex.Auctions.Debt
use pyflex.Auctions.FixedDiscount
use pyflex.Auctions.IncreasingDiscount
use pyflex.Auctions.StakedToken

pub data House : Type 0 where
  english surplus debt fixed_discount increasing_discount staked_token : House

-- The `Bid` of a house, its identifier, the values of the contract, and `bids`.
abbrev pub BidOf : House → Type 0
BidOf english = English.Bid
BidOf surplus = Surplus.Bid
BidOf debt = Debt.Bid
BidOf fixed_discount = FixedDiscount.Bid
BidOf increasing_discount = IncreasingDiscount.Bid
BidOf staked_token = StakedToken.Bid

abbrev pub id_of : (house : House) → BidOf house → ℤ
id_of english bid = bid.id
id_of surplus bid = bid.id
id_of debt bid = bid.id
id_of fixed_discount bid = bid.id
id_of increasing_discount bid = bid.id
id_of staked_token bid = bid.id

abbrev pub abi_of : (house : House) → BidOf house → List Abi
abi_of english = English.Reading.abi_of
abi_of surplus = Surplus.Reading.abi_of
abi_of debt = Debt.Reading.abi_of
abi_of fixed_discount = FixedDiscount.Reading.abi_of
abi_of increasing_discount = IncreasingDiscount.Reading.abi_of
abi_of staked_token = StakedToken.Reading.abi_of

abbrev pub bids : (house : House) → Contract → ℤ → Result (BidOf house)
bids english = English.bids
bids surplus = Surplus.bids
bids debt = Debt.bids
bids fixed_discount = FixedDiscount.bids
bids increasing_discount = IncreasingDiscount.bids
bids staked_token = StakedToken.bids

-- If the contract answers the values of an auction in the order of its ABI, then `bids` returns that
-- auction.
pub bids_roundtrip :
    (house : House) (contract : Contract) (bid : BidOf house)
    → contract "bids" (number (id_of house bid) ∷ []) ≡ ok (abi_of house bid)
    → bids house contract (id_of house bid) ≡ ok bid
bids_roundtrip english = English.Reading.bids_roundtrip
bids_roundtrip surplus = Surplus.Reading.bids_roundtrip
bids_roundtrip debt = Debt.Reading.bids_roundtrip
bids_roundtrip fixed_discount = FixedDiscount.Reading.bids_roundtrip
bids_roundtrip increasing_discount = IncreasingDiscount.Reading.bids_roundtrip
bids_roundtrip staked_token = StakedToken.Reading.bids_roundtrip

-- The events of a house. The client of the houses with an increasing discount has those of the other
-- discount.
abbrev pub EventOf : House → Type 0
EventOf english = English.Event
EventOf surplus = Surplus.Event
EventOf debt = Debt.Event
EventOf fixed_discount = FixedDiscount.Event
EventOf increasing_discount = FixedDiscount.Event
EventOf staked_token = StakedToken.Event

abbrev pub parse_event :
    (house : House) → {Raw : Type 0} → Codec Raw → Raw → Result (Option (EventOf house))
parse_event english = English.parse_event
parse_event surplus = Surplus.parse_event
parse_event debt = Debt.parse_event
parse_event fixed_discount = FixedDiscount.parse_event
parse_event increasing_discount = IncreasingDiscount.parse_event
parse_event staked_token = StakedToken.parse_event

abbrev pub signatures : House → List String
signatures english = English.Reading.signatures
signatures surplus = Surplus.Reading.signatures
signatures debt = Debt.Reading.signatures
signatures fixed_discount = FixedDiscount.Reading.signatures
signatures increasing_discount = FixedDiscount.Reading.signatures
signatures staked_token = StakedToken.Reading.signatures

abbrev pub topic_of : (house : House) → EventOf house → String
topic_of english = English.Reading.topic_of
topic_of surplus = Surplus.Reading.topic_of
topic_of debt = Debt.Reading.topic_of
topic_of fixed_discount = FixedDiscount.Reading.topic_of
topic_of increasing_discount = FixedDiscount.Reading.topic_of
topic_of staked_token = StakedToken.Reading.topic_of

abbrev pub name_of : (house : House) → EventOf house → String
name_of english = English.Reading.name_of
name_of surplus = Surplus.Reading.name_of
name_of debt = Debt.Reading.name_of
name_of fixed_discount = FixedDiscount.Reading.name_of
name_of increasing_discount = FixedDiscount.Reading.name_of
name_of staked_token = StakedToken.Reading.name_of

abbrev pub log_of : (house : House) → Args → EventOf house → Log
log_of english = English.Reading.log_of
log_of surplus = Surplus.Reading.log_of
log_of debt = Debt.Reading.log_of
log_of fixed_discount = FixedDiscount.Reading.log_of
log_of increasing_discount = FixedDiscount.Reading.log_of
log_of staked_token = StakedToken.Reading.log_of

-- The events that the client's log classes can hold. Those of an increasing discount leave out the
-- start of an auction, which that contract emits with other arguments and another topic.
abbrev IsUnread : FixedDiscount.Event → Type 0
IsUnread (FixedDiscount.start_auction_event log) = ⊥
IsUnread (FixedDiscount.buy_collateral_event log) = Unit
IsUnread (FixedDiscount.settle_auction_event log) = Unit

abbrev pub IsRead : (house : House) → Args → EventOf house → Type 0
IsRead english more e = Unit
IsRead surplus more e = Unit
IsRead debt more e = Debt.Reading.IsRead more e
IsRead fixed_discount more e = FixedDiscount.Reading.IsRead more e
IsRead increasing_discount more e = FixedDiscount.Reading.IsRead more e × IsUnread e
IsRead staked_token more e = StakedToken.Reading.IsRead more e

-- An event that the house's contract emits, with its topic first and its arguments as the ABI has them,
-- is the event that `parse_event` returns.
pub parse_event_roundtrip :
    {Raw : Type 0} (house : House) (codec : Codec Raw) (event : Raw) (indexed : List String)
    (more : Args) (e : EventOf house)
    → codec.topics event ≡ topic_of house e ∷ indexed
    → IsRead house more e
    → codec.get_event_data (name_of house e) event ≡ ok (log_of house more e)
    → parse_event house codec event ≡ ok (some e)
unfolding IncreasingDiscount.parse_event FixedDiscount.parse_event
parse_event_roundtrip english codec event indexed more e topics read =
    English.Reading.parse_event_roundtrip codec event indexed more e topics
parse_event_roundtrip surplus codec event indexed more e topics read =
    Surplus.Reading.parse_event_roundtrip codec event indexed more e topics
parse_event_roundtrip debt codec event indexed more e topics read =
    Debt.Reading.parse_event_roundtrip codec event indexed more e topics read
parse_event_roundtrip fixed_discount codec event indexed more e topics read =
    FixedDiscount.Reading.parse_event_roundtrip codec event indexed more e topics read
parse_event_roundtrip increasing_discount codec event indexed more e topics (read, told) =
    FixedDiscount.Reading.parse_event_roundtrip codec event indexed more e topics read
parse_event_roundtrip staked_token codec event indexed more e topics read =
    StakedToken.Reading.parse_event_roundtrip codec event indexed more e topics read

parse_event_foreign :
    {Raw : Type 0} (house : House) (codec : Codec Raw) (event : Raw) (indexed : List String)
    (topic : String)
    → All (λ s. same_text topic s ≡ false) (signatures house)
    → codec.topics event ≡ topic ∷ indexed
    → parse_event house codec event ≡ ok none
unfolding IncreasingDiscount.parse_event FixedDiscount.parse_event
parse_event_foreign english = English.Reading.parse_event_foreign
parse_event_foreign surplus = Surplus.Reading.parse_event_foreign
parse_event_foreign debt = Debt.Reading.parse_event_foreign
parse_event_foreign fixed_discount = FixedDiscount.Reading.parse_event_foreign
parse_event_foreign increasing_discount = FixedDiscount.Reading.parse_event_foreign
parse_event_foreign staked_token = StakedToken.Reading.parse_event_foreign

-- What the node has for an address: an event of the house, or one whose topic the client does not know.
pub data Emission {Raw : Type 0} (house : House) (codec : Codec Raw) : Type 0 where
  own :
      (event : Raw) (indexed : List String) (more : Args) (e : EventOf house)
      → codec.topics event ≡ topic_of house e ∷ indexed
      → IsRead house more e
      → codec.get_event_data (name_of house e) event ≡ ok (log_of house more e)
      → Emission house codec
  foreign :
      (event : Raw) (indexed : List String) (topic : String)
      → All (λ s. same_text topic s ≡ false) (signatures house)
      → codec.topics event ≡ topic ∷ indexed
      → Emission house codec

module _ {Raw : Type 0} (house : House) (codec : Codec Raw) where
  abbrev pub raw : Emission house codec → Raw
  raw (own event indexed more e topics read decoded) = event
  raw (foreign event indexed topic unknown topics) = event

  abbrev pub emitted : Emission house codec → Option (EventOf house)
  emitted (own event indexed more e topics read decoded) = some e
  emitted (foreign event indexed topic unknown topics) = none

  parse_event-raw :
      (emission : Emission house codec)
      → parse_event house codec (raw emission) ≡ ok (emitted emission)
  parse_event-raw (own event indexed more e topics read decoded) =
      parse_event_roundtrip house codec event indexed more e topics read decoded
  parse_event-raw (foreign event indexed topic unknown topics) =
      parse_event_foreign house codec event indexed topic unknown topics

  traverse-raw :
      (emissions : List (Emission house codec))
      → traverse (parse_event house codec) (map raw emissions) ≡ ok (map emitted emissions)
  traverse-raw [] = refl
  traverse-raw (emission ∷ emissions) =
      ap
        (λ a.
          a >>= λ e. traverse (parse_event house codec) (map raw emissions) >>= λ es. ok (e ∷ es))
        (parse_event-raw emission)
      ∙ ap (λ a. a >>= λ es. ok (emitted emission ∷ es)) (traverse-raw emissions)

  -- If the node has these events for the last blocks, then `past_logs` returns the house's own, in
  -- their order.
  pub past_logs_lem :
      (get_logs : ℕ → ℕ → Result (List Raw)) (block_number : ℕ) (number_of_past_blocks : ℤ)
      (emissions : List (Emission house codec))
      → get_logs (first_block block_number number_of_past_blocks) block_number
        ≡ ok (map raw emissions)
      → past_logs (parse_event house codec) get_logs block_number number_of_past_blocks
        ≡ ok (somes (map emitted emissions))
  unfolding past_logs
  past_logs_lem get_logs block_number number_of_past_blocks emissions answered =
      ap
        (λ a. a >>= λ logs. traverse (parse_event house codec) logs >>= λ events. ok (somes events))
        answered
      ∙ ap (λ a. a >>= λ events. ok (somes events)) (traverse-raw emissions)
