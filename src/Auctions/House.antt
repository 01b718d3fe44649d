-- ===== src/Auctions/House.antt =====
-- `AuctionContract` of `pyflex/auctions.py`: what the six auction houses share.
use pyflex.Base.{
  ℕ, zero, suc, ◌*◌, ◌^◌, Bool, not, ◌&&◌, ◌||◌, ltb, ◌==◌, if◌then◌else◌, List, [], ◌∷◌, Option,
  somes,
}
use pyflex.Base.Int.{ℤ, pos, pos_part, eqb_ℤ}
use pyflex.Base.Results.{Result, ok, ◌>>=◌, traverse}
use pyflex.Chain.{Contract, Call, number, read_int, read_address, zero_address, first_block}

unfoldable pub safe_engine : Contract → Result ℕ
unfolding read_address
safe_engine contract = read_address contract "safeEngine" []

-- The total auction length in seconds.
unfoldable pub total_auction_length : Contract → Result ℤ
unfolding read_int
total_auction_length contract = read_int contract "totalAuctionLength" []

unfoldable pub auctions_started : Contract → Result ℤ
unfolding read_int
auctions_started contract = read_int contract "auctionsStarted" []

-- `approve`: the approval function is called with the token at `source` and the auction house as
-- its spender.
unfoldable pub approve : {R : Type 0} → (ℕ → ℕ → R) → ℕ → ℕ → R
approve approval_function self source = approval_function source self

unfoldable pub settle_auction : ℕ → ℤ → Call
settle_auction self id = record {
  contract = self;
  function = "settleAuction";
  arguments = number id ∷ [];
}

-- The events of the last blocks that the house knows. `get_logs` is the node's answer for the
-- house's address and a range of blocks.
unfoldable pub past_logs :
    {Raw Event : Type 0}
    → (parse_event : Raw → Result (Option Event)) → (get_logs : ℕ → ℕ → Result (List Raw))
    → (block_number : ℕ) → (number_of_past_blocks : ℤ) → Result (List Event)
unfolding first_block
past_logs parse_event get_logs block_number number_of_past_blocks = do
  logs ← get_logs (first_block block_number number_of_past_blocks) block_number
  events ← traverse parse_event logs
  ok (somes events)

-- The bids of the auctions from `index` on that pass a test, which may look at a clock.
unfoldable pub active_from :
    {Bid : Type 0} → (ℕ → Bid → Bool) → (ℤ → Result Bid) → (remaining index : ℕ) → Result (List Bid)
active_from test bids zero index = ok []
active_from test bids (suc remaining) index = do
  bid ← bids (pos index)
  active_auctions ← active_from test bids remaining (suc index)
  ok (if test index bid then bid ∷ active_auctions else active_auctions)

-- The loop over `range(1, auction_count + 1)`, which is empty for a count below 1.
unfoldable pub active_auctions :
    {Bid : Type 0} → (ℕ → Bid → Bool) → (ℤ → Result Bid) → Result ℤ → Result (List Bid)
unfolding active_from
active_auctions test bids auction_count =
    auction_count >>= λ count. active_from test bids (pos_part count) 1

-- The fields of a bid that the loop looks at.
pub record Auction : Type 0 where
  pub high_bidder : ℕ
  pub bid_expiry : ℤ
  pub auction_deadline : ℤ

-- `now < t` for `datetime.now().timestamp()`, a time in microseconds, and a time in seconds.
unfoldable pub before : ℕ → ℤ → Bool
before now t = ltb now (pos_part t * 10 ^ 6)

unfoldable pub is_active : ℕ → Auction → Bool
unfolding before
is_active now bid =
    not (bid.high_bidder == zero_address)
    && ((eqb_ℤ bid.bid_expiry (pos 0) || before now bid.bid_expiry)
        && before now bid.auction_deadline)

-- The test of the loop, where `clock` gives the time at which an auction is looked at.
unfoldable pub active_test : {Bid : Type 0} → (ℕ → ℕ) → (Bid → Auction) → ℕ → Bid → Bool
unfolding is_active
active_test clock auction index bid = is_active (clock index) (auction bid)
