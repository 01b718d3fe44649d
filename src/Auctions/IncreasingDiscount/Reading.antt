-- ===== src/Auctions/IncreasingDiscount/Reading.antt =====
-- `IncreasingDiscountCollateralAuctionHouse` of `pyflex/auctions.py`: its auctions and events come back from their codes.
use pyflex.Base.{List, [], ◌∷◌, ◌≡◌, ap}
use pyflex.Base.Results.{ok, ◌>>=◌}
use pyflex.Numeric.Wad
use pyflex.Numeric.Rad
use pyflex.Numeric.Ray
use pyflex.Chain.{Abi, number, address, Contract}
use pyflex.Auctions.IncreasingDiscount.{Bid, bid_of, bids}

-- The values that the function `bids` of the contract answers, in the order of its ABI.
unfoldable pub abi_of : Bid → List Abi
abi_of bid =
    number bid.amount_to_sell.value
    ∷ number bid.amount_to_raise.value
    ∷ number bid.current_discount.value
    ∷ number bid.max_discount.value
    ∷ number bid.per_second_discount_update_rate.value
    ∷ number bid.latest_discount_update_time
    ∷ number bid.discount_increase_deadline
    ∷ address bid.forgone_collateral_receiver
    ∷ address bid.auction_income_recipient
    ∷ []

-- The auction that the contract answers is the one that `bids` returns.
pub bids_roundtrip :
    (contract : Contract) (bid : Bid)
    → contract "bids" (number bid.id ∷ []) ≡ ok (abi_of bid)
    → bids contract bid.id ≡ ok bid
unfolding bids abi_of Wad.new Rad.new Ray.new
bids_roundtrip contract bid answered = ap (λ answer. answer >>= bid_of bid.id) answered
