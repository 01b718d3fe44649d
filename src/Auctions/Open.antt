-- ===== src/Auctions/Open.antt =====
-- The active auctions of the houses of `pyflex/auctions.py`: those that are still open for bids, and
-- for the houses with a discount those that have collateral and a debt left.
use pyflex.Base.{
  ℕ, zero, suc, ◌*◌, ◌^◌, ◌<◌, ◌≤◌, ◌+◌, Bool, true, ◌&&◌, List, [], ◌∷◌, All, Any, All-imp, ◌≡◌,
  ◌≢◌, ◌⊎◌, refl, ap, ◌∙◌, arith,
}
use pyflex.Base.Int.{ℤ, pos, negsuc, pos_part, ltb_ℤ}
use pyflex.Base.Results.{Result, ok, ◌>>=◌}
use pyflex.Chain.{Contract, number, at, int_of}
use pyflex.Auctions.House.{Auction, is_active, active_test, active_auctions}
use pyflex.Auctions.Active.{IsListed, IsExact, active_auctions-IsExact}
use pyflex.Auctions.FixedDiscount

-- An auction with a bidder, whose last bid has no end or has not ended, before its deadline. The
-- time is in microseconds, those of the auction are in seconds.
abbrev pub IsOpen : ℕ → Auction → Type 0
IsOpen now bid =
    (bid.high_bidder ≢ 0)
    × ((bid.bid_expiry ≡ pos 0) ⊎ (now < pos_part bid.bid_expiry * 10 ^ 6))
    × (now < pos_part bid.auction_deadline * 10 ^ 6)

is_active-IsOpen : (now : ℕ) (bid : Auction) → is_active now bid ≡ true → IsOpen now bid
unfolding is_active
is_active-IsOpen now bid h = ground arith

IsOpen-is_active : (now : ℕ) (bid : Auction) → IsOpen now bid → is_active now bid ≡ true
unfolding is_active
IsOpen-is_active now bid h = ground arith

-- A bid that the contract has for one of the numbers from 1 to `count` and of which `P` holds.
abbrev pub IsAmong : {Bid : Type 0} → (ℤ → Result Bid) → (ℕ → Bid → Type 0) → ℕ → Bid → Type 0
IsAmong bids P count bid =
    (index : ℕ) × (1 ≤ index) × (index ≤ count) × (bids (pos index) ≡ ok bid) × P index bid

-- The list has the bids of which `P` holds, and no other.
abbrev pub HasExactly :
    {Bid : Type 0} → (ℤ → Result Bid) → (ℕ → Bid → Type 0) → ℕ → List Bid → Type 0
HasExactly {Bid} bids P count listed =
    All (IsAmong bids P count) listed
    × ((bid : Bid) → IsAmong bids P count bid → Any (λ b. b ≡ bid) listed)

module _ {Bid : Type 0} (test : ℕ → Bid → Bool) (bids : ℤ → Result Bid) (P : ℕ → Bid → Type 0)
    (test-P : (index : ℕ) (bid : Bid) → test index bid ≡ true → P index bid)
    (P-test : (index : ℕ) (bid : Bid) → P index bid → test index bid ≡ true) where
  listed-IsAmong :
      (count : ℕ) (bid : Bid) → IsListed test bids 1 (1 + count) bid → IsAmong bids P count bid
  listed-IsAmong count bid (index, low, high, answer, passed) =
      (index, low, omega (arith, high), answer, test-P index bid passed)

  IsExact-HasExactly :
      (count : ℕ) (listed : List Bid)
      → IsExact test bids 1 (1 + count) listed
      → HasExactly bids P count listed
  IsExact-HasExactly count listed (sound, complete) = (
    All-imp (listed-IsAmong count) listed sound,
    λ bid (index, low, high, answer, holds).
        complete bid (index, low, omega (arith, high), answer, P-test index bid holds),
  )

  active_auctions-HasExactly :
      (count : ℕ) (bid : ℕ → Bid)
      → ((index : ℕ) → 1 ≤ index → index ≤ count → bids (pos index) ≡ ok (bid index))
      → (listed : List Bid) × (active_auctions test bids (ok (pos count)) ≡ ok listed)
        × HasExactly bids P count listed
  active_auctions-HasExactly count bid answers =
      let (listed, ends, exact) = active_auctions-IsExact test bids count bid answers in
      (listed, ends, IsExact-HasExactly count listed exact)

-- The loop of the base class. If the contract has every auction that it has started, then the loop
-- returns those that are open when it looks at them, and no others.
pub active_auctions-IsOpen :
    {Bid : Type 0} (auction : Bid → Auction) (clock : ℕ → ℕ) (bids : ℤ → Result Bid) (count : ℕ)
    (bid : ℕ → Bid)
    → ((index : ℕ) → 1 ≤ index → index ≤ count → bids (pos index) ≡ ok (bid index))
    → (listed : List Bid) × (active_auctions (active_test clock auction) bids (ok (pos count))
        ≡ ok listed)
      × HasExactly bids (λ index b. IsOpen (clock index) (auction b)) count listed
unfolding active_test
active_auctions-IsOpen auction clock bids count bid answers =
    active_auctions-HasExactly (active_test clock auction) bids
      (λ index b. IsOpen (clock index) (auction b))
      (λ index b. is_active-IsOpen (clock index) (auction b))
      (λ index b. IsOpen-is_active (clock index) (auction b)) count bid answers

-- Collateral and a debt are left.
abbrev pub IsForSale : FixedDiscount.Bid → Type 0
IsForSale bid =
    ((n : ℕ) × bid.amount_to_sell.value ≡ pos (suc n))
    × ((n : ℕ) × bid.amount_to_raise.value ≡ pos (suc n))

positive : (v : ℤ) → ltb_ℤ (pos 0) v ≡ true → (n : ℕ) × v ≡ pos (suc n)
positive (pos zero) h = ground arith
positive (pos (suc n)) h = (n, refl)
positive (negsuc n) h = ground arith

for_sale-IsForSale :
    (index : ℕ) (bid : FixedDiscount.Bid) → FixedDiscount.for_sale index bid ≡ true → IsForSale bid
unfolding FixedDiscount.for_sale
for_sale-IsForSale index bid h = (
  positive bid.amount_to_sell.value (ground arith),
  positive bid.amount_to_raise.value (ground arith),
)

IsForSale-for_sale :
    (index : ℕ) (bid : FixedDiscount.Bid) → IsForSale bid → FixedDiscount.for_sale index bid ≡ true
unfolding FixedDiscount.for_sale
IsForSale-for_sale index bid ((m, sell), (n, raise)) =
    ap (λ v. ltb_ℤ (pos 0) v && ltb_ℤ (pos 0) bid.amount_to_raise.value) sell
    ∙ ap (λ v. ltb_ℤ (pos 0) (pos (suc m)) && ltb_ℤ (pos 0) v) raise
    ∙ ground arith

-- The loop of a house with a fixed discount. If the contract has every auction that it has started,
-- then the loop returns those with collateral and a debt left, and no others.
pub active-IsForSale :
    (contract : Contract) (count : ℕ) (bid : ℕ → FixedDiscount.Bid)
    → contract "auctionsStarted" [] ≡ ok (number (pos count) ∷ [])
    → ((index : ℕ)
        → 1 ≤ index
        → index ≤ count
        → FixedDiscount.bids contract (pos index) ≡ ok (bid index))
    → (listed : List FixedDiscount.Bid) × (FixedDiscount.active contract ≡ ok listed)
      × HasExactly (FixedDiscount.bids contract) (λ index b. IsForSale b) count listed
unfolding FixedDiscount.active
active-IsForSale contract count bid started answers =
    let (listed, ends, exact) =
      active_auctions-HasExactly FixedDiscount.for_sale (FixedDiscount.bids contract)
        (λ index b. IsForSale b) for_sale-IsForSale IsForSale-for_sale count bid answers in
    (
      listed,
      ap
            (λ a.
              active_auctions FixedDiscount.for_sale (FixedDiscount.bids contract)
                (a >>= at 0 >>= int_of))
            started
          ∙ ends,
      exact,
    )
