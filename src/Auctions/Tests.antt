-- ===== src/Auctions/Tests.antt =====
-- `pyflex/auctions.py`: houses, auctions and events that the theorems are tried on.
use Prim.Native.String.{String}
use pyflex.Base.{ℕ, if◌then◌else◌, List, [], ◌∷◌, some, ◌≡◌, refl, arith, ◌==◌}
use pyflex.Base.Int.{ℤ, pos, negsuc}
use pyflex.Base.Results.{Result, ok, err, value_error}
use pyflex.Numeric.Amount.{amount}
use pyflex.Chain.{number, address, octets, words, numbers, addresses, flag, Contract, Codec, Log}
use pyflex.Auctions.House.{active_auctions, active_test, past_logs}
use pyflex.Auctions.Active.{active_auctions_raises}
use pyflex.Auctions.Open.{active_auctions-IsOpen, active-IsForSale, HasExactly, IsOpen, IsForSale}
use pyflex.Auctions.English
use pyflex.Auctions.FixedDiscount
use pyflex.Auctions.Laws.{
  english, fixed_discount, abi_of, bids_roundtrip, Emission, own, foreign, past_logs_lem,
  parse_event_roundtrip, log_of,
}
use pyflex.Auctions.Laws

abbrev english_bid : ℕ → English.Bid
english_bid id = record {
  id = pos id;
  bid_amount = amount (pos 500);
  amount_to_sell = amount (pos 7);
  high_bidder = id;
  bid_expiry = pos 40;
  auction_deadline = pos 90;
  forgone_collateral_receiver = 8;
  auction_income_recipient = 9;
  amount_to_raise = amount (pos 900);
}

abbrev discount_bid : ℕ → FixedDiscount.Bid
discount_bid id = record {
  id = pos id;
  raised_amount = amount (pos 20);
  sold_amount = amount (pos 1);
  amount_to_sell = amount (pos 6);
  amount_to_raise = amount (pos 800);
  auction_deadline = pos 90;
  forgone_collateral_receiver = 8;
  auction_income_recipient = 9;
}

-- Contracts that have an auction for every identifier and have started three and two.
abbrev english_house : Contract
english_house function [] = ok (number (pos 3) ∷ [])
english_house function (number (pos id) ∷ others) = ok (abi_of english (english_bid id))
english_house function (number (negsuc id) ∷ others) = err value_error
english_house function (address a ∷ others) = err value_error
english_house function (octets b ∷ others) = err value_error
english_house function (words t ∷ others) = err value_error
english_house function (numbers ns ∷ others) = err value_error
english_house function (addresses accounts ∷ others) = err value_error
english_house function (flag b ∷ others) = err value_error

abbrev discount_house : Contract
discount_house function [] = ok (number (pos 2) ∷ [])
discount_house function (number (pos id) ∷ others) = ok (abi_of fixed_discount (discount_bid id))
discount_house function (number (negsuc id) ∷ others) = err value_error
discount_house function (address a ∷ others) = err value_error
discount_house function (octets b ∷ others) = err value_error
discount_house function (words t ∷ others) = err value_error
discount_house function (numbers ns ∷ others) = err value_error
discount_house function (addresses accounts ∷ others) = err value_error
discount_house function (flag b ∷ others) = err value_error

bids_roundtrip_example : Laws.bids english english_house (pos 2) ≡ ok (english_bid 2)
unfolding English.Reading.abi_of
bids_roundtrip_example = bids_roundtrip english english_house (english_bid 2) refl

active_auctions-IsOpen_example :
    (listed : List English.Bid) × (active_auctions
        (active_test (λ index. 50000000) English.auction)
        (English.bids english_house)
        (ok (pos 3))
      ≡ ok listed)
    × HasExactly
        (English.bids english_house)
        (λ index bid. IsOpen 50000000 (English.auction bid))
        3
        listed
active_auctions-IsOpen_example =
    active_auctions-IsOpen English.auction (λ index. 50000000) (English.bids english_house) 3
      english_bid
      (λ index low high. English.Reading.bids_roundtrip english_house (english_bid index) refl)

active-IsForSale_example :
    (listed : List FixedDiscount.Bid) × (FixedDiscount.active discount_house ≡ ok listed)
    × HasExactly (FixedDiscount.bids discount_house) (λ index bid. IsForSale bid) 2 listed
active-IsForSale_example = active-IsForSale discount_house 2 discount_bid refl (λ index low high.
    FixedDiscount.Reading.bids_roundtrip discount_house (discount_bid index) refl)

-- A node whose third auction cannot be read.
abbrev failing_bids : ℤ → Result English.Bid
failing_bids (pos id) = if id == 3 then err value_error else ok (english_bid id)
failing_bids (negsuc id) = err value_error

active_auctions_raises_example :
    active_auctions (active_test (λ index. 50000000) English.auction) failing_bids (ok (pos 5))
    ≡ err value_error
active_auctions_raises_example =
    active_auctions_raises (active_test (λ index. 50000000) English.auction) failing_bids
      english_bid value_error 2 2 (λ index low high. ground arith) refl

-- Events as their topics and what web3 decodes them to.
abbrev events : Codec (List String × Log)
events = record { topics = λ event. event.0; get_event_data = λ name event. ok event.1 }

abbrev sale_log : Log
sale_log = record {
  args =
      ("id", number (pos 4))
      ∷ ("wad", number (pos 50))
      ∷ ("boughtCollateral", number (pos 60))
      ∷ [];
  block_number = 100;
  transaction_hash = "0xab";
}

abbrev sale : FixedDiscount.Event
sale = FixedDiscount.buy_collateral_event (record {
  id = number (pos 4);
  wad_amount = amount (pos 50);
  bought_collateral = amount (pos 60);
  block = 100;
  tx_hash = "0xab";
  raw = sale_log;
})

abbrev sale_event : List String × Log
sale_event = ("0xa4a1133e32fac37643a1fe1db4631daadb462c8662ae16004e67f0b8bb608383" ∷ [], sale_log)

parse_event_roundtrip_example : Laws.parse_event fixed_discount events sale_event ≡ ok (some sale)
unfolding FixedDiscount.Reading.topic_of FixedDiscount.Reading.IsRead FixedDiscount.Reading.log_of
    FixedDiscount.Reading.name_of
parse_event_roundtrip_example =
    parse_event_roundtrip fixed_discount events sale_event [] [] sale refl refl refl

abbrev other_event : List String × Log
other_event = ("0x00" ∷ [], sale_log)

unfoldable own_sale : Emission fixed_discount events
unfolding FixedDiscount.Reading.topic_of FixedDiscount.Reading.IsRead FixedDiscount.Reading.log_of
    FixedDiscount.Reading.name_of
own_sale = own sale_event [] [] sale refl refl refl

abbrev emissions : List (Emission fixed_discount events)
emissions = foreign other_event [] "0x00" (refl, (refl, (refl, tt))) refl ∷ own_sale ∷ []

past_logs_lem_example :
    past_logs
      (Laws.parse_event fixed_discount events)
      (λ from to. ok (other_event ∷ sale_event ∷ []))
      1000
      (pos 50)
    ≡ ok (sale ∷ [])
unfolding own_sale
past_logs_lem_example =
    past_logs_lem fixed_discount events (λ from to. ok (other_event ∷ sale_event ∷ [])) 1000
      (pos 50) emissions refl
