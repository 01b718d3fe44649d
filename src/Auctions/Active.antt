-- ===== src/Auctions/Active.antt =====
-- `AuctionContract.active_auctions` of `pyflex/auctions.py`, and the loops of the two houses with a
-- discount: what the loop over the auctions' numbers returns.
use pyflex.Base.{
  ℕ, zero, suc, ◌+◌, ◌≤◌, ◌<◌, Bool, true, false, if◌then◌else◌, List, [], ◌∷◌, All, Any, All-imp,
  ◌≡◌, refl, sym, ap, ◌∙◌, ◌⊎◌, inl, inr, subst, arith,
}
use pyflex.Base.Int.{ℤ, pos}
use pyflex.Base.Results.{Error, Result, ok, err, ◌>>=◌, ok_inj}
use pyflex.Auctions.House.{active_from, active_auctions}

le_cases : (a b : ℕ) → a ≤ b → (a ≡ b) ⊎ (suc a ≤ b)
le_cases a b h = omega arith

module _ {Bid : Type 0} (test : ℕ → Bid → Bool) (bids : ℤ → Result Bid) where
  -- A bid that is the answer for one of the numbers and passes the test.
  abbrev pub IsListed : (first after : ℕ) → Bid → Type 0
  IsListed first after bid =
      (index : ℕ) × (first ≤ index)
      × (index < after)
      × (bids (pos index) ≡ ok bid)
      × (test index bid ≡ true)

  -- Exactly the auctions that pass the test.
  abbrev pub IsExact : (first after : ℕ) → List Bid → Type 0
  IsExact first after listed =
      All (IsListed first after) listed
      × ((bid : Bid) → IsListed first after bid → Any (λ b. b ≡ bid) listed)

  -- A listed number is the first one or one of those behind it.
  first_or_later :
      (first after : ℕ) (bid b : Bid)
      → bids (pos first) ≡ ok bid
      → IsListed first after b
      → ((b ≡ bid) × (test first bid ≡ true)) ⊎ IsListed (suc first) after b
  first_or_later first after bid b answer (index, low, high, answer', passed) =
      elim (le_cases first index low) [
        | inl same ↦ inl (
          ok_inj (sym answer' ∙ ap (λ n. bids (pos n)) (sym same) ∙ answer),
          ap (λ n. test n bid) same
              ∙ ap (test index) (ok_inj (sym answer ∙ ap (λ n. bids (pos n)) same ∙ answer'))
              ∙ passed,
        )
        | inr less ↦ inr (index, less, high, answer', passed)
      ]

  later-IsListed :
      (first after : ℕ) (b : Bid) → IsListed (suc first) after b → IsListed first after b
  later-IsListed first after b (index, low, high, answer, passed) =
      (index, omega (arith, low), high, answer, passed)

  -- One auction in front of those behind it.
  front-IsExact :
      (first after : ℕ) (bid : Bid) (listed : List Bid) (b : Bool)
      → first < after
      → bids (pos first) ≡ ok bid
      → test first bid ≡ b
      → IsExact (suc first) after listed
      → IsExact first after (if b then bid ∷ listed else listed)
  front-IsExact first after bid listed true less answer passed (sound, complete) = (
    ((first, omega arith, less, answer, passed), All-imp (later-IsListed first after) listed sound),
    λ b l. elim (first_or_later first after bid b answer l) [
      | inl same ↦ inl (sym same.0)
      | inr later ↦ inr (complete b later)
    ],
  )
  front-IsExact first after bid listed false less answer failed (sound, complete) = (
    All-imp (later-IsListed first after) listed sound,
    λ b l. elim (first_or_later first after bid b answer l) [
      | inl same ↦ cc
      | inr later ↦ complete b later
    ],
  )

  -- If every number is answered, then the loop returns the bids that pass the test.
  active_from-IsExact :
      (bid : ℕ → Bid) (remaining first : ℕ)
      → ((index : ℕ)
          → first ≤ index
          → index < first + remaining
          → bids (pos index) ≡ ok (bid index))
      → (listed : List Bid) × (active_from test bids remaining first ≡ ok listed)
        × IsExact first (first + remaining) listed
  unfolding active_from
  active_from-IsExact bid zero first answers =
      ([], refl, (tt, λ b (index, low, high, answer, passed). omega (arith, low, high)))
  active_from-IsExact bid (suc remaining) first answers =
      let (listed, ends, exact) =
        active_from-IsExact bid remaining (suc first)
          (λ index low high. answers index (omega arith) (omega arith)) in
      let answer = answers first (omega arith) (omega arith) in
      (
        if test first (bid first) then bid first ∷ listed else listed,
        ap
              (λ a. a >>= λ b. active_from test bids remaining (suc first) >>= λ bs.
                ok (if test first b then b ∷ bs else bs))
              answer
            ∙ ap (λ a. a >>= λ bs. ok (if test first (bid first) then bid first ∷ bs else bs)) ends,
        front-IsExact first (first + suc remaining) (bid first) listed (test first (bid first))
            (omega arith) answer refl
            (subst (λ n. IsExact (suc first) n listed) (omega arith) exact),
      )

  -- If the number of auctions and every auction is answered, then the loop returns the bids that
  -- pass the test.
  pub active_auctions-IsExact :
      (count : ℕ) (bid : ℕ → Bid)
      → ((index : ℕ) → 1 ≤ index → index ≤ count → bids (pos index) ≡ ok (bid index))
      → (listed : List Bid) × (active_auctions test bids (ok (pos count)) ≡ ok listed)
        × IsExact 1 (1 + count) listed
  unfolding active_auctions
  active_auctions-IsExact count bid answers =
      active_from-IsExact bid count 1 (λ index low high. answers index low (omega arith))

  -- The first auction that is not answered ends the loop with its exception.
  active_from_raises :
      (bid : ℕ → Bid) (raised : Error) (answered more first : ℕ)
      → ((index : ℕ) → first ≤ index → index < first + answered → bids (pos index) ≡ ok (bid index))
      → bids (pos (first + answered)) ≡ err raised
      → active_from test bids (suc (answered + more)) first ≡ err raised
  unfolding active_from
  active_from_raises bid raised zero more first answers fails =
      ap
        (λ a. a >>= λ b. active_from test bids (0 + more) (suc first) >>= λ bs.
          ok (if test first b then b ∷ bs else bs))
        (ap (λ n. bids (pos n)) (omega arith) ∙ fails)
  active_from_raises bid raised (suc answered) more first answers fails =
      ap
        (λ a. a >>= λ b. active_from test bids (suc answered + more) (suc first) >>= λ bs.
          ok (if test first b then b ∷ bs else bs))
        (answers first (omega arith) (omega arith))
      ∙ ap (λ a. a >>= λ bs. ok (if test first (bid first) then bid first ∷ bs else bs))
          (ap (λ n. active_from test bids n (suc first)) {y = suc (answered + more)} (omega arith)
            ∙ active_from_raises bid raised answered more (suc first)
                (λ index low high. answers index (omega arith) (omega arith))
                (ap (λ n. bids (pos n)) (omega arith) ∙ fails))

  -- If an auction among those started is not answered, and those with lower numbers are, then the
  -- loop raises that exception.
  pub active_auctions_raises :
      (bid : ℕ → Bid) (raised : Error) (answered more : ℕ)
      → ((index : ℕ) → 1 ≤ index → index < 1 + answered → bids (pos index) ≡ ok (bid index))
      → bids (pos (1 + answered)) ≡ err raised
      → active_auctions test bids (ok (pos (suc (answered + more)))) ≡ err raised
  unfolding active_auctions
  active_auctions_raises bid raised answered more answers fails =
      active_from_raises bid raised answered more 1 answers fails
