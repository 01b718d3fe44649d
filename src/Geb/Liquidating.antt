-- ===== src/Geb/Liquidating.antt =====
-- What `LiquidationEngine.can_liquidate` of `pyflex/gf.py` says of a SAFE.
use pyflex.Base.{Bool, true, false, Option, none, some, ◌≡◌, refl, sym, ap, subst, ◌∙◌, arith}
use pyflex.Base.Int.{pos, ◌≤ℤ◌}
use pyflex.Base.Results.{Result, ok, ◌>>=◌, bind_ok, map_ok, ok_inj}
use pyflex.Numeric.Classes
use pyflex.Numeric.Rad
use pyflex.Numeric.Classes.{Class, wad, ray, rad}
use pyflex.Numeric.Amount.{Amount, times, over, minus, less, lesser}
use pyflex.Chain.{Contract}
use pyflex.Geb.Types.{CollateralType, Safe, value_of}
use pyflex.Geb.Modification.{present}
use pyflex.Geb.Liquidation.{
  on_auction_system_coin_limit, current_on_auction_system_coins, product, is_critical, debt_limit,
  taken_of, deltas, takes_some, fits, has_room, if_critical, can_liquidate_now,
}

present_ok : {A : Type 0} (o : Option A) (a : A) → present o ≡ ok a → o ≡ some a
unfolding present
present_ok none a h = ground arith
present_ok (some b) a h = ap some (ok_inj h)

lesser-le : {c : Class} (a b : Amount c) → (lesser a b).value ≤ℤ a.value
lesser-le a b = ground arith

less-not_le : {c : Class} (a b : Amount c) → less a b ≡ true → ¬ (b.value ≤ℤ a.value)
less-not_le a b h = ground arith

le_of_eq_le : {c : Class} (a b d : Amount c) → a ≡ b → b.value ≤ℤ d.value → a.value ≤ℤ d.value
le_of_eq_le a b d e h = subst (λ t. t.value ≤ℤ d.value) (sym e) h

takes_some-positive :
    (taken : Amount wad × Amount wad)
    → takes_some taken ≡ true
    → (¬ (taken.0.value ≤ℤ pos 0)) × (¬ (taken.1.value ≤ℤ pos 0))
unfolding takes_some
takes_some-positive (d, c) h = ground arith

-- A comparison with a debt floor that returns.
reaches :
    (room : Amount rad) (floor : Option (Amount rad))
    → Classes.lt rad room.value (value_of floor) ≡ ok false
    → (f : Amount rad) × (floor ≡ some f) × (f.value ≤ℤ room.value)
unfolding value_of Rad.lt
reaches room none h = ground arith
reaches room (some f) h = (f, refl, ground arith)

taken_of-le :
    (generated_debt locked_collateral delta_debt : Amount wad) (taken : Amount wad × Amount wad)
    → taken_of generated_debt locked_collateral delta_debt ≡ ok taken
    → (taken.0 ≡ delta_debt) × (taken.1.value ≤ℤ locked_collateral.value)
unfolding taken_of
taken_of-le generated_debt locked_collateral delta_debt taken h =
    let with_share : Amount wad → Result (Amount wad × Amount wad) = λ share.
      over share generated_debt >>= λ part. ok (delta_debt, lesser locked_collateral part) in
    let (share, shared, h1) =
      bind_ok (times {c = wad} {d = wad} locked_collateral delta_debt) with_share taken h in
    let (part, parted, h2) =
      bind_ok (over share generated_debt) (λ part. ok (delta_debt, lesser locked_collateral part))
        taken h1 in
    let same : (delta_debt, lesser locked_collateral part) ≡ taken = ok_inj h2 in
    (
      sym (ap (λ t. t.0) same),
      le_of_eq_le taken.1 (lesser locked_collateral part) locked_collateral
          (sym (ap (λ t. t.1) same)) (lesser-le locked_collateral part),
    )

-- A liquidation takes at most the debt and the collateral of the SAFE.
abbrev pub IsWithin : Safe → Amount wad × Amount wad → Type 0
IsWithin safe (delta_debt, delta_collateral) =
    (generated_debt : Amount wad) × (locked_collateral : Amount wad) × (safe.generated_debt
      ≡ some generated_debt)
    × (safe.locked_collateral ≡ some locked_collateral)
    × (delta_debt.value ≤ℤ generated_debt.value)
    × (delta_collateral.value ≤ℤ locked_collateral.value)

deltas-IsWithin :
    (contract : Contract) (collateral_type : CollateralType) (safe : Safe) (room : Amount rad)
    (taken : Amount wad × Amount wad)
    → deltas contract collateral_type safe room ≡ ok taken
    → IsWithin safe taken
unfolding deltas
deltas-IsWithin contract collateral_type safe room taken h =
    let with_both : Amount wad → Amount wad → Result (Amount wad × Amount wad) =
      λ g l. debt_limit contract collateral_type room >>= λ limit. taken_of g l (lesser g limit) in
    let with_debt : Amount wad → Result (Amount wad × Amount wad) =
      λ g. present safe.locked_collateral >>= with_both g in
    let (g, has_debt, h1) = bind_ok (present safe.generated_debt) with_debt taken h in
    let (l, has_collateral, h2) = bind_ok (present safe.locked_collateral) (with_both g) taken h1 in
    let (limit, limited, h3) =
      bind_ok (debt_limit contract collateral_type room) (λ limit. taken_of g l (lesser g limit))
        taken h2 in
    let (debt_le, collateral_le) = taken_of-le g l (lesser g limit) taken h3 in
    (
      g,
      l,
      present_ok safe.generated_debt g has_debt,
      present_ok safe.locked_collateral l has_collateral,
      le_of_eq_le taken.0 (lesser g limit) g debt_le (lesser-le g limit),
      collateral_le,
    )

-- The SAFE is critical, the auctions have room for its debt floor and more, and the liquidation takes some
-- debt and some collateral of the SAFE.
abbrev pub IsLiquidatable : Contract → CollateralType → Safe → Type 0
IsLiquidatable contract collateral_type safe =
    (collateral : Amount ray) × (debt : Amount ray) × (limit : Amount rad) × (current : Amount rad)
    × (floor : Amount rad) × (taken : Amount wad × Amount wad) × (product safe.locked_collateral
          collateral_type.liquidation_price
        ≡ ok collateral)
    × (product safe.generated_debt collateral_type.accumulated_rate ≡ ok debt)
    × (¬ (debt.value ≤ℤ collateral.value))
    × (on_auction_system_coin_limit contract ≡ ok limit)
    × (current_on_auction_system_coins contract ≡ ok current)
    × (¬ (limit.value ≤ℤ current.value))
    × (collateral_type.debt_floor ≡ some floor)
    × (floor.value ≤ℤ (minus limit current).value)
    × (deltas contract collateral_type safe (minus limit current) ≡ ok taken)
    × (¬ (taken.0.value ≤ℤ pos 0))
    × (¬ (taken.1.value ≤ℤ pos 0))
    × IsWithin safe taken

fits_ok :
    (contract : Contract) (collateral_type : CollateralType) (safe : Safe) (room : Amount rad)
    (small : Bool)
    → fits contract collateral_type safe room small ≡ ok true
    → (small ≡ false)
      × (taken : Amount wad × Amount wad) × (deltas contract collateral_type safe room ≡ ok taken)
      × (¬ (taken.0.value ≤ℤ pos 0))
      × (¬ (taken.1.value ≤ℤ pos 0))
unfolding fits
fits_ok contract collateral_type safe room true h = ground arith
fits_ok contract collateral_type safe room false h =
    let (taken, found, some_taken) =
      map_ok (deltas contract collateral_type safe room) takes_some true h in
    let (d, c) = takes_some-positive taken some_taken in (refl, taken, found, d, c)

has_room_ok :
    (contract : Contract) (collateral_type : CollateralType) (safe : Safe)
    (limit current : Amount rad) (b : Bool)
    → has_room contract collateral_type safe limit current b ≡ ok true
    → (b ≡ true)
      × (floor : Amount rad) × (collateral_type.debt_floor ≡ some floor)
      × (floor.value ≤ℤ (minus limit current).value)
      × (taken : Amount wad × Amount wad) × (deltas contract collateral_type safe
            (minus limit current)
          ≡ ok taken)
      × (¬ (taken.0.value ≤ℤ pos 0))
      × (¬ (taken.1.value ≤ℤ pos 0))
unfolding has_room
has_room_ok contract collateral_type safe limit current false h = ground arith
has_room_ok contract collateral_type safe limit current true h =
    let (small, compared, h1) =
      bind_ok (Classes.lt rad (minus limit current).value (value_of collateral_type.debt_floor))
        (fits contract collateral_type safe (minus limit current)) true h in
    let (enough, taken, found, d, c) =
      fits_ok contract collateral_type safe (minus limit current) small h1 in
    let (floor, is_floor, le) =
      reaches (minus limit current) collateral_type.debt_floor (compared ∙ ap ok enough) in
    (refl, floor, is_floor, le, taken, found, d, c)

if_critical_ok :
    (contract : Contract) (collateral_type : CollateralType) (safe : Safe) (b : Bool)
    → if_critical contract collateral_type safe b ≡ ok true
    → (b ≡ true)
      × (limit : Amount rad) × (current : Amount rad) × (on_auction_system_coin_limit contract
          ≡ ok limit)
      × (current_on_auction_system_coins contract ≡ ok current)
      × (has_room contract collateral_type safe limit current (less current limit) ≡ ok true)
unfolding if_critical
if_critical_ok contract collateral_type safe false h = ground arith
if_critical_ok contract collateral_type safe true h =
    let with_limit : Amount rad → Result Bool = λ limit.
      current_on_auction_system_coins contract >>= λ current.
      has_room contract collateral_type safe limit current (less current limit) in
    let (limit, is_limit, h1) = bind_ok (on_auction_system_coin_limit contract) with_limit true h in
    let (current, is_current, h2) =
      bind_ok (current_on_auction_system_coins contract)
        (λ current. has_room contract collateral_type safe limit current (less current limit)) true
        h1 in
    (refl, limit, current, is_limit, is_current, h2)

-- If `can_liquidate` returns true, then the SAFE is critical, the auctions have room for the debt floor, and
-- the liquidation takes some of the SAFE's debt and collateral, and no more than there is.
pub can_liquidate-IsLiquidatable :
    (contract : Contract) (collateral_type : CollateralType) (safe : Safe)
    → can_liquidate_now contract collateral_type safe ≡ ok true
    → IsLiquidatable contract collateral_type safe
unfolding can_liquidate_now is_critical
can_liquidate-IsLiquidatable contract collateral_type safe h =
    let compared : Amount ray → Result Bool = λ collateral.
      product safe.generated_debt collateral_type.accumulated_rate >>= λ debt.
      ok (less collateral debt) in
    let (critical, is_critical_ok, h1) =
      bind_ok (is_critical collateral_type safe) (if_critical contract collateral_type safe) true
        h in
    let (collateral, is_collateral, h2) =
      bind_ok (product safe.locked_collateral collateral_type.liquidation_price) compared critical
        is_critical_ok in
    let (debt, is_debt, h3) =
      bind_ok (product safe.generated_debt collateral_type.accumulated_rate)
        (λ debt. ok (less collateral debt)) critical h2 in
    let (worse, limit, current, is_limit, is_current, h4) =
      if_critical_ok contract collateral_type safe critical h1 in
    let (under, floor, is_floor, le, taken, found, d, c) =
      has_room_ok contract collateral_type safe limit current (less current limit) h4 in
    (
      collateral,
      debt,
      limit,
      current,
      floor,
      taken,
      is_collateral,
      is_debt,
      less-not_le collateral debt (ok_inj h3 ∙ worse),
      is_limit,
      is_current,
      less-not_le current limit under,
      is_floor,
      le,
      found,
      d,
      c,
      deltas-IsWithin contract collateral_type safe (minus limit current) taken found,
    )
