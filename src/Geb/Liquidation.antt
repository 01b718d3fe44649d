-- ===== src/Geb/Liquidation.antt =====
-- `LiquidationEngine` of `pyflex/gf.py`: its contract's values, its transactions and `can_liquidate`.
use Prim.Native.String.{String}
use text.Mathlib.Text.{◌==◌ as same_text}
use pyflex.Base.{ℕ, Bool, true, false, ◌&&◌, if◌then◌else◌, List, [], ◌∷◌, Option, none, some}
use pyflex.Base.Int.{ℤ, pos}
use pyflex.Base.Results.{Result, ok, ◌>>=◌, map_result}
use pyflex.Numeric.Classes
use pyflex.Numeric.Classes.{Class, wad, ray, rad}
use pyflex.Numeric.Amount.{Amount, amount, convert, times, over, minus, less, lesser}
use pyflex.Chain.{
  Abi, address, octets, Call, Contract, transact, get, address_of, amount_of, three, read_address,
  read_amount, read_positive, past_events, read_bool, Log, Codec,
}
use pyflex.Geb.Types.{
  CollateralType, Safe, named, safe_at, type_to_bytes, type_from_bytes, value_of,
}
use pyflex.Geb.Engine
use pyflex.Geb.Engine.{bytes_of}
use pyflex.Geb.Modification.{present}

unfoldable pub contract_enabled : Contract → Result Bool
unfolding read_positive
contract_enabled contract = read_positive contract "contractEnabled" []

unfoldable pub authorized_accounts : Contract → ℕ → Result Bool
unfolding read_bool
authorized_accounts contract account =
    read_bool contract "authorizedAccounts" (address account ∷ [])

-- The auction house, the penalty and the quantity of a collateral type.
unfoldable pub terms : Contract → CollateralType → Result (Abi × Abi × Abi)
unfolding type_to_bytes three
terms contract collateral_type =
    contract "collateralTypes" (octets (type_to_bytes collateral_type) ∷ []) >>= three

unfoldable pub collateral_type : Contract → List ℕ → Result (ℕ × Amount wad × Amount rad)
unfolding terms address_of amount_of
collateral_type contract name = terms contract (named name) >>= λ (house, penalty, quantity). (do
  collateral_auction_house ← address_of house
  liquidation_penalty ← amount_of wad penalty
  liquidation_quantity ← amount_of rad quantity
  ok (collateral_auction_house, liquidation_penalty, liquidation_quantity))

unfoldable pub safe_saviours : Contract → CollateralType → ℕ → Result ℕ
unfolding read_address type_to_bytes
safe_saviours contract collateral_type safe =
    read_address contract "chosenSAFESaviour"
      (octets (type_to_bytes collateral_type) ∷ address safe ∷ [])

unfoldable pub collateral_auction_house : Contract → CollateralType → Result ℕ
unfolding terms address_of
collateral_auction_house contract collateral_type =
    terms contract collateral_type >>= λ (house, penalty, quantity). address_of house

unfoldable pub liquidation_penalty : Contract → CollateralType → Result (Amount wad)
unfolding terms amount_of
liquidation_penalty contract collateral_type =
    terms contract collateral_type >>= λ (house, penalty, quantity). amount_of wad penalty

unfoldable pub liquidation_quantity : Contract → CollateralType → Result (Amount rad)
unfolding terms amount_of
liquidation_quantity contract collateral_type =
    terms contract collateral_type >>= λ (house, penalty, quantity). amount_of rad quantity

unfoldable pub on_auction_system_coin_limit : Contract → Result (Amount rad)
unfolding read_amount
on_auction_system_coin_limit contract = read_amount rad contract "onAuctionSystemCoinLimit" []

unfoldable pub current_on_auction_system_coins : Contract → Result (Amount rad)
unfolding read_amount
current_on_auction_system_coins contract = read_amount rad contract "currentOnAuctionSystemCoins" []

-- The product of an optional amount, as a `Ray`, and another.
unfoldable pub product : Option (Amount wad) → Option (Amount ray) → Result (Amount ray)
unfolding value_of
product a b = do
  converted ← Classes.new ray (value_of a)
  multiplied ← Classes.mul ray converted (value_of b)
  ok (amount multiplied)

-- The collateral is worth less than the debt.
unfoldable pub is_critical : CollateralType → Safe → Result Bool
unfolding product
is_critical collateral_type safe = do
  collateral ← product safe.locked_collateral collateral_type.liquidation_price
  debt ← product safe.generated_debt collateral_type.accumulated_rate
  ok (less collateral debt)

-- `Wad(min(liquidation_quantity, room) / Rad(rate) / Rad(liquidation_penalty))`
unfoldable pub debt_limit : Contract → CollateralType → Amount rad → Result (Amount wad)
unfolding liquidation_quantity liquidation_penalty present
debt_limit contract collateral_type room = do
  quantity ← liquidation_quantity contract collateral_type
  rate ← present collateral_type.accumulated_rate >>= convert {c = rad} {d = ray}
  scaled ← over (lesser quantity room) rate
  penalty ← liquidation_penalty contract collateral_type >>= convert {c = rad} {d = wad}
  over scaled penalty >>= convert {c = wad} {d = rad}

-- The collateral's share for a debt.
unfoldable pub taken_of : Amount wad → Amount wad → Amount wad → Result (Amount wad × Amount wad)
taken_of generated_debt locked_collateral delta_debt = do
  share ← times {c = wad} {d = wad} locked_collateral delta_debt
  part ← over share generated_debt
  ok (delta_debt, lesser locked_collateral part)

-- The debt and the collateral that a liquidation would take.
unfoldable pub deltas :
    Contract → CollateralType → Safe → Amount rad → Result (Amount wad × Amount wad)
unfolding debt_limit taken_of present
deltas contract collateral_type safe room = do
  generated_debt ← present safe.generated_debt
  locked_collateral ← present safe.locked_collateral
  limit ← debt_limit contract collateral_type room
  taken_of generated_debt locked_collateral (lesser generated_debt limit)

-- A liquidation of less than nothing, or of nothing, is none.
unfoldable pub takes_some : Amount wad × Amount wad → Bool
takes_some (delta_debt, delta_collateral) =
    less (amount (pos 0)) delta_debt && less (amount (pos 0)) delta_collateral

unfoldable pub fits : Contract → CollateralType → Safe → Amount rad → Bool → Result Bool
unfolding deltas takes_some
fits contract collateral_type safe room true = ok false
fits contract collateral_type safe room false =
    map_result takes_some (deltas contract collateral_type safe room)

unfoldable pub has_room :
    Contract → CollateralType → Safe → Amount rad → Amount rad → Bool → Result Bool
unfolding fits minus value_of
has_room contract collateral_type safe limit current false = ok false
has_room contract collateral_type safe limit current true =
    Classes.lt rad (minus limit current).value (value_of collateral_type.debt_floor)
    >>= fits contract collateral_type safe (minus limit current)

unfoldable pub if_critical : Contract → CollateralType → Safe → Bool → Result Bool
unfolding has_room on_auction_system_coin_limit current_on_auction_system_coins
if_critical contract collateral_type safe false = ok false
if_critical contract collateral_type safe true = do
  limit ← on_auction_system_coin_limit contract
  current ← current_on_auction_system_coins contract
  has_room contract collateral_type safe limit current (less current limit)

unfoldable pub can_liquidate_now : Contract → CollateralType → Safe → Result Bool
unfolding is_critical if_critical
can_liquidate_now contract collateral_type safe =
    is_critical collateral_type safe >>= if_critical contract collateral_type safe

-- `can_liquidate`, which by default reads the collateral type and the SAFE again.
unfoldable pub can_liquidate :
    Contract → (engine : Contract) → CollateralType → Safe → Bool → Result Bool
unfolding can_liquidate_now Engine.collateral_type Engine.safe
can_liquidate contract engine collateral_type safe false =
    can_liquidate_now contract collateral_type safe
can_liquidate contract engine collateral_type safe true = do
  refreshed ← Engine.collateral_type engine collateral_type.name
  refreshed_safe ← Engine.safe engine refreshed safe.address
  can_liquidate_now contract refreshed refreshed_safe

-- `liquidate_safe`: what it reads for the log must be there.
unfoldable pub liquidate_safe :
    (self : ℕ) → (engine : Contract) → CollateralType → Safe → Result Call
unfolding Engine.collateral_type Engine.safe type_to_bytes
liquidate_safe self engine collateral_type safe = do
  refreshed ← Engine.collateral_type engine collateral_type.name
  refreshed_safe ← Engine.safe engine refreshed safe.address
  rated ← Engine.collateral_type engine refreshed.name
  ok (
      transact self "liquidateSAFE"
        (octets (type_to_bytes refreshed) ∷ address refreshed_safe.address ∷ []))

pub record LogLiquidate : Type 0 where
  pub collateral_type : CollateralType
  pub safe : Safe
  pub collateral_amount : Amount wad
  pub debt_amount : Amount wad
  pub amount_to_raise : Amount rad
  pub collateral_auctioneer : ℕ
  pub raw : Log

unfoldable pub log_liquidate : (List ℕ → Bool) → Log → Result LogLiquidate
unfolding get bytes_of type_from_bytes address_of amount_of
log_liquidate is_utf8 log = do
  collateral_type ← get "collateralType" log.args >>= bytes_of >>= type_from_bytes is_utf8
  safe ← get "safe" log.args >>= address_of
  collateral_amount ← get "collateralAmount" log.args >>= amount_of wad
  debt_amount ← get "debtAmount" log.args >>= amount_of wad
  amount_to_raise ← get "amountToRaise" log.args >>= amount_of rad
  collateral_auctioneer ← get "collateralAuctioneer" log.args >>= address_of
  ok (record {
    collateral_type = collateral_type;
    safe = safe_at safe;
    collateral_amount = collateral_amount;
    debt_amount = debt_amount;
    amount_to_raise = amount_to_raise;
    collateral_auctioneer = collateral_auctioneer;
    raw = log;
  })

unfoldable liquidation_from :
    (List ℕ → Bool) → Result Log → List String → Result (Option LogLiquidate)
unfolding log_liquidate
liquidation_from is_utf8 decoded [] = ok none
liquidation_from is_utf8 decoded (topic ∷ topics) =
    if same_text topic "0x99b5620489b6ef926d4518936cfec15d305452712b88bd59da2d9c10fb0953e8"
    then map_result some (decoded >>= log_liquidate is_utf8)
    else ok none

-- `LogLiquidate.from_event`
unfoldable pub liquidation_from_event :
    {Raw : Type 0} → (List ℕ → Bool) → Codec Raw → Raw → Result (Option LogLiquidate)
unfolding liquidation_from
liquidation_from_event is_utf8 codec event =
    liquidation_from is_utf8 (codec.get_event_data "Liquidate" event) (codec.topics event)

-- `LogLiquidate.block_time`, by the node's time of a block.
unfoldable pub block_time : (ℕ → Result ℤ) → LogLiquidate → Result ℤ
block_time timestamp log = timestamp log.raw.block_number

-- `modify_parameters_accountingEngine`, with the bytes of "accountingEngine".
unfoldable pub modify_parameters_accounting_engine : (self accounting_engine : ℕ) → Call
modify_parameters_accounting_engine self accounting_engine =
    transact self "modifyParameters(bytes32,address)" (
      octets (
        97 ∷ 99 ∷ 99 ∷ 111 ∷ 117 ∷ 110 ∷ 116 ∷ 105 ∷ 110 ∷ 103 ∷ 69 ∷ 110 ∷ 103 ∷ 105 ∷ 110 ∷ 101
        ∷ [])
      ∷ address accounting_engine
      ∷ [])

unfoldable pub past_liquidations :
    (List ℕ → Bool) → (ℕ → ℕ → Result (List Log)) → ℕ → ℤ → Result (List LogLiquidate)
unfolding log_liquidate past_events
past_liquidations is_utf8 = past_events (log_liquidate is_utf8)
