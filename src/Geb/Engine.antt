-- ===== src/Geb/Engine.antt =====
-- `SAFEEngine` of `pyflex/gf.py`: what it reads from its contract, its transactions and its event.
use Prim.Native.String.{String}
use text.Mathlib.Text.{◌==◌ as same_text}
use pyflex.Base.{ℕ, Bool, if◌then◌else◌, List, [], ◌∷◌, Option, none, some}
use pyflex.Base.Int.{pos}
use pyflex.Base.Results.{Result, ok, err, ◌>>=◌, map_result, assertion_error}
use pyflex.Numeric.Classes.{wad, ray, rad}
use pyflex.Numeric.Amount.{Amount, amount}
use pyflex.Chain.{
  Abi, number, address, octets, words, numbers, addresses, flag, Call, Contract, transact, get,
  address_of, amount_of, two, six, read_amount, read_positive, read_bool, Log, Codec,
}
use pyflex.Geb.Types.{CollateralType, Safe, named, type_to_bytes, type_from_bytes}

unfoldable pub contract_enabled : Contract → Result Bool
unfolding read_positive
contract_enabled engine = read_positive engine "contractEnabled" []

unfoldable pub authorized_accounts : Contract → ℕ → Result Bool
unfolding read_bool
authorized_accounts engine account = read_bool engine "authorizedAccounts" (address account ∷ [])

unfoldable pub safe_rights : Contract → ℕ → ℕ → Result Bool
unfolding read_bool
safe_rights engine sender usr = read_bool engine "safeRights" (address sender ∷ address usr ∷ [])

unfoldable type_of : List ℕ → Abi × Abi × Abi × Abi × Abi × Abi → Result CollateralType
unfolding amount_of
type_of name (safe_debt, rate, safety_price, d_ceiling, d_floor, liq_price) = do
  accumulated_rate ← amount_of ray rate
  debt ← amount_of wad safe_debt
  price ← amount_of ray safety_price
  liquidation_price ← amount_of ray liq_price
  debt_ceiling ← amount_of rad d_ceiling
  debt_floor ← amount_of rad d_floor
  ok (record {
    name = name;
    accumulated_rate = some accumulated_rate;
    safe_collateral = some (amount (pos 0));
    safe_debt = some debt;
    safety_price = some price;
    liquidation_price = some liquidation_price;
    debt_ceiling = some debt_ceiling;
    debt_floor = some debt_floor;
  })

unfoldable pub collateral_type : Contract → List ℕ → Result CollateralType
unfolding type_to_bytes six type_of
collateral_type engine name =
    engine "collateralTypes" (octets (type_to_bytes (named name)) ∷ []) >>= six >>= type_of name

unfoldable pub token_collateral : Contract → CollateralType → ℕ → Result (Amount wad)
unfolding type_to_bytes read_amount
token_collateral engine collateral_type safe =
    read_amount wad engine "tokenCollateral"
      (octets (type_to_bytes collateral_type) ∷ address safe ∷ [])

unfoldable pub coin_balance : Contract → ℕ → Result (Amount rad)
unfolding read_amount
coin_balance engine safe = read_amount rad engine "coinBalance" (address safe ∷ [])

unfoldable pub debt_balance : Contract → ℕ → Result (Amount rad)
unfolding read_amount
debt_balance engine safe = read_amount rad engine "debtBalance" (address safe ∷ [])

unfoldable safe_of : CollateralType → ℕ → Abi × Abi → Result Safe
unfolding amount_of
safe_of collateral_type account (locked_collateral, generated_debt) = do
  locked ← amount_of wad locked_collateral
  debt ← amount_of wad generated_debt
  ok (record {
    address = account;
    collateral_type = some collateral_type;
    locked_collateral = some locked;
    generated_debt = some debt;
  })

unfoldable pub safe : Contract → CollateralType → ℕ → Result Safe
unfolding type_to_bytes two safe_of
safe engine collateral_type account =
    engine "safes" (octets (type_to_bytes collateral_type) ∷ address account ∷ [])
    >>= two
    >>= safe_of collateral_type account

unfoldable pub global_debt : Contract → Result (Amount rad)
unfolding read_amount
global_debt engine = read_amount rad engine "globalDebt" []

unfoldable pub global_unbacked_debt : Contract → Result (Amount rad)
unfolding read_amount
global_unbacked_debt engine = read_amount rad engine "globalUnbackedDebt" []

unfoldable pub global_debt_ceiling : Contract → Result (Amount rad)
unfolding read_amount
global_debt_ceiling engine = read_amount rad engine "globalDebtCeiling" []

-- The transactions, of the contract at `self`.
module _ (self : ℕ) where
  unfoldable pub init : CollateralType → Call
  unfolding type_to_bytes
  init collateral_type = transact self "init" (octets (type_to_bytes collateral_type) ∷ [])

  unfoldable pub approve_safe_modification : ℕ → Call
  approve_safe_modification account = transact self "approveSAFEModification" (address account ∷ [])

  unfoldable pub transfer_collateral : CollateralType → ℕ → ℕ → Amount wad → Call
  unfolding type_to_bytes
  transfer_collateral collateral_type src dst wad_amount = transact self "transferCollateral" (
      octets (type_to_bytes collateral_type)
      ∷ address src
      ∷ address dst
      ∷ number wad_amount.value
      ∷ [])

  unfoldable pub transfer_internal_coins : ℕ → ℕ → Amount rad → Call
  transfer_internal_coins src dst rad_amount =
      transact self "transferInternalCoins"
        (address src ∷ address dst ∷ number rad_amount.value ∷ [])

  unfoldable pub transfer_safe_collateral_and_debt :
      CollateralType → ℕ → ℕ → Amount wad → Amount wad → Call
  unfolding type_to_bytes
  transfer_safe_collateral_and_debt collateral_type src dst delta_collateral delta_debt =
      transact self "transferSAFECollateralAndDebt" (
        octets (type_to_bytes collateral_type)
        ∷ address src
        ∷ address dst
        ∷ number delta_collateral.value
        ∷ number delta_debt.value
        ∷ [])

  unfoldable pub settle_debt : Amount rad → Call
  settle_debt rad_amount = transact self "settleDebt" (number rad_amount.value ∷ [])

-- The bytes that `fromBytes` asserts.
unfoldable pub bytes_of : Abi → Result (List ℕ)
bytes_of (octets b) = ok b
bytes_of (number n) = err assertion_error
bytes_of (address a) = err assertion_error
bytes_of (words t) = err assertion_error
bytes_of (numbers ns) = err assertion_error
bytes_of (addresses accounts) = err assertion_error
bytes_of (flag b) = err assertion_error

pub record LogModifySafeCollateralization : Type 0 where
  pub collateral_type : List ℕ
  pub safe : ℕ
  pub collateral_source : ℕ
  pub debt_destination : ℕ
  pub delta_collateral : Amount wad
  pub delta_debt : Amount wad
  pub locked_collateral : Amount wad
  pub generated_debt : Amount wad
  pub global_debt : Amount rad
  pub raw : Log

unfoldable pub log_modify : (List ℕ → Bool) → Log → Result LogModifySafeCollateralization
unfolding get bytes_of type_from_bytes address_of amount_of
log_modify is_utf8 log = do
  collateral_type ← get "collateralType" log.args >>= bytes_of >>= type_from_bytes is_utf8
  safe ← get "safe" log.args >>= address_of
  collateral_source ← get "collateralSource" log.args >>= address_of
  debt_destination ← get "debtDestination" log.args >>= address_of
  delta_collateral ← get "deltaCollateral" log.args >>= amount_of wad
  delta_debt ← get "deltaDebt" log.args >>= amount_of wad
  locked_collateral ← get "lockedCollateral" log.args >>= amount_of wad
  generated_debt ← get "generatedDebt" log.args >>= amount_of wad
  global_debt ← get "globalDebt" log.args >>= amount_of rad
  ok (record {
    collateral_type = collateral_type.name;
    safe = safe;
    collateral_source = collateral_source;
    debt_destination = debt_destination;
    delta_collateral = delta_collateral;
    delta_debt = delta_debt;
    locked_collateral = locked_collateral;
    generated_debt = generated_debt;
    global_debt = global_debt;
    raw = log;
  })

unfoldable from_topics :
    (List ℕ → Bool) → Result Log → List String → Result (Option LogModifySafeCollateralization)
unfolding log_modify
from_topics is_utf8 decoded [] = ok none
from_topics is_utf8 decoded (topic ∷ topics) =
    if same_text topic "0x182725621f9c0d485fb256f86699c82616bd6e4670325087fd08f643cab7d917"
    then map_result some (decoded >>= log_modify is_utf8)
    else ok none

-- `from_event`
unfoldable pub from_event :
    {Raw : Type 0}
    → (List ℕ → Bool)
    → Codec Raw
    → Raw
    → Result (Option LogModifySafeCollateralization)
unfolding from_topics
from_event is_utf8 codec event =
    from_topics is_utf8 (codec.get_event_data "ModifySAFECollateralization" event)
      (codec.topics event)
