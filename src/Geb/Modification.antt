-- ===== src/Geb/Modification.antt =====
-- `SAFEEngine.validate_safe_modification` and `modify_safe_collateralization` of `pyflex/gf.py`. What
-- the log messages compute is computed, and their texts are left out.
use pyflex.Base.{ℕ, Bool, true, not, ◌&&◌, ◌||◌, if◌then◌else◌, [], ◌∷◌, Option, none, some}
use pyflex.Base.Int.{pos}
use pyflex.Base.Results.{
  Result, ok, err, ◌>>=◌, ◌>>◌, guard, map_result, assertion_error, type_error,
}
use pyflex.Numeric.Classes.{wad, ray, rad}
use pyflex.Numeric.Amount.{Amount, amount, convert, times, plus, less, same, at_most}
use pyflex.Chain.{number, address, octets, Call, Contract, transact}
use pyflex.Geb.Types.{CollateralType, Safe, type_to_bytes}
use pyflex.Geb.Engine
use pyflex.Geb.Engine.{contract_enabled, global_debt, global_debt_ceiling}

-- The SAFE after the modification, and its collateral type as the engine has it.
pub record Position : Type 0 where
  pub locked_collateral : Amount wad
  pub generated_debt : Amount wad
  pub safe_debt : Amount wad
  pub rate : Amount ray
  pub safety_price : Amount ray
  pub debt_ceiling : Amount rad
  pub debt_floor : Amount rad

-- A field that the engine's answers always have.
unfoldable pub present : {A : Type 0} → Option A → Result A
present (some a) = ok a
present none = err type_error

unfoldable pub modified : Amount wad → Amount wad → Safe → CollateralType → Result Position
unfolding present plus
modified delta_collateral delta_debt safe collateral_type = do
  locked ← present safe.locked_collateral
  debt ← present safe.generated_debt
  safe_debt ← present collateral_type.safe_debt
  rate ← present collateral_type.accumulated_rate
  safety_price ← present collateral_type.safety_price
  debt_ceiling ← present collateral_type.debt_ceiling
  debt_floor ← present collateral_type.debt_floor
  ok (record {
    locked_collateral = plus locked delta_collateral;
    generated_debt = plus debt delta_debt;
    safe_debt = plus safe_debt delta_debt;
    rate = rate;
    safety_price = safety_price;
    debt_ceiling = debt_ceiling;
    debt_floor = debt_floor;
  })

-- What the conditions compare.
pub record Figures : Type 0 where
  pub tab : Amount ray
  pub value : Amount ray
  pub type_debt : Amount rad
  pub debt : Amount rad
  pub ceiling : Amount rad

unfoldable pub figures : Contract → Amount wad → Position → Result Figures
unfolding global_debt global_debt_ceiling plus
figures engine delta_debt position = do
  logged_debt ← global_debt engine
  logged_ceiling ← global_debt_ceiling engine
  safe_debt ← convert position.safe_debt
  type_debt ← times safe_debt position.rate
  delta ← convert delta_debt
  dtab ← times {c = ray} {d = ray} position.rate delta >>= convert
  tab ← times position.rate position.generated_debt
  debt ← global_debt engine
  locked ← convert position.locked_collateral
  value ← times {c = ray} {d = ray} locked position.safety_price
  type_debt_rad ← convert {c = rad} {d = ray} type_debt
  ceiling ← global_debt_ceiling engine
  ok (record {
    tab = tab;
    value = value;
    type_debt = type_debt_rad;
    debt = plus debt dtab;
    ceiling = ceiling;
  })

-- Either debt has decreased, or debt ceilings are not exceeded.
unfoldable pub calm : Amount wad → Position → Figures → Bool
calm delta_debt position f =
    at_most delta_debt (amount (pos 0))
    || (at_most f.type_debt position.debt_ceiling && less f.debt f.ceiling)

-- The SAFE is either less risky than before, or it is safe.
unfoldable pub is_safe : Amount wad → Amount wad → Figures → Bool
is_safe delta_collateral delta_debt f =
    (at_most delta_debt (amount (pos 0)) && at_most (amount (pos 0)) delta_collateral)
    || at_most f.tab f.value

-- The SAFE has no debt, or one that reaches the debt floor.
unfoldable pub neat : Position → Figures → Result Bool
neat position f =
    if same position.generated_debt (amount (pos 0))
    then ok true
    else map_result (at_most position.debt_floor) (convert {c = rad} {d = ray} f.tab)

unfoldable pub conditions : Amount wad → Amount wad → Position → Figures → Result (Unit {0})
unfolding calm is_safe neat
conditions delta_collateral delta_debt position f = neat position f >>= λ floor.
    guard (calm delta_debt position f && (is_safe delta_collateral delta_debt f && floor))
      assertion_error

unfoldable pub check_position : Contract → Amount wad → Amount wad → Position → Result (Unit {0})
unfolding figures conditions
check_position engine delta_collateral delta_debt position =
    guard (not (same position.rate (amount (pos 0)))) assertion_error
    >> (figures engine delta_debt position >>= conditions delta_collateral delta_debt position)

unfoldable pub validate_safe_modification :
    Contract → CollateralType → ℕ → Amount wad → Amount wad → Result (Unit {0})
unfolding contract_enabled Engine.safe Engine.collateral_type modified check_position
validate_safe_modification engine collateral_type account delta_collateral delta_debt = do
  enabled ← contract_enabled engine
  guard enabled assertion_error >> (do
    safe ← Engine.safe engine collateral_type account
    found ← Engine.collateral_type engine collateral_type.name
    position ← modified delta_collateral delta_debt safe found
    check_position engine delta_collateral delta_debt position)

-- `a or b`
unfoldable pub or_else : Option ℕ → ℕ → ℕ
or_else none b = b
or_else (some a) b = a

-- The transaction; by default the SAFE's account has the collateral and receives the coins.
unfoldable pub modification :
    (self : ℕ) → CollateralType → ℕ → Amount wad → Amount wad → Option ℕ → Option ℕ → Call
unfolding or_else type_to_bytes
modification self collateral_type account delta_collateral delta_debt collateral_owner
      system_coin_recipient =
    transact self "modifySAFECollateralization" (
      octets (type_to_bytes collateral_type)
      ∷ address account
      ∷ address (or_else collateral_owner account)
      ∷ address (or_else system_coin_recipient account)
      ∷ number delta_collateral.value
      ∷ number delta_debt.value
      ∷ [])

-- The transaction is there only if the modification is valid.
unfoldable pub modify_safe_collateralization :
    (self : ℕ)
    → Contract
    → CollateralType
    → ℕ
    → Amount wad
    → Amount wad
    → Option ℕ
    → Option ℕ
    → Result Call
unfolding modification validate_safe_modification
modify_safe_collateralization self engine collateral_type account delta_collateral delta_debt
      collateral_owner system_coin_recipient =
    validate_safe_modification engine collateral_type account delta_collateral delta_debt
    >> ok (
        modification self collateral_type account delta_collateral delta_debt collateral_owner
          system_coin_recipient)
