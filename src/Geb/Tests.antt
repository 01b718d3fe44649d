-- ===== src/Geb/Tests.antt =====
-- `pyflex/gf.py`: contracts, SAFEs and events that the theorems are tried on.
use text.Mathlib.Text.{◌==◌ as same_text}
use pyflex.Base.{
  ℕ, ◌*◌, ◌^◌, true, if◌then◌else◌, List, [], ◌∷◌, Option, none, some, length, ◌≡◌, refl, arith,
}
use pyflex.Base.Int.{pos}
use pyflex.Base.Results.{◌>>=◌, ok}
use pyflex.Numeric.Wad
use pyflex.Numeric.Ray
use pyflex.Numeric.Rad
use pyflex.Numeric.Classes.{wad, ray}
use pyflex.Numeric.Amount.{times, convert, amount}
use pyflex.Chain.{number, address, octets, Call, Contract, Codec, Log}
use pyflex.Geb.Types.{
  CollateralType, Safe, named, safe_at, type_to_bytes, type_from_bytes, safe_to_bytes,
  safe_from_bytes,
}
use pyflex.Geb.Coding.{type_from-to_bytes, safe_from-to_bytes}
use pyflex.Geb.Engine.{LogModifySafeCollateralization}
use pyflex.Geb.Rounding.{is_safe-exact}
use pyflex.Geb.Modification.{Figures, is_safe, modification, modify_safe_collateralization}
use pyflex.Geb.Validity.{IsValid, modify_safe_collateralization-IsValid}
use pyflex.Geb.Liquidation.{can_liquidate_now}
use pyflex.Geb.Liquidating.{IsLiquidatable, can_liquidate-IsLiquidatable}

-- "ETH-A"
abbrev eth_a : List ℕ
eth_a = 69 ∷ 84 ∷ 72 ∷ 45 ∷ 65 ∷ []

type_from-to_bytes_example :
    (length (type_to_bytes (named eth_a)) ≡ 32)
    × (type_from_bytes (λ name. true) (type_to_bytes (named eth_a)) ≡ ok (named eth_a))
type_from-to_bytes_example =
    type_from-to_bytes (λ name. true) eth_a refl (omega arith, omega arith) (omega arith)

safe_from-to_bytes_example : safe_from_bytes (safe_to_bytes (safe_at 1000)) ≡ ok (safe_at 1000)
safe_from-to_bytes_example = safe_from-to_bytes (safe_at 1000) (omega arith)

abbrev coins : ℕ → ℕ
coins n = n * 10 ^ 18

-- An engine with a collateral type whose rate is 1 and whose price is 2, and SAFEs of 10 with a debt of 5.
abbrev engine : Contract
engine function arguments =
    if same_text function "contractEnabled"
    then ok (number (pos 1) ∷ [])
    else if same_text function "safes"
    then ok (number (pos (coins 10)) ∷ number (pos (coins 5)) ∷ [])
    else if same_text function "collateralTypes"
    then ok (
        number (pos (coins 50))
        ∷ number (pos (10 ^ 27))
        ∷ number (pos (2 * 10 ^ 27))
        ∷ number (pos (1000 * 10 ^ 45))
        ∷ number (pos (10 ^ 45))
        ∷ number (pos (2 * 10 ^ 27))
        ∷ [])
    else if same_text function "globalDebt"
    then ok (number (pos (50 * 10 ^ 45)) ∷ [])
    else ok (number (pos (1000 * 10 ^ 45)) ∷ [])

abbrev draw : Call
draw = modification 7 (named eth_a) 1000 (amount (pos 0)) (amount (pos (coins 3))) none (some 2000)

-- Drawing three coins is valid.
draw_call :
    modify_safe_collateralization 7 engine
      (named eth_a)
      1000
      (amount (pos 0))
      (amount (pos (coins 3)))
      none
      (some 2000)
    ≡ ok draw
unfolding modify_safe_collateralization Wad.new Ray.new Rad.new Ray.mul
draw_call = refl

modify_safe_collateralization-IsValid_example :
    (draw ≡ draw) × IsValid engine (named eth_a) 1000 (amount (pos 0)) (amount (pos (coins 3)))
modify_safe_collateralization-IsValid_example =
    modify_safe_collateralization-IsValid 7 engine (named eth_a) 1000 (amount (pos 0))
      (amount (pos (coins 3))) none (some 2000) draw draw_call

-- A chain with one modification in every block, of the SAFE with the block's number.
abbrev log_at : ℕ → Log
log_at block = record {
  args =
      ("collateralType", octets (type_to_bytes (named eth_a)))
      ∷ ("safe", address block)
      ∷ ("collateralSource", address 8)
      ∷ ("debtDestination", address 9)
      ∷ ("deltaCollateral", number (pos 1))
      ∷ ("deltaDebt", number (pos 2))
      ∷ ("lockedCollateral", number (pos 3))
      ∷ ("generatedDebt", number (pos 4))
      ∷ ("globalDebt", number (pos 5))
      ∷ [];
  block_number = block;
  transaction_hash = "0xab";
}

abbrev codec : Codec ℕ
codec = record {
  topics = λ block. "0x182725621f9c0d485fb256f86699c82616bd6e4670325087fd08f643cab7d917" ∷ [];
  get_event_data = λ name block. ok (log_at block);
}

abbrev parsed : ℕ → Option LogModifySafeCollateralization
parsed block = some (record {
  collateral_type = eth_a;
  safe = block;
  collateral_source = 8;
  debt_destination = 9;
  delta_collateral = amount (pos 1);
  delta_debt = amount (pos 2);
  locked_collateral = amount (pos 3);
  generated_debt = amount (pos 4);
  global_debt = amount (pos 5);
  raw = log_at block;
})

abbrev chain : ℕ → List ℕ
chain block = block ∷ []

-- A SAFE of 10 whose debt of 25 exceeds its collateral, and auctions with room for 100 more.
abbrev liquidation : Contract
liquidation function arguments =
    if same_text function "collateralTypes"
    then ok (address 5 ∷ number (pos (10 ^ 18)) ∷ number (pos (50 * 10 ^ 45)) ∷ [])
    else if same_text function "onAuctionSystemCoinLimit"
    then ok (number (pos (300 * 10 ^ 45)) ∷ [])
    else ok (number (pos (200 * 10 ^ 45)) ∷ [])

abbrev collateral : CollateralType
collateral = record {
  name = eth_a;
  accumulated_rate = some (amount (pos (10 ^ 27)));
  safe_collateral = none;
  safe_debt = none;
  safety_price = none;
  liquidation_price = some (amount (pos (2 * 10 ^ 27)));
  debt_ceiling = none;
  debt_floor = some (amount (pos (10 ^ 45)));
}

abbrev unsafe : Safe
unsafe = record {
  address = 1000;
  collateral_type = some collateral;
  locked_collateral = some (amount (pos (coins 10)));
  generated_debt = some (amount (pos (coins 25)));
}

liquidated : can_liquidate_now liquidation collateral unsafe ≡ ok true
unfolding can_liquidate_now Wad.new Ray.new Rad.new Ray.mul Wad.mul Rad.lt Rad.truediv Wad.truediv
liquidated = refl

can_liquidate-IsLiquidatable_example : IsLiquidatable liquidation collateral unsafe
can_liquidate-IsLiquidatable_example =
    can_liquidate-IsLiquidatable liquidation collateral unsafe liquidated

-- A SAFE of 10 with a debt of 5 at a price of 2, as the engine's answers make it.
abbrev computed : Figures
computed = record {
  tab = amount (pos (5 * 10 ^ 27));
  value = amount (pos (20 * 10 ^ 27));
  type_debt = amount (pos 0);
  debt = amount (pos 0);
  ceiling = amount (pos 0);
}

computed_tab :
    times {c = ray} {d = wad} (amount (pos (10 ^ 27))) (amount (pos (coins 5))) ≡ ok computed.tab
unfolding Ray.mul
computed_tab = refl

computed_value :
    (convert {c = ray} {d = wad} (amount (pos (coins 10))) >>= λ l.
    times {c = ray} {d = ray} l (amount (pos (2 * 10 ^ 27))))
    ≡ ok computed.value
unfolding Ray.mul Ray.new
computed_value = refl

is_safe-exact_example : is_safe (amount (pos 0)) (amount (pos (coins 3))) computed ≡ true
is_safe-exact_example =
    is_safe-exact (amount (pos 0)) (amount (pos (coins 3))) computed (10 ^ 27) (coins 5) (coins 10)
      (2 * 10 ^ 27) computed_tab computed_value (omega arith) (omega arith)
