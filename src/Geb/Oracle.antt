-- ===== src/Geb/Oracle.antt =====
-- `OracleRelayer` and `RedemptionPriceSnap` of `pyflex/gf.py`.
use pyflex.Base.{ℕ, Bool, List, [], ◌∷◌}
use pyflex.Base.Results.{Result, ◌>>=◌}
use pyflex.Numeric.Classes.{ray}
use pyflex.Numeric.Amount.{Amount}
use pyflex.Chain.{
  Abi, address, octets, Call, Contract, transact, amount_of, three, read_address, read_amount,
  read_positive, read_bool,
}
use pyflex.Geb.Types.{CollateralType, named, type_to_bytes}

unfoldable pub contract_enabled : Contract → Result Bool
unfolding read_positive
contract_enabled contract = read_positive contract "contractEnabled" []

-- The oracle and the ratios of a collateral type, as the contract answers them.
unfoldable pub collateral_type : Contract → List ℕ → Result (Abi × Abi × Abi)
unfolding type_to_bytes three
collateral_type contract name =
    contract "collateralTypes" (octets (type_to_bytes (named name)) ∷ []) >>= three

unfoldable pub authorized_accounts : Contract → ℕ → Result Bool
unfolding read_bool
authorized_accounts contract account =
    read_bool contract "authorizedAccounts" (address account ∷ [])

unfoldable pub update_collateral_price : ℕ → CollateralType → Call
unfolding type_to_bytes
update_collateral_price self collateral_type =
    transact self "updateCollateralPrice" (octets (type_to_bytes collateral_type) ∷ [])

unfoldable pub safe_engine : Contract → Result ℕ
unfolding read_address
safe_engine contract = read_address contract "safeEngine" []

unfoldable pub redemption_price : Contract → Result (Amount ray)
unfolding read_amount
redemption_price contract = read_amount ray contract "redemptionPrice" []

unfoldable pub redemption_rate : Contract → Result (Amount ray)
unfolding read_amount
redemption_rate contract = read_amount ray contract "redemptionRate" []

unfoldable pub redemption_price_update_time : Contract → Result (Amount ray)
unfolding read_amount
redemption_price_update_time contract = read_amount ray contract "redemptionPriceUpdateTime" []

unfoldable pub safety_c_ratio : Contract → CollateralType → Result (Amount ray)
unfolding type_to_bytes three amount_of
safety_c_ratio contract collateral_type =
    contract "collateralTypes" (octets (type_to_bytes collateral_type) ∷ [])
    >>= three
    >>= λ (oracle, safety, liquidation). amount_of ray safety

unfoldable pub liquidation_c_ratio : Contract → CollateralType → Result (Amount ray)
unfolding type_to_bytes three amount_of
liquidation_c_ratio contract collateral_type =
    contract "collateralTypes" (octets (type_to_bytes collateral_type) ∷ [])
    >>= three
    >>= λ (oracle, safety, liquidation). amount_of ray liquidation

-- `RedemptionPriceSnap`

unfoldable pub snap_authorized_accounts : Contract → ℕ → Result Bool
unfolding read_bool
snap_authorized_accounts contract account =
    read_bool contract "authorizedAccounts" (address account ∷ [])

unfoldable pub update_snapped_price : ℕ → Call
update_snapped_price self = transact self "updateSnappedPrice" []

unfoldable pub snapped_price : Contract → Result (Amount ray)
unfolding read_amount
snapped_price contract = read_amount ray contract "snappedRedemptionPrice" []
