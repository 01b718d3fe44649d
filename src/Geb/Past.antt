-- ===== src/Geb/Past.antt =====
-- `SAFEEngine.past_safe_modifications` of `pyflex/gf.py`: what it returns.
use pyflex.Base.{ℕ, Bool, List, Option, somes, map, ◌≡◌}
use pyflex.Base.Results.{ok}
use pyflex.Chain.{Codec}
use pyflex.Geb.Types.{CollateralType}
use pyflex.Geb.Engine.{LogModifySafeCollateralization, from_event}
use pyflex.Geb.History.{of_type}

module _ {Raw : Type 0} (is_utf8 : List ℕ → Bool) (codec : Codec Raw)
    (parsed : Raw → Option LogModifySafeCollateralization)
    (reads : (event : Raw) → from_event is_utf8 codec event ≡ ok (parsed event))
    (collateral_type : Option CollateralType) where
  -- The modifications among some events.
  abbrev pub modifications : List Raw → List LogModifySafeCollateralization
  modifications raws = of_type collateral_type (somes (map parsed raws))
