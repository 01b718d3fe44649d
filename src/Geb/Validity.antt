-- ===== src/Geb/Validity.antt =====
-- What `modify_safe_collateralization` of `pyflex/gf.py` refuses.
use pyflex.Base.{
  ℕ, Bool, true, false, not, ◌&&◌, if◌then◌else◌, Option, ◌≡◌, ◌≢◌, refl, ap, ◌∙◌, inl, inr, ◌⊎◌,
  arith,
}
use pyflex.Base.Int.{ℤ, pos, eqb_ℤ, ◌≤ℤ◌}
use pyflex.Base.Results.{
  Result, ok, err, ◌>>=◌, ◌>>◌, guard, map_result, assertion_error, ok_inj, bind_ok,
}
use pyflex.Numeric.Classes.{wad, rad}
use pyflex.Numeric.Amount.{Amount, amount, convert, same, at_most}
use pyflex.Chain.{Call, Contract}
use pyflex.Geb.Types.{CollateralType, Safe}
use pyflex.Geb.Engine
use pyflex.Geb.Engine.{contract_enabled}
use pyflex.Geb.Modification.{
  Position, Figures, modified, figures, calm, is_safe, neat, conditions, check_position,
  validate_safe_modification, modification, modify_safe_collateralization,
}

guard_ok :
    {B : Type 0} (test : Bool) (r : Result B) (b : B)
    → (guard test assertion_error >> r) ≡ ok b
    → (test ≡ true) × (r ≡ ok b)
guard_ok true r b h = (refl, h)
guard_ok false r b h = ground arith

guard_passed : (test : Bool) → guard test assertion_error ≡ ok tt → test ≡ true
guard_passed true h = refl
guard_passed false h = ground arith

both_pass : (a b : Bool) → (a && b) ≡ true → (a ≡ true) × (b ≡ true)
both_pass a b h = ground arith

-- Either debt has decreased, or debt ceilings are not exceeded.
abbrev pub IsCalm : Amount wad → Position → Figures → Type 0
IsCalm delta_debt position f =
    (delta_debt.value ≤ℤ pos 0)
    ⊎ ((f.type_debt.value ≤ℤ position.debt_ceiling.value) × ¬ (f.ceiling.value ≤ℤ f.debt.value))

-- The SAFE is either less risky than before, or its debt is at most what its collateral allows.
abbrev pub IsSafe : Amount wad → Amount wad → Figures → Type 0
IsSafe delta_collateral delta_debt f =
    ((delta_debt.value ≤ℤ pos 0) × (pos 0 ≤ℤ delta_collateral.value))
    ⊎ (f.tab.value ≤ℤ f.value.value)

-- The SAFE has no debt, or one that reaches the debt floor.
abbrev pub IsNeat : Position → Figures → Type 0
IsNeat position f =
    (position.generated_debt.value ≡ pos 0)
    ⊎ ((tab : Amount rad) × (convert f.tab ≡ ok tab) × (position.debt_floor.value ≤ℤ tab.value))

-- The requirements of the contract, of the amounts that `validate_safe_modification` computes.
abbrev pub IsValid : Contract → CollateralType → ℕ → Amount wad → Amount wad → Type 0
IsValid engine collateral_type account delta_collateral delta_debt =
    (safe : Safe) × (found : CollateralType) × (position : Position) × (f : Figures)
    × (contract_enabled engine ≡ ok true)
    × (Engine.safe engine collateral_type account ≡ ok safe)
    × (Engine.collateral_type engine collateral_type.name ≡ ok found)
    × (modified delta_collateral delta_debt safe found ≡ ok position)
    × (figures engine delta_debt position ≡ ok f)
    × (position.rate.value ≢ pos 0)
    × IsCalm delta_debt position f
    × IsSafe delta_collateral delta_debt f
    × IsNeat position f

calm-IsCalm :
    (delta_debt : Amount wad) (position : Position) (f : Figures)
    → calm delta_debt position f ≡ true
    → IsCalm delta_debt position f
unfolding calm
calm-IsCalm delta_debt position f h = ground arith

is_safe-IsSafe :
    (delta_collateral delta_debt : Amount wad) (f : Figures)
    → is_safe delta_collateral delta_debt f ≡ true
    → IsSafe delta_collateral delta_debt f
unfolding is_safe
is_safe-IsSafe delta_collateral delta_debt f h = ground arith

eqb-eq : (a b : ℤ) → eqb_ℤ a b ≡ true → a ≡ b
eqb-eq a b h = ground arith

eqb_refl : (a : ℤ) → eqb_ℤ a a ≡ true
eqb_refl a = ground arith

eqb-ne : (a b : ℤ) → eqb_ℤ a b ≡ false → a ≢ b
eqb-ne a b h = ground arith

reached :
    (none_left : Bool) (floor : Amount rad) (tab : Result (Amount rad))
    → (if none_left then ok true else map_result (at_most floor) tab) ≡ ok true
    → (none_left ≡ true) ⊎ ((t : Amount rad) × (tab ≡ ok t) × (floor.value ≤ℤ t.value))
reached true floor tab h = inl refl
reached false floor (ok t) h = inr (t, refl, ground arith)
reached false floor (err raised) h = ground arith

neat-IsNeat : (position : Position) (f : Figures) → neat position f ≡ ok true → IsNeat position f
unfolding neat
neat-IsNeat position f h =
    elim (reached (same position.generated_debt (amount (pos 0))) position.debt_floor
      (convert f.tab) h) [
        | inl nothing ↦ inl (eqb-eq position.generated_debt.value (pos 0) nothing)
        | inr enough ↦ inr enough
      ]

conditions-IsValid :
    (delta_collateral delta_debt : Amount wad) (position : Position) (f : Figures)
    → conditions delta_collateral delta_debt position f ≡ ok tt
    → IsCalm delta_debt position f × IsSafe delta_collateral delta_debt f × IsNeat position f
unfolding conditions
conditions-IsValid delta_collateral delta_debt position f h =
    let (floor, is_neat, passed) =
      bind_ok (neat position f)
        (λ n.
          guard (calm delta_debt position f && (is_safe delta_collateral delta_debt f && n))
            assertion_error)
        tt h in
    let (c, sn) =
      both_pass (calm delta_debt position f) (is_safe delta_collateral delta_debt f && floor) (
        guard_passed
          (calm delta_debt position f && (is_safe delta_collateral delta_debt f && floor))
          passed) in
    let (s, n) = both_pass (is_safe delta_collateral delta_debt f) floor sn in
    (
      calm-IsCalm delta_debt position f c,
      is_safe-IsSafe delta_collateral delta_debt f s,
      neat-IsNeat position f (is_neat ∙ ap ok n),
    )

check_position-IsValid :
    (engine : Contract) (delta_collateral delta_debt : Amount wad) (position : Position)
    → check_position engine delta_collateral delta_debt position ≡ ok tt
    → (f : Figures) × (figures engine delta_debt position ≡ ok f)
      × (position.rate.value ≢ pos 0)
      × IsCalm delta_debt position f
      × IsSafe delta_collateral delta_debt f
      × IsNeat position f
unfolding check_position
check_position-IsValid engine delta_collateral delta_debt position h =
    let (started, checked) =
      guard_ok (not (same position.rate (amount (pos 0))))
        (figures engine delta_debt position >>= conditions delta_collateral delta_debt position) tt
        h in
    let (f, found, passed) =
      bind_ok (figures engine delta_debt position) (conditions delta_collateral delta_debt position)
        tt checked in
    let (c, s, n) = conditions-IsValid delta_collateral delta_debt position f passed in
    (f, found, eqb-ne position.rate.value (pos 0) (ground arith), c, s, n)

validate-IsValid :
    (engine : Contract) (collateral_type : CollateralType) (account : ℕ)
    (delta_collateral delta_debt : Amount wad)
    → validate_safe_modification engine collateral_type account delta_collateral delta_debt ≡ ok tt
    → IsValid engine collateral_type account delta_collateral delta_debt
unfolding validate_safe_modification
validate-IsValid engine collateral_type account delta_collateral delta_debt h =
    let with_type : Safe → CollateralType → Result (Unit {0}) = λ safe found.
      modified delta_collateral delta_debt safe found
      >>= check_position engine delta_collateral delta_debt in
    let with_safe : Safe → Result (Unit {0}) =
      λ safe. Engine.collateral_type engine collateral_type.name >>= with_type safe in
    let enabled_only : Result (Unit {0}) =
      Engine.safe engine collateral_type account >>= with_safe in
    let (enabled, is_enabled, h1) =
      bind_ok (contract_enabled engine) (λ b. guard b assertion_error >> enabled_only) tt h in
    let (live, h2) = guard_ok enabled enabled_only tt h1 in
    let (safe, is_safe, h3) =
      bind_ok (Engine.safe engine collateral_type account) with_safe tt h2 in
    let (found, is_found, h4) =
      bind_ok (Engine.collateral_type engine collateral_type.name) (with_type safe) tt h3 in
    let (position, is_position, h5) =
      bind_ok (modified delta_collateral delta_debt safe found)
        (check_position engine delta_collateral delta_debt) tt h4 in
    let (f, is_f, rate, c, s, n) =
      check_position-IsValid engine delta_collateral delta_debt position h5 in
    (
      safe,
      found,
      position,
      f,
      is_enabled ∙ ap ok live,
      is_safe,
      is_found,
      is_position,
      is_f,
      rate,
      c,
      s,
      n,
    )

-- If `modify_safe_collateralization` has a transaction to send, then it is the one of the arguments,
-- and the modification fulfils the requirements of the contract.
pub modify_safe_collateralization-IsValid :
    (self : ℕ) (engine : Contract) (collateral_type : CollateralType) (account : ℕ)
    (delta_collateral delta_debt : Amount wad) (owner recipient : Option ℕ) (call : Call)
    → modify_safe_collateralization self engine collateral_type account delta_collateral delta_debt
        owner recipient
      ≡ ok call
    → (modification self collateral_type account delta_collateral delta_debt owner recipient ≡ call)
      × IsValid engine collateral_type account delta_collateral delta_debt
unfolding modify_safe_collateralization
modify_safe_collateralization-IsValid self engine collateral_type account delta_collateral
      delta_debt owner recipient call h =
    let (done, valid, sent) =
      bind_ok
        (validate_safe_modification engine collateral_type account delta_collateral delta_debt)
        (λ u.
          ok
            (modification self collateral_type account delta_collateral delta_debt owner recipient))
        call h in
    (ok_inj sent, validate-IsValid engine collateral_type account delta_collateral delta_debt valid)
