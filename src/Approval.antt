-- ===== src/Approval.antt =====
-- `pyflex/approval.py` and `TxManager.approve` of `pyflex/transactional.py`: approvals of spenders.
-- The contracts' answers are arguments.
use pyflex.Base.{◌-◌, ◌^◌, Bool, true, false, List, [], ◌∷◌, if◌then◌else◌}
use pyflex.Base.Int.{ℤ, pos, ltb_ℤ}
use pyflex.Base.Results.{Result, Error, ok, err, ◌>>=◌}

-- A token: the allowance that it tells for the account and the spender, and whether the
-- transaction that approves the spender succeeds.
pub record Token : Type 0 where
  pub allowance : ℤ
  pub approve_succeeds : Bool

-- Whether a transaction was necessary; an exception if it has failed.
unfoldable pub approved_by : Bool → Bool → Result Bool
approved_by false succeeds = ok false
approved_by true true = ok true
approved_by true false = err Error.exception

-- `approval_function` of `directly`.
unfoldable pub directly : Token → Result Bool
unfolding approved_by
directly t = approved_by (ltb_ℤ t.allowance (pos (2 ^ 128 - 1))) t.approve_succeeds

-- `approval_function` of `via_tx_manager`, where the allowance is the one of the `TxManager`, and
-- the approval one of its batches.
unfoldable pub via_tx_manager : Token → Result Bool
unfolding approved_by
via_tx_manager t = approved_by (ltb_ℤ t.allowance (pos (2 ^ 128 - 1))) t.approve_succeeds

-- `approval_function` of `approve_safe_modification_directly`, by whether the spender has the right
-- already.
unfoldable pub approve_safe_modification_directly : Bool → Bool → Result Bool
unfolding approved_by
approve_safe_modification_directly has_right succeeds =
    approved_by (if has_right then false else true) succeeds

-- `TxManager.approve`
unfoldable pub approve : (Token → Result Bool) → List Token → Result (List Bool)
approve approval_function [] = ok []
approve approval_function (t ∷ tokens) = do
  b ← approval_function t
  bs ← approve approval_function tokens
  ok (b ∷ bs)
