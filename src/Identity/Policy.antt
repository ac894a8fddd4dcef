-- ===== src/Identity/Policy.antt =====
-- services/identity-delegation/identity_delegation/policy.py.
use porfirium.Prelude.{ℕ, Bool, not, List, ◌++◌, Result, ◌>>◌, raise_if, Text, codes, contains}
use porfirium.Identity.Claims.{
  Problem, run_cancelled, model_forbidden, tool_grant_missing, delegated_scope_missing,
}

pub record RunGrant : Type 0 where
  pub run_id : Text
  pub attempt_id : Text
  pub lease_epoch : ℕ
  pub models : List Text
  pub tools : List Text
  pub cancelled : Bool

-- `f"tool:{tool}"`
abbrev pub tool_scope : Text → Text
tool_scope tool = codes "tool:" ++ tool

unfoldable pub authorize_model : RunGrant → Text → Result Problem (Unit {0})
authorize_model run model = do
  raise_if run.cancelled run_cancelled
  raise_if (not (contains model run.models)) model_forbidden

unfoldable pub authorize_tool : RunGrant → Text → List Text → Result Problem (Unit {0})
authorize_tool run tool delegated_scopes = do
  raise_if run.cancelled run_cancelled
  raise_if (not (contains tool run.tools)) tool_grant_missing
  raise_if (not (contains (tool_scope tool) delegated_scopes)) delegated_scope_missing
