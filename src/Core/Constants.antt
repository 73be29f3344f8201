-- ===== src/Core/Constants.antt =====
-- src/core/constants.ts
use harp_ochestration.Prelude.{ℕ, String, List, [], ◌∷◌}
use harp_ochestration.Core.Ids.{
  RiskLevel, Permission, low, medium, high, critical, repo_write, schedule_create,
}

unfoldable pub approval_forcing_risk : List RiskLevel
approval_forcing_risk = high ∷ critical ∷ []

unfoldable pub state_changing_action_markers : List String
state_changing_action_markers =
    "repo.write" ∷ "repo:write" ∷ "schedule.create" ∷ "schedule:create" ∷ "deploy" ∷ "migration"
    ∷ "secrets" ∷ "auth.change" ∷ "billing" ∷ "delete" ∷ []

unfoldable pub risk_weight : RiskLevel → ℕ
risk_weight low = 1
risk_weight medium = 2
risk_weight high = 3
risk_weight critical = 4

abbrev pub default_workflow_token_budget : ℕ
default_workflow_token_budget = 200_000

unfoldable pub dangerous_permissions : List Permission
dangerous_permissions = repo_write ∷ schedule_create ∷ []

-- In tenths.
pub record Temperatures : Type 0 where
  pub evaluation : ℕ
  pub security_review : ℕ
  pub bug_investigation : ℕ
  pub approval_decision : ℕ
  pub code_review : ℕ
  pub implementation : ℕ
  pub creative : ℕ

abbrev pub temperature : Temperatures
temperature = record {
  evaluation = 1;
  security_review = 1;
  bug_investigation = 1;
  approval_decision = 0;
  code_review = 2;
  implementation = 2;
  creative = 7;
}

abbrev pub max_retries : ℕ
max_retries = 2

unfoldable pub context_rot_indicators : List String
context_rot_indicators =
    "references missing file" ∷ "contradicts current repo state" ∷ "relies on outdated decision"
    ∷ "unintended scope expansion" ∷ "treats prior agent output as ground truth" ∷ []
