-- ===== src/Core/Errors.antt =====
-- The errors that the program throws, and results that are a value or such an error.
use harp_ochestration.Prelude.{ℕ, String, ◌⧺◌, Option, decimal}
use harp_ochestration.Core.Ids.{AgentId, Permission, agent_name, permission_name}

pub data HarpError : Type 0 where
  -- `new Error(message)`
  plain : (message : String) → HarpError
  -- `TokenBudgetExceededError` of src/models/ModelRouter.ts
  token_budget_exceeded : (workflow_id : String) (used budget : ℕ) → HarpError
  -- `PermissionDeniedError` of src/security/PermissionGuard.ts
  permission_denied : AgentId → Permission → HarpError
  -- `ConciergeError` of src/gateway/concierge/Concierge.ts
  concierge_error : (message : String) (last_kind : Option String) → HarpError
  -- `CertificatePolicyError` of src/gateway/security/CertificateProvider.ts
  certificate_policy_error : (message : String) → HarpError

-- `error.message`
unfoldable pub message_of : HarpError → String
message_of (plain m) = m
message_of (token_budget_exceeded w used budget) =
    "Token budget exceeded for workflow "
    ⧺ w
    ⧺ ": used "
    ⧺ decimal used
    ⧺ " of "
    ⧺ decimal budget
    ⧺ "."
message_of (permission_denied a p) =
    "Agent " ⧺ agent_name a ⧺ " does not have permission: " ⧺ permission_name p
message_of (concierge_error m _) = m
message_of (certificate_policy_error m) = m

pub data Result {ℓ} (A : Type ℓ) : Type ℓ where
  ok : A → Result A
  err : HarpError → Result A
