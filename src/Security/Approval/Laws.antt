-- ===== src/Security/Approval/Laws.antt =====
-- Which actions the approval gate holds back.
use harp_ochestration.Prelude.{
  ℕ, String, true, ◌≡◌, ◌↔◌, ◌⊎◌, some, arith, decide, Bool-cases, inl, inr,
}
use harp_ochestration.Core.Ids.{high, critical, risk_level_eq, RiskLevel-discrete}
use harp_ochestration.Core.Records.{AgentTask, ApprovalRequest}
use harp_ochestration.Core.Runtime.{Runtime}
use harp_ochestration.Core.Errors.{ok}
use harp_ochestration.Security.Approval.{
  ApprovalProvider, is_state_changing, requires_approval, evaluate, waived,
}

-- The grounds on which an action must be approved.
abbrev pub IsGated : AgentTask → String → Type 0
IsGated task action =
    (task.risk_level ≡ high)
    ⊎ (task.risk_level ≡ critical)
    ⊎ (task.requires_repo_write ≡ some true)
    ⊎ (task.touches_secrets ≡ some true)
    ⊎ (is_state_changing action ≡ true)

-- Approval is required exactly when the risk is high or critical, the task writes to a repository
-- or touches secrets, or the action's name, in lower case, contains a state-changing marker.
pub requires_approval_iff :
    (task : AgentTask) (action : String)
    → (requires_approval task action ≡ true) ↔ IsGated task action
unfolding requires_approval RiskLevel-discrete decide
requires_approval_iff task action = ground arith

-- The gate lets an action through on its own exactly when nothing gates it; otherwise the answer
-- is the provider's, to the request as it stands.
pub evaluate_cases :
    (rt : Runtime) (provider : ApprovalProvider) (input : ApprovalRequest) (now : ℕ)
    → (IsGated input.task input.action × (evaluate rt provider input now ≡ provider input now))
      ⊎ ((¬ IsGated input.task input.action)
          × (evaluate rt provider input now ≡ ok (waived rt now)))
unfolding evaluate
evaluate_cases rt provider input now =
    elim (Bool-cases (requires_approval input.task input.action)) [
      | inl t ↦ inl ((requires_approval_iff input.task input.action).0 t, rw t)
      | inr f ↦ inr (λ g. cc ((requires_approval_iff input.task input.action).1 g), rw f)
    ]
