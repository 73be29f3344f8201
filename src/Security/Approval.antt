-- ===== src/Security/Approval.antt =====
-- src/security/ApprovalGate.ts
pub mod Laws
use harp_ochestration.Prelude.{
  ℕ, String, Bool, true, false, ◌||◌, List, Option, none, some, if◌then◌else◌, any, contains,
  is_true, lower_case, includes, codes, ◌⧺◌, decide,
}
use harp_ochestration.Core.Ids.{risk_level_eq, RiskLevel-discrete}
use harp_ochestration.Core.Records.{AgentTask, ApprovalDecision, ApprovalRequest}
use harp_ochestration.Core.Constants.{approval_forcing_risk, state_changing_action_markers}
use harp_ochestration.Core.Runtime.{Runtime}
use harp_ochestration.Core.Errors.{Result, ok}

-- A provider answers at a time, or throws.
abbrev pub ApprovalProvider : Type 0
ApprovalProvider = ApprovalRequest → ℕ → Result ApprovalDecision

unfoldable pub console_approval : Runtime → ApprovalProvider
console_approval rt input now = ok (record {
  required = true;
  approved = false;
  reason =
      "Approval required for phase \"" ⧺ input.phase ⧺ "\" (action: " ⧺ input.action ⧺ "). "
      ⧺ "Console logging is not a production approval mechanism; route this to a human approval UI, PR review, or signed approval event.";
  approver_id = none;
  timestamp = rt.iso_date now;
})

unfoldable pub auto_approve : Runtime → String → ApprovalProvider
auto_approve rt approver input now = ok (record {
  required = true;
  approved = true;
  reason = "Auto-approved for " ⧺ input.phase ⧺ ".";
  approver_id = some approver;
  timestamp = rt.iso_date now;
})

-- `STATE_CHANGING_ACTION_MARKERS.some((marker) => normalised.includes(marker))`
unfoldable pub is_state_changing : String → Bool
unfolding state_changing_action_markers lower_case includes
is_state_changing action =
    any (λ marker. includes (lower_case action) (codes marker)) state_changing_action_markers

unfoldable pub requires_approval : AgentTask → String → Bool
unfolding approval_forcing_risk
requires_approval task action =
    if contains approval_forcing_risk task.risk_level
    then true
    else if is_true task.requires_repo_write || is_true task.touches_secrets
    then true
    else is_state_changing action

-- The decision on an action that needs no approval.
unfoldable pub waived : Runtime → ℕ → ApprovalDecision
waived rt now = record {
  required = false;
  approved = true;
  reason = "Approval not required.";
  approver_id = none;
  timestamp = rt.iso_date now;
}

unfoldable pub evaluate : Runtime → ApprovalProvider → ApprovalRequest → ℕ → Result ApprovalDecision
evaluate rt provider input now =
    if requires_approval input.task input.action then provider input now else ok (waived rt now)
