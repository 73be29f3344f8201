-- ===== src/Agents/Results/Approval.antt =====
-- When an agent's result asks for a human approval, and whose it is.
use harp_ochestration.Prelude.{
  String, true, false, ◌||◌, List, [], ◌∷◌, ◌++◌, Option, none, some, ◌≡◌, refl, ◌↔◌, ◌⊎◌, inl, inr,
  arith, ltb, length, length-append, All, Bool-cases, decide,
}
use harp_ochestration.Core.Ids.{
  AgentId, RiskLevel-discrete, pharaoh, horus_nexus, anubis_sentinel, ra, high, critical,
}
use harp_ochestration.Core.Records.{AgentTask, Artifact, AgentResult}
use harp_ochestration.Agents.Output.{ModelOutput}
use harp_ochestration.Agents.Results.{
  Making, is_high, is_sensitive, anubis_risks, sensitive_warning, pharaoh_result,
  horus_nexus_result, anubis_sentinel_result, ra_result, build_result, build_blocked_result,
  result_for, make_artifact,
}

abbrev pub IsHighRisk : AgentTask → Type 0
IsHighRisk task = (task.risk_level ≡ high) ⊎ (task.risk_level ≡ critical)

abbrev pub IsSensitive : AgentTask → Type 0
IsSensitive task =
    (task.requires_repo_write ≡ some true) ⊎ (task.touches_secrets ≡ some true) ⊎ IsHighRisk task

-- The grounds on which an agent asks for approval.
abbrev pub AsksForApproval : AgentId → Option ModelOutput → AgentTask → Type 0
AsksForApproval id none task = Unit {0}
AsksForApproval pharaoh (some o) task = IsHighRisk task
AsksForApproval horus_nexus (some o) task = ⊥
AsksForApproval anubis_sentinel (some o) task = IsSensitive task
AsksForApproval ra (some o) task = Unit {0}

is_sensitive_iff : (task : AgentTask) → (is_sensitive task ≡ true) ↔ IsSensitive task
unfolding RiskLevel-discrete decide
is_sensitive_iff task = ground arith

is_high_iff : (task : AgentTask) → (is_high task.risk_level ≡ true) ↔ IsHighRisk task
unfolding RiskLevel-discrete decide
is_high_iff task = ground arith

longer-append : (xs : List String) (x : String) → ltb (length xs) (length (xs ++ x ∷ [])) ≡ true
longer-append xs x = ground (arith, length-append xs (x ∷ []))

longer_self : (xs : List String) → ltb (length xs) (length xs) ≡ false
longer_self xs = ground arith

-- The added risk is what the comparison of the two lengths finds.
longer_iff :
    (o : ModelOutput) (task : AgentTask)
    → ((is_high task.risk_level || ltb (length o.risks) (length (anubis_risks o task))) ≡ true)
      ↔ IsSensitive task
longer_iff o task = elim (Bool-cases (is_sensitive task)) [
  | inl t ↦
      rw (t, longer-append o.risks sensitive_warning)
        ((λ h. (is_sensitive_iff task).0 t), (λ h. ground arith))
  | inr f ↦
      rw (f, longer_self o.risks)
        (
          (λ h. inr (inr ((is_high_iff task).0 (ground (arith, h))))),
          (λ h. ground (arith, (is_sensitive_iff task).1 h, f)),
        )
]

-- A result asks for approval exactly where the output could not be parsed, the agent is Ra, or the
-- agent is Pharaoh and the risk is high or critical, or it is Anubis Sentinel and the task is of such
-- a risk, writes to a repository or touches secrets. Horus Nexus asks for it only if it is blocked.
pub result_for-approval_iff :
    (id : AgentId) (parsed : Option ModelOutput) (raw : String) (m : Making)
    → ((result_for id parsed raw m).approval_required ≡ true)
      ↔ AsksForApproval id parsed m.context.task
unfolding result_for build_result build_blocked_result pharaoh_result horus_nexus_result
    anubis_sentinel_result ra_result
result_for-approval_iff id none raw m = (λ h. tt, λ h. refl)
result_for-approval_iff pharaoh (some o) raw m = is_high_iff m.context.task
result_for-approval_iff horus_nexus (some o) raw m = ground arith
result_for-approval_iff anubis_sentinel (some o) raw m = longer_iff o m.context.task
result_for-approval_iff ra (some o) raw m = (λ h. tt, λ h. refl)

-- A result of the agent, for the task and the workflow, with its artifacts.
pub record IsOwn (id : AgentId) (task_id : String) (workflow_id : String) (r : AgentResult)
    : Type 0 where
  pub named : r.agent_id ≡ id
  pub authored :
      All
        (λ (a : Artifact). (a.author ≡ id) × (a.task_id ≡ task_id) × (a.workflow_id ≡ workflow_id))
        r.artifacts

pub result_for-IsOwn :
    (id : AgentId) (parsed : Option ModelOutput) (raw : String) (m : Making)
    → IsOwn id m.context.task.id m.workflow_id (result_for id parsed raw m)
unfolding result_for build_result build_blocked_result pharaoh_result horus_nexus_result
    anubis_sentinel_result ra_result make_artifact
result_for-IsOwn id none raw m = record { named = refl; authored = ((refl, refl, refl), tt) }
result_for-IsOwn pharaoh (some o) raw m = record {
  named = refl;
  authored = ((refl, refl, refl), tt);
}
result_for-IsOwn horus_nexus (some o) raw m = record {
  named = refl;
  authored = ((refl, refl, refl), tt);
}
result_for-IsOwn anubis_sentinel (some o) raw m = record {
  named = refl;
  authored = ((refl, refl, refl), tt);
}
result_for-IsOwn ra (some o) raw m = record { named = refl; authored = ((refl, refl, refl), tt) }
