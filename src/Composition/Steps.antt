-- ===== src/Composition/Steps.antt =====
-- When a predicate is kept by the steps of a workflow over the registered agents.
use harp_ochestration.Prelude.{ℕ, [], ◌∷◌, ◌++◌, subst}
use harp_ochestration.Core.Ids.{AgentId}
use harp_ochestration.Core.Records.{ScopedContext, AuditEntry, ApprovalDecision}
use harp_ochestration.Security.Approval.{ApprovalProvider}
use harp_ochestration.Orchestration.Workflow.{System, Agent, Job, Progress, approval_artifact}
use harp_ochestration.Orchestration.Orchestrator.{audit, remember}
use harp_ochestration.Orchestration.Orchestrator.Invariants.{Keeps, AfterRun}
use harp_ochestration.Agents.Registry.{Backend, Platform, execute_harp}
use harp_ochestration.Agents.Registry.Execution.{get_agent_unique}
use harp_ochestration.Composition.{harp_parts}

module _ {W : Type 0} (platform : Platform W) (approval : ApprovalProvider) (job : Job)
    (P : Progress → System (Backend W) → Type 0) where
  -- The scoping of a context only reads the time, and the registry gives the agents' own runs.
  pub harp_parts-Keeps :
      ((id : AgentId) (context : ScopedContext) (p : Progress) (s : System (Backend W))
        → P p s
        → AfterRun P id p (execute_harp platform id job.task.id context job.workflow_id s))
      → ((entry : AuditEntry) (p : Progress) (s : System (Backend W))
          → P p s
          → P p (audit platform.runtime entry s))
      → ((n : ℕ) (p : Progress) (s : System (Backend W)) → P p s → P p (record s { ticks = n }))
      → ((d : ApprovalDecision) (n : ℕ) (p : Progress) (s : System (Backend W))
          → P p s
          → let a = approval_artifact platform.runtime job d n in
            P (record p { artifacts = p.artifacts ++ a ∷ [] }) (remember (a ∷ []) s))
      → Keeps (harp_parts platform approval) job P
  unfolding harp_parts
  harp_parts-Keeps runs audits ticks stores = record {
    scoping = λ id task project prior p s h. ticks _ p s h;
    running = λ id execute context p s e h.
        subst (λ (a : Agent (Backend W)). AfterRun P id p (a job.task.id context job.workflow_id s))
          (get_agent_unique platform id execute e) (runs id context p s h);
    auditing = audits;
    ticking = ticks;
    storing = stores;
  }
