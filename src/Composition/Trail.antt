-- ===== src/Composition/Trail.antt =====
-- The audit log and the artifact store over a whole workflow.
use mathlib.Core.List.{append_assoc, append-nil}
use harp_ochestration.Prelude.{String, List, [], ◌∷◌, ◌++◌, Option, ◌≡◌, refl, sym, ap, ◌∙◌}
use harp_ochestration.Core.Ids.{AgentId}
use harp_ochestration.Core.Records.{
  AgentTask, ProjectContext, ScopedContext, AgentResult, Artifact, AuditEvent, WorkflowResult,
}
use harp_ochestration.Core.Errors.{Result, ok, err}
use harp_ochestration.Security.Approval.{ApprovalProvider}
use harp_ochestration.Storage.Audit.{write}
use harp_ochestration.Storage.Memory.{append}
use harp_ochestration.Orchestration.Strategies.{CoordinationStrategy}
use harp_ochestration.Orchestration.Workflow.{System, Job, Progress}
use harp_ochestration.Orchestration.Orchestrator.{remember, execute}
use harp_ochestration.Orchestration.Orchestrator.Invariants.{Keeps, AfterRun, Leaves, execute-Keeps}
use harp_ochestration.Agents.Registry.{Backend, Platform, execute_harp}
use harp_ochestration.Agents.Registry.Execution.{IsReported, execute_harp-IsReported}
use harp_ochestration.Composition.{harp_parts}
use harp_ochestration.Composition.Steps.{harp_parts-Keeps}

-- A log or a store that has grown twice has grown.
grown :
    {A : Type 0} (xs ys zs : List A)
    → (new : List A) × (ys ≡ xs ++ new)
    → (new : List A) × (zs ≡ ys ++ new)
    → (new : List A) × (zs ≡ xs ++ new)
grown xs ys zs (n, e) (m, f) = (n ++ m, f ∙ ap (λ l. l ++ m) e ∙ append_assoc xs n m)

module _ {W : Type 0} where
  -- Nothing of the log or of the store is lost or changed; there may be more behind it.
  pub record Extends (before after : System W) : Type 0 where
    pub logged : (new : List AuditEvent) × (after.events ≡ before.events ++ new)
    pub stored : (new : List Artifact) × (after.memory ≡ before.memory ++ new)

  Extends_refl : (s : System W) → Extends s s
  Extends_refl s = record {
    logged = ([], sym (append-nil s.events));
    stored = ([], sym (append-nil s.memory));
  }

  Extends_trans : (s t u : System W) → Extends s t → Extends t u → Extends s u
  Extends_trans s t u h k = record {
    logged = grown s.events t.events u.events h.logged k.logged;
    stored = grown s.memory t.memory u.memory h.stored k.stored;
  }

  pub remember-memory :
      (found : List Artifact) (s : System W) → (remember found s).memory ≡ s.memory ++ found
  unfolding append
  remember-memory [] s = sym (append-nil s.memory)
  remember-memory (a ∷ more) s =
      remember-memory more (record s { memory = append a s.memory })
      ∙ append_assoc s.memory (a ∷ []) more

  remember-events : (found : List Artifact) (s : System W) → (remember found s).events ≡ s.events
  remember-events [] s = refl
  remember-events (a ∷ more) s = remember-events more (record s { memory = append a s.memory })

  remember-Extends : (found : List Artifact) (s : System W) → Extends s (remember found s)
  remember-Extends found s = record {
    logged = ([], remember-events found s ∙ sym (append-nil s.events));
    stored = (found, remember-memory found s);
  }

module _ {W : Type 0} (platform : Platform W) (approval : ApprovalProvider) where
  run-Extends :
      (origin : System (Backend W)) (id : AgentId) (context : ScopedContext) (workflow_id : String)
      (p : Progress) (s : System (Backend W)) (x : Result AgentResult × System (Backend W))
      → IsReported platform id context workflow_id s x
      → Extends origin s
      → AfterRun (λ q t. Extends origin t) id p x
  unfolding IsReported
  run-Extends origin id context workflow_id p s (err e, t) (m, l) h =
      Extends_trans origin s t h
        (record { logged = (_, l); stored = ([], m ∙ sym (append-nil s.memory)) })
  run-Extends origin id context workflow_id p s (ok r, t) (m, own, (done, l, a, b, c)) h =
      Extends_trans origin t (remember r.artifacts t)
        (Extends_trans origin s t h (record {
          logged = grown s.events _ t.events (_, refl) (_, l);
          stored = ([], m ∙ sym (append-nil s.memory));
        }))
        (remember-Extends r.artifacts t)

  kept :
      (origin : System (Backend W)) (job : Job)
      → Keeps (harp_parts platform approval) job (λ p s. Extends origin s)
  unfolding write append
  kept origin job =
      harp_parts-Keeps platform approval job (λ p s. Extends origin s)
        (λ id context p s h.
          run-Extends origin id context job.workflow_id p s
            (execute_harp platform id job.task.id context job.workflow_id s)
            (execute_harp-IsReported platform id job.task.id context job.workflow_id s) h)
        (λ entry p s h.
          Extends_trans origin s _ h
            (record { logged = (_, refl); stored = ([], sym (append-nil s.memory)) }))
        (λ n p s h. record { logged = h.logged; stored = h.stored })
        (λ d n p s h. Extends_trans origin s _ h (remember-Extends (_ ∷ []) s))

  left-Extends :
      (origin : System (Backend W)) (x : Result WorkflowResult × System (Backend W))
      → Leaves (harp_parts platform approval) (λ p s. Extends origin s) (kept origin) x
      → Extends origin x.1
  left-Extends origin (ok r, s) (job, p, h, e) = h
  left-Extends origin (err e, s) h = h

  -- Over a whole workflow of the four agents, however it ends, the audit log and the artifact store
  -- only grow: what was there stands unchanged in front of what is new.
  pub execute-Extends :
      (task : AgentTask) (project : ProjectContext) (force : Option CoordinationStrategy)
      (s : System (Backend W))
      → Extends s (execute (harp_parts platform approval) task project force s).1
  execute-Extends task project force s = left-Extends s _ (
      execute-Keeps (harp_parts platform approval) (λ p t. Extends s t) (kept s) task project force
        s (Extends_refl s))
