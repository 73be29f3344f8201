-- ===== src/Composition/Stored.antt =====
-- What a workflow of the four agents leaves in the artifact store.
use mathlib.Core.List.{append_assoc, append-nil}
use harp_ochestration.Prelude.{
  String, List, [], ◌∷◌, ◌++◌, Option, none, some, ◌≡◌, refl, sym, ap, ◌∙◌, ◌==◌, string_eq, eq_iff,
  filter, filter-append, filter-All, All, All-append, All-imp,
}
use harp_ochestration.Core.Ids.{AgentId}
use harp_ochestration.Core.Records.{
  AgentTask, ProjectContext, ScopedContext, AgentResult, Artifact, WorkflowResult,
}
use harp_ochestration.Core.Errors.{Result, ok, err}
use harp_ochestration.Security.Approval.{ApprovalProvider}
use harp_ochestration.Storage.Memory.{by_workflow}
use harp_ochestration.Orchestration.Strategies.{CoordinationStrategy}
use harp_ochestration.Orchestration.Selector.{Selection, select}
use harp_ochestration.Orchestration.Workflow.{
  System, Job, Progress, start_progress, approval_artifact,
}
use harp_ochestration.Orchestration.Orchestrator.{
  remember, execute_job, with_selection, execute, job_for,
}
use harp_ochestration.Orchestration.Orchestrator.Invariants.{Keeps, AfterRun, execute_job-Keeps}
use harp_ochestration.Agents.Registry.{Backend, Platform, execute_harp}
use harp_ochestration.Agents.Registry.Execution.{IsReported, execute_harp-IsReported}
use harp_ochestration.Composition.{harp_parts}
use harp_ochestration.Composition.Steps.{harp_parts-Keeps}
use harp_ochestration.Composition.Trail.{remember-memory}

abbrev BelongsTo : String → Artifact → Type 0
BelongsTo w a = a.workflow_id ≡ w

-- The store holds the artifacts of the progress behind those of the start, and they are of the
-- workflow.
record IsStored {W : Type 0} (origin : List Artifact) (w : String) (p : Progress) (s : System W)
    : Type 0 where
  stored : s.memory ≡ origin ++ p.artifacts
  owned : All (BelongsTo w) p.artifacts

module _ {W : Type 0} (origin : List Artifact) (w : String) where
  -- More artifacts of the workflow, in the progress and in the store.
  more-IsStored :
      (found : List Artifact) (p q : Progress) (s t : System W)
      → All (BelongsTo w) found
      → q.artifacts ≡ p.artifacts ++ found
      → t.memory ≡ s.memory
      → IsStored origin w p s
      → IsStored origin w q (remember found t)
  more-IsStored found p q s t own e m h = record {
    stored =
        remember-memory found t
        ∙ ap (λ l. l ++ found) (m ∙ h.stored)
        ∙ append_assoc origin p.artifacts found
        ∙ ap (λ l. origin ++ l) (sym e);
    owned = rw e (All-append (BelongsTo w) p.artifacts found h.owned own);
  }

module _ {W : Type 0} (platform : Platform W) (approval : ApprovalProvider) (job : Job)
    (origin : List Artifact) where
  run-IsStored :
      (id : AgentId) (context : ScopedContext) (p : Progress) (s : System (Backend W))
      (x : Result AgentResult × System (Backend W))
      → IsReported platform id context job.workflow_id s x
      → IsStored origin job.workflow_id p s
      → AfterRun (IsStored origin job.workflow_id) id p x
  unfolding IsReported
  run-IsStored id context p s (err e, t) (m, l) h = record {
    stored = m ∙ h.stored;
    owned = h.owned;
  }
  run-IsStored id context p s (ok r, t) (m, own, done) h =
      more-IsStored origin job.workflow_id r.artifacts p _ s t
        (All-imp _ _ (λ a q. q.2) r.artifacts own.authored) refl m h

  kept : Keeps (harp_parts platform approval) job (IsStored origin job.workflow_id)
  unfolding approval_artifact
  kept =
      harp_parts-Keeps platform approval job (IsStored origin job.workflow_id)
        (λ id context p s h.
          run-IsStored id context p s
            (execute_harp platform id job.task.id context job.workflow_id s)
            (execute_harp-IsReported platform id job.task.id context job.workflow_id s) h)
        (λ entry p s h. record { stored = h.stored; owned = h.owned })
        (λ n p s h. record { stored = h.stored; owned = h.owned })
        (λ d n p s h. more-IsStored origin job.workflow_id (_ ∷ []) p _ s s (refl, tt) refl refl h)

  -- What the end of the workflow shows of the store.
  execute_job-IsStored :
      (selection : Selection) (s : System (Backend W))
      → s.memory ≡ origin
      → let (r, t) = execute_job (harp_parts platform approval) job selection s in
        (t.memory ≡ origin ++ r.artifacts)
        × (r.id ≡ job.workflow_id)
        × All (BelongsTo job.workflow_id) r.artifacts
  execute_job-IsStored selection s e =
      let start : IsStored origin job.workflow_id start_progress s = record {
        stored = e ∙ sym (append-nil origin);
        owned = tt;
      } in
      let (p, h, shows) =
        execute_job-Keeps (harp_parts platform approval) job (IsStored origin job.workflow_id) kept
          selection s start in
      (h.stored ∙ ap (λ l. origin ++ l) (sym shows.artifacts), shows.id, rw shows.artifacts h.owned)

-- Artifacts of a workflow pass the test of `byWorkflow`.
by_workflow-own :
    (w : String) (xs own : List Artifact)
    → All (BelongsTo w) own
    → by_workflow w (xs ++ own) ≡ by_workflow w xs ++ own
unfolding by_workflow
by_workflow-own w xs own h =
    let test = λ (a : Artifact). a.workflow_id == w in
    filter-append test xs own
    ∙ ap (λ l. filter test xs ++ l)
        (filter-All test own (All-imp _ _ (λ a e. (eq_iff a.workflow_id w).1 e) own h))

module _ {W : Type 0} (platform : Platform W) (approval : ApprovalProvider) where
  -- What is claimed of a result, over the store before and behind it.
  abbrev pub Stores : List Artifact → Result WorkflowResult × System (Backend W) → Type 0
  Stores before (err e, t) = t.memory ≡ before
  Stores before (ok r, t) =
      (t.memory ≡ before ++ r.artifacts)
      × (by_workflow r.id t.memory ≡ by_workflow r.id before ++ r.artifacts)

  with_selection-Stores :
      (task : AgentTask) (project : ProjectContext) (force : Option CoordinationStrategy)
      (o : Option Selection) (s : System (Backend W))
      → Stores s.memory (with_selection (harp_parts platform approval) task project force o s)
  with_selection-Stores task project force none s = refl
  with_selection-Stores task project force (some selection) s =
      let parts = harp_parts platform approval in
      let job = job_for parts.runtime task project force selection s in
      let (e, same, own) = execute_job-IsStored platform approval job s.memory selection s refl in
      (e, rw e (by_workflow-own _ s.memory _ (rw same own)))

  -- Over a whole workflow of the four agents, however it ends, the artifact store gains exactly the
  -- artifacts of the result, in their order, and each of them is found under the result's id: of a
  -- workflow whose id is new, `byWorkflow` returns the artifacts of its result.
  pub execute-Stores :
      (task : AgentTask) (project : ProjectContext) (force : Option CoordinationStrategy)
      (s : System (Backend W))
      → Stores s.memory (execute (harp_parts platform approval) task project force s)
  unfolding execute
  execute-Stores task project force s = with_selection-Stores task project force (select task) s
