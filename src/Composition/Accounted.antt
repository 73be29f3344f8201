-- ===== src/Composition/Accounted.antt =====
-- The model calls of a whole workflow, as the model router records them.
use mathlib.Core.List.{append_assoc, append-nil, map-append}
use harp_ochestration.Prelude.{
  String, List, [], ◌∷◌, ◌++◌, Option, none, some, ◌≡◌, refl, sym, ap, ◌∙◌, map,
}
use harp_ochestration.Core.Ids.{AgentId}
use harp_ochestration.Core.Records.{
  AgentTask, ProjectContext, ScopedContext, AgentResult, Artifact, WorkflowResult,
}
use harp_ochestration.Core.Errors.{Result, ok, err}
use harp_ochestration.Security.Approval.{ApprovalProvider}
use harp_ochestration.Models.Router.{ModelCallRecord}
use harp_ochestration.Orchestration.Strategies.{CoordinationStrategy}
use harp_ochestration.Orchestration.Selector.{Selection, select}
use harp_ochestration.Orchestration.Workflow.{System, Job, Progress, start_progress}
use harp_ochestration.Orchestration.Orchestrator.{
  remember, execute_job, with_selection, execute, job_for,
}
use harp_ochestration.Orchestration.Orchestrator.Invariants.{Keeps, AfterRun, execute_job-Keeps}
use harp_ochestration.Agents.Registry.{Backend, Platform, execute_harp}
use harp_ochestration.Agents.Registry.Calls.{IsCalled, execute_harp-IsCalled}
use harp_ochestration.Composition.{harp_parts}
use harp_ochestration.Composition.Steps.{harp_parts-Keeps}

-- Who has called, and for which workflow.
abbrev pub callers : List ModelCallRecord → List (Option AgentId × Option String)
callers calls = map (λ c. (c.agent_id, c.workflow_id)) calls

abbrev pub authors_in : String → List AgentResult → List (Option AgentId × Option String)
authors_in w rs = map (λ r. (some r.agent_id, some w)) rs

-- The router has recorded the calls of the results behind those of the start.
record IsAccounted {W : Type 0} (origin : List ModelCallRecord) (w : String) (p : Progress)
    (s : System (Backend W)) : Type 0 where
  calls : List ModelCallRecord
  grown : s.world.router.records ≡ origin ++ calls
  matched : callers calls ≡ authors_in w p.results

module _ {W : Type 0} where
  pub remember-world : (found : List Artifact) (s : System W) → (remember found s).world ≡ s.world
  remember-world [] s = refl
  remember-world (a ∷ more) s = remember-world more _

module _ {W : Type 0} (platform : Platform W) (approval : ApprovalProvider) (job : Job)
    (origin : List ModelCallRecord) where
  run-IsAccounted :
      (id : AgentId) (context : ScopedContext) (p : Progress) (s : System (Backend W))
      (x : Result AgentResult × System (Backend W))
      → IsCalled platform id context job.workflow_id s.world.router.records x
      → IsAccounted origin job.workflow_id p s
      → AfterRun (IsAccounted origin job.workflow_id) id p x
  run-IsAccounted id context p s (err e, t) same h = record {
    calls = h.calls;
    grown = same ∙ h.grown;
    matched = h.matched;
  }
  run-IsAccounted id context p s (ok r, t) (c, g, a, w, named) h = record {
    calls = h.calls ++ c ∷ [];
    grown =
        ap (λ (v : Backend W). v.router.records) (remember-world r.artifacts t)
        ∙ g
        ∙ ap (λ l. l ++ c ∷ []) h.grown
        ∙ append_assoc origin h.calls (c ∷ []);
    matched =
        map-append (λ (d : ModelCallRecord). (d.agent_id, d.workflow_id)) h.calls (c ∷ [])
        ∙ ap (λ l. l ++ (c.agent_id, c.workflow_id) ∷ []) h.matched
        ∙ ap (λ k. authors_in job.workflow_id p.results ++ k ∷ []) (rw (a, w, named) refl)
        ∙ sym (
            map-append (λ (q : AgentResult). (some q.agent_id, some job.workflow_id)) p.results
              (r ∷ []));
  }

  kept : Keeps (harp_parts platform approval) job (IsAccounted origin job.workflow_id)
  kept =
      harp_parts-Keeps platform approval job (IsAccounted origin job.workflow_id)
        (λ id context p s h.
          run-IsAccounted id context p s
            (execute_harp platform id job.task.id context job.workflow_id s)
            (execute_harp-IsCalled platform id context job.workflow_id job.task.id s) h)
        (λ entry p s h. record { calls = h.calls; grown = h.grown; matched = h.matched })
        (λ n p s h. record { calls = h.calls; grown = h.grown; matched = h.matched })
        (λ d n p s h. record { calls = h.calls; grown = h.grown; matched = h.matched })

module _ {W : Type 0} (platform : Platform W) (approval : ApprovalProvider) where
  -- What is claimed of a result, over the records before and behind it.
  abbrev pub Accounts : List ModelCallRecord → Result WorkflowResult × System (Backend W) → Type 0
  Accounts before (err e, t) = t.world.router.records ≡ before
  Accounts before (ok r, t) =
      (calls : List ModelCallRecord) × (t.world.router.records ≡ before ++ calls)
      × (callers calls ≡ authors_in r.id r.agent_results)

  execute_job-Accounts :
      (job : Job) (selection : Selection) (s : System (Backend W))
      → let x = execute_job (harp_parts platform approval) job selection s in
        Accounts s.world.router.records (ok x.0, x.1)
  execute_job-Accounts job selection s =
      let origin = s.world.router.records in
      let start : IsAccounted origin job.workflow_id start_progress s = record {
        calls = [];
        grown = sym (append-nil origin);
        matched = refl;
      } in
      let (p, h, shows) =
        execute_job-Keeps (harp_parts platform approval) job (IsAccounted origin job.workflow_id)
          (kept platform approval job origin) selection s start in
      (h.calls, h.grown, rw (shows.agent_results, shows.id) h.matched)

  with_selection-Accounts :
      (task : AgentTask) (project : ProjectContext) (force : Option CoordinationStrategy)
      (o : Option Selection) (s : System (Backend W))
      → Accounts s.world.router.records
          (with_selection (harp_parts platform approval) task project force o s)
  with_selection-Accounts task project force none s = refl
  with_selection-Accounts task project force (some selection) s =
      let parts = harp_parts platform approval in
      execute_job-Accounts (job_for parts.runtime task project force selection s) selection s

  -- Over a whole workflow of the four agents, however it ends, the model router records one call for
  -- each result, in the order of the results, under the author of the result and the id of the
  -- workflow, and no other call.
  pub execute-Accounts :
      (task : AgentTask) (project : ProjectContext) (force : Option CoordinationStrategy)
      (s : System (Backend W))
      → Accounts s.world.router.records
          (execute (harp_parts platform approval) task project force s)
  unfolding execute
  execute-Accounts task project force s = with_selection-Accounts task project force (select task) s
