-- ===== src/Composition/Approved.antt =====
-- No workflow of the four agents completes with Ra's work unapproved.
use harp_ochestration.Prelude.{
  ℕ, String, true, false, List, [], ◌∷◌, ◌++◌, Option, none, some, ◌≡◌, refl, ap, subst, ◌∙◌, ◌⊎◌,
  map, Elem, arith,
}
use mathlib.Core.List.{map-append}
use harp_ochestration.Core.Ids.{AgentId, ra, completed, approval_required}
use harp_ochestration.Core.Records.{
  AgentTask, ProjectContext, ScopedContext, AgentResult, WorkflowResult, ApprovalDecision,
  ApprovalRequest,
}
use harp_ochestration.Core.Errors.{Result, ok, err}
use harp_ochestration.Security.Approval.{ApprovalProvider}
use harp_ochestration.Orchestration.Strategies.{CoordinationStrategy}
use harp_ochestration.Orchestration.Selector.{Selection, select}
use harp_ochestration.Orchestration.Workflow.{
  System, Job, Progress, LoopEnd, finished, held, threw, start_progress,
}
use harp_ochestration.Orchestration.Orchestrator.{
  end_workflow, complete, handle_failure, result_of, execute_job, with_selection, execute, job_for,
  hold_back,
}
use harp_ochestration.Orchestration.Orchestrator.Runs.{run_sequence-Ends}
use harp_ochestration.Orchestration.Orchestrator.Approvals.{
  IsApproved, RaIsApproved, run_sequence-RaIsApproved,
}
use harp_ochestration.Orchestration.Orchestrator.Invariants.{
  Keeps, AfterRun, AtEnd, run_sequence-Keeps,
}
use harp_ochestration.Agents.Registry.{Backend, Platform, execute_harp}
use harp_ochestration.Agents.Registry.Execution.{IsReported, execute_harp-IsReported}
use harp_ochestration.Composition.{harp_parts}
use harp_ochestration.Composition.Steps.{harp_parts-Keeps}

abbrev pub authors : List AgentResult → List AgentId
authors rs = map (λ r. r.agent_id) rs

-- The results are those of the agents that have run.
abbrev Matches : {W : Type 0} → Progress → System W → Type 0
Matches p s = authors p.results ≡ p.completed_agents

-- The provider has let a write to the repository through for the task.
abbrev pub HasApproval : ApprovalProvider → AgentTask → Type 0
HasApproval provider task =
    (input : ApprovalRequest) × (now : ℕ) × (d : ApprovalDecision) × (input.task ≡ task)
    × (input.action ≡ "repo.write")
    × (provider input now ≡ ok d)
    × ((d.required ≡ false) ⊎ (d.approved ≡ true))

module _ {W : Type 0} (platform : Platform W) (approval : ApprovalProvider) where
  run-Matches :
      (id : AgentId) (context : ScopedContext) (workflow_id : String) (p : Progress)
      (s : System (Backend W)) (x : Result AgentResult × System (Backend W))
      → IsReported platform id context workflow_id s x
      → authors p.results ≡ p.completed_agents
      → AfterRun Matches id p x
  unfolding IsReported
  run-Matches id context workflow_id p s (err e, t) h m = m
  run-Matches id context workflow_id p s (ok r, t) (same, own, done) m =
      map-append (λ (q : AgentResult). q.agent_id) p.results (r ∷ [])
      ∙ ap (λ l. l ++ r.agent_id ∷ []) m
      ∙ ap (λ i. p.completed_agents ++ i ∷ []) own.named

  kept : (job : Job) → Keeps (harp_parts platform approval) job Matches
  kept job =
      harp_parts-Keeps platform approval job Matches
        (λ id context p s h.
          run-Matches id context job.workflow_id p s
            (execute_harp platform id job.task.id context job.workflow_id s)
            (execute_harp-IsReported platform id job.task.id context job.workflow_id s) h)
        (λ entry p s h. h) (λ n p s h. h) (λ d n p s h. h)

  -- A workflow that is held back is not completed.
  abbrev HeldBack : LoopEnd × Progress × System (Backend W) → Type 0
  HeldBack (finished, p, s) = Unit {0}
  HeldBack (held r, p, s) = r.status ≡ approval_required
  HeldBack (threw e, p, s) = Unit {0}

  -- What is claimed of a result.
  abbrev pub IsSanctioned : AgentTask → Result WorkflowResult → Type 0
  IsSanctioned task (err e) = Unit {0}
  IsSanctioned task (ok r) =
      r.status ≡ completed → Elem ra (authors r.agent_results) → HasApproval approval task

  end-IsSanctioned :
      (job : Job) (x : LoopEnd × Progress × System (Backend W))
      → HeldBack x
      → RaIsApproved (harp_parts platform approval) job x
      → AtEnd job Matches x
      → IsSanctioned job.task (ok (end_workflow platform.runtime job x).0)
  unfolding end_workflow complete handle_failure result_of harp_parts
  end-IsSanctioned job (finished, p, s) h a m =
      λ c e. unfold RaIsApproved IsApproved in a (subst (Elem ra) m e)
  end-IsSanctioned job (held r, p, s) h a m = λ c e. ground (arith, h, c)
  end-IsSanctioned job (threw e', p, s) h a m = λ c e. ground (arith, c)

  with_selection-IsSanctioned :
      (task : AgentTask) (project : ProjectContext) (force : Option CoordinationStrategy)
      (o : Option Selection) (s : System (Backend W))
      → IsSanctioned task (with_selection (harp_parts platform approval) task project force o s).0
  unfolding execute_job hold_back result_of
  with_selection-IsSanctioned task project force none s = tt
  with_selection-IsSanctioned task project force (some selection) s =
      let parts = harp_parts platform approval in
      let job = job_for parts.runtime task project force selection s in
      unfold harp_parts in
      end-IsSanctioned job _
        (run_sequence-Ends HeldBack parts job (λ e p t. tt) (λ p t. tt) (λ d p t. refl)
          (job.strategy.select_sequence task) start_progress _)
        (run_sequence-RaIsApproved parts job (job.strategy.select_sequence task) _)
        (run_sequence-Keeps parts job Matches (kept job) (job.strategy.select_sequence task)
          start_progress _ refl)

  execute-IsSanctioned :
      (task : AgentTask) (project : ProjectContext) (force : Option CoordinationStrategy)
      (s : System (Backend W))
      → IsSanctioned task (execute (harp_parts platform approval) task project force s).0
  unfolding execute
  execute-IsSanctioned task project force s =
      with_selection-IsSanctioned task project force (select task) s

-- When a workflow of the four agents is returned as completed and Ra is the author of one of its
-- results, the approval provider has let a write to the repository through for the task. It holds
-- for every strategy, chosen or forced, and at every risk.
pub execute-HasApproval :
    {W : Type 0} (platform : Platform W) (approval : ApprovalProvider) (task : AgentTask)
    (project : ProjectContext) (force : Option CoordinationStrategy) (s : System (Backend W))
    (r : WorkflowResult)
    → (execute (harp_parts platform approval) task project force s).0 ≡ ok r
    → r.status ≡ completed
    → Elem ra (authors r.agent_results)
    → HasApproval approval task
execute-HasApproval platform approval task project force s r e =
    subst (IsSanctioned platform approval task) e
      (execute-IsSanctioned platform approval task project force s)
