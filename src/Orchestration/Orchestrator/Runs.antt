-- ===== src/Orchestration/Orchestrator/Runs.antt =====
-- How a workflow comes to its end, and what its last event says.
use harp_ochestration.Prelude.{
  String, not, ◌||◌, List, [], ◌∷◌, ◌++◌, Option, none, some, ◌≡◌, refl, ◌⊎◌, inl, inr, arith,
  Bool-cases, ◌==◌,
}
use harp_ochestration.Core.Ids.{AgentId, agent_id_eq, ra, completed, approval_required, failed}
use harp_ochestration.Core.Records.{
  AgentTask, ProjectContext, AgentResult, WorkflowResult, AuditEvent, ApprovalDecision,
}
use harp_ochestration.Core.Runtime.{Runtime}
use harp_ochestration.Core.Errors.{HarpError, Result, ok, err}
use harp_ochestration.Storage.Audit.{write, saved}
use harp_ochestration.Orchestration.Strategies.{CoordinationStrategy}
use harp_ochestration.Orchestration.Selector.{Selection, select}
use harp_ochestration.Orchestration.Selector.Choice.{select_cases}
use harp_ochestration.Orchestration.Orchestrator.{
  result_of, hold_back, decided, gate, after_agent, run_sequence, handle_failure, complete,
  end_workflow, with_selection, execute, execute_job, job_for,
}
use harp_ochestration.Orchestration.Workflow.{
  System, Parts, Job, Progress, LoopEnd, finished, held, threw, system_entry, stops, recorded,
}

-- The status, the failure and the last event of a workflow go together.
abbrev pub Agrees : WorkflowResult → String → Type 0
Agrees r action =
    ((r.status ≡ completed) × (r.failure ≡ none) × (action ≡ "workflow.completed"))
    ⊎ ((r.status ≡ approval_required)
        × (r.failure ≡ none)
        × (action ≡ "workflow.approval_required"))
    ⊎ ((r.status ≡ failed) × ¬ (r.failure ≡ none) × (action ≡ "workflow.failed"))

module _ {W : Type 0} where
  abbrev pub IsReported : WorkflowResult → System W → Type 0
  IsReported r s =
      (before : List AuditEvent) × (e : AuditEvent) × (s.events ≡ before ++ e ∷ [])
      × (e.workflow_id ≡ some r.id)
      × Agrees r e.action

  -- What holds however the loop ends, if it holds of each way to end it.
  module _ (Q : LoopEnd × Progress × System W → Type 0) (parts : Parts W) (job : Job)
      (throws : (e : HarpError) (p : Progress) (s : System W) → Q (threw e, p, s))
      (finishes : (p : Progress) (s : System W) → Q (finished, p, s))
      (holds : (d : ApprovalDecision) (p : Progress) (s : System W)
        → Q (hold_back parts.runtime job d p s)) where
    decided-Ends :
        (d : Result ApprovalDecision) (p : Progress) (s : System W)
        (rest : System W → LoopEnd × Progress × System W)
        → ((s' : System W) → Q (rest s'))
        → Q (decided parts.runtime job d p s rest)
    unfolding decided
    decided-Ends (err e) p s rest h = throws e p s
    decided-Ends (ok d) p s rest h = elim (Bool-cases (not d.required || d.approved)) [
      | inl t ↦ rw t (h _)
      | inr f ↦ rw f (holds d p s)
    ]

    gate-Ends :
        (id : AgentId) (r : AgentResult) (p : Progress) (s : System W)
        (rest : System W → LoopEnd × Progress × System W)
        → ((s' : System W) → Q (rest s'))
        → Q (gate parts job id r p s rest)
    unfolding gate
    gate-Ends id r p s rest h = elim (Bool-cases (id == ra)) [
      | inl t ↦ rw t (decided-Ends _ p _ rest h)
      | inr f ↦ rw f (h s)
    ]

    after_agent-Ends :
        (id : AgentId) (r : Result AgentResult) (p : Progress) (s : System W)
        (rest : Progress → System W → LoopEnd × Progress × System W)
        → ((p' : Progress) (s' : System W) → Q (rest p' s'))
        → Q (after_agent parts job id r p s rest)
    unfolding after_agent
    after_agent-Ends id (err e) p s rest h = throws e p s
    after_agent-Ends id (ok r) p s rest h = gate-Ends id r (recorded id r p) _ _ (λ s'.
        elim (Bool-cases (stops job (recorded id r p))) [
          | inl t ↦ rw t (finishes _ s')
          | inr f ↦ rw f (h _ s')
        ])

    pub run_sequence-Ends :
        (ids : List AgentId) (p : Progress) (s : System W) → Q (run_sequence parts job ids p s)
    unfolding run_sequence
    run_sequence-Ends [] p s = finishes p s
    run_sequence-Ends (id ∷ ids) p s =
        after_agent-Ends id _ p _ _ (λ p' s'. run_sequence-Ends ids p' s')

  -- A held workflow has its report already.
  abbrev HeldReported : Job → LoopEnd × Progress × System W → Type 0
  HeldReported job (finished, p, s) = Unit {0}
  HeldReported job (held r, p, s) = IsReported r s
  HeldReported job (threw e, p, s) = Unit {0}

  hold_back-HeldReported :
      (rt : Runtime) (job : Job) (d : ApprovalDecision) (p : Progress) (s : System W)
      → HeldReported job (hold_back rt job d p s)
  unfolding hold_back result_of write saved system_entry
  hold_back-HeldReported rt job d p s = (_, _, refl, refl, inr (inl (refl, refl, refl)))

  end_workflow-IsReported :
      (rt : Runtime) (job : Job) (x : LoopEnd × Progress × System W)
      → HeldReported job x
      → IsReported (end_workflow rt job x).0 (end_workflow rt job x).1
  unfolding end_workflow complete handle_failure result_of write saved system_entry
  end_workflow-IsReported rt job (finished, p, s) h = (_, _, refl, refl, inl (refl, refl, refl))
  end_workflow-IsReported rt job (held r, p, s) h = h
  end_workflow-IsReported rt job (threw e, p, s) h =
      (_, _, refl, refl, inr (inr (refl, (λ q. ground (arith, q)), refl)))

  with_selection-Reports :
      (parts : Parts W) (task : AgentTask) (context : ProjectContext)
      (force : Option CoordinationStrategy) (o : Option Selection) (sel : Selection) (s : System W)
      → o ≡ some sel
      → (r : WorkflowResult) × ((with_selection parts task context force o s).0 ≡ ok r)
        × IsReported r (with_selection parts task context force o s).1
  unfolding execute_job
  with_selection-Reports parts task context force none sel s e = ground (arith, e)
  with_selection-Reports parts task context force (some x) sel s e =
      let job = job_for parts.runtime task context force x s in
      (
        _,
        refl,
        end_workflow-IsReported parts.runtime job _ (
            run_sequence-Ends (HeldReported job) parts job (λ e' p s'. tt) (λ p s'. tt)
              (λ d p s'. hold_back-HeldReported parts.runtime job d p s') _ _ _),
      )

  -- Whatever the agents, the context manager and the approval provider do or throw, a workflow
  -- returns a result: completed, held for approval, or failed with a failure record; and the last
  -- event of the audit log is the workflow's own and says the same.
  pub execute-Reports :
      (parts : Parts W) (task : AgentTask) (context : ProjectContext)
      (force : Option CoordinationStrategy) (s : System W)
      → (r : WorkflowResult) × ((execute parts task context force s).0 ≡ ok r)
        × IsReported r (execute parts task context force s).1
  unfolding execute
  execute-Reports parts task context force s =
      with_selection-Reports parts task context force (select task) _ s (select_cases task).1
