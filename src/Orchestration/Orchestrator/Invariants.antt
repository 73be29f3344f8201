-- ===== src/Orchestration/Orchestrator/Invariants.antt =====
-- What holds of the progress and the system all through a workflow, if each of its steps keeps it.
use harp_ochestration.Prelude.{
  ℕ, not, ◌||◌, List, [], ◌∷◌, ◌++◌, Option, none, some, ◌≡◌, refl, inl, inr, Bool-cases, ◌==◌,
}
use harp_ochestration.Core.Ids.{AgentId, agent_id_eq, ra}
use harp_ochestration.Core.Records.{
  AgentTask, ProjectContext, ScopedContext, AgentResult, Artifact, AuditEntry, ApprovalDecision,
  WorkflowResult,
}
use harp_ochestration.Core.Errors.{Result, ok, err}
use harp_ochestration.Orchestration.Strategies.{CoordinationStrategy}
use harp_ochestration.Orchestration.Selector.{Selection, select}
use harp_ochestration.Orchestration.Workflow.{
  System, Parts, Agent, Job, Progress, LoopEnd, finished, held, threw, recorded, stops,
  start_progress, approval_artifact,
}
use harp_ochestration.Orchestration.Orchestrator.{
  audit, remember, hold_back, decided, gate, after_agent, execute_agent, run_agent, run_sequence,
  result_of, complete, handle_failure, end_workflow, execute_job, with_selection, execute, job_for,
}

-- The result shows the progress.
pub record Shows (job : Job) (p : Progress) (r : WorkflowResult) : Type 0 where
  pub id : r.id ≡ job.workflow_id
  pub agent_results : r.agent_results ≡ p.results
  pub artifacts : r.artifacts ≡ p.artifacts

module _ {W : Type 0} where
  -- What an agent's run must keep: the artifacts of a result go to the store first.
  abbrev pub AfterRun :
      (Progress → System W → Type 0) → AgentId → Progress → Result AgentResult × System W → Type 0
  AfterRun P id p (err e, s) = P p s
  AfterRun P id p (ok r, s) = P (recorded id r p) (remember r.artifacts s)

  -- The steps of the workflow `job` keep `P`.
  pub record Keeps (parts : Parts W) (job : Job) (P : Progress → System W → Type 0) : Type 0 where
    pub scoping :
        (id : AgentId) (task : AgentTask) (project : ProjectContext) (prior : List Artifact)
        (p : Progress) (s : System W)
        → P p s
        → P p (parts.create_scoped_context id task project prior s).1
    pub running :
        (id : AgentId) (execute : Agent W) (context : ScopedContext) (p : Progress) (s : System W)
        → parts.get_agent id ≡ ok execute
        → P p s
        → AfterRun P id p (execute job.task.id context job.workflow_id s)
    pub auditing :
        (entry : AuditEntry) (p : Progress) (s : System W)
        → P p s
        → P p (audit parts.runtime entry s)
    pub ticking : (n : ℕ) (p : Progress) (s : System W) → P p s → P p (record s { ticks = n })
    pub storing :
        (d : ApprovalDecision) (n : ℕ) (p : Progress) (s : System W)
        → P p s
        → let a = approval_artifact parts.runtime job d n in
          P (record p { artifacts = p.artifacts ++ a ∷ [] }) (remember (a ∷ []) s)

  abbrev pub AtEnd : Job → (Progress → System W → Type 0) → LoopEnd × Progress × System W → Type 0
  AtEnd job P (finished, p, s) = P p s
  AtEnd job P (held r, p, s) = P p s × Shows job p r
  AtEnd job P (threw e, p, s) = P p s

  module _ (parts : Parts W) (job : Job) (P : Progress → System W → Type 0)
      (keeps : Keeps parts job P) where
    decided-Keeps :
        (d : Result ApprovalDecision) (p : Progress) (s : System W)
        (rest : System W → LoopEnd × Progress × System W)
        → P p s
        → ((s' : System W) → P p s' → AtEnd job P (rest s'))
        → AtEnd job P (decided parts.runtime job d p s rest)
    unfolding decided hold_back result_of
    decided-Keeps (err e) p s rest h go = h
    decided-Keeps (ok d) p s rest h go = elim (Bool-cases (not d.required || d.approved)) [
      | inl t ↦ rw t (go _ (keeps.auditing _ p s h))
      | inr f ↦ rw f (
        keeps.ticking _ _ _
            (keeps.auditing _ _ _ (keeps.storing d s.ticks p _ (keeps.ticking _ p s h))),
        record { id = refl; agent_results = refl; artifacts = refl },
      )
    ]

    gate-Keeps :
        (id : AgentId) (r : AgentResult) (p : Progress) (s : System W)
        (rest : System W → LoopEnd × Progress × System W)
        → P p s
        → ((s' : System W) → P p s' → AtEnd job P (rest s'))
        → AtEnd job P (gate parts job id r p s rest)
    unfolding gate
    gate-Keeps id r p s rest h go = elim (Bool-cases (id == ra)) [
      | inl t ↦ rw t (decided-Keeps _ p _ rest (keeps.ticking _ p s h) go)
      | inr f ↦ rw f (go s h)
    ]

    after_agent-Keeps :
        (id : AgentId) (r : Result AgentResult) (p : Progress) (s : System W)
        (rest : Progress → System W → LoopEnd × Progress × System W)
        → AfterRun P id p (r, s)
        → ((p' : Progress) (s' : System W) → P p' s' → AtEnd job P (rest p' s'))
        → AtEnd job P (after_agent parts job id r p s rest)
    unfolding after_agent
    after_agent-Keeps id (err e) p s rest h go = h
    after_agent-Keeps id (ok r) p s rest h go = gate-Keeps id r (recorded id r p) _ _ h (λ s' h'.
        elim (Bool-cases (stops job (recorded id r p))) [
          | inl t ↦ rw t h'
          | inr f ↦ rw f (go (recorded id r p) s' h')
        ])

    execute_agent-Keeps :
        (id : AgentId) (found : Result (Agent W)) (context : ScopedContext) (p : Progress)
        (s : System W)
        → parts.get_agent id ≡ found
        → P p s
        → AfterRun P id p (execute_agent found job context s)
    unfolding execute_agent
    execute_agent-Keeps id (err e) context p s g h = h
    execute_agent-Keeps id (ok execute) context p s g h = keeps.running id execute context p s g h

    run_agent-Keeps :
        (id : AgentId) (x : Result ScopedContext × System W) (p : Progress)
        → P p x.1
        → AfterRun P id p (run_agent parts job id x)
    unfolding run_agent
    run_agent-Keeps id (err e, s) p h = h
    run_agent-Keeps id (ok context, s) p h =
        execute_agent-Keeps id (parts.get_agent id) context p s refl h

    pub run_sequence-Keeps :
        (ids : List AgentId) (p : Progress) (s : System W)
        → P p s
        → AtEnd job P (run_sequence parts job ids p s)
    unfolding run_sequence
    run_sequence-Keeps [] p s h = h
    run_sequence-Keeps (id ∷ ids) p s h =
        after_agent-Keeps id _ p _ _
          (run_agent-Keeps id _ p (keeps.scoping id job.task job.project_context p.artifacts p s h))
          (λ p' s' h'. run_sequence-Keeps ids p' s' h')

    -- What a workflow leaves: `P` of its system, with the progress that its result shows.
    abbrev pub Left : WorkflowResult × System W → Type 0
    Left (r, s) = (p : Progress) × P p s × Shows job p r

    end_workflow-Keeps :
        (x : LoopEnd × Progress × System W)
        → AtEnd job P x
        → Left (end_workflow parts.runtime job x)
    unfolding end_workflow complete handle_failure result_of
    end_workflow-Keeps (finished, p, s) h = (
      p,
      keeps.ticking _ p _ (keeps.auditing _ p s h),
      record { id = refl; agent_results = refl; artifacts = refl },
    )
    end_workflow-Keeps (held r, p, s) (h, e) = (p, h, e)
    end_workflow-Keeps (threw e, p, s) h = (
      p,
      keeps.ticking _ p _ (keeps.auditing _ p s h),
      record { id = refl; agent_results = refl; artifacts = refl },
    )

    pub execute_job-Keeps :
        (selection : Selection) (s : System W)
        → P start_progress s
        → Left (execute_job parts job selection s)
    unfolding execute_job
    execute_job-Keeps selection s h = end_workflow-Keeps _ (
        run_sequence-Keeps _ start_progress _
          (keeps.auditing _ start_progress _ (keeps.ticking _ start_progress s h)))

  module _ (parts : Parts W) (P : Progress → System W → Type 0)
      (keeps : (job : Job) → Keeps parts job P) where
    -- The system behind a returned result, with the progress that the result shows.
    abbrev pub Leaves : Result WorkflowResult × System W → Type 0
    Leaves (ok r, s) = (job : Job) × (p : Progress) × P p s × Shows job p r
    Leaves (err e, s) = P start_progress s

    with_selection-Keeps :
        (task : AgentTask) (project : ProjectContext) (force : Option CoordinationStrategy)
        (o : Option Selection) (s : System W)
        → P start_progress s
        → Leaves (with_selection parts task project force o s)
    with_selection-Keeps task project force none s h = h
    with_selection-Keeps task project force (some selection) s h =
        let job = job_for parts.runtime task project force selection s in
        let (p, kept, shows) = execute_job-Keeps parts job P (keeps job) selection s h in
        (job, p, kept, shows)

    pub execute-Keeps :
        (task : AgentTask) (project : ProjectContext) (force : Option CoordinationStrategy)
        (s : System W)
        → P start_progress s
        → Leaves (execute parts task project force s)
    unfolding execute
    execute-Keeps task project force s h = with_selection-Keeps task project force (select task) s h
