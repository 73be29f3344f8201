-- ===== src/Orchestration/Orchestrator.antt =====
-- src/orchestration/HarpOrchestrator.ts. The registry of agents, which the constructor takes, and
-- the context manager are parameters: they work on the system, which holds the counter of ids and
-- times, the audit log, the artifact store and a world of their own.
pub mod Runs
pub mod Approvals
pub mod Order
pub mod Invariants
pub mod Machine
use harp_ochestration.Prelude.{
  ℕ, suc, ◌+◌, String, Bool, true, false, not, ◌||◌, List, [], ◌∷◌, ◌++◌, Option, none, some,
  if◌then◌else◌, length, any, map, ◌==◌, or_else,
}
use harp_ochestration.Core.Ids.{
  AgentId, Actor, ApprovalState, WorkflowStatus, CoordinationStrategyName, agent, agent_id_eq,
  agent_name, ra, pharaoh, system, strategy_name, approval_request, required, granted, denied,
  not_required, completed, approval_required, failed,
}
use harp_ochestration.Core.Records.{
  AgentTask, ProjectContext, ScopedContext, AgentResult, Artifact, WorkflowResult, WorkflowFailure,
  AuditEntry, AuditEvent, ApprovalRequest, ApprovalDecision, Details, Detail, text, texts, number,
  flag, absent,
}
use harp_ochestration.Core.Runtime.{Runtime}
use harp_ochestration.Core.Errors.{
  HarpError, Result, ok, err, plain, message_of, token_budget_exceeded,
}
use harp_ochestration.Security.Approval.{ApprovalProvider}
use harp_ochestration.Security.Approval
use harp_ochestration.Storage.Audit.{write}
use harp_ochestration.Storage.Memory.{append}
use harp_ochestration.Orchestration.Strategies.{CoordinationStrategy, WorkflowState}
use harp_ochestration.Orchestration.Selector.{Selection, select}
use harp_ochestration.Orchestration.Workflow.{
  Agent, Job, LoopEnd, Parts, Progress, System, approval_artifact, field, is_budget, last_agent,
  recorded, repo_write_request, start_progress, started, state_of_run, stops, system_entry,
  finished, held, threw,
}

module _ {W : Type 0} where
  abbrev pub audit : Runtime → AuditEntry → System W → System W
  audit rt entry s = record s { ticks = suc s.ticks; events = (write rt s.ticks entry s.events).1 }

  abbrev pub remember : List Artifact → System W → System W
  remember [] s = s
  remember (a ∷ more) s = remember more (record s { memory = append a s.memory })

  -- `this.result`, with the time at which it is made.
  unfoldable pub result_of :
      Runtime
      → Job
      → WorkflowStatus
      → Progress
      → Bool
      → String
      → Option WorkflowFailure
      → System W
      → WorkflowResult × System W
  result_of rt job status p approval recommendation failure s = (
    record {
      id = job.workflow_id;
      task = job.task;
      status = status;
      strategy = job.strategy.name;
      artifacts = p.artifacts;
      agent_results = p.results;
      approval_required = approval;
      final_recommendation = recommendation;
      failure = failure;
      started_at = job.started_at;
      completed_at = rt.iso_date s.ticks;
    },
    record s { ticks = suc s.ticks },
  )

  -- The branch of `enforceApproval` that holds the workflow back.
  unfoldable pub hold_back :
      Runtime → Job → ApprovalDecision → Progress → System W → LoopEnd × Progress × System W
  hold_back rt job decision p s =
      let artifact = approval_artifact rt job decision s.ticks in
      let p' = record p { artifacts = p.artifacts ++ artifact ∷ [] } in
      let stored = remember (artifact ∷ []) (record s { ticks = s.ticks + 2 }) in
      let entry =
        system_entry job "workflow.approval_required" (some denied)
          (("reason", text decision.reason) ∷ []) in
      let answer =
        result_of rt job approval_required p' true
          "H.A.R.P. generated implementation output, but production execution is blocked pending human approval."
          none (audit rt entry stored) in
      (held answer.0, p', answer.1)

  -- What follows the decision; `rest` goes on with the workflow.
  unfoldable pub decided :
      Runtime
      → Job
      → Result ApprovalDecision
      → Progress
      → System W
      → (System W → LoopEnd × Progress × System W)
      → LoopEnd × Progress × System W
  decided rt job (err e) p s rest = (threw e, p, s)
  decided rt job (ok d) p s rest =
      if not d.required || d.approved
      then rest (
          audit rt
            (system_entry job "workflow.approval_evaluated"
              (some (if d.required then granted else not_required))
              (("reason", text d.reason) ∷ ("approverId", field d.approver_id) ∷ []))
            s)
      else hold_back rt job d p s

  -- The gate behind an agent: it stands behind Ra only.
  unfoldable pub gate :
      Parts W
      → Job
      → AgentId
      → AgentResult
      → Progress
      → System W
      → (System W → LoopEnd × Progress × System W)
      → LoopEnd × Progress × System W
  gate parts job id r p s rest =
      if id == ra
      then decided parts.runtime job
          (Approval.evaluate parts.runtime parts.provider (repo_write_request job r) s.ticks) p
          (record s { ticks = suc s.ticks }) rest
      else rest s

  -- What follows an agent's run; `rest` is the loop over the agents left.
  unfoldable pub after_agent :
      Parts W
      → Job
      → AgentId
      → Result AgentResult
      → Progress
      → System W
      → (Progress → System W → LoopEnd × Progress × System W)
      → LoopEnd × Progress × System W
  after_agent parts job id (err e) p s rest = (threw e, p, s)
  after_agent parts job id (ok r) p s rest =
      gate parts job id r (recorded id r p) (remember r.artifacts s) (λ s'.
        if stops job (recorded id r p)
        then (finished, recorded id r p, s')
        else rest (recorded id r p) s')

  unfoldable pub execute_agent :
      Result (Agent W) → Job → ScopedContext → System W → Result AgentResult × System W
  execute_agent (err e) job context s = (err e, s)
  execute_agent (ok execute) job context s = execute job.task.id context job.workflow_id s

  -- An agent with its scoped context.
  unfoldable pub run_agent :
      Parts W → Job → AgentId → Result ScopedContext × System W → Result AgentResult × System W
  run_agent parts job id (err e, s) = (err e, s)
  run_agent parts job id (ok context, s) = execute_agent (parts.get_agent id) job context s

  -- The loop over the sequence.
  unfoldable pub run_sequence :
      Parts W → Job → List AgentId → Progress → System W → LoopEnd × Progress × System W
  run_sequence parts job [] p s = (finished, p, s)
  run_sequence parts job (id ∷ ids) p s =
      let ran =
        run_agent parts job id
          (parts.create_scoped_context id job.task job.project_context p.artifacts s) in
      let rest = λ (p' : Progress) (s' : System W). run_sequence parts job ids p' s' in
      after_agent parts job id ran.0 p ran.1 rest

  unfoldable pub handle_failure :
      Runtime → Job → HarpError → Progress → System W → WorkflowResult × System W
  handle_failure rt job e p s =
      let entry =
        system_entry job "workflow.failed" none
          (("reason", text (message_of e)) ∷ ("budgetExceeded", flag (is_budget e)) ∷ []) in
      result_of rt job failed p true
        (if is_budget e
          then "Token budget exhausted. Downshift model class or raise the budget, then resume."
          else "H.A.R.P. workflow failed. Review audit logs before retrying.")
        (some (record {
          phase = if is_budget e then "model-routing" else "agent-execution";
          failed_actor = last_agent system (map (λ r. r.agent_id) p.results);
          reason = message_of e;
          audit_event_id = (write rt s.ticks entry s.events).0.id;
          recovery_recommendation =
              if is_budget e
              then "Lower model tier or increase DEFAULT_WORKFLOW_TOKEN_BUDGET."
              else "Inspect the failed agent's audit trail; fix root cause; re-run.";
        }))
        (audit rt entry s)

  unfoldable pub complete : Runtime → Job → Progress → System W → WorkflowResult × System W
  complete rt job p s =
      result_of rt job completed p (any (λ r. r.approval_required) p.results)
        "H.A.R.P. completed the review-build-validation loop. Apply changes only after final human approval and CI validation."
        none
        (audit rt
          (system_entry job "workflow.completed" none (
            ("artifactCount", number (length p.artifacts))
            ∷ ("agentRuns", texts (map (λ r. agent_name r.agent_id) p.results))
            ∷ ("strategy", text (strategy_name job.strategy.name))
            ∷ []))
          s)

  -- The three ways out of the `try` block.
  unfoldable pub end_workflow :
      Runtime → Job → LoopEnd × Progress × System W → WorkflowResult × System W
  end_workflow rt job (finished, p, s) = complete rt job p s
  end_workflow rt job (held r, p, s) = (r, s)
  end_workflow rt job (threw e, p, s) = handle_failure rt job e p s

  abbrev pub job_for :
      Runtime
      → AgentTask
      → ProjectContext
      → Option CoordinationStrategy
      → Selection
      → System W
      → Job
  job_for rt task context force selection s = record {
    task = task;
    project_context = context;
    workflow_id = rt.uuid (suc s.ticks);
    strategy = or_else force selection.chosen;
    started_at = rt.iso_date s.ticks;
  }

  -- `execute` behind the selection of the strategy.
  unfoldable pub execute_job : Parts W → Job → Selection → System W → WorkflowResult × System W
  execute_job parts job selection s = end_workflow parts.runtime job (
      run_sequence parts job (job.strategy.select_sequence job.task) start_progress
        (audit parts.runtime (started job selection) (record s { ticks = s.ticks + 2 })))

  -- A selection that fails would reject the promise, before the `try` block.
  abbrev pub with_selection :
      Parts W
      → AgentTask
      → ProjectContext
      → Option CoordinationStrategy
      → Option Selection
      → System W
      → Result WorkflowResult × System W
  with_selection parts task context force none s =
      (err (plain "Cannot read properties of undefined (reading 'strategy')"), s)
  with_selection parts task context force (some selection) s =
      let done =
        execute_job parts (job_for parts.runtime task context force selection s) selection s in
      (ok done.0, done.1)

  unfoldable pub execute :
      Parts W
      → AgentTask
      → ProjectContext
      → Option CoordinationStrategy
      → System W
      → Result WorkflowResult × System W
  execute parts task context force s = with_selection parts task context force (select task) s
