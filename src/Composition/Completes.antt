-- ===== src/Composition/Completes.antt =====
-- When a whole workflow of the four agents completes.
use harp_ochestration.Prelude.{
  ℕ, ◌+◌, ◌<◌, true, not, ◌||◌, List, [], ◌∷◌, Option, some, ◌≡◌, refl, ◌∙◌, ◌==◌, Bool-cases, inl,
  inr, or_else, arith, suc,
}
use harp_ochestration.Core.Ids.{AgentId, ra, agent_id_eq, completed}
use harp_ochestration.Core.Records.{
  AgentTask, ProjectContext, ScopedContext, AgentResult, ModelRequest, WorkflowResult,
  ApprovalDecision, ApprovalRequest,
}
use harp_ochestration.Core.Runtime.{Runtime}
use harp_ochestration.Core.Errors.{Result, ok, err}
use harp_ochestration.Security.Approval.{ApprovalProvider, requires_approval, waived}
use harp_ochestration.Security.Approval
use harp_ochestration.Models.Router.{usage}
use harp_ochestration.Orchestration.Strategies.{CoordinationStrategy}
use harp_ochestration.Orchestration.Context.{scoped_context}
use harp_ochestration.Orchestration.Selector.{Selection, select}
use harp_ochestration.Orchestration.Workflow.{
  System, Job, Progress, LoopEnd, finished, held, threw, recorded, stops, repo_write_request,
}
use harp_ochestration.Orchestration.Orchestrator.{
  remember, decided, gate, after_agent, execute_agent, run_agent, run_sequence, result_of, complete,
  end_workflow, execute_job, execute, job_for,
}
use harp_ochestration.Agents.Registry.{Backend, Platform}
use harp_ochestration.Agents.Registry.Answers.{IsAnswer, IsAnswered, execute_harp-IsAnswered}
use harp_ochestration.Agents.Registry.Execution.{get_agent-total}
use harp_ochestration.Composition.{harp_parts}
use harp_ochestration.Composition.Accounted.{remember-world}

-- What a sequence of agents may cost.
abbrev pub cost_of : ℕ → List AgentId → ℕ
cost_of most [] = 0
cost_of most (id ∷ ids) = most + cost_of most ids

-- A decision that approves.
abbrev pub IsApproval : Result ApprovalDecision → Type 0
IsApproval (err e) = ⊥
IsApproval (ok d) = d.approved ≡ true

abbrev Opens : Result ApprovalDecision → Type 0
Opens (err e) = ⊥
Opens (ok d) = (not d.required || d.approved) ≡ true

IsApproval-Opens : (d : Result ApprovalDecision) → IsApproval d → Opens d
IsApproval-Opens (err e) h = absurd h
IsApproval-Opens (ok d) h = ground (arith, h)

evaluate-Opens :
    (rt : Runtime) (provider : ApprovalProvider) (input : ApprovalRequest) (now : ℕ)
    → IsApproval (provider input now)
    → Opens (Approval.evaluate rt provider input now)
unfolding Approval.evaluate waived
evaluate-Opens rt provider input now h =
    elim (Bool-cases (requires_approval input.task input.action)) [
      | inl t ↦ rw t (IsApproval-Opens (provider input now) h)
      | inr f ↦ rw f refl
    ]

module _ {W : Type 0} where
  abbrev Finishes : LoopEnd × Progress × System W → Type 0
  Finishes (finished, p, s) = Unit
  Finishes (held r, p, s) = ⊥
  Finishes (threw e, p, s) = ⊥

  decided-Finishes :
      (rt : Runtime) (job : Job) (d : Result ApprovalDecision) (p : Progress) (s : System W)
      (rest : System W → LoopEnd × Progress × System W)
      → Opens d
      → ((s' : System W) → s'.world ≡ s.world → Finishes (rest s'))
      → Finishes (decided rt job d p s rest)
  unfolding decided
  decided-Finishes rt job (err e) p s rest h go = absurd h
  decided-Finishes rt job (ok d) p s rest h go = rw h (go _ refl)

module _ {W : Type 0} (platform : Platform W) (approval : ApprovalProvider) (job : Job) (most : ℕ)
    (answers : (request : ModelRequest) (w : W) → IsAnswer most (platform.provider request w))
    (approves : (input : ApprovalRequest) (now : ℕ) → IsApproval (approval input now)) where
  abbrev charged_so_far : System (Backend W) → ℕ
  charged_so_far s = usage s.world.router job.workflow_id

  gate-Finishes :
      (id : AgentId) (r : AgentResult) (p : Progress) (s : System (Backend W))
      (rest : System (Backend W) → LoopEnd × Progress × System (Backend W))
      → ((s' : System (Backend W)) → s'.world ≡ s.world → Finishes (rest s'))
      → Finishes (gate (harp_parts platform approval) job id r p s rest)
  unfolding gate harp_parts
  gate-Finishes id r p s rest go = elim (Bool-cases (id == ra)) [
    | inl t ↦ rw t (
        decided-Finishes platform.runtime job _ p _ rest
          (evaluate-Opens platform.runtime approval (repo_write_request job r) s.ticks
            (approves _ _))
          go)
    | inr f ↦ rw f (go s refl)
  ]

  -- The budget has room for the agents.
  abbrev HasRoom : List AgentId → System (Backend W) → Type 0
  HasRoom ids s = charged_so_far s + cost_of most ids < s.world.router.budget

  after_agent-Finishes :
      (id : AgentId) (ids : List AgentId) (context : ScopedContext) (p : Progress)
      (s : System (Backend W)) (x : Result AgentResult × System (Backend W))
      (rest : Progress → System (Backend W) → LoopEnd × Progress × System (Backend W))
      → IsAnswered platform most id context job.workflow_id s.world.router x
      → HasRoom (id ∷ ids) s
      → ((p' : Progress) (s' : System (Backend W)) → HasRoom ids s' → Finishes (rest p' s'))
      → Finishes (after_agent (harp_parts platform approval) job id x.0 p x.1 rest)
  unfolding after_agent
  after_agent-Finishes id ids context p s (err e, t) rest h room go = absurd h
  after_agent-Finishes id ids context p s (ok r, t) rest h room go =
      gate-Finishes id r (recorded id r p) (remember r.artifacts t) _ (λ s' e.
        elim (Bool-cases (stops job (recorded id r p))) [
          | inl q ↦ rw q tt
          | inr f ↦ rw f (
              go (recorded id r p) s'
                (rw (e ∙ remember-world r.artifacts t) (ground (arith, h.usage_le, h.same, room))))
        ])

  run_agent-IsAnswered :
      (id : AgentId) (context : ScopedContext) (s : System (Backend W))
      → charged_so_far s < s.world.router.budget
      → IsAnswered platform most id context job.workflow_id s.world.router
          (run_agent (harp_parts platform approval) job id (ok context, s))
  unfolding run_agent execute_agent harp_parts
  run_agent-IsAnswered id context s room =
      rw (get_agent-total platform id) (
        execute_harp-IsAnswered platform most id context job.workflow_id job.task.id s room answers)

  run_sequence-Finishes :
      (ids : List AgentId) (p : Progress) (s : System (Backend W))
      → HasRoom ids s
      → Finishes (run_sequence (harp_parts platform approval) job ids p s)
  unfolding run_sequence harp_parts
  run_sequence-Finishes [] p s room = tt
  run_sequence-Finishes (id ∷ ids) p s room =
      let context =
        scoped_context id job.task job.project_context p.artifacts
          (platform.runtime.iso_date s.ticks) in
      let s' : System (Backend W) = record s { ticks = suc s.ticks } in
      after_agent-Finishes id ids context p s'
        (run_agent (harp_parts platform approval) job id (ok context, s')) _
        (run_agent-IsAnswered id context s' (omega (arith, room))) room
        (λ p' t r. run_sequence-Finishes ids p' t r)

  -- A workflow that completes.
  abbrev Completes : WorkflowResult × System (Backend W) → Type 0
  Completes (r, s) = r.status ≡ completed

  end_workflow-Completes :
      (x : LoopEnd × Progress × System (Backend W))
      → Finishes x
      → Completes (end_workflow platform.runtime job x)
  unfolding end_workflow complete result_of
  end_workflow-Completes (finished, p, s) h = refl
  end_workflow-Completes (held r, p, s) h = absurd h
  end_workflow-Completes (threw e, p, s) h = absurd h

  execute_job-Completes :
      (selection : Selection) (s : System (Backend W))
      → HasRoom (job.strategy.select_sequence job.task) s
      → Completes (execute_job (harp_parts platform approval) job selection s)
  unfolding execute_job harp_parts
  execute_job-Completes selection s room =
      end_workflow-Completes _
        (run_sequence-Finishes (job.strategy.select_sequence job.task) _ _ room)

-- If the provider answers every request with at most `most` tokens, the approval provider approves
-- every request, and the budget has room for one such answer of each agent of the sequence beside
-- what the account of the new workflow holds, then a workflow of the four agents is returned as
-- completed: for every task, project and strategy, forced or of the selection that is made.
pub execute-Completes :
    {W : Type 0} (platform : Platform W) (approval : ApprovalProvider) (most : ℕ) (task : AgentTask)
    (project : ProjectContext) (force : Option CoordinationStrategy) (s : System (Backend W))
    (selection : Selection)
    → ((request : ModelRequest) (w : W) → IsAnswer most (platform.provider request w))
    → ((input : ApprovalRequest) (now : ℕ) → IsApproval (approval input now))
    → select task ≡ some selection
    → usage s.world.router (platform.runtime.uuid (suc s.ticks))
        + cost_of most ((or_else force selection.chosen).select_sequence task)
      < s.world.router.budget
    → (r : WorkflowResult) × ((execute (harp_parts platform approval) task project force s).0
        ≡ ok r)
      × (r.status ≡ completed)
unfolding execute harp_parts
execute-Completes platform approval most task project force s selection answers approves chosen
      room =
    let parts = harp_parts platform approval in
    let job = job_for parts.runtime task project force selection s in
    rw chosen (
      (execute_job parts job selection s).0,
      refl,
      execute_job-Completes platform approval job most answers approves selection s room,
    )
