-- ===== src/Tests/Workflow.antt =====
-- src/orchestration/HarpOrchestrator.ts at concrete inputs: agents that answer at once, with a
-- console for the approvals.
use harp_ochestration.Prelude.{ℕ, ◌≡◌, refl, none, false, [], ◌∷◌, decide}
use harp_ochestration.Core.Ids.{
  low, ra, pharaoh, AgentId, AgentId-discrete, RiskLevel-discrete, success, completed,
}
use harp_ochestration.Core.Records.{AgentResult, WorkflowResult}
use harp_ochestration.Core.Errors.{ok}
use harp_ochestration.Security.Approval.{
  console_approval, auto_approve, evaluate, requires_approval, is_state_changing,
}
use harp_ochestration.Orchestration.Strategies.{sequential_review_strategy}
use harp_ochestration.Orchestration.Workflow.{
  System, Parts, Job, start_progress, stops, LoopEnd, finished, held, threw,
}
use harp_ochestration.Orchestration.Orchestrator.{
  run_sequence, execute, after_agent, run_agent, execute_agent, gate, decided, hold_back,
}
use harp_ochestration.Orchestration.Orchestrator.Machine.{turn}
use harp_ochestration.Orchestration.Orchestrator.Machine.Refinement.{Refines, run_sequence-Refines}
use harp_ochestration.Orchestration.Orchestrator.Runs.{IsReported, execute-Reports}
use harp_ochestration.Orchestration.Orchestrator.Order.{RanInOrder, run_sequence-RanInOrder}
use harp_ochestration.Tests.Samples.{clock, task_at, no_context, context_of}

abbrev answer_of : AgentId → AgentResult
answer_of id = record {
  agent_id = id;
  status = success;
  summary = "done";
  findings = [];
  risks = [];
  recommendations = [];
  artifacts = [];
  approval_required = false;
  unknowns = [];
  next_safe_step = "";
  code_work = none;
  assumptions = [];
}

-- Every agent answers at once.
abbrev consoled : Parts ℕ
consoled = record {
  runtime = clock;
  provider = console_approval clock;
  create_scoped_context = λ id task context prior s. (ok (context_of task), s);
  get_agent = λ id. ok (λ task_id context workflow_id s. (ok (answer_of id), s));
}

abbrev approved : Parts ℕ
approved = record {
  runtime = clock;
  provider = auto_approve clock "ann";
  create_scoped_context = λ id task context prior s. (ok (context_of task), s);
  get_agent = λ id. ok (λ task_id context workflow_id s. (ok (answer_of id), s));
}

abbrev empty_system : System ℕ
empty_system = record { ticks = 0; events = []; memory = []; world = 0 }

abbrev job : Job
job = record {
  task = task_at low none;
  project_context = no_context;
  workflow_id = "w";
  strategy = sequential_review_strategy;
  started_at = "day-0";
}

ra_is_held :
    (run_sequence consoled job (ra ∷ pharaoh ∷ []) start_progress empty_system).1.completed_agents
    ≡ ra ∷ []
unfolding run_sequence after_agent run_agent execute_agent gate decided hold_back evaluate
    requires_approval is_state_changing AgentId-discrete RiskLevel-discrete decide console_approval
ra_is_held = refl

ra_goes_on :
    (run_sequence approved job (ra ∷ pharaoh ∷ []) start_progress empty_system).1.completed_agents
    ≡ ra ∷ pharaoh ∷ []
unfolding run_sequence after_agent run_agent execute_agent gate decided hold_back evaluate
    requires_approval is_state_changing AgentId-discrete RiskLevel-discrete decide auto_approve
    stops sequential_review_strategy
ra_goes_on = refl

execute-Reports_example :
    (r : WorkflowResult) × ((execute consoled (task_at low none) no_context none empty_system).0
      ≡ ok r)
    × IsReported r (execute consoled (task_at low none) no_context none empty_system).1
execute-Reports_example = execute-Reports consoled (task_at low none) no_context none empty_system

run_sequence-RanInOrder_example :
    RanInOrder job start_progress
      (pharaoh ∷ ra ∷ [])
      (run_sequence consoled job (pharaoh ∷ ra ∷ []) start_progress empty_system)
run_sequence-RanInOrder_example =
    run_sequence-RanInOrder consoled job (pharaoh ∷ ra ∷ []) start_progress empty_system

run_sequence-Refines_example :
    Refines consoled job
      (turn [] (ra ∷ pharaoh ∷ []))
      (run_sequence consoled job (ra ∷ pharaoh ∷ []) start_progress empty_system)
run_sequence-Refines_example =
    run_sequence-Refines consoled job (ra ∷ pharaoh ∷ []) start_progress empty_system

abbrev no_result : WorkflowResult
no_result = record {
  id = "";
  task = task_at low none;
  status = completed;
  strategy = sequential_review_strategy.name;
  artifacts = [];
  agent_results = [];
  approval_required = false;
  final_recommendation = "";
  failure = none;
  started_at = "";
  completed_at = "";
}

abbrev held_result : LoopEnd → WorkflowResult
held_result finished = no_result
held_result (held r) = r
held_result (threw e) = no_result
