-- ===== src/Tests/Composition.antt =====
-- The whole system at concrete inputs: the four agents over a model router, and over the concierge.
use harp_ochestration.Prelude.{
  ℕ, false, List, [], ◌∷◌, none, some, refl, inl, decide, trim, All, lookup, ◌≡◌, ◌+◌, ◌<◌, arith,
}
use harp_ochestration.Core.Ids.{AgentId-discrete, RiskLevel-discrete, ra, low, completed}
use harp_ochestration.Core.Records.{WorkflowResult, ModelRequest, ModelResponse, ApprovalRequest}
use harp_ochestration.Core.Errors.{Result, ok, err}
use harp_ochestration.Security.Approval.{auto_approve, requires_approval, is_state_changing}
use harp_ochestration.Security.Approval
use harp_ochestration.Agents.Json.{ParseJson, object, end}
use harp_ochestration.Agents.Output.{parse_model_output, cleaned, read_output}
use harp_ochestration.Agents.Results.{result_for, build_result, ra_result}
use harp_ochestration.Agents.Registry.{
  Backend, Platform, get_agent, registered_agents, execute_harp, ask_model, agent_request,
  after_model, result_of_answer,
}
use harp_ochestration.Models.Router
use harp_ochestration.Prelude.Sort.{sort_by, insert_by}
use harp_ochestration.Orchestration.Selector.{
  select, ranking_of, selection_of, chosen_entry, force_escalation, evaluate, score_of,
  composite_of, residual_risk, mitigation, covers_post_build_review, after_ra,
}
use harp_ochestration.Models.Router.{
  make_router, admit, usage, settle, finish, deliver, call_record,
}
use harp_ochestration.Gateway.Concierge.{Settings}
use harp_ochestration.Gateway.Concierge.Deliveries.{Delivery, traced, trace}
use harp_ochestration.Gateway.Redaction.{Redactor}
use harp_ochestration.Orchestration.Strategies.{CoordinationStrategy, sequential_review_strategy}
use harp_ochestration.Orchestration.Workflow.{System, stops}
use harp_ochestration.Orchestration.Orchestrator.{
  execute, execute_job, run_sequence, run_agent, execute_agent, after_agent, gate, decided,
  end_workflow, complete, result_of,
}
use harp_ochestration.Composition.{harp_parts, Gate, gateway_platform}
use harp_ochestration.Composition.Trail.{Extends, execute-Extends}
use harp_ochestration.Composition.Stored.{Stores, execute-Stores}
use harp_ochestration.Composition.Accounted.{Accounts, execute-Accounts}
use harp_ochestration.Composition.Spent.{IsThrifty, execute-IsThrifty}
use harp_ochestration.Models.Router.Accounting.{recorded}
use harp_ochestration.Composition.Completes.{IsApproval, execute-Completes}
use harp_ochestration.Agents.Registry.Answers.{IsAnswer}
use harp_ochestration.Orchestration.Selector.Choice.{select_cases}
use harp_ochestration.Composition.Approved.{HasApproval, execute-HasApproval}
use harp_ochestration.Composition.Redacted.{IsRedacted, execute-IsRedacted}
use harp_ochestration.Tests.Samples.{clock, task_at, no_context, reply}

abbrev parse : ParseJson
parse text = some (object end)

abbrev offline : Platform ℕ
offline = record { runtime = clock; parse = parse; provider = λ request w. (ok (reply 3), w) }

abbrev idle : System (Backend ℕ)
idle = record {
  ticks = 0;
  events = [];
  memory = [];
  world = record { router = make_router 200_000; outside = 0 };
}

execute-Extends_example :
    Extends idle
      (execute
        (harp_parts offline (auto_approve clock "ann"))
        (task_at low none)
        no_context
        none
        idle).1
execute-Extends_example =
    execute-Extends offline (auto_approve clock "ann") (task_at low none) no_context none idle

execute-Stores_example : Stores offline (auto_approve clock "ann") [] (
    execute (harp_parts offline (auto_approve clock "ann")) (task_at low none) no_context none idle)
execute-Stores_example =
    execute-Stores offline (auto_approve clock "ann") (task_at low none) no_context none idle

execute-Accounts_example : Accounts offline (auto_approve clock "ann") [] (
    execute (harp_parts offline (auto_approve clock "ann")) (task_at low none) no_context none idle)
unfolding make_router
execute-Accounts_example =
    execute-Accounts offline (auto_approve clock "ann") (task_at low none) no_context none idle

idle-IsThrifty : IsThrifty 200_000 5 (make_router 200_000)
unfolding make_router usage lookup recorded
idle-IsThrifty = record { limited = refl; balanced = λ w. refl; within = λ w. omega arith }

cheap :
    (request : ModelRequest) (w : ℕ) (response : ModelResponse)
    → (offline.provider request w).0 ≡ ok response
    → response.input_tokens + response.output_tokens < 5
cheap request w response e = ground (arith, e)

execute-IsThrifty_example :
    IsThrifty 200_000 5
      (execute
        (harp_parts offline (auto_approve clock "ann"))
        (task_at low none)
        no_context
        none
        idle).1.world.router
execute-IsThrifty_example =
    execute-IsThrifty offline (auto_approve clock "ann") 200_000 5 (task_at low none) no_context
      none idle cheap idle-IsThrifty

abbrev hide : Redactor
hide text = record { text = "[hidden]"; findings = [] }

abbrev settings : Settings
settings = record { retries_per_container = 2; deadline_ms = 60_000 }

abbrev gated : System (Backend (Gate (ℕ × List Delivery)))
gated = record {
  ticks = 0;
  events = [];
  memory = [];
  world = record {
    router = make_router 200_000;
    outside = record { ticks = 0; state = record { registry = []; logs = []; world = (0, []) } };
  };
}

execute-IsRedacted_example : All (IsRedacted hide) (
    trace
      (execute
        (harp_parts
          (gateway_platform clock parse (traced (λ c e w. (none, w))) hide settings)
          (auto_approve clock "ann"))
        (task_at low none)
        no_context
        none
        gated).1.world.outside.state)
execute-IsRedacted_example =
    execute-IsRedacted clock parse (λ c e w. (none, w)) hide settings (auto_approve clock "ann")
      (task_at low none) no_context none gated refl

-- A strategy that is given to the orchestrator, with Ra alone.
abbrev ra_alone : CoordinationStrategy
ra_alone = record sequential_review_strategy {
  select_sequence = λ task. ra ∷ [];
  should_stop = none;
}

abbrev ran : Result WorkflowResult × System (Backend ℕ)
ran =
    execute (harp_parts offline (auto_approve clock "ann")) (task_at low none) no_context
      (some ra_alone) idle

abbrev result_in : Result WorkflowResult → WorkflowResult → WorkflowResult
result_in (err e) default = default
result_in (ok r) default = r

abbrev no_result : WorkflowResult
no_result = record {
  id = "";
  task = task_at low none;
  status = completed;
  strategy = sequential_review_strategy.name;
  artifacts = [];
  agent_results = [];
  approval_required = false;
  final_recommendation = "";
  failure = none;
  started_at = "";
  completed_at = "";
}

execute-HasApproval_example : HasApproval (auto_approve clock "ann") (task_at low none)
unfolding execute select ranking_of selection_of chosen_entry force_escalation evaluate score_of
    composite_of residual_risk mitigation covers_post_build_review after_ra execute_job run_sequence
    run_agent execute_agent after_agent gate decided end_workflow complete result_of harp_parts
    get_agent registered_agents lookup execute_harp ask_model agent_request after_model
    result_of_answer Router.generate admit usage settle finish deliver call_record
    parse_model_output cleaned read_output result_for build_result ra_result Approval.evaluate
    requires_approval is_state_changing auto_approve AgentId-discrete RiskLevel-discrete decide
    sequential_review_strategy sort_by insert_by make_router stops trim
execute-HasApproval_example =
    execute-HasApproval offline (auto_approve clock "ann") (task_at low none) no_context
      (some ra_alone) idle (result_in ran.0 no_result) refl refl (inl refl)

reply_cost : (request : ModelRequest) (w : ℕ) → IsAnswer 4 (offline.provider request w)
reply_cost request w = omega arith

ann_approves : (input : ApprovalRequest) (now : ℕ) → IsApproval (auto_approve clock "ann" input now)
unfolding auto_approve
ann_approves input now = refl

execute-Completes_example : (r : WorkflowResult) × (ran.0 ≡ ok r) × (r.status ≡ completed)
unfolding make_router usage lookup
execute-Completes_example =
    execute-Completes offline (auto_approve clock "ann") 4 (task_at low none) no_context
      (some ra_alone) idle (select_cases (task_at low none)).0 reply_cost ann_approves
      (select_cases (task_at low none)).1 (omega arith)
