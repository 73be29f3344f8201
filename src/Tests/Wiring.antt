-- ===== src/Tests/Wiring.antt =====
-- src/index.ts at a concrete process: the stub provider, and a run that the console need not let
-- through.
use harp_ochestration.Gateway.Transport.{timed_out}
use harp_ochestration.Prelude.{
  ℕ, [], ◌∷◌, none, some, refl, decide, trim, lookup, Elem, false, ◌≡◌, insert, decimal,
}
use harp_ochestration.Core.Ids.{
  AgentId-discrete, RiskLevel-discrete, ra, horus_nexus, low, completed, approval_required,
  risk_name, agent_name,
}
use harp_ochestration.Core.Records.{WorkflowResult}
use harp_ochestration.Core.Errors.{Result, ok, err}
use harp_ochestration.Security.Approval.{console_approval, requires_approval, is_state_changing}
use harp_ochestration.Security.Approval
use harp_ochestration.Agents.Json.{object, end}
use harp_ochestration.Agents.Stub.{generate_stub}
use harp_ochestration.Agents.Output.{parse_model_output, cleaned, read_output}
use harp_ochestration.Agents.Results.{
  result_for, build_result, horus_nexus_result, pharaoh_result, anubis_sentinel_result, ra_result,
}
use harp_ochestration.Agents.Registry.{
  Backend, get_agent, registered_agents, execute_harp, ask_model, agent_request, after_model,
  result_of_answer,
}
use harp_ochestration.Core.AgentConfig.{agent_configs}
use harp_ochestration.Agents.Prompt.{build_prompt, prompt_lines}
use harp_ochestration.Orchestration.Context.{
  scoped_context, source_ids, shared_constraints, find_missing_facts, mentions, summarise,
}
use harp_ochestration.Models.Router
use harp_ochestration.Prelude.Sort.{sort_by, insert_by}
use harp_ochestration.Orchestration.Selector.{
  select, ranking_of, selection_of, chosen_entry, force_escalation, evaluate, score_of,
  composite_of, residual_risk, mitigation, covers_post_build_review, after_ra,
}
use harp_ochestration.Models.Router.{
  make_router, admit, usage, settle, finish, deliver, call_record,
}
use harp_ochestration.Gateway.Certificates.{invalid}
use harp_ochestration.Gateway.Certificates.Providers.{unreadable}
use harp_ochestration.Gateway.Redaction.{RegExp, between}
use harp_ochestration.Knowledge.{load}
use harp_ochestration.Orchestration.Strategies.{CoordinationStrategy, sequential_review_strategy}
use harp_ochestration.Orchestration.Workflow.{System, stops}
use harp_ochestration.Orchestration.Orchestrator.{
  execute, execute_job, run_sequence, run_agent, execute_agent, after_agent, gate, decided,
  end_workflow, hold_back, complete, result_of,
}
use harp_ochestration.Composition.{harp_parts, Gate}
use harp_ochestration.Composition.Choice.{stub, build_model_provider, entries}
use harp_ochestration.Composition.Wiring.{
  Process, HarpSystem, create_harp_system, provider_of, assembled, search_of, register_tools,
  demo_project_context, demo_task,
}
use harp_ochestration.Composition.Wiring.Refuses.{create_harp_system-Refuses}
use harp_ochestration.Composition.Approved.{authors}
use harp_ochestration.Tools.Defaults.{
  default_tools, knowledge_search, repo_read_tool, repo_write_tool, schedule_create_tool,
  security_scan_tool,
}
use harp_ochestration.Tools.Registry.{register_tool}
use harp_ochestration.Tests.Samples.{clock, task_at, no_context}

abbrev whole : RegExp
whole text = between text ∷ []

abbrev process : Process ℕ ℕ
process = record {
  runtime = clock;
  env = λ name. none;
  clock = λ n. n;
  stringify = λ json. "{}";
  parse_json = λ text. some (object end);
  parse_list = λ raw. entries [];
  parse_x509 = λ bytes. invalid "no certificate";
  read_file = λ path. unreadable "no such file";
  node = record {
    parse_url = λ path base. none;
    stringify = λ request. "{}";
    byte_length = λ text. 2;
    parse = λ text. none;
    request = λ options payload w. (timed_out, w);
  };
  hung = λ w. (none, w);
  patterns = record {
    email = whole;
    phone = whole;
    credit_card = whole;
    ssn = whole;
    ip = whole;
    secret_token = whole;
    bearer = whole;
  };
}

abbrev built : Result (HarpSystem ℕ)
built = create_harp_system process demo_project_context 0 0

-- Horus Nexus alone.
abbrev horus_alone : CoordinationStrategy
horus_alone = record sequential_review_strategy {
  select_sequence = λ task. horus_nexus ∷ [];
  should_stop = none;
}

abbrev system : HarpSystem ℕ
system =
    assembled process stub (load demo_project_context)
      (default_tools (search_of (load demo_project_context))) 0

abbrev ran : Result WorkflowResult × System (Backend (Gate ℕ))
ran = execute system.orchestrator (task_at low none) no_context (some horus_alone) system.state

abbrev result_in : Result WorkflowResult → WorkflowResult → WorkflowResult
result_in (err e) default = default
result_in (ok r) default = r

abbrev no_result : WorkflowResult
no_result = record {
  id = "";
  task = task_at low none;
  status = completed;
  strategy = sequential_review_strategy.name;
  artifacts = [];
  agent_results = [];
  approval_required = false;
  final_recommendation = "";
  failure = none;
  started_at = "";
  completed_at = "";
}

create_harp_system-Refuses_example : ¬ Elem ra (authors (result_in ran.0 no_result).agent_results)
unfolding execute select ranking_of selection_of chosen_entry force_escalation evaluate score_of
    composite_of residual_risk mitigation covers_post_build_review after_ra execute_job run_sequence
    run_agent execute_agent after_agent gate decided end_workflow complete result_of harp_parts
    get_agent registered_agents lookup execute_harp ask_model agent_request after_model
    result_of_answer Router.generate admit usage settle finish deliver call_record
    parse_model_output cleaned read_output result_for build_result horus_nexus_result
    console_approval AgentId-discrete RiskLevel-discrete decide sequential_review_strategy sort_by
    insert_by make_router stops trim generate_stub provider_of assembled create_harp_system
    build_model_provider register_tools register_tool default_tools knowledge_search repo_read_tool
    repo_write_tool schedule_create_tool security_scan_tool
create_harp_system-Refuses_example =
    create_harp_system-Refuses process demo_project_context 0 0 system (task_at low none) no_context
      (some horus_alone) system.state (result_in ran.0 no_result) refl refl refl

-- The demonstration ends at the gate: a task of high risk is not approved.
abbrev demonstrated : Result WorkflowResult × System (Backend (Gate ℕ))
demonstrated =
    execute system.orchestrator (demo_task "t" "day-0") demo_project_context none system.state

demo_is_held : (result_in demonstrated.0 no_result).status ≡ approval_required
unfolding execute select ranking_of selection_of chosen_entry force_escalation evaluate score_of
    composite_of residual_risk mitigation covers_post_build_review after_ra execute_job run_sequence
    run_agent execute_agent after_agent gate decided end_workflow complete result_of harp_parts
    get_agent registered_agents lookup execute_harp ask_model agent_request after_model
    result_of_answer Router.generate admit usage settle finish deliver call_record
    parse_model_output cleaned read_output result_for build_result horus_nexus_result
    console_approval AgentId-discrete RiskLevel-discrete decide sequential_review_strategy sort_by
    insert_by make_router stops trim generate_stub provider_of assembled create_harp_system
    build_model_provider register_tools register_tool default_tools knowledge_search repo_read_tool
    repo_write_tool schedule_create_tool security_scan_tool Approval.evaluate requires_approval
    is_state_changing ra_result pharaoh_result anubis_sentinel_result hold_back insert decimal
    agent_configs build_prompt prompt_lines scoped_context risk_name source_ids shared_constraints
    find_missing_facts mentions summarise agent_name
demo_is_held = refl
