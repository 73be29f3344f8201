-- ===== src/Agents/Registry.antt =====
-- src/agents/BaseAgent.ts: `execute`, over the model router; and src/agents/AgentRegistry.ts.
pub mod Execution
pub mod Calls
pub mod Answers
use harp_ochestration.Prelude.{
  ℕ, suc, ◌+◌, String, Bool, true, false, List, [], ◌∷◌, Option, none, some, if◌then◌else◌, length,
  lookup, map, ◌⧺◌,
}
use harp_ochestration.Core.Ids.{
  AgentId, ResultStatus, pharaoh, horus_nexus, anubis_sentinel, ra, agent, agent_name, agent_id_eq,
  class_name, success, blocked, failed,
}
use harp_ochestration.Core.Records.{
  ScopedContext, AgentResult, AuditEntry, Details, ModelRequest, ModelResponse, text, number, flag,
}
use harp_ochestration.Core.AgentConfig.{agent_configs}
use harp_ochestration.Core.Runtime.{Runtime}
use harp_ochestration.Core.Errors.{Result, ok, err, plain}
use harp_ochestration.Models.Router
use harp_ochestration.Models.Router.{ModelRouter, Generate}
use harp_ochestration.Orchestration.Workflow.{System, Agent}
use harp_ochestration.Orchestration.Orchestrator.{audit}
use harp_ochestration.Agents.Json.{ParseJson}
use harp_ochestration.Agents.Output.{ModelOutput, parse_model_output}
use harp_ochestration.Agents.Prompt.{build_prompt}
use harp_ochestration.Agents.Results.{Making, model_class_for, temperature_of, result_for}

-- The world of a workflow: the model router, and what lies behind its provider.
pub record Backend (W : Type 0) : Type 0 where
  pub router : ModelRouter
  pub outside : W

-- What the agents are built from.
pub record Platform (W : Type 0) : Type 0 where
  pub runtime : Runtime
  pub parse : ParseJson
  pub provider : Generate W

abbrev pub status_name : ResultStatus → String
status_name success = "success"
status_name blocked = "blocked"
status_name failed = "failed"

unfoldable pub agent_entry : AgentId → String → ScopedContext → String → Details → AuditEntry
agent_entry id action context workflow_id details = record {
  actor = agent id;
  action = action;
  target = some context.task.id;
  workflow_id = some workflow_id;
  task_id = some context.task.id;
  risk_level = some context.task.risk_level;
  approval_state = none;
  details = details;
}

unfoldable pub agent_started : AgentId → ScopedContext → String → AuditEntry
agent_started id context workflow_id = agent_entry id "agent.started" context workflow_id (
    ("role", text (agent_configs id).role)
    ∷ ("modelClass", text (class_name (model_class_for (agent_configs id) context)))
    ∷ [])

abbrev is_some : Option ModelOutput → Bool
is_some none = false
is_some (some o) = true

unfoldable pub agent_completed :
    AgentId → ScopedContext → String → Option ModelOutput → AgentResult → AuditEntry
agent_completed id context workflow_id parsed r =
    agent_entry id "agent.completed" context workflow_id (
      ("status", text (status_name r.status))
      ∷ ("artifacts", number (length r.artifacts))
      ∷ ("approvalRequired", flag r.approval_required)
      ∷ ("parsed", flag (is_some parsed))
      ∷ [])

unfoldable pub agent_request : AgentId → ScopedContext → String → ModelRequest
agent_request id context workflow_id = record {
  model_class = model_class_for (agent_configs id) context;
  system_prompt = (agent_configs id).system_prompt;
  user_prompt = build_prompt (agent_configs id) context;
  temperature = some (temperature_of id);
  agent_id = some id;
  task_id = some context.task.id;
  workflow_id = some workflow_id;
}

module _ {W : Type 0} where
  abbrev pub making : Platform W → AgentId → ScopedContext → String → ℕ → Making
  making platform id context workflow_id now = record {
    runtime = platform.runtime;
    now = now;
    context = context;
    workflow_id = workflow_id;
    model_class = model_class_for (agent_configs id) context;
  }

  -- What the agent makes of an answer, at a time.
  unfoldable pub result_of_answer :
      Platform W → AgentId → ScopedContext → String → ModelResponse → ℕ → AgentResult
  result_of_answer platform id context workflow_id response now =
      result_for id (parse_model_output platform.parse response.text) response.text
        (making platform id context workflow_id now)

  -- Behind the `await` of the model router.
  unfoldable pub after_model :
      Platform W
      → AgentId
      → ScopedContext
      → String
      → Result ModelResponse
      → System (Backend W)
      → Result AgentResult × System (Backend W)
  after_model platform id context workflow_id (err e) s = (err e, s)
  after_model platform id context workflow_id (ok response) s =
      let r = result_of_answer platform id context workflow_id response s.ticks in
      (
        ok r,
        audit platform.runtime
            (agent_completed id context workflow_id
              (parse_model_output platform.parse response.text) r)
            (record s { ticks = suc s.ticks }),
      )

  -- The call of the model router, with the system behind it.
  unfoldable pub ask_model :
      Platform W → ModelRequest → System (Backend W) → Result ModelResponse × System (Backend W)
  ask_model platform request s =
      let answered =
        Router.generate platform.runtime s.ticks platform.provider request s.world.router
          s.world.outside in
      (
        answered.0,
        record s {
          ticks = suc s.ticks;
          world = record { router = answered.1; outside = answered.2 };
        },
      )

  unfoldable pub execute_harp : Platform W → AgentId → Agent (Backend W)
  execute_harp platform id task_id context workflow_id s =
      let asked =
        ask_model platform (agent_request id context workflow_id)
          (audit platform.runtime (agent_started id context workflow_id) s) in
      after_model platform id context workflow_id asked.0 asked.1

  -- The registry holds the four agents, under their ids.
  unfoldable pub registered_agents : Platform W → List (AgentId × Agent (Backend W))
  registered_agents platform =
      (pharaoh, execute_harp platform pharaoh)
      ∷ (horus_nexus, execute_harp platform horus_nexus)
      ∷ (anubis_sentinel, execute_harp platform anubis_sentinel)
      ∷ (ra, execute_harp platform ra)
      ∷ []

  abbrev found : AgentId → Option (Agent (Backend W)) → Result (Agent (Backend W))
  found id none = err (plain ("Unknown H.A.R.P. agent: " ⧺ agent_name id))
  found id (some a) = ok a

  unfoldable pub get_agent : Platform W → AgentId → Result (Agent (Backend W))
  get_agent platform id = found id (lookup id (registered_agents platform))

  unfoldable pub all_agents : Platform W → List (Agent (Backend W))
  all_agents platform = map (λ p. p.1) (registered_agents platform)
