-- ===== src/Composition.antt =====
-- src/index.ts and src/modelProvider.ts: the parts put together. A workflow runs the registered
-- agents over the model router, and the router's provider may be the concierge.
pub mod Choice
pub mod Steps
pub mod Trail
pub mod Stored
pub mod Completes
pub mod Spent
pub mod Accounted
pub mod Wiring
pub mod Redacted
pub mod Approved
use harp_ochestration.Prelude.{ℕ, suc, String, false, List, Option, none, some}
use harp_ochestration.Core.Ids.{AgentId}
use harp_ochestration.Core.Records.{ModelRequest, ModelResponse}
use harp_ochestration.Core.Runtime.{Runtime}
use harp_ochestration.Core.Errors.{Result, ok, err}
use harp_ochestration.Security.Approval.{ApprovalProvider}
use harp_ochestration.Gateway.Redaction.{Redactor}
use harp_ochestration.Gateway.Concierge.{CoreModelRequest, Deliver, Settings, State}
use harp_ochestration.Gateway.Concierge
use harp_ochestration.Models.Router.{Generate}
use harp_ochestration.Orchestration.Context.{scoped_context}
use harp_ochestration.Orchestration.Workflow.{System, Parts}
use harp_ochestration.Agents.Json.{ParseJson}
use harp_ochestration.Agents.Registry.{Backend, Platform, get_agent}

-- The orchestrator's parts: the registry of agents, and the context manager, which reads the time.
unfoldable pub harp_parts : {W : Type 0} → Platform W → ApprovalProvider → Parts (Backend W)
harp_parts platform approval = record {
  runtime = platform.runtime;
  provider = approval;
  create_scoped_context = λ id task project prior s. (
    ok (scoped_context id task project prior (platform.runtime.iso_date s.ticks)),
    record s { ticks = suc s.ticks },
  );
  get_agent = get_agent platform;
}

-- What the concierge keeps, with the counter of its correlation ids.
pub record Gate (W : Type 0) : Type 0 where
  pub ticks : ℕ
  pub state : State W

-- `conciergeAsProvider`; the high-risk hint is never set.
unfoldable pub core_request : ModelRequest → CoreModelRequest
core_request request = record {
  model_class = request.model_class;
  system_prompt = request.system_prompt;
  user_prompt = request.user_prompt;
  temperature = request.temperature;
  agent_id = request.agent_id;
  task_id = request.task_id;
  workflow_id = request.workflow_id;
  high_risk = some false;
}

unfoldable pub concierge_as_provider :
    {W : Type 0} → Runtime → Deliver W → Redactor → Settings → Generate (Gate W)
concierge_as_provider rt deliver redact settings request g =
    let answered =
      Concierge.generate rt g.ticks deliver redact settings (core_request request) g.state in
    (answered.0, record { ticks = suc g.ticks; state = answered.1 })

-- The agents over the concierge.
unfoldable pub gateway_platform :
    {W : Type 0} → Runtime → ParseJson → Deliver W → Redactor → Settings → Platform (Gate W)
gateway_platform rt parse deliver redact settings = record {
  runtime = rt;
  parse = parse;
  provider = concierge_as_provider rt deliver redact settings;
}
