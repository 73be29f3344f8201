-- ===== src/Composition/Wiring.antt =====
-- src/index.ts: `createHarpSystem`, and the context and the task of its demonstration.
pub mod Refuses
use harp_ochestration.Prelude.{
  ℕ, suc, ◌+◌, String, true, List, [], ◌∷◌, Option, none, some, string_eq, lower_case,
}
use harp_ochestration.Core.Ids.{high}
use harp_ochestration.Core.Records.{AgentTask, ProjectContext, ModelRequest}
use harp_ochestration.Core.Constants.{default_workflow_token_budget}
use harp_ochestration.Core.Runtime.{Runtime}
use harp_ochestration.Core.Errors.{Result, ok, err}
use harp_ochestration.Agents.Json.{Json, ParseJson}
use harp_ochestration.Agents.Registry.{Backend, Platform}
use harp_ochestration.Agents.Stub.{generate_stub}
use harp_ochestration.Composition.{Gate, concierge_as_provider, harp_parts}
use harp_ochestration.Composition.Choice.{
  ContainerList, ModelChoice, stub, concierge, build_model_provider,
}
use harp_ochestration.Gateway.Certificates.{MtlsMaterial, Parsed}
use harp_ochestration.Gateway.Certificates.Providers.{FileRead}
use harp_ochestration.Gateway.Concierge.{Deliver, Settings}
use harp_ochestration.Gateway.Redaction.{Patterns, default_redactor}
use harp_ochestration.Gateway.Registry.{Registry}
use harp_ochestration.Gateway.Transport.{Node, Settlement, resolves, pending}
use harp_ochestration.Gateway.Transport
use harp_ochestration.Gateway.Wire.{ContainerResponse}
use harp_ochestration.Knowledge
use harp_ochestration.Knowledge.{KnowledgeHit, search, terms_of}
use harp_ochestration.Loading.Progressive.{Skills}
use harp_ochestration.Models.Budget.{BudgetManager, make_manager}
use harp_ochestration.Models.Router.{Generate, make_router}
use harp_ochestration.Observability.{Telemetry}
use harp_ochestration.Orchestration.Activation.{Environment, build_advanced_strategies}
use harp_ochestration.Orchestration.Strategies.{CoordinationStrategy}
use harp_ochestration.Orchestration.Workflow.{System, Parts}
use harp_ochestration.Security.Approval.{console_approval}
use harp_ochestration.Tools.Defaults.{Search, ToolInput, ToolOutput, default_tools}
use harp_ochestration.Tools.Registry.{Run, returns, throws, ToolDefinition, register_tool}

-- What the system stands on: the process it runs in, and the code that it does not own. A delivery
-- whose promise is left pending is one behind which the run does not go on: `hung` is anything that
-- may stand there, and nothing is known of it.
pub record Process (B W : Type 0) : Type 0 where
  pub runtime : Runtime
  pub env : Environment
  pub clock : ℕ → ℕ
  pub stringify : Json → String
  pub parse_json : ParseJson
  pub parse_list : String → ContainerList
  pub parse_x509 : B → Parsed
  pub read_file : String → FileRead B
  pub node : Node B W
  pub hung : W → Option ContainerResponse × W
  pub patterns : Patterns

abbrev pub Tool : Type 0 → Type 0
Tool W = ToolDefinition W ToolInput (ToolOutput KnowledgeHit)

-- The orchestrator with the audit log, the store and the model router that it works on, and the
-- other parts. The permission guard keeps no state, and the activation policy only the log.
pub record HarpSystem (W : Type 0) : Type 0 where
  pub orchestrator : Parts (Backend (Gate W))
  pub state : System (Backend (Gate W))
  pub knowledge_store : List KnowledgeHit
  pub tool_registry : List (Tool W)
  pub observability : Telemetry
  pub context_loader : Skills W
  pub max_fan_out : ℕ
  pub budget_manager : BudgetManager
  pub advanced_strategies : List CoordinationStrategy

-- What is loaded, searched; a query that is missing has no `toLowerCase`.
unfoldable pub search_of : List KnowledgeHit → Search KnowledgeHit
unfolding search
search_of hits none limit = throws "Cannot read properties of undefined (reading 'toLowerCase')"
search_of hits (some query) limit = returns (search query limit hits)

abbrev next_of :
    {W : Type 0}
    → Result (List (Tool W))
    → (List (Tool W) → Result (List (Tool W)))
    → Result (List (Tool W))
next_of (err e) rest = err e
next_of (ok tools) rest = rest tools

-- The loop that registers the tools; a second one of a name throws.
unfoldable pub register_tools :
    {W : Type 0} → List (Tool W) → List (Tool W) → Result (List (Tool W))
register_tools [] tools = ok tools
register_tools (tool ∷ more) tools = next_of (register_tool tool tools) (register_tools more)

-- `retriesPerContainer: 2`; the deadline of the concierge is its default.
abbrev pub chosen_settings : Settings
chosen_settings = record { retries_per_container = 2; deadline_ms = 60_000 }

-- `await this.transport.deliver(container, envelope)`
abbrev awaited :
    {W : Type 0}
    → (W → Option ContainerResponse × W)
    → Settlement × W
    → Option ContainerResponse × W
awaited hung (resolves response, w) = (some response, w)
awaited hung (Settlement.throws, w) = (none, w)
awaited hung (pending, w) = hung w

module _ {B W : Type 0} (process : Process B W) where
  -- The transport of the concierge, made of the material.
  unfoldable pub transport_of : MtlsMaterial B → Deliver W
  transport_of material container request w =
      awaited process.hung (Transport.deliver process.node material container request w)

  -- The provider of the model router.
  unfoldable pub provider_of : ModelChoice B → Generate (Gate W)
  provider_of stub request g = (
    ok (
        generate_stub process.stringify (process.clock g.ticks) (process.clock (suc g.ticks))
          request),
    record g { ticks = g.ticks + 2 },
  )
  provider_of (concierge registry material) request g =
      concierge_as_provider process.runtime (transport_of material)
        (default_redactor process.patterns []) chosen_settings request g

  abbrev registry_of : ModelChoice B → Registry
  registry_of stub = []
  registry_of (concierge registry material) = registry

  abbrev pub platform_of : ModelChoice B → Platform (Gate W)
  platform_of choice = record {
    runtime = process.runtime;
    parse = process.parse_json;
    provider = provider_of choice;
  }

  -- The system with its tools.
  unfoldable pub assembled : ModelChoice B → List KnowledgeHit → List (Tool W) → W → HarpSystem W
  assembled choice hits tools w = record {
    orchestrator = harp_parts (platform_of choice) (console_approval process.runtime);
    state = record {
      ticks = 0;
      events = [];
      memory = [];
      world = record {
        router = make_router default_workflow_token_budget;
        outside = record {
          ticks = 0;
          state = record { registry = registry_of choice; logs = []; world = w };
        };
      };
    };
    knowledge_store = hits;
    tool_registry = tools;
    observability = record { ticks = 0; spans = []; metrics = []; log_records = [] };
    context_loader = record { metadata = []; body_loaders = []; reference_loader = none };
    max_fan_out = 5;
    budget_manager = make_manager none (record { hard = 200_000; soft = 150_000 }) none;
    advanced_strategies = build_advanced_strategies process.env;
  }

  abbrev with_tools :
      ModelChoice B → List KnowledgeHit → Result (List (Tool W)) → W → Result (HarpSystem W)
  with_tools choice hits (err e) w = err e
  with_tools choice hits (ok tools) w = ok (assembled choice hits tools w)

  abbrev pub with_provider : ProjectContext → Result (ModelChoice B) → W → Result (HarpSystem W)
  with_provider project (err e) w = err e
  with_provider project (ok choice) w =
      let hits = Knowledge.load project in
      with_tools choice hits (register_tools (default_tools (search_of hits)) []) w

  -- At the time `now`, by which certificates are judged.
  unfoldable pub create_harp_system : ProjectContext → (now : ℕ) → W → Result (HarpSystem W)
  create_harp_system project now w =
      with_provider project
        (build_model_provider process.parse_x509 process.read_file now process.parse_list
          process.env)
        w

abbrev pub demo_project_context : ProjectContext
demo_project_context = record {
  architecture_docs =
      "H.A.R.P. uses Pharaoh, Horus Nexus, Anubis Sentinel, and Ra."
      ∷ "Agents share knowledge through memory and audit services."
      ∷ "State-changing operations require approval." ∷ [];
  standard_operating_procedures =
      "Architecture review must happen before implementation."
      ∷ "Security and risk validation must happen before code is applied."
      ∷ "Generated implementation is a proposal until approved." ∷ [];
  glossary =
      ("HARP", "Hierarchical Agentic Review & Production System")
      ∷ ("Pharaoh", "Executive Orchestrator + Knowledge Librarian")
      ∷ ("Horus Nexus", "Observation / Review / Long-term Planning")
      ∷ ("Anubis Sentinel", "Validation / Risk / Security Monitoring")
      ∷ ("Ra", "Generation / Creation / Scheduling / Automation")
      ∷ [];
  prior_decisions =
      "Use core four agents only." ∷ "Use approval gates for repo writes and automation." ∷ [];
  open_issues =
      "Replace stub model provider with real provider." ∷ "Persist audit logs to database." ∷ [];
  workflow_history = [];
}

-- The task of the demonstration, with its id and its time.
abbrev pub demo_task : String → String → AgentTask
demo_task id created_at = record {
  id = id;
  title = "Improve H.A.R.P. core architecture";
  description =
      "Refactor H.A.R.P. into a maintainable, scalable, production-grade core-four orchestration system.";
  requested_by = "Revenue";
  repo = some "H.A.R.P.";
  issue_id = none;
  risk_level = high;
  affected_files = none;
  requires_repo_write = some true;
  touches_secrets = none;
  reversible = some true;
  created_at = created_at;
}
