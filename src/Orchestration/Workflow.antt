-- ===== src/Orchestration/Workflow.antt =====
-- src/orchestration/HarpOrchestrator.ts: what a workflow keeps, and what it reports.
use harp_ochestration.Prelude.{
  ℕ, suc, String, Bool, true, false, List, [], ◌∷◌, ◌++◌, Option, none, some, map,
}
use harp_ochestration.Core.Ids.{
  AgentId, Actor, ApprovalState, agent, agent_id_eq, agent_name, pharaoh, system, strategy_name,
  approval_request,
}
use harp_ochestration.Core.Records.{
  AgentTask, ProjectContext, ScopedContext, AgentResult, Artifact, WorkflowResult, AuditEntry,
  AuditEvent, ApprovalRequest, ApprovalDecision, Details, Detail, text, texts, absent,
}
use harp_ochestration.Core.Runtime.{Runtime}
use harp_ochestration.Core.Errors.{HarpError, Result, token_budget_exceeded}
use harp_ochestration.Security.Approval.{ApprovalProvider}
use harp_ochestration.Orchestration.Strategies.{CoordinationStrategy, WorkflowState}
use harp_ochestration.Orchestration.Selector.{Selection}

pub record System (W : Type 0) : Type 0 where
  pub ticks : ℕ
  pub events : List AuditEvent
  pub memory : List Artifact
  pub world : W

abbrev pub Agent : Type 0 → Type 0
Agent W =
    (task_id : String)
    → ScopedContext
    → (workflow_id : String) → System W
    → Result AgentResult × System W

pub record Parts (W : Type 0) : Type 0 where
  pub runtime : Runtime
  pub provider : ApprovalProvider
  pub create_scoped_context :
      AgentId
      → AgentTask
      → ProjectContext
      → List Artifact
      → System W
      → Result ScopedContext × System W
  pub get_agent : AgentId → Result (Agent W)

-- What stays the same in a workflow.
pub record Job : Type 0 where
  pub task : AgentTask
  pub project_context : ProjectContext
  pub workflow_id : String
  pub strategy : CoordinationStrategy
  pub started_at : String

-- `state`, with the arrays `artifacts` and `agentResults`.
pub record Progress : Type 0 where
  pub completed_agents : List AgentId
  pub results : List AgentResult
  pub artifacts : List Artifact

-- How the `try` block comes to its end.
pub data LoopEnd : Type 0 where
  finished : LoopEnd
  held : WorkflowResult → LoopEnd
  threw : HarpError → LoopEnd

abbrev pub start_progress : Progress
start_progress = record { completed_agents = []; results = []; artifacts = [] }

unfoldable pub system_entry : Job → String → Option ApprovalState → Details → AuditEntry
system_entry job action approval details = record {
  actor = system;
  action = action;
  target = some job.task.id;
  workflow_id = some job.workflow_id;
  task_id = some job.task.id;
  risk_level = some job.task.risk_level;
  approval_state = approval;
  details = details;
}

abbrev pub field : Option String → Detail
field none = absent
field (some s) = text s

unfoldable pub approval_artifact : Runtime → Job → ApprovalDecision → ℕ → Artifact
approval_artifact rt job decision now = record {
  id = rt.uuid now;
  type = approval_request;
  title = "Human Approval Required";
  content = decision.reason;
  author = pharaoh;
  timestamp = rt.iso_date (suc now);
  task_id = job.task.id;
  workflow_id = job.workflow_id;
  context_source_ids = [];
  model_route = none;
  supersedes = none;
  metadata = some (("blockedAgent", text "ra") ∷ []);
}

abbrev pub repo_write_request : Job → AgentResult → ApprovalRequest
repo_write_request job r = record {
  task = job.task;
  workflow_id = job.workflow_id;
  phase = "production";
  action = "repo.write";
  details = r.summary;
  artifact_ids = map (λ a. a.id) r.artifacts;
}

abbrev pub state_of_run : Job → Progress → WorkflowState
state_of_run job p = record {
  task = job.task;
  completed_agents = p.completed_agents;
  results = p.results;
  blocked_for_approval = false;
}

-- `strategy.shouldStop?.(state)`
unfoldable pub stops : Job → Progress → Bool
stops job p = elim job.strategy.should_stop [ none ↦ false | some test ↦ test (state_of_run job p) ]

abbrev pub recorded : AgentId → AgentResult → Progress → Progress
recorded id r p = record {
  completed_agents = p.completed_agents ++ id ∷ [];
  results = p.results ++ r ∷ [];
  artifacts = p.artifacts ++ r.artifacts;
}

unfoldable pub is_budget : HarpError → Bool
is_budget (token_budget_exceeded w used budget) = true
is_budget _ = false

abbrev pub last_agent : Actor → List AgentId → Actor
last_agent default [] = default
last_agent default (id ∷ ids) = last_agent (agent id) ids

unfoldable pub started : Job → Selection → AuditEntry
started job selection = system_entry job "workflow.started" none (
    ("title", text job.task.title)
    ∷ ("repo", field job.task.repo)
    ∷ ("strategy", text (strategy_name job.strategy.name))
    ∷ ("rationale", text selection.rationale)
    ∷ ("sequence", texts (map agent_name (job.strategy.select_sequence job.task)))
    ∷ [])
