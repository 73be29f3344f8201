-- ===== src/Core/Records.antt =====
-- src/core/types.ts, the interfaces. An optional field is an `Option`.
use harp_ochestration.Prelude.{ℕ, String, Bool, List, Option}
use harp_ochestration.Core.Ids.{
  AgentId, Actor, RiskLevel, WorkflowStatus, ModelClass, ArtifactType, CoordinationStrategyName,
  ResultStatus, ApprovalState,
}

pub record AgentTask : Type 0 where
  pub id : String
  pub title : String
  pub description : String
  pub requested_by : String
  pub repo : Option String
  pub issue_id : Option String
  pub risk_level : RiskLevel
  pub affected_files : Option ℕ
  pub requires_repo_write : Option Bool
  pub touches_secrets : Option Bool
  pub reversible : Option Bool
  pub created_at : String

pub record ProjectContext : Type 0 where
  pub architecture_docs : List String
  pub standard_operating_procedures : List String
  pub glossary : List (String × String)
  pub prior_decisions : List String
  pub open_issues : List String
  pub workflow_history : List String

-- The values that the program writes into an untyped `details` or `metadata` object.
pub data Detail : Type 0 where
  text : String → Detail
  texts : List String → Detail
  number : ℕ → Detail
  flag : Bool → Detail
  absent : Detail

abbrev pub Details : Type 0
Details = List (String × Detail)

pub record Artifact : Type 0 where
  pub id : String
  pub type : ArtifactType
  pub title : String
  pub content : String
  pub author : AgentId
  pub timestamp : String
  pub task_id : String
  pub workflow_id : String
  pub context_source_ids : List String
  pub model_route : Option ModelClass
  pub supersedes : Option String
  pub metadata : Option Details

pub record ArtifactSummary : Type 0 where
  pub id : String
  pub type : ArtifactType
  pub title : String
  pub author : AgentId
  pub claims : List String

pub record ScopedContext : Type 0 where
  pub task : AgentTask
  pub context_source_ids : List String
  pub snapshot_at : String
  pub architecture_docs : List String
  pub standard_operating_procedures : List String
  pub glossary : List (String × String)
  pub prior_decisions : List String
  pub open_issues : List String
  pub workflow_history : List String
  pub prior_artifacts : List ArtifactSummary
  pub constraints : List String
  pub unresolved_unknowns : List String

pub record CodeWorkDetails : Type 0 where
  pub files_affected : List String
  pub test_plan : List String
  pub rollback_plan : List String
  pub validation_commands : List String

pub record AgentResult : Type 0 where
  pub agent_id : AgentId
  pub status : ResultStatus
  pub summary : String
  pub findings : List String
  pub risks : List String
  pub recommendations : List String
  pub artifacts : List Artifact
  pub approval_required : Bool
  pub unknowns : List String
  pub next_safe_step : String
  pub code_work : Option CodeWorkDetails
  pub assumptions : List String

pub record WorkflowFailure : Type 0 where
  pub phase : String
  pub failed_actor : Actor
  pub reason : String
  pub audit_event_id : String
  pub recovery_recommendation : String

pub record WorkflowResult : Type 0 where
  pub id : String
  pub task : AgentTask
  pub status : WorkflowStatus
  pub strategy : CoordinationStrategyName
  pub artifacts : List Artifact
  pub agent_results : List AgentResult
  pub approval_required : Bool
  pub final_recommendation : String
  pub failure : Option WorkflowFailure
  pub started_at : String
  pub completed_at : String

-- What a caller of the audit log writes; the log adds `id` and `timestamp`.
pub record AuditEntry : Type 0 where
  pub actor : Actor
  pub action : String
  pub target : Option String
  pub workflow_id : Option String
  pub task_id : Option String
  pub risk_level : Option RiskLevel
  pub approval_state : Option ApprovalState
  pub details : Details

pub record AuditEvent : Type 0 where
  pub entry : AuditEntry
  pub open entry use *
  pub id : String
  pub timestamp : String

pub record ModelRequest : Type 0 where
  pub model_class : ModelClass
  pub system_prompt : String
  pub user_prompt : String
  -- In tenths.
  pub temperature : Option ℕ
  pub agent_id : Option AgentId
  pub task_id : Option String
  pub workflow_id : Option String

pub record ModelResponse : Type 0 where
  pub text : String
  pub model_used : String
  pub model_class : ModelClass
  pub input_tokens : ℕ
  pub output_tokens : ℕ
  -- In millionths of a dollar.
  pub estimated_cost_usd : ℕ
  pub latency_ms : ℕ

pub record ApprovalDecision : Type 0 where
  pub required : Bool
  pub approved : Bool
  pub reason : String
  pub approver_id : Option String
  pub timestamp : String

pub record ApprovalRequest : Type 0 where
  pub task : AgentTask
  pub workflow_id : String
  pub phase : String
  pub action : String
  pub details : String
  pub artifact_ids : List String

pub record ToolContext : Type 0 where
  pub agent_id : AgentId
  pub task : AgentTask
  pub workflow_id : String
  pub approval_granted : Bool
