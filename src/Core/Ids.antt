-- ===== src/Core/Ids.antt =====
-- src/core/types.ts, the enumerations, with their spelling in the source.
use harp_ochestration.Prelude.{String, Eq, eq_of_discrete}

pub data AgentId : Type 0 where
  pharaoh horus_nexus anubis_sentinel ra : AgentId

pub data Actor : Type 0 where
  agent : AgentId → Actor
  system user : Actor

pub data RiskLevel : Type 0 where
  low medium high critical : RiskLevel

pub data WorkflowStatus : Type 0 where
  pending planning review validation production approval_required completed failed : WorkflowStatus

pub data Permission : Type 0 where
  repo_read repo_write repo_review issue_read knowledge_read knowledge_write memory_read
        memory_write security_scan workflow_plan workflow_approve schedule_create audit_write :
      Permission

pub data ModelClass : Type 0 where
  local_fast local_reasoning cloud_fast cloud_reasoning cloud_coding frontier_reasoning embedding
        reranker security_specialist long_context :
      ModelClass

pub data ArtifactType : Type 0 where
  code spec doc review risk_report security_report schedule approval_request final_report :
      ArtifactType

pub data CoordinationStrategyName : Type 0 where
  sequential_review parallel_review arbitration negotiation voting escalation :
      CoordinationStrategyName

pub data ResultStatus : Type 0 where
  success blocked failed : ResultStatus

pub data ApprovalState : Type 0 where
  not_required required granted denied : ApprovalState

unfoldable pub AgentId-discrete : Discrete AgentId
AgentId-discrete = hlevel

unfoldable pub RiskLevel-discrete : Discrete RiskLevel
RiskLevel-discrete = hlevel

unfoldable pub Permission-discrete : Discrete Permission
Permission-discrete = hlevel

unfoldable pub ModelClass-discrete : Discrete ModelClass
ModelClass-discrete = hlevel

unfoldable pub StrategyName-discrete : Discrete CoordinationStrategyName
StrategyName-discrete = hlevel

unfoldable pub Actor-discrete : Discrete Actor
Actor-discrete = hlevel AgentId-discrete

unfoldable pub ApprovalState-discrete : Discrete ApprovalState
ApprovalState-discrete = hlevel

instance abbrev pub agent_id_eq : Eq AgentId
agent_id_eq = eq_of_discrete AgentId-discrete

instance abbrev pub risk_level_eq : Eq RiskLevel
risk_level_eq = eq_of_discrete RiskLevel-discrete

instance abbrev pub permission_eq : Eq Permission
permission_eq = eq_of_discrete Permission-discrete

instance abbrev pub model_class_eq : Eq ModelClass
model_class_eq = eq_of_discrete ModelClass-discrete

instance abbrev pub strategy_name_eq : Eq CoordinationStrategyName
strategy_name_eq = eq_of_discrete StrategyName-discrete

instance abbrev pub actor_eq : Eq Actor
actor_eq = eq_of_discrete Actor-discrete

instance abbrev pub approval_state_eq : Eq ApprovalState
approval_state_eq = eq_of_discrete ApprovalState-discrete

unfoldable pub agent_name : AgentId → String
agent_name pharaoh = "pharaoh"
agent_name horus_nexus = "horus-nexus"
agent_name anubis_sentinel = "anubis-sentinel"
agent_name ra = "ra"

unfoldable pub risk_name : RiskLevel → String
risk_name low = "low"
risk_name medium = "medium"
risk_name high = "high"
risk_name critical = "critical"

unfoldable pub permission_name : Permission → String
permission_name repo_read = "repo:read"
permission_name repo_write = "repo:write"
permission_name repo_review = "repo:review"
permission_name issue_read = "issue:read"
permission_name knowledge_read = "knowledge:read"
permission_name knowledge_write = "knowledge:write"
permission_name memory_read = "memory:read"
permission_name memory_write = "memory:write"
permission_name security_scan = "security:scan"
permission_name workflow_plan = "workflow:plan"
permission_name workflow_approve = "workflow:approve"
permission_name schedule_create = "schedule:create"
permission_name audit_write = "audit:write"

unfoldable pub class_name : ModelClass → String
class_name local_fast = "local-fast"
class_name local_reasoning = "local-reasoning"
class_name cloud_fast = "cloud-fast"
class_name cloud_reasoning = "cloud-reasoning"
class_name cloud_coding = "cloud-coding"
class_name frontier_reasoning = "frontier-reasoning"
class_name embedding = "embedding"
class_name reranker = "reranker"
class_name security_specialist = "security-specialist"
class_name long_context = "long-context"

unfoldable pub strategy_name : CoordinationStrategyName → String
strategy_name sequential_review = "sequential-review"
strategy_name parallel_review = "parallel-review"
strategy_name arbitration = "arbitration"
strategy_name negotiation = "negotiation"
strategy_name voting = "voting"
strategy_name escalation = "escalation"
