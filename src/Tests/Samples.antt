-- ===== src/Tests/Samples.antt =====
-- Inputs that the tests share.
use harp_ochestration.Prelude.{ℕ, String, Bool, true, [], Option, none, some, ◌⧺◌, decimal}
use harp_ochestration.Core.Ids.{RiskLevel, cloud_coding}
use harp_ochestration.Core.Records.{
  AgentTask, ModelRequest, ModelResponse, ProjectContext, ScopedContext,
}
use harp_ochestration.Core.Runtime.{Runtime}

abbrev pub clock : Runtime
clock = record { uuid = λ n. "id-" ⧺ decimal n; iso_date = λ n. "day-" ⧺ decimal n }

abbrev pub task_at : RiskLevel → Option Bool → AgentTask
task_at risk writes = record {
  id = "t1";
  title = "Rename a module";
  description = "";
  requested_by = "ann";
  repo = none;
  issue_id = none;
  risk_level = risk;
  affected_files = none;
  requires_repo_write = writes;
  touches_secrets = none;
  reversible = some true;
  created_at = "day-0";
}

abbrev pub ask : String → ModelRequest
ask workflow = record {
  model_class = cloud_coding;
  system_prompt = "s";
  user_prompt = "u";
  temperature = some 2;
  agent_id = none;
  task_id = none;
  workflow_id = some workflow;
}

abbrev pub reply : ℕ → ModelResponse
reply tokens = record {
  text = "{}";
  model_used = "stub";
  model_class = cloud_coding;
  input_tokens = tokens;
  output_tokens = 1;
  estimated_cost_usd = 0;
  latency_ms = 5;
}

abbrev pub no_context : ProjectContext
no_context = record {
  architecture_docs = [];
  standard_operating_procedures = [];
  glossary = [];
  prior_decisions = [];
  open_issues = [];
  workflow_history = [];
}

abbrev pub context_of : AgentTask → ScopedContext
context_of task = record {
  task = task;
  context_source_ids = [];
  snapshot_at = "day-0";
  architecture_docs = [];
  standard_operating_procedures = [];
  glossary = [];
  prior_decisions = [];
  open_issues = [];
  workflow_history = [];
  prior_artifacts = [];
  constraints = [];
  unresolved_unknowns = [];
}
