-- ===== src/Models/Router.antt =====
-- src/models/ModelRouter.ts. `W` is the world behind the provider; a call that fails keeps the
-- changes that the provider made to it.
pub mod Accounting
pub mod Bounds
pub mod Overlap
pub mod Interleaving
use harp_ochestration.Prelude.{
  ℕ, ◌+◌, ◌-◌, String, Bool, List, [], ◌∷◌, ◌++◌, Option, none, some, if◌then◌else◌, leb, or_else,
  lookup, insert, string_eq,
}
use harp_ochestration.Core.Ids.{AgentId, ModelClass}
use harp_ochestration.Core.Records.{ModelRequest, ModelResponse}
use harp_ochestration.Core.Runtime.{Runtime}
use harp_ochestration.Core.Errors.{Result, ok, err, HarpError, token_budget_exceeded}

-- `generate` of a provider, on the state of the world.
abbrev pub Generate : Type 0 → Type 0
Generate W = ModelRequest → W → Result ModelResponse × W

pub record ModelCallRecord : Type 0 where
  pub agent_id : Option AgentId
  pub task_id : Option String
  pub workflow_id : Option String
  pub model_used : String
  pub model_class : ModelClass
  pub input_tokens : ℕ
  pub output_tokens : ℕ
  pub estimated_cost_usd : ℕ
  pub latency_ms : ℕ
  pub timestamp : String

pub record ModelRouter : Type 0 where
  pub records : List ModelCallRecord
  pub usage_by_workflow : List (String × ℕ)
  pub budget : ℕ

unfoldable pub make_router : ℕ → ModelRouter
make_router budget = record { records = []; usage_by_workflow = []; budget = budget }

-- `request.workflowId ?? "unscoped"`
abbrev pub scope_of : Option String → String
scope_of id = or_else id "unscoped"

unfoldable pub usage : ModelRouter → String → ℕ
usage r workflow_id = or_else (lookup workflow_id r.usage_by_workflow) 0

-- `Math.max(0, this.budget - this.usage(workflowId))`
unfoldable pub remaining_budget : ModelRouter → String → ℕ
remaining_budget r workflow_id = r.budget - usage r workflow_id

-- `generate` up to its `await`: the usage that was read, or the refusal.
unfoldable pub admit : ModelRouter → ModelRequest → Result ℕ
admit r request =
    let used = usage r (scope_of request.workflow_id) in
    if leb r.budget used
    then err (token_budget_exceeded (scope_of request.workflow_id) used r.budget)
    else ok used

abbrev pub total_tokens : ModelResponse → ℕ
total_tokens response = response.input_tokens + response.output_tokens

unfoldable pub call_record : Runtime → ℕ → ModelRequest → ModelResponse → ModelCallRecord
call_record rt now request response = record {
  agent_id = request.agent_id;
  task_id = request.task_id;
  workflow_id = request.workflow_id;
  model_used = response.model_used;
  model_class = response.model_class;
  input_tokens = response.input_tokens;
  output_tokens = response.output_tokens;
  estimated_cost_usd = response.estimated_cost_usd;
  latency_ms = response.latency_ms;
  timestamp = rt.iso_date now;
}

-- `generate` behind its `await`, with the usage that was read before it.
unfoldable pub settle : Runtime → ℕ → ℕ → ModelRequest → ModelResponse → ModelRouter → ModelRouter
settle rt now used request response r = record r {
  usage_by_workflow =
      insert (scope_of request.workflow_id) (used + total_tokens response) r.usage_by_workflow;
  records = r.records ++ call_record rt now request response ∷ [];
}

unfoldable pub finish {ℓ} :
    {W : Type ℓ}
    → Runtime
    → ℕ
    → ℕ
    → ModelRequest
    → ModelRouter
    → Result ModelResponse × W
    → Result ModelResponse × ModelRouter × W
finish rt now used request r (ok response, w) =
    (ok response, settle rt now used request response r, w)
finish rt now used request r (err e, w) = (err e, r, w)

-- The provider is called only if the budget has room.
unfoldable pub deliver :
    {W : Type 0}
    → Runtime
    → ℕ
    → Generate W
    → ModelRequest
    → Result ℕ
    → ModelRouter
    → W
    → Result ModelResponse × ModelRouter × W
deliver rt now provider request (ok used) r w = finish rt now used request r (provider request w)
deliver rt now provider request (err e) r w = (err e, r, w)

-- The whole call, with nothing in between.
unfoldable pub generate :
    {W : Type 0}
    → Runtime
    → ℕ
    → Generate W
    → ModelRequest
    → ModelRouter
    → W
    → Result ModelResponse × ModelRouter × W
generate rt now provider request r w = deliver rt now provider request (admit r request) r w
