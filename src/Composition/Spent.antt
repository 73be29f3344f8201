-- ===== src/Composition/Spent.antt =====
-- What a whole workflow spends of the token budgets.
use harp_ochestration.Prelude.{ℕ, String, Option, ◌≡◌, ◌∙◌}
use harp_ochestration.Core.Ids.{AgentId}
use harp_ochestration.Core.Records.{
  AgentTask, ProjectContext, ScopedContext, ModelResponse, WorkflowResult,
}
use harp_ochestration.Core.Errors.{Result, ok, err}
use harp_ochestration.Security.Approval.{ApprovalProvider}
use harp_ochestration.Models.Router.{ModelRouter}
use harp_ochestration.Models.Router.Accounting.{IsBalanced, generate-IsBalanced}
use harp_ochestration.Models.Router.Bounds.{
  CostsBelow, IsWithin, generate-IsWithin, generate-budget,
}
use harp_ochestration.Orchestration.Strategies.{CoordinationStrategy}
use harp_ochestration.Orchestration.Workflow.{System, Job, Progress}
use harp_ochestration.Orchestration.Orchestrator.{execute}
use harp_ochestration.Orchestration.Orchestrator.Invariants.{Keeps, AfterRun, Leaves, execute-Keeps}
use harp_ochestration.Agents.Registry.{
  Backend, Platform, execute_harp, ask_model, after_model, agent_request, result_of_answer,
}
use harp_ochestration.Composition.{harp_parts}
use harp_ochestration.Composition.Accounted.{remember-world}
use harp_ochestration.Composition.Steps.{harp_parts-Keeps}

-- The budget is as given, the accounts are those of the records, and none is overdrawn by the cost of a call or more.
pub record IsThrifty (budget most : ℕ) (r : ModelRouter) : Type 0 where
  pub limited : r.budget ≡ budget
  pub balanced : IsBalanced r
  pub within : IsWithin most r

module _ {W : Type 0} (platform : Platform W) (approval : ApprovalProvider) (budget most : ℕ)
    (cheap : CostsBelow most platform.provider) where
  abbrev Thrifty : Progress → System (Backend W) → Type 0
  Thrifty p s = IsThrifty budget most s.world.router

  after_model-Thrifty :
      (id : AgentId) (context : ScopedContext) (workflow_id : String)
      (answer : Result ModelResponse) (p : Progress) (s : System (Backend W))
      → IsThrifty budget most s.world.router
      → AfterRun Thrifty id p (after_model platform id context workflow_id answer s)
  unfolding after_model
  after_model-Thrifty id context workflow_id (err e) p s h = h
  after_model-Thrifty id context workflow_id (ok response) p s h =
      rw
        (remember-world
          (result_of_answer platform id context workflow_id response s.ticks).artifacts
          (after_model platform id context workflow_id (ok response) s).1)
        h

  kept : (job : Job) → Keeps (harp_parts platform approval) job Thrifty
  unfolding execute_harp ask_model
  kept job =
      harp_parts-Keeps platform approval job Thrifty
        (λ id context p s h. after_model-Thrifty id context job.workflow_id _ p _ (record {
          limited =
              generate-budget platform.runtime _ platform.provider
                (agent_request id context job.workflow_id) s.world.router s.world.outside
              ∙ h.limited;
          balanced =
              generate-IsBalanced platform.runtime _ platform.provider
                (agent_request id context job.workflow_id) s.world.router s.world.outside
                h.balanced;
          within =
              generate-IsWithin platform.runtime most platform.provider _
                (agent_request id context job.workflow_id) s.world.router s.world.outside cheap
                h.within;
        }))
        (λ entry p s h. h) (λ n p s h. h) (λ d n p s h. h)

  left-Thrifty :
      (x : Result WorkflowResult × System (Backend W))
      → Leaves (harp_parts platform approval) Thrifty kept x
      → IsThrifty budget most x.1.world.router
  left-Thrifty (ok r, s) (job, p, h, e) = h
  left-Thrifty (err e, s) h = h

-- If every answer of the provider costs less than `most` tokens, then a workflow of the four agents,
-- however it ends, leaves every account at the sum of its recorded calls and below the budget and
-- `most` tokens, where it has found them so: the four agents together overdraw a budget by less than
-- one call.
pub execute-IsThrifty :
    {W : Type 0} (platform : Platform W) (approval : ApprovalProvider) (budget most : ℕ)
    (task : AgentTask) (project : ProjectContext) (force : Option CoordinationStrategy)
    (s : System (Backend W))
    → CostsBelow most platform.provider
    → IsThrifty budget most s.world.router
    → IsThrifty budget most
        (execute (harp_parts platform approval) task project force s).1.world.router
execute-IsThrifty platform approval budget most task project force s cheap h =
    left-Thrifty platform approval budget most cheap _ (
      execute-Keeps (harp_parts platform approval) (Thrifty platform approval budget most cheap)
        (kept platform approval budget most cheap) task project force s h)
