-- ===== src/Agents/Registry/Answers.antt =====
-- A run of an agent answers where the budget has room and the provider answers.
use harp_ochestration.Prelude.{
  ℕ, ◌+◌, ◌≤◌, ◌<◌, String, ◌≡◌, refl, string_eq, eq_iff, arith, leb, false,
}
use harp_ochestration.Core.Ids.{AgentId}
use harp_ochestration.Core.Records.{ScopedContext, AgentResult, ModelRequest, ModelResponse}
use harp_ochestration.Core.Runtime.{Runtime}
use harp_ochestration.Core.Errors.{Result, ok, err}
use harp_ochestration.Models.Router.{
  ModelRouter, Generate, scope_of, usage, admit, deliver, finish, settle, total_tokens,
}
use harp_ochestration.Models.Router
use harp_ochestration.Models.Router.Accounting.{usage-settle}
use harp_ochestration.Orchestration.Workflow.{System}
use harp_ochestration.Agents.Registry.{
  Backend, Platform, execute_harp, ask_model, after_model, agent_request,
}

-- An answer of at most so many tokens.
abbrev pub IsAnswer : {W : Type 0} → ℕ → Result ModelResponse × W → Type 0
IsAnswer most (err e, w) = ⊥
IsAnswer most (ok response, w) = total_tokens response ≤ most

-- The account of `w` is charged at most so much, and the budget is the same.
pub record IsCharged (most : ℕ) (w : String) (before after : ModelRouter) : Type 0 where
  pub usage_le : usage after w ≤ usage before w + most
  pub same : after.budget ≡ before.budget

unfoldable Charged :
    {W : Type 0} → ℕ → ModelRequest → ModelRouter → Result ModelResponse × ModelRouter × W → Type 0
Charged most request r (err e, after, w) = ⊥
Charged most request r (ok response, after, w) =
    IsCharged most (scope_of request.workflow_id) r after

module _ {W : Type 0} (rt : Runtime) (now most : ℕ) (provider : Generate W) (request : ModelRequest)
    (r : ModelRouter) where
  finish-Charged :
      (x : Result ModelResponse × W)
      → IsAnswer most x
      → Charged most request r (finish rt now (usage r (scope_of request.workflow_id)) request r x)
  unfolding Charged finish
  finish-Charged (err e, w) h = absurd h
  finish-Charged (ok response, w) h =
      let scope = scope_of request.workflow_id in
      record {
        usage_le = ground (
          arith,
          usage-settle rt now (usage r scope) request response r scope,
          eq_iff scope scope,
          h,
        );
        same = unfold settle in refl;
      }

  generate-Charged :
      (w : W)
      → usage r (scope_of request.workflow_id) < r.budget
      → IsAnswer most (provider request w)
      → Charged most request r (Router.generate rt now provider request r w)
  unfolding Router.generate admit deliver
  generate-Charged w room h =
      let full : leb r.budget (usage r (scope_of request.workflow_id)) ≡ false =
        ground (arith, room) in
      rw full (finish-Charged (provider request w) h)

module _ {W : Type 0} (platform : Platform W) (most : ℕ) (id : AgentId) (context : ScopedContext)
    (workflow_id : String) where
  -- A result, at a bounded cost.
  abbrev pub IsAnswered : ModelRouter → Result AgentResult × System (Backend W) → Type 0
  IsAnswered before (err e, t) = ⊥
  IsAnswered before (ok r, t) = IsCharged most workflow_id before t.world.router

  after_model-IsAnswered :
      (r : ModelRouter) (answer : Result ModelResponse) (s : System (Backend W))
      → Charged most
          (agent_request id context workflow_id)
          r
          (answer, s.world.router, s.world.outside)
      → IsAnswered r (after_model platform id context workflow_id answer s)
  unfolding Charged after_model agent_request
  after_model-IsAnswered r (err e) s h = absurd h
  after_model-IsAnswered r (ok response) s h = h

  pub execute_harp-IsAnswered :
      (task_id : String) (s : System (Backend W))
      → usage s.world.router workflow_id < s.world.router.budget
      → ((request : ModelRequest) (w : W) → IsAnswer most (platform.provider request w))
      → IsAnswered s.world.router (execute_harp platform id task_id context workflow_id s)
  unfolding execute_harp ask_model agent_request
  execute_harp-IsAnswered task_id s room answers = after_model-IsAnswered s.world.router _ _ (
      generate-Charged platform.runtime _ most platform.provider
        (agent_request id context workflow_id) s.world.router s.world.outside room (answers _ _))
