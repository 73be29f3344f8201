-- ===== src/Agents/Registry/Calls.antt =====
-- What one run of an agent leaves in the records of the model router.
use harp_ochestration.Prelude.{ℕ, String, List, [], ◌∷◌, ◌++◌, some, ◌≡◌, refl}
use harp_ochestration.Core.Ids.{AgentId}
use harp_ochestration.Core.Records.{ScopedContext, AgentResult, ModelRequest, ModelResponse}
use harp_ochestration.Core.Runtime.{Runtime}
use harp_ochestration.Core.Errors.{Result, ok, err}
use harp_ochestration.Models.Router.{
  ModelCallRecord, ModelRouter, Generate, admit, deliver, finish, settle, call_record,
}
use harp_ochestration.Models.Router
use harp_ochestration.Orchestration.Workflow.{System}
use harp_ochestration.Agents.Output.{parse_model_output}
use harp_ochestration.Agents.Registry.{
  Backend, Platform, execute_harp, ask_model, after_model, agent_request, result_of_answer, making,
}
use harp_ochestration.Agents.Results.Approval.{result_for-IsOwn}

-- An answer leaves one record more, under the agent and the workflow of its request; a call that
-- throws leaves none.
unfoldable Records :
    {W : Type 0} → ModelRequest → ModelRouter → Result ModelResponse × ModelRouter × W → Type 0
Records request r (ok response, after, w) =
    (c : ModelCallRecord) × (after.records ≡ r.records ++ c ∷ [])
    × (c.agent_id ≡ request.agent_id)
    × (c.workflow_id ≡ request.workflow_id)
Records request r (err e, after, w) = after.records ≡ r.records

module _ {W : Type 0} (rt : Runtime) (now : ℕ) (provider : Generate W) (request : ModelRequest)
    (r : ModelRouter) where
  finish-Records :
      (used : ℕ) (x : Result ModelResponse × W) → Records request r (finish rt now used request r x)
  unfolding Records finish settle call_record
  finish-Records used (ok response, w) = (_, refl, refl, refl)
  finish-Records used (err e, w) = refl

  deliver-Records :
      (admitted : Result ℕ) (w : W)
      → Records request r (deliver rt now provider request admitted r w)
  unfolding deliver
  deliver-Records (ok used) w = finish-Records used (provider request w)
  deliver-Records (err e) w = unfold Records in refl

  generate-Records : (w : W) → Records request r (Router.generate rt now provider request r w)
  unfolding Router.generate
  generate-Records w = deliver-Records (admit r request) w

module _ {W : Type 0} (platform : Platform W) (id : AgentId) (context : ScopedContext)
    (workflow_id : String) where
  -- One record more behind a run that answers, under the agent and the workflow; none behind one that
  -- throws.
  abbrev pub IsCalled : List ModelCallRecord → Result AgentResult × System (Backend W) → Type 0
  IsCalled before (err e, t) = t.world.router.records ≡ before
  IsCalled before (ok r, t) =
      (c : ModelCallRecord) × (t.world.router.records ≡ before ++ c ∷ [])
      × (c.agent_id ≡ some id)
      × (c.workflow_id ≡ some workflow_id)
      × (r.agent_id ≡ id)

  after_model-IsCalled :
      (r : ModelRouter) (answer : Result ModelResponse) (s : System (Backend W))
      → Records (agent_request id context workflow_id) r (answer, s.world.router, s.world.outside)
      → IsCalled r.records (after_model platform id context workflow_id answer s)
  unfolding Records after_model agent_request result_of_answer
  after_model-IsCalled r (err e) s h = h
  after_model-IsCalled r (ok response) s (c, grown, a, w) = (
    c,
    grown,
    a,
    w,
    (result_for-IsOwn id (parse_model_output platform.parse response.text) response.text
        (making platform id context workflow_id s.ticks)).named,
  )

  pub execute_harp-IsCalled :
      (task_id : String) (s : System (Backend W))
      → IsCalled s.world.router.records (execute_harp platform id task_id context workflow_id s)
  unfolding execute_harp ask_model
  execute_harp-IsCalled task_id s =
      after_model-IsCalled s.world.router _ _
        (generate-Records platform.runtime _ platform.provider _ s.world.router s.world.outside)
