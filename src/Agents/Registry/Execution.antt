-- ===== src/Agents/Registry/Execution.antt =====
-- What one run of an agent does to the audit log, the router and the store.
use harp_ochestration.Prelude.{String, [], ◌∷◌, ◌++◌, some, ◌≡◌, refl, sym, ap, ◌∙◌, decide, lookup}
use harp_ochestration.Core.Ids.{
  AgentId, AgentId-discrete, agent, pharaoh, horus_nexus, anubis_sentinel, ra,
}
use harp_ochestration.Core.Records.{ScopedContext, AgentResult, AuditEvent, ModelResponse}
use harp_ochestration.Core.Errors.{Result, ok, err}
use harp_ochestration.Storage.Audit.{write, saved}
use harp_ochestration.Orchestration.Workflow.{System, Agent}
use harp_ochestration.Agents.Output.{parse_model_output}
use harp_ochestration.Agents.Results.Approval.{IsOwn, result_for-IsOwn}
use harp_ochestration.Agents.Registry.{
  Backend, Platform, agent_entry, agent_started, agent_completed, ask_model, after_model,
  execute_harp, get_agent, registered_agents, result_of_answer, making,
}

module _ {W : Type 0} where
  -- The registry knows every agent: it never throws.
  pub get_agent-total :
      (platform : Platform W) (id : AgentId) → get_agent platform id ≡ ok (execute_harp platform id)
  unfolding get_agent registered_agents lookup AgentId-discrete decide
  get_agent-total platform pharaoh = refl
  get_agent-total platform horus_nexus = refl
  get_agent-total platform anubis_sentinel = refl
  get_agent-total platform ra = refl

  -- A run that throws has left the event of its start; one that answers, that of its end as well,
  -- with the agent's own result.
  unfoldable pub IsReported :
      Platform W
      → AgentId
      → ScopedContext
      → String
      → System (Backend W)
      → Result AgentResult × System (Backend W)
      → Type 0
  IsReported platform id context workflow_id s (err e, after) =
      (after.memory ≡ s.memory)
      × (after.events
          ≡ s.events ++ saved platform.runtime s.ticks (agent_started id context workflow_id) ∷ [])
  IsReported platform id context workflow_id s (ok r, after) =
      (after.memory ≡ s.memory)
      × IsOwn id context.task.id workflow_id r
      × ((done : AuditEvent) × (after.events
            ≡ (s.events
                ++ saved platform.runtime s.ticks (agent_started id context workflow_id) ∷ [])
              ++ done ∷ [])
          × (done.actor ≡ agent id)
          × (done.action ≡ "agent.completed")
          × (done.workflow_id ≡ some workflow_id))

  after_model-IsReported :
      (platform : Platform W) (id : AgentId) (context : ScopedContext) (workflow_id : String)
      (answer : Result ModelResponse) (s after : System (Backend W))
      → after.memory ≡ s.memory
      → after.events
        ≡ s.events ++ saved platform.runtime s.ticks (agent_started id context workflow_id) ∷ []
      → IsReported platform id context workflow_id s
          (after_model platform id context workflow_id answer after)
  unfolding IsReported after_model write saved agent_completed agent_entry result_of_answer
  after_model-IsReported platform id context workflow_id (err e) s after m h = (m, h)
  after_model-IsReported platform id context workflow_id (ok response) s after m h = (
    m,
    result_for-IsOwn id (parse_model_output platform.parse response.text) response.text
        (making platform id context workflow_id after.ticks),
    rw h (_, refl, refl, refl, refl),
  )

  -- A run of an agent leaves the artifact store alone and reports itself in the audit log: its
  -- start if the model router throws, and its start and its end if it answers. The result carries
  -- the agent's name, and its artifacts the agent's, the task's and the workflow's.
  pub execute_harp-IsReported :
      (platform : Platform W) (id : AgentId) (task_id : String) (context : ScopedContext)
      (workflow_id : String) (s : System (Backend W))
      → IsReported platform id context workflow_id s
          (execute_harp platform id task_id context workflow_id s)
  unfolding execute_harp ask_model write
  execute_harp-IsReported platform id task_id context workflow_id s =
      after_model-IsReported platform id context workflow_id _ s _ refl refl

  agent_or : Agent (Backend W) → Result (Agent (Backend W)) → Agent (Backend W)
  agent_or default (ok a) = a
  agent_or default (err e) = default

  -- What the registry gives is the run of the agent of that id.
  pub get_agent_unique :
      (platform : Platform W) (id : AgentId) (a : Agent (Backend W))
      → get_agent platform id ≡ ok a
      → execute_harp platform id ≡ a
  unfolding agent_or
  get_agent_unique platform id a e = ap (agent_or a) (sym (get_agent-total platform id) ∙ e)
