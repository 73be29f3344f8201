-- ===== src/Composition/Redacted.antt =====
-- What the whole system lets out: over the concierge, only redacted prompts.
use harp_ochestration.Prelude.{
  ℕ, String, List, [], ◌∷◌, Option, ◌≡◌, refl, All, All-append, All-of_Elem,
}
use harp_ochestration.Core.Ids.{AgentId}
use harp_ochestration.Core.Records.{
  AgentTask, ProjectContext, ScopedContext, Artifact, ModelRequest, ModelResponse, WorkflowResult,
}
use harp_ochestration.Agents.Json.{ParseJson}
use harp_ochestration.Core.Runtime.{Runtime}
use harp_ochestration.Core.Errors.{Result, ok, err}
use harp_ochestration.Security.Approval.{ApprovalProvider}
use harp_ochestration.Gateway.Redaction.{Redactor}
use harp_ochestration.Gateway.Registry.{plan}
use harp_ochestration.Gateway.Concierge.{
  CoreModelRequest, Deliver, Settings, State, log, envelope_for,
}
use harp_ochestration.Gateway.Concierge
use harp_ochestration.Gateway.Concierge.Deliveries.{Delivery, traced, trace, trace-after}
use harp_ochestration.Gateway.Concierge.Rules.{follow_keeps}
use harp_ochestration.Models.Router.{ModelRouter, Generate, admit, deliver, finish}
use harp_ochestration.Models.Router
use harp_ochestration.Orchestration.Strategies.{CoordinationStrategy}
use harp_ochestration.Orchestration.Workflow.{System, Job, Progress}
use harp_ochestration.Orchestration.Orchestrator.{remember, execute}
use harp_ochestration.Orchestration.Orchestrator.Invariants.{Keeps, AfterRun, Leaves, execute-Keeps}
use harp_ochestration.Agents.Registry.{
  Backend, Platform, execute_harp, ask_model, after_model, agent_request, result_of_answer,
}
use harp_ochestration.Composition.{
  harp_parts, Gate, core_request, concierge_as_provider, gateway_platform,
}
use harp_ochestration.Composition.Steps.{harp_parts-Keeps}

-- Both prompts of a delivery are texts that the redactor has returned.
pub record IsRedacted (redact : Redactor) (d : Delivery) : Type 0 where
  pub system : (raw : String) × (d.1.system_prompt ≡ (redact raw).text)
  pub user : (raw : String) × (d.1.user_prompt ≡ (redact raw).text)

module _ {W : Type 0} (rt : Runtime) (transport : Deliver W) (redact : Redactor)
    (settings : Settings) where
  abbrev AllRedacted : State (W × List Delivery) → Type 0
  AllRedacted s = All (IsRedacted redact) (trace s)

  -- A call of the concierge adds only redacted deliveries.
  generate-AllRedacted :
      (now : ℕ) (request : CoreModelRequest) (s : State (W × List Delivery))
      → AllRedacted s
      → AllRedacted (Concierge.generate rt now (traced transport) redact settings request s).1
  unfolding Concierge.generate envelope_for
  generate-AllRedacted now request s h =
      let envelope = envelope_for redact settings request (rt.uuid now) in
      follow_keeps (traced transport) settings envelope (λ c. Unit {0}) AllRedacted
        (λ fields t k. unfold log in k)
        (λ c attempt t q k. rw (trace-after transport settings envelope c attempt t) (
          All-append (IsRedacted redact) (trace t) _ k (
            record { system = (request.system_prompt, refl); user = (request.user_prompt, refl) },
            tt,
          )))
        (plan request.model_class s.registry) _ (All-of_Elem _ _ (λ c m. tt)) (unfold log in h)

-- The model router does to the world behind its provider what the provider does, or nothing.
module _ {W : Type 0} (Q : W → Type 0) (provider : Generate W) where
  finish-keeps :
      (rt : Runtime) (now used : ℕ) (request : ModelRequest) (r : ModelRouter)
      (x : Result ModelResponse × W)
      → Q x.1
      → Q (finish rt now used request r x).2
  unfolding finish
  finish-keeps rt now used request r (ok answer, w) h = h
  finish-keeps rt now used request r (err e, w) h = h

  deliver-keeps :
      (rt : Runtime) (now : ℕ) (request : ModelRequest) (admitted : Result ℕ) (r : ModelRouter)
      (w : W)
      → ((w' : W) → Q w' → Q (provider request w').1)
      → Q w
      → Q (deliver rt now provider request admitted r w).2
  unfolding deliver
  deliver-keeps rt now request (ok used) r w f h =
      finish-keeps rt now used request r (provider request w) (f w h)
  deliver-keeps rt now request (err e) r w f h = h

  router-keeps :
      (rt : Runtime) (now : ℕ) (request : ModelRequest) (r : ModelRouter) (w : W)
      → ((w' : W) → Q w' → Q (provider request w').1)
      → Q w
      → Q (Router.generate rt now provider request r w).2
  unfolding Router.generate
  router-keeps rt now request r w f h = deliver-keeps rt now request (admit r request) r w f h

module _ {W : Type 0} (platform : Platform W) (approval : ApprovalProvider) (Q : W → Type 0)
    (answers : (request : ModelRequest) (w : W) → Q w → Q (platform.provider request w).1) where
  abbrev Outside : Progress → System (Backend W) → Type 0
  Outside p s = Q s.world.outside

  remember-Outside :
      (found : List Artifact) (s : System (Backend W))
      → Q s.world.outside
      → Q (remember found s).world.outside
  remember-Outside [] s h = h
  remember-Outside (a ∷ more) s h = remember-Outside more _ h

  after_model-Outside :
      (id : AgentId) (context : ScopedContext) (workflow_id : String)
      (answer : Result ModelResponse) (p : Progress) (s : System (Backend W))
      → Q s.world.outside
      → AfterRun Outside id p (after_model platform id context workflow_id answer s)
  unfolding after_model
  after_model-Outside id context workflow_id (err e) p s h = h
  after_model-Outside id context workflow_id (ok response) p s h =
      remember-Outside (result_of_answer platform id context workflow_id response s.ticks).artifacts
        (after_model platform id context workflow_id (ok response) s).1 h

  kept : (job : Job) → Keeps (harp_parts platform approval) job Outside
  unfolding execute_harp ask_model
  kept job =
      harp_parts-Keeps platform approval job Outside
        (λ id context p s h. after_model-Outside id context job.workflow_id _ p _ (
          router-keeps Q platform.provider platform.runtime _
            (agent_request id context job.workflow_id) _ _ (answers _) h))
        (λ entry p s h. h) (λ n p s h. h) (λ d n p s h. h)

  left-Outside :
      (x : Result WorkflowResult × System (Backend W))
      → Leaves (harp_parts platform approval) Outside kept x
      → Q x.1.world.outside
  left-Outside (ok r, s) (job, p, h, e) = h
  left-Outside (err e, s) h = h

  -- What each answer of the provider keeps, a whole workflow keeps.
  pub execute-keeps :
      (task : AgentTask) (project : ProjectContext) (force : Option CoordinationStrategy)
      (s : System (Backend W))
      → Q s.world.outside
      → Q (execute (harp_parts platform approval) task project force s).1.world.outside
  execute-keeps task project force s h =
      left-Outside _
        (execute-Keeps (harp_parts platform approval) Outside kept task project force s h)

-- Over a whole workflow of the four agents, with the concierge as their provider, every delivery
-- to a container carries prompts that the redactor has returned: whatever the agents ask, the
-- containers answer and the transport throws.
pub execute-IsRedacted :
    {W : Type 0} (rt : Runtime) (parse : ParseJson) (transport : Deliver W) (redact : Redactor)
    (settings : Settings) (approval : ApprovalProvider) (task : AgentTask)
    (project : ProjectContext) (force : Option CoordinationStrategy)
    (s : System (Backend (Gate (W × List Delivery))))
    → trace s.world.outside.state ≡ []
    → All (IsRedacted redact) (
        trace
          (execute
            (harp_parts (gateway_platform rt parse (traced transport) redact settings) approval)
            task
            project
            force
            s).1.world.outside.state)
unfolding gateway_platform concierge_as_provider
execute-IsRedacted rt parse transport redact settings approval task project force s e =
    execute-keeps (gateway_platform rt parse (traced transport) redact settings) approval
      (λ g. All (IsRedacted redact) (trace g.state))
      (λ request g h.
        generate-AllRedacted rt transport redact settings g.ticks (core_request request) g.state h)
      task project force s (rw e tt)
