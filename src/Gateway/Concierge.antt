-- ===== src/Gateway/Concierge.antt =====
-- src/gateway/concierge/Concierge.ts. The transport and the redactor are interfaces of the source.
-- `W` is the world behind the transport.
pub mod Rules
pub mod Deliveries
pub mod Failover
pub mod Health
use harp_ochestration.Prelude.{
  ℕ, zero, suc, ◌+◌, String, Bool, true, false, ◌&&◌, ◌||◌, List, [], ◌∷◌, ◌++◌, Option, none, some,
  ◌==◌, if◌then◌else◌, ltb, or_else, ◌⧺◌,
}
use harp_ochestration.Core.Ids.{AgentId, ModelClass, class_name}
use harp_ochestration.Core.Records.{ModelResponse}
use harp_ochestration.Core.Runtime.{Runtime}
use harp_ochestration.Core.Errors.{Result, ok, err, HarpError, concierge_error}
use harp_ochestration.Gateway.Wire.{
  ContainerRequest, ContainerResponse, success, failure, ContainerSuccess, ContainerFailure,
  bad_request, unauthorized, failure_kind_eq, failure_kind_name, wire_protocol_version,
}
use harp_ochestration.Gateway.Redaction.{RedactionFinding, RedactionResult, Redactor}
use harp_ochestration.Gateway.Logging.{LogOutcome, SafeLogFields}
use harp_ochestration.Gateway.Registry.{RegisteredContainer, Registry, mark_health, plan}

pub record CoreModelRequest : Type 0 where
  pub model_class : ModelClass
  pub system_prompt : String
  pub user_prompt : String
  pub temperature : Option ℕ
  pub agent_id : Option AgentId
  pub task_id : Option String
  pub workflow_id : Option String
  pub high_risk : Option Bool

-- `deliver` of a transport; `none` is a throw.
abbrev pub Deliver : Type 0 → Type 0
Deliver W = RegisteredContainer → ContainerRequest → W → Option ContainerResponse × W

pub record Settings : Type 0 where
  pub retries_per_container : ℕ
  pub deadline_ms : ℕ

-- What a call of the concierge changes: the health of containers, the log and the world.
pub record State (W : Type 0) : Type 0 where
  pub registry : Registry
  pub logs : List SafeLogFields
  pub world : W

abbrev blank : String → String → SafeLogFields
blank event correlation_id = record {
  event = event;
  correlation_id = some correlation_id;
  container_id = none;
  model_class = none;
  outcome = none;
  failure_kind = none;
  attempt = none;
  latency_ms = none;
  input_tokens = none;
  output_tokens = none;
  redactions = none;
}

unfoldable pub log : {W : Type 0} → SafeLogFields → State W → State W
log fields s = record s { logs = s.logs ++ fields ∷ [] }

-- What one delivery decides: to return, to throw, to try the container again, or to go on.
pub data Verdict : Type 0 where
  answer : ModelResponse → Verdict
  fatal : HarpError → Verdict
  again : Verdict
  move_on : Verdict

abbrev pub to_core : ContainerSuccess → ModelResponse
to_core r = record {
  text = r.text;
  model_used = r.model_used;
  model_class = r.model_class;
  input_tokens = r.input_tokens;
  output_tokens = r.output_tokens;
  estimated_cost_usd = r.estimated_cost_usd;
  latency_ms = r.latency_ms;
}

unfoldable pub is_fatal : ContainerFailure → Bool
is_fatal f = f.kind == unauthorized || f.kind == bad_request

-- `response.retryable && attempt < this.router.retriesPerContainer`
unfoldable pub will_retry_same : Settings → ℕ → ContainerFailure → Bool
will_retry_same settings attempt f = f.retryable && ltb attempt settings.retries_per_container

unfoldable pub verdict : Settings → RegisteredContainer → ℕ → Option ContainerResponse → Verdict
verdict settings c attempt none = again
verdict settings c attempt (some (success r)) = answer (to_core r)
verdict settings c attempt (some (failure f)) =
    if is_fatal f
    then fatal (
        concierge_error
          ("Container " ⧺ c.id ⧺ " returned " ⧺ failure_kind_name f.kind ⧺ ": " ⧺ f.message)
          (some (failure_kind_name f.kind)))
    else if will_retry_same settings attempt f
    then again
    else move_on

-- `lastKind` behind a delivery.
unfoldable pub kind_after : Option ContainerResponse → Option String → Option String
kind_after none last = some "transport"
kind_after (some (success r)) last = last
kind_after (some (failure f)) last = some (failure_kind_name f.kind)

unfoldable pub attempt_log :
    Settings → RegisteredContainer → String → ℕ → Option ContainerResponse → SafeLogFields
attempt_log settings c id attempt none = record (blank "concierge.transport_error" id) {
  container_id = some c.id;
  attempt = some attempt;
  outcome = some (
      if ltb attempt settings.retries_per_container then LogOutcome.retry else LogOutcome.failover);
  failure_kind = some "transport";
}
attempt_log settings c id attempt (some (success r)) = record (blank "concierge.success" id) {
  container_id = some c.id;
  model_class = some r.model_class;
  outcome = some LogOutcome.success;
  attempt = some attempt;
  latency_ms = some r.latency_ms;
  input_tokens = some r.input_tokens;
  output_tokens = some r.output_tokens;
}
attempt_log settings c id attempt (some (failure f)) =
    if is_fatal f
    then record (blank "concierge.fatal_failure" id) {
      container_id = some c.id;
      outcome = some LogOutcome.failure;
      failure_kind = some (failure_kind_name f.kind);
      attempt = some attempt;
    }
    else record (blank "concierge.container_failure" id) {
      container_id = some c.id;
      failure_kind = some (failure_kind_name f.kind);
      attempt = some attempt;
      outcome =
          some
            (if will_retry_same settings attempt f then LogOutcome.retry else LogOutcome.failover);
    }

-- Only a container that is given up after a structured failure is marked unhealthy.
unfoldable pub health_after : RegisteredContainer → Verdict → Registry → Registry
health_after c move_on registry = mark_health c.id false registry
health_after c _ registry = registry

-- How the attempts at one container, and at all, end.
pub data Outcome : Type 0 where
  done : Result ModelResponse → Outcome
  next : (last_kind : Option String) → Outcome

-- The branches behind a delivery; `rest` is the next attempt.
unfoldable pub proceed :
    {W : Type 0} → Verdict → Option String → State W → Outcome × State W → Outcome × State W
proceed (answer r) last s rest = (done (ok r), s)
proceed (fatal e) last s rest = (done (err e), s)
proceed again last s rest = rest
proceed move_on last s rest = (next last, s)

-- The branches behind a container; `rest` is the loop over the containers left.
unfoldable pub conclude :
    {W : Type 0}
    → Outcome
    → State W
    → (Option String → Result ModelResponse × State W)
    → Result ModelResponse × State W
conclude (done r) s rest = (r, s)
conclude (next last) s rest = rest last

module _ {W : Type 0} (deliver : Deliver W) (settings : Settings)
    (envelope : ContainerRequest) where
  unfoldable pub after_delivery :
      RegisteredContainer → ℕ → State W → Option ContainerResponse × W → State W
  unfolding log
  after_delivery c attempt s (response, w) =
      log (attempt_log settings c envelope.correlation_id attempt response) (record s {
        registry = health_after c (verdict settings c attempt response) s.registry;
        world = w;
      })

  -- The inner loop; `left` attempts are left, the next one has the number `attempt`.
  unfoldable pub try_container :
      ℕ → ℕ → RegisteredContainer → Option String → State W → Outcome × State W
  try_container zero attempt c last s = (next last, s)
  try_container (suc left) attempt c last s =
      let response = (deliver c envelope s.world).0 in
      let s' = after_delivery c attempt s (deliver c envelope s.world) in
      let last' = kind_after response last in
      let rest = try_container left (attempt + 1) c last' s' in
      proceed (verdict settings c attempt response) last' s' rest

  -- The outer loop.
  unfoldable pub try_all :
      List RegisteredContainer → Option String → State W → Result ModelResponse × State W
  unfolding log
  try_all [] last s = (
    err (
        concierge_error
          ("All containers for class \""
            ⧺ class_name envelope.model_class
            ⧺ "\" failed (last: "
            ⧺ or_else last "unknown"
            ⧺ "). Reporting to core; no weaker model substituted.")
          last),
    log
        (record (blank "concierge.exhausted" envelope.correlation_id) {
          model_class = some envelope.model_class;
          outcome = some LogOutcome.failure;
          failure_kind = last;
        })
        s,
  )
  try_all (c ∷ cs) last s =
      let (outcome, s') = try_container settings.retries_per_container 1 c last s in
      let rest = λ (last' : Option String). try_all cs last' s' in conclude outcome s' rest

unfoldable pub envelope_for :
    Redactor → Settings → CoreModelRequest → (correlation_id : String) → ContainerRequest
envelope_for redact settings request correlation_id = record {
  protocol_version = wire_protocol_version;
  correlation_id = correlation_id;
  model_class = request.model_class;
  system_prompt = (redact request.system_prompt).text;
  user_prompt = (redact request.user_prompt).text;
  temperature = request.temperature;
  high_risk = or_else request.high_risk false;
  deadline_ms = settings.deadline_ms;
}

abbrev unless_empty : List RedactionFinding → Option (List RedactionFinding)
unless_empty [] = none
unless_empty (f ∷ fs) = some (f ∷ fs)

unfoldable pub request_log : Redactor → CoreModelRequest → String → SafeLogFields
request_log redact request id = record (blank "concierge.request" id) {
  model_class = some request.model_class;
  redactions =
      unless_empty
        ((redact request.system_prompt).findings ++ (redact request.user_prompt).findings);
}

unfoldable pub no_route : ModelClass → HarpError
no_route model_class =
    concierge_error
      ("No healthy container serves model class \""
        ⧺ class_name model_class
        ⧺ "\". Reporting to core rather than downgrading.")
      (some "no_route")

-- The rest of `generate`, on the plan.
unfoldable pub follow :
    {W : Type 0}
    → Deliver W
    → Settings
    → ContainerRequest
    → List RegisteredContainer
    → State W
    → Result ModelResponse × State W
unfolding log
follow deliver settings envelope [] s = (
  err (no_route envelope.model_class),
  log
      (record (blank "concierge.no_route" envelope.correlation_id) {
        model_class = some envelope.model_class;
        outcome = some LogOutcome.failure;
      })
      s,
)
follow deliver settings envelope (c ∷ cs) s = try_all deliver settings envelope (c ∷ cs) none s

unfoldable pub generate :
    {W : Type 0}
    → Runtime
    → ℕ
    → Deliver W
    → Redactor
    → Settings
    → CoreModelRequest
    → State W
    → Result ModelResponse × State W
unfolding log
generate rt now deliver redact settings request s =
    let id = rt.uuid now in
    let s' = log (request_log redact request id) s in
    follow deliver settings (envelope_for redact settings request id)
      (plan request.model_class s'.registry) s'
