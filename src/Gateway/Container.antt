-- ===== src/Gateway/Container.antt =====
-- container/src: Provider.ts and server.ts. JSON, the clock and Node's streams are arguments; `W` is
-- the world behind the contained provider.
pub mod Serving
pub mod Start
use harp_ochestration.Prelude.{
  ℕ, ◌+◌, ◌-◌, ◌/◌, String, Bool, true, ◌&&◌, List, [], ◌∷◌, Option, none, some, if◌then◌else◌,
  ◌==◌, string_eq, units, codes, ◌⧺◌,
}
use harp_ochestration.Core.Ids.{ModelClass, class_name}
use harp_ochestration.Gateway.Wire.{
  ContainerDescriptor, ContainerRequest, ContainerResponse, success, failure, bad_request,
  provider_error, wire_protocol_version,
}

pub record ProviderInput : Type 0 where
  pub model_class : ModelClass
  pub system_prompt : String
  pub user_prompt : String
  pub temperature : Option ℕ
  pub high_risk : Bool
  pub deadline_ms : ℕ

pub record ProviderOutput : Type 0 where
  pub text : String
  pub model_used : String
  pub model_class : ModelClass
  pub input_tokens : ℕ
  pub output_tokens : ℕ
  pub estimated_cost_usd : ℕ
  pub latency_ms : ℕ

-- What `generate` gives: an output, or the message of what it throws.
pub data Generated : Type 0 where
  generated : ProviderOutput → Generated
  threw : (message : String) → Generated

pub record ContainedProvider (W : Type 0) : Type 0 where
  pub descriptor : ContainerDescriptor
  pub generate : ProviderInput → W → Generated × W

pub record StubPayload : Type 0 where
  pub summary : String
  pub findings : List String
  pub risks : List String
  pub recommendations : List String
  pub unknowns : List String
  pub next_safe_step : String
  pub assumptions : List String

unfoldable pub stub_payload : ContainerDescriptor → ProviderInput → StubPayload
stub_payload descriptor input = record {
  summary =
      "Stub " ⧺ class_name input.model_class ⧺ " response from container " ⧺ descriptor.id ⧺ ".";
  findings = "Secure pipe exercised end to end." ∷ "Provider executed inside its container." ∷ [];
  risks =
      if input.high_risk
      then "High-risk task: human approval required before execution." ∷ []
      else [];
  recommendations = "Replace stub with a real model SDK inside this container." ∷ [];
  unknowns = "Real model judgement unavailable in stub mode." ∷ [];
  next_safe_step = "Wire a real provider; keep the concierge and core unchanged.";
  assumptions = "Stub mode assumes no upstream model access." ∷ [];
}

-- `Math.ceil(n / 4)`
abbrev pub quarter_up : ℕ → ℕ
quarter_up n = (n + 3) / 4

-- `start` and `stop` are the two readings of the clock, the second not before the first.
unfoldable pub stub_output :
    (StubPayload → String) → ContainerDescriptor → (start stop : ℕ) → ProviderInput → ProviderOutput
unfolding stub_payload
stub_output stringify descriptor start stop input =
    let text = stringify (stub_payload descriptor input) in
    record {
      text = text;
      model_used = "stub:" ⧺ descriptor.provider_family ⧺ ":" ⧺ class_name input.model_class;
      model_class = input.model_class;
      input_tokens =
          quarter_up (units (codes input.system_prompt) + units (codes input.user_prompt));
      output_tokens = quarter_up (units (codes text));
      estimated_cost_usd = 0;
      latency_ms = stop - start;
    }

-- `readBody`: the text, or the message of the stream's error.
pub data BodyRead : Type 0 where
  received : String → BodyRead
  broken : (message : String) → BodyRead

-- `JSON.parse(raw)` taken as a request: `fieldless` is a value whose fields cannot be read (`null`),
-- with the message of the `TypeError`.
pub data Incoming : Type 0 where
  malformed : Incoming
  fieldless : (message : String) → Incoming
  incoming : ContainerRequest → Incoming

pub record IncomingMessage : Type 0 where
  pub method : String
  pub url : String
  pub body : BodyRead

-- The bodies that the server sends.
pub data ServerBody : Type 0 where
  health : ContainerDescriptor → (protocol_version : String) → ServerBody
  answer : ContainerResponse → ServerBody
  notice : (message : String) → ServerBody

pub record ServerResponse : Type 0 where
  pub status : ℕ
  pub text : String

unfoldable pub send_json : (ServerBody → String) → ℕ → ServerBody → ServerResponse
send_json stringify status body = record { status = status; text = stringify body }

unfoldable pub input_of : ContainerRequest → ProviderInput
input_of request = record {
  model_class = request.model_class;
  system_prompt = request.system_prompt;
  user_prompt = request.user_prompt;
  temperature = request.temperature;
  high_risk = request.high_risk;
  deadline_ms = request.deadline_ms;
}

abbrev refusal : String → String → ContainerResponse
refusal correlation_id message = failure record {
  protocol_version = wire_protocol_version;
  correlation_id = correlation_id;
  kind = bad_request;
  message = message;
  retryable = Bool.false;
}

-- What is sent when the provider has settled.
unfoldable pub send_generated :
    {W : Type 0} → (ServerBody → String) → ContainerRequest → Generated × W → ServerResponse × W
unfolding send_json
send_generated stringify request (generated out, w) = (
  send_json stringify 200 (
      answer (
        success record {
          protocol_version = wire_protocol_version;
          correlation_id = request.correlation_id;
          text = out.text;
          model_used = out.model_used;
          model_class = out.model_class;
          input_tokens = out.input_tokens;
          output_tokens = out.output_tokens;
          estimated_cost_usd = out.estimated_cost_usd;
          latency_ms = out.latency_ms;
        })),
  w,
)
send_generated stringify request (threw message, w) = (
  send_json stringify 502 (
      answer (
        failure record {
          protocol_version = wire_protocol_version;
          correlation_id = request.correlation_id;
          kind = provider_error;
          message = message;
          retryable = true;
        })),
  w,
)

unfoldable pub serve_incoming :
    {W : Type 0} → ContainedProvider W → (ServerBody → String) → Incoming → W → ServerResponse × W
unfolding send_json send_generated input_of
serve_incoming provider stringify malformed w =
    (send_json stringify 400 (answer (refusal "unknown" "Malformed JSON body.")), w)
serve_incoming provider stringify (fieldless message) w =
    (send_json stringify 500 (notice message), w)
serve_incoming provider stringify (incoming request) w =
    if request.protocol_version == wire_protocol_version
    then send_generated stringify request (provider.generate (input_of request) w)
    else (
      send_json stringify 400 (
          answer (
            refusal request.correlation_id (
              "Protocol mismatch: got " ⧺ request.protocol_version ⧺ ", want "
              ⧺ wire_protocol_version ⧺ "."))),
      w,
    )

unfoldable pub serve_body :
    {W : Type 0}
    → ContainedProvider W
    → (String → Incoming)
    → (ServerBody → String)
    → BodyRead
    → W
    → ServerResponse × W
unfolding serve_incoming send_json
serve_body provider parse stringify (broken message) w =
    (send_json stringify 500 (notice message), w)
serve_body provider parse stringify (received raw) w =
    serve_incoming provider stringify (parse raw) w

-- The handler that `startContainerServer` gives to `createServer`.
unfoldable pub serve :
    {W : Type 0}
    → ContainedProvider W
    → (String → Incoming)
    → (ServerBody → String)
    → IncomingMessage
    → W
    → ServerResponse × W
unfolding serve_body send_json
serve provider parse stringify req w =
    if req.method == "GET" && req.url == "/v1/health"
    then (send_json stringify 200 (health provider.descriptor wire_protocol_version), w)
    else if req.method == "POST" && req.url == "/v1/generate"
    then serve_body provider parse stringify req.body w
    else (send_json stringify 404 (notice "Not found"), w)
