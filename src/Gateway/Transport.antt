-- ===== src/Gateway/Transport.antt =====
-- src/gateway/concierge/MtlsHttpTransport.ts. The URL parser, JSON and `node:https` are arguments.
pub mod Failures
pub mod Exchange
use harp_ochestration.Prelude.{
  ℕ, String, Bool, true, false, ◌||◌, Option, none, some, if◌then◌else◌, ◌==◌, or_else, codes,
  lower_case, includes, nat_eq, decimal, ◌⧺◌,
}
use harp_ochestration.Gateway.Wire.{
  ContainerRequest, ContainerResponse, failure, ContainerFailureKind, timeout, overloaded,
  unauthorized, internal,
}
use harp_ochestration.Gateway.Registry.{RegisteredContainer}
use harp_ochestration.Gateway.Certificates.{MtlsMaterial}
use harp_ochestration.Gateway.Certificates.Providers.{TlsVersion, tls_1_3}

pub record Url : Type 0 where
  pub protocol : String
  pub hostname : String
  pub port : String
  pub pathname : String

pub record RequestOptions (B : Type 0) : Type 0 where
  pub url : Url
  pub method : String
  pub cert : B
  pub key : B
  pub ca : B
  pub reject_unauthorized : Bool
  pub min_version : TlsVersion
  pub content_type : String
  pub content_length : ℕ
  pub x_correlation_id : String
  pub timeout_ms : ℕ

-- How a request ends: `https.request` throws (at a protocol other than https:, or at material that
-- is none), a response comes with its status and text, the `timeout` event or an `error` comes
-- first, or a response begins and breaks off without its `end`.
pub data Outcome : Type 0 where
  refused : (message : String) → Outcome
  responded : (status : Option ℕ) (text : String) → Outcome
  timed_out : Outcome
  errored : (message : String) → Outcome
  cut_off : Outcome

-- What the transport asks of Node: `new URL(path, base)` (`none` where it throws), `JSON.stringify`,
-- `Buffer.byteLength`, `JSON.parse` (`none` where it throws) and the request itself.
pub record Node (B W : Type 0) : Type 0 where
  pub parse_url : (path base : String) → Option Url
  pub stringify : ContainerRequest → String
  pub byte_length : String → ℕ
  pub parse : String → Option ContainerResponse
  pub request : RequestOptions B → String → W → Outcome × W

unfoldable pub fail : ContainerRequest → ContainerFailureKind → String → Bool → ContainerResponse
fail request kind message retryable = failure record {
  protocol_version = request.protocol_version;
  correlation_id = request.correlation_id;
  kind = kind;
  message = message;
  retryable = retryable;
}

abbrev error_kind : String → ContainerFailureKind
error_kind message =
    if includes (lower_case message) (codes "timeout")
      || includes (lower_case message) (codes "deadline")
    then timeout
    else internal

abbrev parsed_or : ContainerResponse → Option ContainerResponse → ContainerResponse
parsed_or fallback none = fallback
parsed_or fallback (some response) = response

unfoldable pub on_end :
    (String → Option ContainerResponse) → ContainerRequest → ℕ → String → ContainerResponse
unfolding fail
on_end parse request status text =
    if status == 401 || status == 403
    then fail request unauthorized ("HTTP " ⧺ decimal status) false
    else if status == 503
    then fail request overloaded "Container overloaded" true
    else parsed_or (fail request internal "Unparseable container response" true) (parse text)

-- What becomes of the promise of a delivery; `pending` is one that nothing settles.
pub data Settlement : Type 0 where
  resolves : ContainerResponse → Settlement
  throws : Settlement
  pending : Settlement

-- A request that times out is destroyed with the error of the first message. A throw in the executor
-- of the promise rejects it. There is no handler for a response that breaks off.
unfoldable pub settled :
    (String → Option ContainerResponse) → ContainerRequest → Outcome → Settlement
unfolding on_end fail
settled parse request (refused message) = throws
settled parse request (responded status text) =
    resolves (on_end parse request (or_else status 0) text)
settled parse request timed_out =
    resolves (fail request (error_kind "deadline exceeded") "deadline exceeded" true)
settled parse request (errored message) = resolves (fail request (error_kind message) message true)
settled parse request cut_off = pending

unfoldable pub options_of :
    {B : Type 0} → MtlsMaterial B → Url → ContainerRequest → (length : ℕ) → RequestOptions B
options_of material url request length = record {
  url = url;
  method = "POST";
  cert = material.cert;
  key = material.key;
  ca = material.ca;
  reject_unauthorized = true;
  min_version = tls_1_3;
  content_type = "application/json";
  content_length = length;
  x_correlation_id = request.correlation_id;
  timeout_ms = request.deadline_ms;
}

unfoldable pub deliver_to :
    {B W : Type 0} → Node B W → MtlsMaterial B → ContainerRequest → Option Url → W → Settlement × W
unfolding settled options_of
deliver_to node material request none w = (throws, w)
deliver_to node material request (some url) w =
    let payload = node.stringify request in
    let (outcome, w') =
      node.request (options_of material url request (node.byte_length payload)) payload w in
    (settled node.parse request outcome, w')

-- `new URL` throws before there is a promise.
unfoldable pub deliver :
    {B W : Type 0}
    → Node B W
    → MtlsMaterial B
    → RegisteredContainer
    → ContainerRequest
    → W
    → Settlement × W
unfolding deliver_to
deliver node material container request w =
    deliver_to node material request (node.parse_url "/v1/generate" container.base_url) w
