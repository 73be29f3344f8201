-- ===== src/Gateway/Transport/Exchange.antt =====
-- A request from the transport to the container's server and back.
use harp_ochestration.Prelude.{ℕ, String, true, Option, some, ◌≡◌, refl, string_eq, nat_eq}
use harp_ochestration.Gateway.Wire.{
  ContainerRequest, ContainerResponse, success, failure, provider_error, wire_protocol_version,
}
use harp_ochestration.Gateway.Registry.{RegisteredContainer}
use harp_ochestration.Gateway.Certificates.{MtlsMaterial}
use harp_ochestration.Gateway.Container.{
  ContainedProvider, Generated, generated, threw, Incoming, incoming, ServerBody, answer, received,
  ServerResponse, serve, serve_body, serve_incoming, send_generated, send_json, input_of,
}
use harp_ochestration.Gateway.Transport.{
  Url, Outcome, responded, Settlement, resolves, Node, deliver, deliver_to, options_of, settled,
  on_end,
}

-- What both ends take from their platforms.
pub record Codec : Type 0 where
  pub parse_url : (path base : String) → Option Url
  pub write_request : ContainerRequest → String
  pub byte_length : String → ℕ
  pub read_request : String → Incoming
  pub write_body : ServerBody → String
  pub read_response : String → Option ContainerResponse

unfoldable pub as_outcome : {W : Type 0} → ServerResponse × W → Outcome × W
as_outcome (response, w) = (responded (some response.status) response.text, w)

-- A network that carries the request to the server, and its response back, as they are.
unfoldable pub connected : {B W : Type 0} → Codec → ContainedProvider W → Node B W
unfolding as_outcome serve
connected codec provider = record {
  parse_url = codec.parse_url;
  stringify = codec.write_request;
  byte_length = codec.byte_length;
  parse = codec.read_response;
  request = λ options payload w. as_outcome (
      serve provider codec.read_request codec.write_body
        (record { method = options.method; url = options.url.pathname; body = received payload })
        w);
}

-- What the caller is to see of what the provider gave.
unfoldable pub response_to : (correlation_id : String) → Generated → ContainerResponse
response_to correlation_id (generated out) = success record {
  protocol_version = wire_protocol_version;
  correlation_id = correlation_id;
  text = out.text;
  model_used = out.model_used;
  model_class = out.model_class;
  input_tokens = out.input_tokens;
  output_tokens = out.output_tokens;
  estimated_cost_usd = out.estimated_cost_usd;
  latency_ms = out.latency_ms;
}
response_to correlation_id (threw message) = failure record {
  protocol_version = wire_protocol_version;
  correlation_id = correlation_id;
  kind = provider_error;
  message = message;
  retryable = true;
}

-- The world and the settlement of an outcome, as `deliver` gives them.
unfoldable delivered :
    {W : Type 0}
    → (String → Option ContainerResponse)
    → ContainerRequest
    → Outcome × W
    → Settlement × W
delivered read request (outcome, w) = (settled read request outcome, w)

unfoldable pub read_back : {W : Type 0} → (correlation_id : String) → Generated × W → Settlement × W
unfolding response_to
read_back correlation_id (given, w) = (resolves (response_to correlation_id given), w)

module _ {W : Type 0} where
  sent-read :
      (codec : Codec) (request : ContainerRequest) (given : Generated × W)
      → codec.read_response (codec.write_body (answer (response_to request.correlation_id given.0)))
        ≡ some (response_to request.correlation_id given.0)
      → delivered codec.read_response request
          (as_outcome (send_generated codec.write_body request given))
        ≡ read_back request.correlation_id given
  unfolding delivered read_back as_outcome send_generated send_json settled on_end response_to
  sent-read codec request (generated out, w) back = rw back refl
  sent-read codec request (threw message, w) back = rw back refl

module _ {B W : Type 0} where
  -- Over a network that carries texts as they are, when the server reads back the request and the caller the response,
  -- the URL is that of the endpoint and the request has the version of the protocol, a delivery
  -- runs the contained provider once on the fields of the request and hands the caller its output
  -- field by field, or its error as a `provider_error` that may be retried; both with the correlation
  -- id of the request.
  pub deliver-serve :
      (codec : Codec) (provider : ContainedProvider W) (material : MtlsMaterial B)
      (container : RegisteredContainer) (request : ContainerRequest) (url : Url) (w : W)
      → codec.parse_url "/v1/generate" container.base_url ≡ some url
      → url.pathname ≡ "/v1/generate"
      → codec.read_request (codec.write_request request) ≡ incoming request
      → codec.read_response (
          codec.write_body (
            answer (response_to request.correlation_id (provider.generate (input_of request) w).0)))
        ≡ some (response_to request.correlation_id (provider.generate (input_of request) w).0)
      → request.protocol_version ≡ wire_protocol_version
      → deliver (connected codec provider) material container request w
        ≡ read_back request.correlation_id (provider.generate (input_of request) w)
  unfolding deliver deliver_to connected options_of serve serve_body serve_incoming delivered
  deliver-serve codec provider material container request url w at_url at_path read back version =
      rw (at_url, at_path, read, version)
        (sent-read codec (record request { protocol_version = wire_protocol_version })
          (provider.generate (input_of request) w) back)
