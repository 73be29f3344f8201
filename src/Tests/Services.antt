-- ===== src/Tests/Services.antt =====
-- Certificates, the redactor, the container's server and the transport at concrete inputs.
use Prim.Native.String.append
use harp_ochestration.Prelude.{
  ℕ, ◌+◌, String, true, false, [], ◌∷◌, if◌then◌else◌, ◌==◌, string_eq, Bool-cases, ap, ◌∙◌, inl,
  inr, ◌⧺◌, nat_eq, lower_text, includes, lookup, none, some, ◌≡◌, refl, ◌↔◌, ◌⊎◌,
}
use harp_ochestration.Core.Ids.{cloud_coding}
use harp_ochestration.Core.Errors.{ok}
use harp_ochestration.Orchestration.Activation.{Environment}
use harp_ochestration.Gateway.Wire.{ContainerRequest, primary, ContainerDescriptor}
use harp_ochestration.Gateway.Registry.{RegisteredContainer}
use harp_ochestration.Gateway.Certificates.{
  enforce_on, check_dates, check_origin, looks_like_dev_material, is_marked, MtlsMaterial,
  production, Parsed, parsed, invalid, resolve_deployment_mode, enforce_trust_policy,
}
use harp_ochestration.Gateway.Certificates.Policy.{IsTrusted, enforce_trust_policy_iff}
use harp_ochestration.Gateway.Certificates.Providers.{
  resolved, provided, loaded, enforced, select_provider, file_provider, material_of, FileRead,
  bytes, provide_mtls_material,
}
use harp_ochestration.Composition.Choice.{
  entries, concierge, register_all, read_containers_from_env, with_material, build_model_provider,
  IsTrustedChoice, build_model_provider-IsTrustedChoice,
}
use harp_ochestration.Gateway.Container.{
  ContainedProvider, generated, Incoming, incoming, IncomingMessage, received, serve, input_of,
}
use harp_ochestration.Gateway.Container.Serving.{IsServed, serve-IsServed}
use harp_ochestration.Gateway.Transport.{
  Url, Node, timed_out, refused, cut_off, throws, pending, settled, deliver, deliver_to,
}
use harp_ochestration.Gateway.Transport.Exchange.{
  Codec, connected, read_back, response_to, deliver-serve,
}
use harp_ochestration.Gateway.Transport.Failures.{IsAccounted, outcome_at, deliver-IsAccounted}
use harp_ochestration.Gateway.Redaction.{
  RegExp, between, matched, Patterns, rules_of, redact_by, default_redactor,
}
use harp_ochestration.Gateway.Redaction.Findings.{Matchless, joined, default_redactor_iff}

-- Certificates by a number: 1 is one of the development CA, 2 is of another.
abbrev of_development : Parsed
of_development = parsed (record {
  subject = "CN=DEV-CERT-DO-NOT-USE-IN-PRODUCTION";
  issuer = "CN=dev";
  valid_from = some 10;
  valid_to = some 90;
})

abbrev of_pki : Parsed
of_pki =
    parsed
      (record { subject = "CN=harp"; issuer = "CN=pki"; valid_from = some 10; valid_to = none })

abbrev read_x509 : ℕ → Parsed
read_x509 n =
    if n == 1 then of_development else if n == 2 then of_pki else invalid "bad end of file"

abbrev material : MtlsMaterial ℕ
material = record { cert = 2; key = 7; ca = 1 }

enforce_trust_policy_iff_example :
    (enforce_trust_policy read_x509 50 production material "file" ≡ ok tt)
    ↔ IsTrusted 50 production (read_x509 2) (read_x509 1)
enforce_trust_policy_iff_example = enforce_trust_policy_iff read_x509 50 production material "file"

abbrev read_file : String → FileRead ℕ
read_file path = bytes 2

abbrev environment : Environment
environment name = some "file"

abbrev environment_of_concierge : Environment
environment_of_concierge name =
    if name == "HARP_MODEL_MODE"
    then some "concierge"
    else if name == "HARP_CERT_SOURCE"
    then some "file"
    else if name == "HARP_DEPLOYMENT_MODE"
    then none
    else some "x"

build_model_provider-IsTrustedChoice_example :
    IsTrustedChoice read_x509 50 environment_of_concierge
      (build_model_provider read_x509 read_file 50 (λ raw. entries []) environment_of_concierge)
build_model_provider-IsTrustedChoice_example =
    build_model_provider-IsTrustedChoice read_x509 read_file 50 (λ raw. entries [])
      environment_of_concierge

-- The concierge is built, on the certificates that were read.
concierge_is_built :
    build_model_provider read_x509 read_file 50 (λ raw. entries []) environment_of_concierge
    ≡ ok (concierge [] (record { cert = 2; key = 2; ca = 2 }))
unfolding build_model_provider with_material register_all read_containers_from_env
    provide_mtls_material resolved provided loaded enforced select_provider file_provider
    material_of resolve_deployment_mode lower_text enforce_trust_policy enforce_on check_dates
    check_origin looks_like_dev_material is_marked includes lookup
concierge_is_built = refl

abbrev descriptor : ContainerDescriptor
descriptor = record {
  id = "a";
  serves_classes = cloud_coding ∷ [];
  tier = primary;
  provider_family = "stub";
}

-- The world counts the runs of the provider.
abbrev counting : ContainedProvider ℕ
counting = record {
  descriptor = descriptor;
  generate = λ input w. (
    generated (record {
      text = "{}";
      model_used = "stub";
      model_class = input.model_class;
      input_tokens = 3;
      output_tokens = 1;
      estimated_cost_usd = 0;
      latency_ms = 4;
    }),
    w + 1,
  );
}

abbrev request : ContainerRequest
request = record {
  protocol_version = "1.0.0";
  correlation_id = "c-1";
  model_class = cloud_coding;
  system_prompt = "s";
  user_prompt = "u";
  temperature = none;
  high_risk = false;
  deadline_ms = 1000;
}

abbrev read_request : String → Incoming
read_request text = incoming request

abbrev post : IncomingMessage
post = record { method = "POST"; url = "/v1/generate"; body = received "{}" }

serve-IsServed_example :
    IsServed counting read_request post 0 (serve counting read_request (λ body. "{}") post 0)
serve-IsServed_example = serve-IsServed counting read_request (λ body. "{}") post 0

abbrev container : RegisteredContainer
container = record { descriptor = descriptor; base_url = "https://stub:8443"; healthy = true }

abbrev url : Url
url = record { protocol = "https:"; hostname = "stub"; port = "8443"; pathname = "/v1/generate" }

abbrev slow : Node ℕ ℕ
slow = record {
  parse_url = λ path base. some url;
  stringify = λ r. "{}";
  byte_length = λ s. 2;
  parse = λ s. none;
  request = λ options payload w. (timed_out, w + 1);
}

-- A base URL that parses and is none of https:, and a response that breaks off.
abbrev plain_http : Node ℕ ℕ
plain_http = record slow {
  request =
      λ options payload w. (refused "Protocol \"http:\" not supported. Expected \"https:\"", w);
}

abbrev broken_off : Node ℕ ℕ
broken_off = record slow { request = λ options payload w. (cut_off, w + 1) }

unsettled :
    (deliver plain_http material container request 0 ≡ (throws, 0))
    × (deliver broken_off material container request 0 ≡ (pending, 1))
unfolding deliver deliver_to settled
unsettled = (refl, refl)

deliver-IsAccounted_example :
    ((slow.parse_url "/v1/generate" container.base_url ≡ none)
      × ((deliver slow material container request 0).0 ≡ throws))
    ⊎ ((at : Url) × (slow.parse_url "/v1/generate" container.base_url ≡ some at)
        × IsAccounted slow.parse request
            (outcome_at slow material request 0 at)
            (deliver slow material container request 0).0)
deliver-IsAccounted_example = deliver-IsAccounted slow material container request 0

-- Each end knows the one text that the other sends.
abbrev agreed : Codec
agreed = record {
  parse_url = λ path base. some url;
  write_request = λ r. "request";
  byte_length = λ s. 7;
  read_request = read_request;
  write_body = λ body. "response";
  read_response = λ text. some (response_to "c-1" (counting.generate (input_of request) 0).0);
}

deliver-serve_example :
    deliver (connected agreed counting) material container request 0
    ≡ read_back "c-1" (counting.generate (input_of request) 0)
deliver-serve_example =
    deliver-serve agreed counting material container request url 0 refl refl refl refl refl

-- Finds the one text that is an address, whole.
abbrev an_address : RegExp
an_address text = if text == "ann@example.org" then matched text ∷ [] else between text ∷ []

abbrev nothing : RegExp
nothing text = between text ∷ []

append_empty : (s : String) → s ⧺ "" ≡ s
append_empty String.[] = λ i. append.nil "" i
append_empty (String.◌∷◌ c rest) =
    (λ i. append.cons c rest "" i) ∙ ap (λ s. String.◌∷◌ c s) (append_empty rest)

cuts_nothing : (text : String) → joined (nothing text) ≡ text
cuts_nothing text = append_empty text

cuts_address : (text : String) → joined (an_address text) ≡ text
cuts_address text = elim (Bool-cases (text == "ann@example.org")) [
  | inl t ↦ rw t (append_empty text)
  | inr f ↦ rw f (append_empty text)
]

abbrev patterns : Patterns
patterns = record {
  email = an_address;
  phone = nothing;
  credit_card = nothing;
  ssn = nothing;
  ip = nothing;
  secret_token = nothing;
  bearer = nothing;
}

address_is_hidden : (default_redactor patterns [] "ann@example.org").text ≡ "[REDACTED_EMAIL]"
unfolding default_redactor redact_by rules_of
address_is_hidden = refl

default_redactor_iff_example : ((default_redactor patterns [] "No names.").findings ≡ []) ↔ (
    Matchless (rules_of patterns []) "No names."
    × ((default_redactor patterns [] "No names.").text ≡ "No names."))
unfolding rules_of
default_redactor_iff_example = default_redactor_iff patterns [] "No names." (
  cuts_nothing,
  (
    cuts_nothing,
    (cuts_nothing, (cuts_address, (cuts_nothing, (cuts_nothing, (cuts_nothing, tt))))),
  ),
)
