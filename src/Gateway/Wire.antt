-- ===== src/Gateway/Wire.antt =====
-- src/gateway/contracts/wire.ts
use harp_ochestration.Prelude.{ℕ, String, Bool, List, Option, Eq, eq_of_discrete}
use harp_ochestration.Core.Ids.{ModelClass}

pub data Tier : Type 0 where
  primary backup : Tier

unfoldable pub Tier-discrete : Discrete Tier
Tier-discrete = hlevel

instance abbrev pub tier_eq : Eq Tier
tier_eq = eq_of_discrete Tier-discrete

pub record ContainerDescriptor : Type 0 where
  pub id : String
  pub serves_classes : List ModelClass
  pub tier : Tier
  pub provider_family : String

abbrev pub wire_protocol_version : String
wire_protocol_version = "1.0.0"

pub record ContainerRequest : Type 0 where
  pub protocol_version : String
  pub correlation_id : String
  pub model_class : ModelClass
  pub system_prompt : String
  pub user_prompt : String
  -- In tenths.
  pub temperature : Option ℕ
  pub high_risk : Bool
  pub deadline_ms : ℕ

pub data ContainerFailureKind : Type 0 where
  timeout provider_error overloaded bad_request unauthorized internal : ContainerFailureKind

unfoldable pub ContainerFailureKind-discrete : Discrete ContainerFailureKind
ContainerFailureKind-discrete = hlevel

instance abbrev pub failure_kind_eq : Eq ContainerFailureKind
failure_kind_eq = eq_of_discrete ContainerFailureKind-discrete

unfoldable pub failure_kind_name : ContainerFailureKind → String
failure_kind_name timeout = "timeout"
failure_kind_name provider_error = "provider_error"
failure_kind_name overloaded = "overloaded"
failure_kind_name bad_request = "bad_request"
failure_kind_name unauthorized = "unauthorized"
failure_kind_name internal = "internal"

pub record ContainerSuccess : Type 0 where
  pub protocol_version : String
  pub correlation_id : String
  pub text : String
  pub model_used : String
  pub model_class : ModelClass
  pub input_tokens : ℕ
  pub output_tokens : ℕ
  -- In millionths of a dollar.
  pub estimated_cost_usd : ℕ
  pub latency_ms : ℕ

pub record ContainerFailure : Type 0 where
  pub protocol_version : String
  pub correlation_id : String
  pub kind : ContainerFailureKind
  pub message : String
  pub retryable : Bool

pub data ContainerResponse : Type 0 where
  success : ContainerSuccess → ContainerResponse
  failure : ContainerFailure → ContainerResponse
