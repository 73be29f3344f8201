-- ===== src/Tests/Gateway.antt =====
-- src/gateway at concrete inputs.
use harp_ochestration.Prelude.{
  ℕ, ◌+◌, String, ◌≡◌, ◌≢◌, refl, inl, inr, none, some, true, false, List, [], ◌∷◌, All,
  if◌then◌else◌, ◌==◌, string_eq, arith, decide, eq_iff,
}
use harp_ochestration.Core.Ids.{cloud_coding, cloud_fast, ModelClass-discrete}
use harp_ochestration.Core.Errors.{ok}
use harp_ochestration.Gateway.Wire.{
  ContainerSuccess, ContainerFailure, success, failure, Tier, primary, backup, overloaded,
  Tier-discrete, ContainerFailureKind-discrete,
}
use harp_ochestration.Gateway.Registry.{RegisteredContainer, Registry, plan}
use harp_ochestration.Gateway.Registry.Laws.{IsUnique}
use harp_ochestration.Gateway.Redaction.{Redactor}
use harp_ochestration.Gateway.Concierge.{
  CoreModelRequest, Deliver, Settings, State, generate, envelope_for, to_core, is_fatal,
}
use harp_ochestration.Gateway.Concierge.Deliveries.{
  Delivery, traced, trace, IsProper, generate-IsProper,
}
use harp_ochestration.Gateway.Concierge.Failover.{GivesUp, generate-Answers}
use harp_ochestration.Gateway.Concierge.Health.{generate-Throws}
use harp_ochestration.Tests.Samples.{clock}

abbrev container : String → Tier → RegisteredContainer
container id tier = record {
  descriptor = record {
    id = id;
    serves_classes = cloud_coding ∷ [];
    tier = tier;
    provider_family = "stub";
  };
  base_url = "https://stub:8443";
  healthy = true;
}

-- The backup is registered first.
abbrev registry : Registry
registry = container "b" backup ∷ container "a" primary ∷ []

abbrev planned : Registry
planned = container "a" primary ∷ container "b" backup ∷ []

plan_test : plan cloud_coding registry ≡ planned
unfolding plan ModelClass-discrete Tier-discrete decide
plan_test = refl

no_plan : plan cloud_fast registry ≡ []
unfolding plan ModelClass-discrete Tier-discrete decide
no_plan = refl

abbrev hide : Redactor
hide text = record { text = "[hidden]"; findings = [] }

abbrev settings : Settings
settings = record { retries_per_container = 2; deadline_ms = 60_000 }

abbrev request : CoreModelRequest
request = record {
  model_class = cloud_coding;
  system_prompt = "s";
  user_prompt = "mail ann@example.org";
  temperature = none;
  agent_id = none;
  task_id = none;
  workflow_id = none;
  high_risk = none;
}

abbrev good : ContainerSuccess
good = record {
  protocol_version = "1.0.0";
  correlation_id = "id-0";
  text = "{}";
  model_used = "stub";
  model_class = cloud_coding;
  input_tokens = 3;
  output_tokens = 4;
  estimated_cost_usd = 0;
  latency_ms = 9;
}

abbrev busy : ContainerFailure
busy = record {
  protocol_version = "1.0.0";
  correlation_id = "id-0";
  kind = overloaded;
  message = "Container overloaded";
  retryable = true;
}

-- The primary is overloaded and the backup answers; the world counts the deliveries.
abbrev wire : Deliver ℕ
wire c e w = (some (if c.id == "a" then failure busy else success good), w + 1)

abbrev dead : Deliver ℕ
dead c e w = (none, w + 1)

abbrev start : State ℕ
start = record { registry = registry; logs = []; world = 0 }

abbrev traced_start : State (ℕ × List Delivery)
traced_start = record { registry = registry; logs = []; world = (0, []) }

not_fatal : is_fatal busy ≡ false
unfolding is_fatal ContainerFailureKind-discrete decide
not_fatal = refl

two_ids : IsUnique registry
two_ids = (((λ e. not_same e), tt), (tt, tt))
  where
    not_same : ◌≢◌ {A = String} "a" "b"
    not_same e = ground (arith, eq_iff "a" "b")

generate-IsProper_example :
    All
      (IsProper hide request registry)
      (trace (generate clock 0 (traced wire) hide settings request traced_start).1)
generate-IsProper_example = generate-IsProper clock 0 wire hide settings request traced_start refl

generate-Answers_example : (generate clock 0 wire hide settings request start).0 ≡ ok (to_core good)
generate-Answers_example =
    generate-Answers clock 0 wire hide settings request start (container "a" primary ∷ []) []
      (container "b" backup) good plan_test ((λ w. inr (busy, refl, not_fatal)), tt) (λ w. refl)
      (omega arith)

deliveries_throw :
    All (GivesUp dead (envelope_for hide settings request "id-0")) (plan cloud_coding registry)
deliveries_throw = rw plan_test ((λ w. inl refl), ((λ w. inl refl), tt))

generate-Throws_example : (generate clock 0 dead hide settings request start).1.registry ≡ registry
generate-Throws_example =
    generate-Throws clock 0 dead hide settings request start
      (rw plan_test ((λ w. refl), ((λ w. refl), tt)))
