-- ===== src/Orchestration/Activation.antt =====
-- src/orchestration/strategies/advanced/ActivationPolicy.ts and advancedStrategies.ts. The process's
-- environment is a function, `none` for a variable that is not set.
pub mod Gate
use harp_ochestration.Prelude.{
  ℕ, String, Bool, true, false, List, [], ◌∷◌, ◌++◌, Option, none, some, ◌||◌, if◌then◌else◌, map,
  filter, contains, or_else, ◌==◌, Eq, nat_eq, codes, lower_case, trim, split, ◌⧺◌, codes_eq,
}
use harp_ochestration.Core.Ids.{
  AgentId, CoordinationStrategyName, pharaoh, horus_nexus, anubis_sentinel, ra, system, arbitration,
  negotiation,
}
use harp_ochestration.Core.Records.{AgentTask, AuditEntry, AuditEvent, text}
use harp_ochestration.Core.Runtime.{Runtime}
use harp_ochestration.Storage.Audit.{write}
use harp_ochestration.Orchestration.Strategies.{CoordinationStrategy, any_blocked_or_failed}

pub data AdvancedStrategyName : Type 0 where
  chain_of_debates loose_coalitions aufheben : AdvancedStrategyName

unfoldable pub advanced_name : AdvancedStrategyName → String
advanced_name chain_of_debates = "chain-of-debates"
advanced_name loose_coalitions = "loose-coalitions"
advanced_name aufheben = "aufheben"

pub record ActivationVerdict : Type 0 where
  pub allowed : Bool
  pub reason : String

abbrev pub Environment : Type 0
Environment = String → Option String

-- `(process.env.X ?? "false").toLowerCase() === "true"`
abbrev pub is_set : Environment → String → Bool
is_set env name = lower_case (or_else (env name) "false") == codes "true"

abbrev is_empty : List ℕ → Bool
is_empty [] = true
is_empty (c ∷ cs) = false

unfoldable pub enabled_set : Environment → List (List ℕ)
enabled_set env =
    filter (λ s. if is_empty s then false else true)
      (map trim (split b',' (codes (or_else (env "HARP_ENABLED_STRATEGIES") ""))))

unfoldable pub evaluate : Environment → AdvancedStrategyName → ActivationVerdict
evaluate env name =
    if is_set env "HARP_ENABLE_ADVANCED_STRATEGIES"
    then if contains (enabled_set env) (codes (advanced_name name))
      then if is_set env "HARP_MODEL_VALIDATED"
        then record {
          allowed = true;
          reason = "Strategy \"" ⧺ advanced_name name ⧺ "\" activated by explicit policy.";
        }
        else record {
          allowed = false;
          reason =
              "Real-model validation not confirmed (HARP_MODEL_VALIDATED != true). "
              ⧺ "Advanced coordination is meaningless on a stub provider and stays gated.";
        }
      else record {
        allowed = false;
        reason = "Strategy \"" ⧺ advanced_name name ⧺ "\" is not in HARP_ENABLED_STRATEGIES.";
      }
    else record {
      allowed = false;
      reason =
          "Advanced strategies are globally disabled (HARP_ENABLE_ADVANCED_STRATEGIES != true).";
    }

unfoldable pub authorize_entry :
    AdvancedStrategyName → ActivationVerdict → Option String → Option String → AuditEntry
authorize_entry name verdict workflow_id task_id = record {
  actor = system;
  action = if verdict.allowed then "strategy.activated" else "strategy.activation_refused";
  target = some (advanced_name name);
  workflow_id = workflow_id;
  task_id = task_id;
  risk_level = none;
  approval_state = none;
  details = ("reason", text verdict.reason) ∷ [];
}

-- `none` is a policy without an audit log.
unfoldable pub authorize :
    Runtime
    → Environment
    → AdvancedStrategyName
    → Option String
    → Option String
    → ℕ
    → Option (List AuditEvent)
    → ActivationVerdict × Option (List AuditEvent)
authorize rt env name workflow_id task_id now none = (evaluate env name, none)
authorize rt env name workflow_id task_id now (some events) = (
  evaluate env name,
  some ((write rt now (authorize_entry name (evaluate env name) workflow_id task_id) events).1),
)

unfoldable pub safe_fallback : List AgentId
safe_fallback =
    pharaoh ∷ horus_nexus ∷ anubis_sentinel ∷ ra ∷ horus_nexus ∷ anubis_sentinel ∷ pharaoh ∷ []

-- The name that the registry of strategies knows an advanced strategy by.
unfoldable pub coordination_name : AdvancedStrategyName → CoordinationStrategyName
coordination_name chain_of_debates = arbitration
coordination_name loose_coalitions = negotiation
coordination_name aufheben = negotiation

unfoldable pub activated_sequence : AdvancedStrategyName → List AgentId
activated_sequence chain_of_debates =
    pharaoh ∷ horus_nexus ∷ horus_nexus ∷ anubis_sentinel ∷ anubis_sentinel ∷ pharaoh ∷ []
activated_sequence loose_coalitions = pharaoh ∷ horus_nexus ∷ anubis_sentinel ∷ pharaoh ∷ []
activated_sequence aufheben = pharaoh ∷ ra ∷ anubis_sentinel ∷ pharaoh ∷ horus_nexus ∷ pharaoh ∷ []

unfoldable pub gated_sequence : Environment → AdvancedStrategyName → List AgentId
gated_sequence env name =
    if (evaluate env name).allowed then activated_sequence name else safe_fallback

-- The class `GatedAdvancedStrategy` and its three subclasses.
unfoldable pub gated_strategy : Environment → AdvancedStrategyName → CoordinationStrategy
gated_strategy env name = record {
  name = coordination_name name;
  select_sequence = λ task. gated_sequence env name;
  should_stop = some (λ state. state.blocked_for_approval || any_blocked_or_failed state.results);
}

unfoldable pub is_active : Environment → AdvancedStrategyName → Bool
is_active env name = (evaluate env name).allowed

unfoldable pub build_advanced_strategies : Environment → List CoordinationStrategy
build_advanced_strategies env =
    gated_strategy env chain_of_debates
    ∷ gated_strategy env loose_coalitions
    ∷ gated_strategy env aufheben
    ∷ []
