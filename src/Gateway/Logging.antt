-- ===== src/Gateway/Logging.antt =====
-- src/gateway/security/SafeLogger.ts: the fields that may be logged, and the loggers. A console is a
-- list of lines.
use harp_ochestration.Prelude.{ℕ, String, List, [], ◌∷◌, ◌++◌, Option}
use harp_ochestration.Core.Runtime.{Runtime}
use harp_ochestration.Core.Ids.{ModelClass}
use harp_ochestration.Gateway.Redaction.{RedactionFinding}

pub data LogOutcome : Type 0 where
  success failure retry failover : LogOutcome

pub record SafeLogFields : Type 0 where
  pub event : String
  pub correlation_id : Option String
  pub container_id : Option String
  pub model_class : Option ModelClass
  pub outcome : Option LogOutcome
  pub failure_kind : Option String
  pub attempt : Option ℕ
  pub latency_ms : Option ℕ
  pub input_tokens : Option ℕ
  pub output_tokens : Option ℕ
  pub redactions : Option (List RedactionFinding)

-- One line, which is a JSON object on the console.
pub record LogLine : Type 0 where
  pub ts : String
  pub source : String
  pub fields : SafeLogFields

-- `ConsoleSafeLogger`
unfoldable pub console_log :
    Runtime → (source : String) → (now : ℕ) → SafeLogFields → List LogLine → List LogLine
console_log rt source now fields console =
    console ++ record { ts = rt.iso_date now; source = source; fields = fields } ∷ []

-- `NullSafeLogger`
unfoldable pub null_log : SafeLogFields → List LogLine → List LogLine
null_log fields console = console
