-- ===== src/Storage/Audit.antt =====
-- src/storage/AuditLogger.ts: the log as the list of its events, the oldest first.
pub mod Laws
use harp_ochestration.Prelude.{
  ℕ, String, Bool, true, false, ◌&&◌, List, [], ◌∷◌, ◌++◌, Option, none, some, if◌then◌else◌,
  filter, Eq, ◌==◌, string_eq, not,
}
use harp_ochestration.Core.Ids.{
  Actor, RiskLevel, ApprovalState, actor_eq, risk_level_eq, approval_state_eq,
}
use harp_ochestration.Core.Records.{AuditEntry, AuditEvent}
use harp_ochestration.Core.Runtime.{Runtime}

pub record AuditQuery : Type 0 where
  pub workflow_id : Option String
  pub task_id : Option String
  pub actor : Option Actor
  pub risk_level : Option RiskLevel
  pub approval_state : Option ApprovalState

unfoldable pub saved : Runtime → ℕ → AuditEntry → AuditEvent
saved rt now entry = record { entry = entry; id = rt.uuid now; timestamp = rt.iso_date now }

-- The event that is saved, and the log behind it.
unfoldable pub write : Runtime → ℕ → AuditEntry → List AuditEvent → AuditEvent × List AuditEvent
unfolding saved
write rt now entry events = (saved rt now entry, events ++ saved rt now entry ∷ [])

abbrev holds {ℓ} : {A : Type ℓ} ⦃e : Eq A⦄ → A → Option A → Bool
holds wanted none = false
holds wanted (some a) = a == wanted

-- `if (filter.f && event.f !== filter.f) return false`; the empty text asks for nothing.
unfoldable pub passes_text : Option String → Option String → Bool
passes_text none field = true
passes_text (some wanted) field = if wanted == "" then true else holds wanted field

unfoldable pub passes {ℓ} : {A : Type ℓ} ⦃e : Eq A⦄ → Option A → Option A → Bool
passes none field = true
passes (some wanted) field = holds wanted field

unfoldable pub matches : AuditQuery → AuditEvent → Bool
matches filter event =
    passes_text filter.workflow_id event.workflow_id
    && passes_text filter.task_id event.task_id
    && passes filter.actor (some event.actor)
    && passes filter.risk_level event.risk_level
    && passes filter.approval_state event.approval_state

unfoldable pub query : AuditQuery → List AuditEvent → List AuditEvent
query q events = filter (matches q) events
