-- ===== src/Storage/Audit/Laws.antt =====
-- What a query of the audit log returns.
use harp_ochestration.Prelude.{
  ℕ, String, true, ◌≡◌, refl, ◌↔◌, ◌⊎◌, inl, inr, List, [], ◌∷◌, ◌++◌, Option, Eq, none, some,
  arith, eq_iff, Elem, Elem-filter, filter-append, if◌then◌else◌,
}
use harp_ochestration.Core.Ids.{actor_eq, risk_level_eq, approval_state_eq}
use harp_ochestration.Core.Records.{AuditEntry, AuditEvent}
use harp_ochestration.Core.Runtime.{Runtime}
use harp_ochestration.Storage.Audit.{AuditQuery, passes_text, passes, matches, query, write, saved}

-- A condition is met if it is not set, or if the event's field has its value.
abbrev pub Meets {ℓ} : {A : Type ℓ} → Option A → Option A → Type ℓ
Meets {A} wanted field = (wanted ≡ none) ⊎ ((a : A) × (wanted ≡ some a) × (field ≡ some a))

-- The empty text counts as not set.
abbrev pub MeetsText : Option String → Option String → Type 0
MeetsText wanted field = (wanted ≡ some "") ⊎ Meets wanted field

pub record Matches (q : AuditQuery) (event : AuditEvent) : Type 0 where
  pub workflow : MeetsText q.workflow_id event.workflow_id
  pub task : MeetsText q.task_id event.task_id
  pub actor : (q.actor ≡ none) ⊎ (q.actor ≡ some event.actor)
  pub risk : Meets q.risk_level event.risk_level
  pub approval : Meets q.approval_state event.approval_state

passes_text_iff :
    (wanted field : Option String) → (passes_text wanted field ≡ true) ↔ MeetsText wanted field
unfolding passes_text
passes_text_iff none field = (λ h. inr (inl refl), λ h. refl)
passes_text_iff (some w) none = ground (arith, eq_iff w "")
passes_text_iff (some w) (some f) = ground (arith, eq_iff w "", eq_iff f w)

passes_iff {ℓ} :
    {A : Type ℓ} ⦃e : Eq A⦄ (wanted field : Option A)
    → (passes wanted field ≡ true) ↔ Meets wanted field
unfolding passes
passes_iff none field = (λ h. inl refl, λ h. refl)
passes_iff (some w) none = ground arith
passes_iff ⦃e⦄ (some w) (some f) = ground (arith, e.eqb_iff f w)

passes-some_iff {ℓ} :
    {A : Type ℓ} ⦃e : Eq A⦄ (wanted : Option A) (field : A)
    → (passes wanted (some field) ≡ true) ↔ ((wanted ≡ none) ⊎ (wanted ≡ some field))
unfolding passes
passes-some_iff none field = (λ h. inl refl, λ h. refl)
passes-some_iff ⦃e⦄ (some w) field = ground (arith, e.eqb_iff field w)

pub matches_iff : (q : AuditQuery) (event : AuditEvent) → (matches q event ≡ true) ↔ Matches q event
unfolding matches
matches_iff q event = ground (
  arith,
  passes_text_iff q.workflow_id event.workflow_id,
  passes_text_iff q.task_id event.task_id,
  passes-some_iff q.actor event.actor,
  passes_iff q.risk_level event.risk_level,
  passes_iff q.approval_state event.approval_state,
)

-- A query returns exactly the events of the log that meet each condition that is set.
pub query_iff :
    (q : AuditQuery) (event : AuditEvent) (events : List AuditEvent)
    → Elem event (query q events) ↔ (Elem event events × Matches q event)
unfolding query
query_iff q event events =
    let f = Elem-filter (matches q) events event in
    let m = matches_iff q event in (λ h. ((f.0 h).0, m.0 (f.0 h).1), λ h. f.1 (h.0, m.1 h.1))

-- The log is append-only: a write adds its event, in last place, to the answer of the queries that
-- it matches, and leaves every other answer as it was.
pub query-write :
    (q : AuditQuery) (rt : Runtime) (now : ℕ) (entry : AuditEntry) (events : List AuditEvent)
    → let (event, after) = write rt now entry events in
      query q after ≡ query q events ++ (if matches q event then event ∷ [] else [])
unfolding query write
query-write q rt now entry events = filter-append (matches q) events (saved rt now entry ∷ [])
