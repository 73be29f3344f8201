-- ===== src/Observability.antt =====
-- src/observability: types.ts and InMemoryObservability.ts. A span is a handle on its place in the
-- list of recorded spans, where its setters change it.
pub mod Optional
use harp_ochestration.Prelude.{
  ℕ, zero, suc, String, Bool, true, false, List, [], ◌∷◌, ◌++◌, Option, none, some, insert,
  string_eq, filter, length, ◌==◌, or_else,
}

pub data AttributeValue : Type 0 where
  text : String → AttributeValue
  number : ℕ → AttributeValue
  flag : Bool → AttributeValue

abbrev pub Attributes : Type 0
Attributes = List (String × AttributeValue)

pub data SpanStatus : Type 0 where
  unset ok error : SpanStatus

pub record SpanEvent : Type 0 where
  pub name : String
  pub attributes : Option Attributes

pub record RecordedSpan : Type 0 where
  pub trace_id : String
  pub span_id : String
  pub parent_span_id : Option String
  pub name : String
  pub attributes : Attributes
  pub events : List SpanEvent
  pub status : SpanStatus
  pub status_message : Option String
  pub started_at : ℕ
  pub ended_at : Option ℕ

pub data MetricKind : Type 0 where
  counter histogram : MetricKind

pub record RecordedMetric : Type 0 where
  pub kind : MetricKind
  pub name : String
  pub value : ℕ
  pub attributes : Option Attributes

pub data LogSeverity : Type 0 where
  debug info warn failure : LogSeverity

pub record LogRecord : Type 0 where
  pub severity : LogSeverity
  pub body : String
  pub attributes : Option Attributes

-- `randomUUID()` and `Date.now()`, read at a counter that each call moves on.
pub record Sources : Type 0 where
  pub uuid : ℕ → String
  pub now : ℕ → ℕ

pub record Telemetry : Type 0 where
  pub ticks : ℕ
  pub spans : List RecordedSpan
  pub metrics : List RecordedMetric
  pub log_records : List LogRecord

pub record Span : Type 0 where
  pub trace_id : String
  pub span_id : String
  pub place : ℕ

-- The span at a place, changed.
unfoldable pub at_place : ℕ → (RecordedSpan → RecordedSpan) → List RecordedSpan → List RecordedSpan
at_place n change [] = []
at_place zero change (s ∷ spans) = change s ∷ spans
at_place (suc n) change (s ∷ spans) = s ∷ at_place n change spans

abbrev recorded :
    Sources → (trace : String) → Option String → String → Option Attributes → ℕ → RecordedSpan
recorded sources trace parent name attributes tick = record {
  trace_id = trace;
  span_id = sources.uuid tick;
  parent_span_id = parent;
  name = name;
  attributes = or_else attributes [];
  events = [];
  status = unset;
  status_message = none;
  started_at = sources.now (suc tick);
  ended_at = none;
}

abbrev started : RecordedSpan → ℕ → Telemetry → Span × Telemetry
started span ticks t = (
  record { trace_id = span.trace_id; span_id = span.span_id; place = length t.spans },
  record t { ticks = ticks; spans = t.spans ++ span ∷ [] },
)

unfoldable pub start_span :
    Sources → String → Option Attributes → Option Span → Telemetry → Span × Telemetry
start_span sources name attributes none t =
    started (recorded sources (sources.uuid t.ticks) none name attributes (suc t.ticks))
      (suc (suc (suc t.ticks))) t
start_span sources name attributes (some parent) t =
    started (recorded sources parent.trace_id (some parent.span_id) name attributes t.ticks)
      (suc (suc t.ticks)) t

abbrev pub with_spans : (List RecordedSpan → List RecordedSpan) → Telemetry → Telemetry
with_spans change t = record t { spans = change t.spans }

unfoldable pub set_attribute : String → AttributeValue → Span → Telemetry → Telemetry
unfolding at_place
set_attribute key value span t =
    with_spans (at_place span.place (λ s. record s { attributes = insert key value s.attributes }))
      t

unfoldable pub add_event : String → Option Attributes → Span → Telemetry → Telemetry
unfolding at_place
add_event name attributes span t =
    with_spans
      (at_place span.place (λ s. record s {
        events = s.events ++ record { name = name; attributes = attributes } ∷ [];
      }))
      t

unfoldable pub set_status : SpanStatus → Option String → Span → Telemetry → Telemetry
unfolding at_place
set_status status message span t =
    with_spans (at_place span.place (λ s. record s { status = status; status_message = message })) t

unfoldable pub end_span : Sources → Span → Telemetry → Telemetry
unfolding at_place
end_span sources span t =
    record (with_spans
      (at_place span.place (λ s. record s { ended_at = some (sources.now t.ticks) })) t) {
        ticks = suc t.ticks;
      }

-- `counter(name).add` and `histogram(name).record`
unfoldable pub measure : MetricKind → String → ℕ → Option Attributes → Telemetry → Telemetry
measure kind name value attributes t = record t {
  metrics =
      t.metrics ++ record { kind = kind; name = name; value = value; attributes = attributes } ∷ [];
}

unfoldable pub emit : LogRecord → Telemetry → Telemetry
emit log t = record t { log_records = t.log_records ++ log ∷ [] }

unfoldable pub spans_named : String → Telemetry → List RecordedSpan
spans_named name t = filter (λ s. s.name == name) t.spans

unfoldable pub metrics_named : String → Telemetry → List RecordedMetric
metrics_named name t = filter (λ m. m.name == name) t.metrics
