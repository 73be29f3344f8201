-- ===== src/Loading/Compactor.antt =====
-- src/context/ThreadCompactor.ts. `W` is the world behind the summariser.
use harp_ochestration.Prelude.{
  ℕ, ◌+◌, ◌-◌, ◌/◌, String, Bool, List, [], ◌∷◌, ◌++◌, Option, none, some, map, ltb, length, units,
  codes,
}
use harp_ochestration.Core.Errors.{Result, ok, err}
use harp_ochestration.Observability.{
  Attributes, Sources, Telemetry, Span, number, histogram, measure, set_attribute, set_status,
  end_span,
}
use harp_ochestration.Observability
use harp_ochestration.Observability.Optional.{start_span_of, on_span, on_meter}

pub record CompactableItem : Type 0 where
  pub id : String
  pub title : String
  pub claims : List String
  pub approx_tokens : ℕ

pub record CompactionRecord : Type 0 where
  pub summary : String
  pub preserved_decision_count : ℕ
  pub tokens_before : ℕ
  pub tokens_after : ℕ
  pub compacted_item_ids : List String

abbrev pub Summariser : Type 0 → Type 0
Summariser W = List CompactableItem → W → Result String × W

unfoldable pub total_tokens : List CompactableItem → ℕ
total_tokens [] = 0
total_tokens (i ∷ items) = i.approx_tokens + total_tokens items

unfoldable pub should_compact : (threshold_tokens : ℕ) → List CompactableItem → Bool
unfolding total_tokens
should_compact threshold_tokens items = ltb threshold_tokens (total_tokens items)

unfoldable pub all_claims : List CompactableItem → List String
all_claims [] = []
all_claims (i ∷ items) = i.claims ++ all_claims items

-- `Math.ceil(text.length / 4)`
abbrev pub estimate_tokens : String → ℕ
estimate_tokens text = (units (codes text) + 3) / 4

-- What `compact` does when the summariser has settled.
unfoldable pub summarised :
    {W : Type 0}
    → Sources
    → List CompactableItem
    → Option Span
    → Option Telemetry
    → Result String × W
    → Result CompactionRecord × Option Telemetry × W
unfolding on_span on_meter total_tokens all_claims
summarised sources items span obs (err e, w) = (err e, obs, w)
summarised sources items span obs (ok summary, w) =
    let before = total_tokens items in
    let after = estimate_tokens summary in
    (
      ok (record {
        summary = summary;
        preserved_decision_count = length (all_claims items);
        tokens_before = before;
        tokens_after = after;
        compacted_item_ids = map (λ i. i.id) items;
      }),
      on_span (end_span sources) span (
          on_span (set_status Observability.SpanStatus.ok none) span (
            on_span (set_attribute "tokensAfter" (number after)) span (
              on_span (set_attribute "tokensBefore" (number before)) span (
                on_meter (measure histogram "context.compaction.tokens_saved" (before - after) none)
                  obs)))),
      w,
    )

unfoldable pub compact :
    {W : Type 0}
    → Sources
    → Summariser W
    → List CompactableItem
    → Option Telemetry
    → W
    → Result CompactionRecord × Option Telemetry × W
unfolding summarised start_span_of
compact sources summarise items obs w =
    let opened =
      start_span_of sources "context.compact" (some (("items", number (length items)) ∷ [])) obs in
    summarised sources items opened.0 opened.1 (summarise items w)
