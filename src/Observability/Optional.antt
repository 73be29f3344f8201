-- ===== src/Observability/Optional.antt =====
-- Calls through `obs?` and `span?`: without observability they do nothing.
use harp_ochestration.Prelude.{String, Option, none, some}
use harp_ochestration.Observability.{Attributes, Span, Sources, Telemetry, start_span}

abbrev some_both : Span × Telemetry → Option Span × Option Telemetry
some_both (span, t) = (some span, some t)

unfoldable pub start_span_of :
    Sources → String → Option Attributes → Option Telemetry → Option Span × Option Telemetry
unfolding start_span
start_span_of sources name attributes none = (none, none)
start_span_of sources name attributes (some t) =
    some_both (start_span sources name attributes none t)

unfoldable pub on_span :
    (Span → Telemetry → Telemetry) → Option Span → Option Telemetry → Option Telemetry
on_span change none obs = obs
on_span change (some span) none = none
on_span change (some span) (some t) = some (change span t)

unfoldable pub on_meter : (Telemetry → Telemetry) → Option Telemetry → Option Telemetry
on_meter change none = none
on_meter change (some t) = some (change t)
