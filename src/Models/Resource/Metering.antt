-- ===== src/Models/Resource/Metering.antt =====
-- The counters that src/models/ResourceAwareRouter.ts adds to, where it is given an observability.
use harp_ochestration.Prelude.{ℕ, [], ◌∷◌, Option, some}
use harp_ochestration.Core.Ids.{RiskLevel, low, risk_name, class_name}
use harp_ochestration.Observability.{Attributes, text, number, flag, Telemetry, counter, measure}
use harp_ochestration.Observability.Optional.{on_meter}
use harp_ochestration.Models.Resource.{
  WorkKind, synthesis, kind_name, RoutingDecision, FanOutPlan, route, plan_fan_out,
}

unfoldable pub decision_attributes : WorkKind → RiskLevel → RoutingDecision → Attributes
decision_attributes kind risk d =
    ("kind", text (kind_name kind))
    ∷ ("risk", text (risk_name risk))
    ∷ ("modelClass", text (class_name d.model_class))
    ∷ ("upgraded", flag d.upgraded_for_risk)
    ∷ []

-- `route`, with `this.obs`.
unfoldable pub route_metered :
    WorkKind → RiskLevel → Option Telemetry → RoutingDecision × Option Telemetry
unfolding route
route_metered kind risk obs =
    let d = route kind risk in
    (d, on_meter (measure counter "router.decision" 1 (some (decision_attributes kind risk d))) obs)

unfoldable pub plan_attributes : FanOutPlan → Attributes
plan_attributes p =
    ("workers", number p.worker_count)
    ∷ ("workerClass", text (class_name p.worker_class))
    ∷ ("synthesisClass", text (class_name p.synthesis_class))
    ∷ []

-- `planFanOut`, which routes twice.
unfoldable pub plan_fan_out_metered :
    ℕ → WorkKind → ℕ → RiskLevel → Option Telemetry → FanOutPlan × Option Telemetry
unfolding route_metered plan_fan_out
plan_fan_out_metered max_fan_out worker_kind desired_workers risk obs =
    let plan = plan_fan_out max_fan_out worker_kind desired_workers risk in
    let routed = (route_metered synthesis risk (route_metered worker_kind low obs).1).1 in
    (plan, on_meter (measure counter "router.fanout" 1 (some (plan_attributes plan))) routed)
