-- ===== src/Models/Resource.antt =====
-- src/models/ResourceAwareRouter.ts. The classes are those of core/types.ts, of which the file
-- repeats eight. The counters that the router adds to are in Metering.
pub mod Metering
use harp_ochestration.Prelude.{
  ℕ, ◌≤◌, ◌≡◌, ◌≢◌, ◌↔◌, ◌⊎◌, String, Bool, true, false, not, ◌||◌, if◌then◌else◌, ◌==◌, ◌⧺◌, min,
  max, decide, arith,
}
use harp_ochestration.Core.Ids.{
  ModelClass, RiskLevel, low, high, critical, local_fast, cloud_fast, cloud_reasoning, cloud_coding,
  frontier_reasoning, security_specialist, risk_level_eq, model_class_eq, ModelClass-discrete,
  RiskLevel-discrete, class_name, risk_name,
}

pub data WorkKind : Type 0 where
  extraction research review synthesis security boilerplate : WorkKind

unfoldable pub kind_name : WorkKind → String
kind_name extraction = "extraction"
kind_name research = "research"
kind_name review = "review"
kind_name synthesis = "synthesis"
kind_name security = "security"
kind_name boilerplate = "boilerplate"

pub record RoutingDecision : Type 0 where
  pub model_class : ModelClass
  pub rationale : String
  pub upgraded_for_risk : Bool

pub record FanOutPlan : Type 0 where
  pub worker_kind : WorkKind
  pub worker_class : ModelClass
  pub worker_count : ℕ
  pub synthesis_class : ModelClass

unfoldable pub base_class_for : WorkKind → ModelClass
base_class_for extraction = cloud_fast
base_class_for research = cloud_fast
base_class_for boilerplate = local_fast
base_class_for review = cloud_coding
base_class_for security = cloud_reasoning
base_class_for synthesis = cloud_reasoning

-- The class for a kind of work whose risk is high or critical.
unfoldable pub upgraded_class_for : WorkKind → ModelClass
unfolding base_class_for
upgraded_class_for security = security_specialist
upgraded_class_for synthesis = frontier_reasoning
upgraded_class_for review = frontier_reasoning
upgraded_class_for extraction = base_class_for extraction
upgraded_class_for research = base_class_for research
upgraded_class_for boilerplate = base_class_for boilerplate

unfoldable pub rationale_for : WorkKind → RiskLevel → ModelClass → ModelClass → Bool → String
rationale_for kind risk base chosen upgraded =
    if upgraded
    then "Upgraded "
      ⧺ kind_name kind
      ⧺ " from "
      ⧺ class_name base
      ⧺ " to "
      ⧺ class_name chosen
      ⧺ " for "
      ⧺ risk_name risk
      ⧺ " risk."
    else "Cost-optimal "
      ⧺ class_name chosen
      ⧺ " for "
      ⧺ kind_name kind
      ⧺ " at "
      ⧺ risk_name risk
      ⧺ " risk."

unfoldable pub decision : WorkKind → RiskLevel → ModelClass → ModelClass → Bool → RoutingDecision
decision kind risk base chosen upgraded = record {
  model_class = chosen;
  rationale = rationale_for kind risk base chosen upgraded;
  upgraded_for_risk = upgraded;
}

unfoldable pub route : WorkKind → RiskLevel → RoutingDecision
unfolding decision base_class_for upgraded_class_for
route kind risk =
    let base = base_class_for kind in
    let chosen = upgraded_class_for kind in
    if risk == high || risk == critical
    then decision kind risk base chosen (not (chosen == base))
    else decision kind risk base base false

-- `max_fan_out` is 5 where the options do not set it; a negative wish counts as 0.
unfoldable pub plan_fan_out : ℕ → WorkKind → ℕ → RiskLevel → FanOutPlan
unfolding route
plan_fan_out max_fan_out worker_kind desired_workers risk = record {
  worker_kind = worker_kind;
  worker_class = (route worker_kind low).model_class;
  worker_count = max 1 (min max_fan_out desired_workers);
  synthesis_class = (route synthesis risk).model_class;
}

abbrev pub IsHighRisk : RiskLevel → Type 0
IsHighRisk risk = (risk ≡ high) ⊎ (risk ≡ critical)

-- The kinds of work whose class depends on judgement.
abbrev pub BearsReasoning : WorkKind → Type 0
BearsReasoning kind = (kind ≡ review) ⊎ (kind ≡ synthesis) ⊎ (kind ≡ security)

-- The router upgrades exactly the reasoning work of a high or critical risk, and the class differs
-- from the cheapest one for the kind exactly where the decision says that it was upgraded.
pub route_upgrades :
    (kind : WorkKind) (risk : RiskLevel)
    → let d = route kind risk in
      ((d.upgraded_for_risk ≡ true) ↔ (IsHighRisk risk × BearsReasoning kind))
      × ((d.upgraded_for_risk ≡ true) ↔ (d.model_class ≢ base_class_for kind))
unfolding route ModelClass-discrete RiskLevel-discrete decide
route_upgrades extraction low = (ground arith, ground arith)
route_upgrades _ _ = (ground arith, ground arith)

-- A fan-out has at least one worker, at most as many as wished for and as the cap allows (one where
-- either is zero), and exactly as many as wished for within the cap.
pub plan_fan_out-count :
    (max_fan_out desired : ℕ) (kind : WorkKind) (risk : RiskLevel)
    → let count = (plan_fan_out max_fan_out kind desired risk).worker_count in
      (1 ≤ count)
      × (count ≤ max 1 desired)
      × (count ≤ max 1 max_fan_out)
      × (1 ≤ desired → desired ≤ max_fan_out → count ≡ desired)
unfolding plan_fan_out
plan_fan_out-count max_fan_out desired kind risk = omega arith

-- Only the synthesis of a plan answers to its risk: it is frontier reasoning exactly at a high or
-- critical risk. The workers get the cheapest class for their kind at every risk, so that workers
-- of a reasoning kind are below the class that `route` demands at a high or critical risk.
pub plan_fan_out-classes :
    (max_fan_out desired : ℕ) (kind : WorkKind) (risk : RiskLevel)
    → let plan = plan_fan_out max_fan_out kind desired risk in
      ((plan.synthesis_class ≡ frontier_reasoning) ↔ IsHighRisk risk)
      × (plan.worker_class ≡ base_class_for kind)
      × (IsHighRisk risk → BearsReasoning kind → plan.worker_class ≢ (route kind risk).model_class)
unfolding plan_fan_out RiskLevel-discrete decide
plan_fan_out-classes max_fan_out desired extraction low =
    (ground arith, ground arith, λ h k. ground arith)
plan_fan_out-classes max_fan_out desired _ _ = (ground arith, ground arith, λ h k. ground arith)
