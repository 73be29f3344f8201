-- ===== src/Models/Budget/Metering.antt =====
-- The counter that `record` of src/models/BudgetManager.ts adds to, and what it has in common with
-- the accounts.
use harp_ochestration.Prelude.{
  ℕ, ◌+◌, String, Bool, false, List, [], ◌∷◌, ◌++◌, Option, none, some, ◌≡◌, refl, or_else,
  if◌then◌else◌, ◌&&◌, ◌==◌, string_eq, eq_iff, arith, lookup,
}
use harp_ochestration.Observability.{
  AttributeValue, text, number, flag, Attributes, Telemetry, RecordedMetric, counter, measure,
}
use harp_ochestration.Observability.Optional.{on_meter}
use harp_ochestration.Models.Budget.{BudgetManager, Spend, workflow, record_spend, usage, state_of}
use harp_ochestration.Models.Budget.Spending.{used_by-add}
use harp_ochestration.Models.Budget.Ledger.{Entry, record_all}

unfoldable pub spent_attributes : Spend → Attributes
spent_attributes input =
    ("workflowId", text input.workflow_id) ∷ ("agentId", text (or_else input.agent_id "n/a")) ∷ []

abbrev pub spent_metric : Spend → RecordedMetric
spent_metric input = record {
  kind = counter;
  name = "budget.tokens_spent";
  value = input.tokens;
  attributes = some (spent_attributes input);
}

-- `record`, with `this.obs`.
unfoldable pub record_metered :
    BudgetManager → String → Spend → Option Telemetry → BudgetManager × Option Telemetry
record_metered m today input obs = (
  record_spend m today input,
  on_meter (measure counter "budget.tokens_spent" input.tokens (some (spent_attributes input))) obs,
)

-- The spends of a history, one after another.
unfoldable pub meter_all :
    BudgetManager → List Entry → Option Telemetry → BudgetManager × Option Telemetry
meter_all m [] obs = (m, obs)
meter_all m ((today, input) ∷ more) obs =
    let (m', obs') = record_metered m today input obs in meter_all m' more obs'

abbrev is_text : String → Option AttributeValue → Bool
is_text w none = false
is_text w (some (text s)) = s == w
is_text w (some (number n)) = false
is_text w (some (flag b)) = false

-- The metric counts the tokens of the workflow.
abbrev counts : String → RecordedMetric → Bool
counts w metric =
    metric.name == "budget.tokens_spent"
    && is_text w (lookup "workflowId" (or_else metric.attributes []))

-- What the counter shows for a workflow.
unfoldable pub metered : String → List RecordedMetric → ℕ
metered w [] = 0
metered w (metric ∷ more) = (if counts w metric then metric.value else 0) + metered w more

metered-append :
    (w : String) (xs ys : List RecordedMetric) → metered w (xs ++ ys) ≡ metered w xs + metered w ys
unfolding metered
metered-append w [] ys = omega arith
metered-append w (x ∷ xs) ys = omega (arith, metered-append w xs ys)

counts-spent :
    (w : String) (input : Spend)
    → metered w (spent_metric input ∷ []) ≡ (if input.workflow_id == w then input.tokens else 0)
unfolding metered spent_attributes lookup
counts-spent w input = omega arith

-- What the counter has gained is what the account of the workflow has gained.
abbrev pub Tallies : String → BudgetManager → Telemetry → BudgetManager × Option Telemetry → Type 0
Tallies w m t (m', none) = ⊥
Tallies w m t (m', some t') =
    metered w t'.metrics + usage m workflow w ≡ metered w t.metrics + usage m' workflow w

Tallies-trans :
    (w : String) (m n : BudgetManager) (t u : Telemetry) (x : BudgetManager × Option Telemetry)
    → Tallies w m t (n, some u)
    → Tallies w n u x
    → Tallies w m t x
Tallies-trans w m n t u (m', none) h k = k
Tallies-trans w m n t u (m', some v) h k = omega (arith, h, k)

record_metered-Tallies :
    (w : String) (m : BudgetManager) (today : String) (input : Spend) (t : Telemetry)
    → Tallies w m t (record_metered m today input (some t))
unfolding record_metered on_meter measure record_spend usage state_of
record_metered-Tallies w m today input t = ground (
  arith,
  metered-append w t.metrics (spent_metric input ∷ []),
  counts-spent w input,
  used_by-add input.tokens input.workflow_id w m.workflow,
  eq_iff input.workflow_id w,
)

meter_all-managers :
    (m : BudgetManager) (es : List Entry) (obs : Option Telemetry)
    → (meter_all m es obs).0 ≡ record_all m es
unfolding meter_all record_all record_metered
meter_all-managers m [] obs = refl
meter_all-managers m ((today, input) ∷ es) obs =
    meter_all-managers (record_spend m today input) es _

tallied :
    (w : String) (m : BudgetManager) (es : List Entry) (t : Telemetry)
    → Tallies w m t (meter_all m es (some t))
unfolding meter_all record_metered on_meter
tallied w m [] t = refl
tallied w m ((today, input) ∷ es) t =
    let n = record_spend m today input in
    let u = measure counter "budget.tokens_spent" input.tokens (some (spent_attributes input)) t in
    Tallies-trans w m n t u (meter_all n es (some u)) (record_metered-Tallies w m today input t)
      (tallied w n es u)

-- Over any history of spends the counter "budget.tokens_spent" gains for each workflow exactly the
-- tokens that its account gains, and the accounts are those of a manager without telemetry.
pub meter_all-Tallies :
    (m : BudgetManager) (es : List Entry) (t : Telemetry) (w : String)
    → Tallies w m t (meter_all m es (some t)) × ((meter_all m es (some t)).0 ≡ record_all m es)
meter_all-Tallies m es t w = (tallied w m es t, meter_all-managers m es (some t))
