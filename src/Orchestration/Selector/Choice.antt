-- ===== src/Orchestration/Selector/Choice.antt =====
-- Which strategy the selector chooses.
use harp_ochestration.Prelude.{
  true, false, ◌≡◌, ◌≢◌, ◌⊎◌, ◌↔◌, inl, inr, refl, some, map, arith, decide, Bool-cases, ap, ◌∙◌,
}
use mathlib.Core.Option
use mathlib.Core.List.{Perm}
use harp_ochestration.Prelude.Sort.{sort_by-perm, sort_by-IsSorted, IsSorted}
use harp_ochestration.Core.Ids.{
  RiskLevel, low, medium, high, critical, RiskLevel-discrete, StrategyName-discrete,
  AgentId-discrete,
}
use harp_ochestration.Core.Records.{AgentTask}
use harp_ochestration.Core.Constants.{risk_weight}
use harp_ochestration.Orchestration.Strategies.{
  CoordinationStrategy, all_strategies, sequential_review_strategy, escalation_strategy,
}
use harp_ochestration.Orchestration.Selector.{
  Selection, StrategyEvaluation, evaluate, ranking_of, chosen_entry, force_escalation, select,
  selection_of, ranks_before,
}

-- The risk is critical, secrets are involved, or the action cannot be reversed.
abbrev pub IsForced : AgentTask → Type 0
IsForced task =
    (task.risk_level ≡ critical)
    ⊎ (task.touches_secrets ≡ some true)
    ⊎ (task.reversible ≡ some false)

force_escalation_iff : (task : AgentTask) → (force_escalation task ≡ true) ↔ IsForced task
unfolding force_escalation RiskLevel-discrete decide
force_escalation_iff task = ground arith

-- The strategy with the best score at a risk that is not critical.
abbrev pub best_at : RiskLevel → CoordinationStrategy
best_at high = sequential_review_strategy
best_at _ = escalation_strategy

chosen_of :
    (risk : RiskLevel) (task : AgentTask)
    → task.risk_level ≡ risk
    → risk ≢ critical
    → chosen_entry false (ranking_of task) ≡ some (evaluate task (best_at risk))
unfolding chosen_entry ranking_of StrategyName-discrete AgentId-discrete decide risk_weight
chosen_of low task e n = rw e
chosen_of medium task e n = rw e
chosen_of high task e n = rw e
chosen_of critical task e n = absurd (n refl)

forced_of :
    (risk : RiskLevel) (task : AgentTask)
    → task.risk_level ≡ risk
    → chosen_entry true (ranking_of task) ≡ some (evaluate task escalation_strategy)
unfolding chosen_entry ranking_of StrategyName-discrete AgentId-discrete decide risk_weight
forced_of low task e = rw e
forced_of _ task e = rw e

-- A selection never fails, and its ranking is the ranking of all candidates. Critical risk, secrets
-- and irreversible work get escalation; otherwise sequential review is chosen at high risk, and at
-- low and medium risk it is escalation that scores best, so that no other strategy is ever chosen.
pub select_cases :
    (task : AgentTask)
    → (s : Selection) × (select task ≡ some s)
      × (s.ranking ≡ ranking_of task)
      × ((IsForced task × (s.chosen ≡ escalation_strategy))
          ⊎ ((¬ IsForced task) × (s.chosen ≡ best_at task.risk_level)))
unfolding select
select_cases task = elim (Bool-cases (force_escalation task)) [
  | inl t ↦
      let forced = (force_escalation_iff task).0 t in
      let e = ap (λ b. chosen_entry b (ranking_of task)) t ∙ forced_of task.risk_level task refl in
      (
        selection_of task (evaluate task escalation_strategy),
        ap (Option.map (selection_of task)) e,
        refl,
        inl (forced, refl),
      )
  | inr f ↦
      let free : ¬ IsForced task = λ h. cc (f, (force_escalation_iff task).1 h) in
      let e =
        ap (λ b. chosen_entry b (ranking_of task)) f
        ∙ chosen_of task.risk_level task refl (λ c. free (inl c)) in
      (
        selection_of task (evaluate task (best_at task.risk_level)),
        ap (Option.map (selection_of task)) e,
        refl,
        inr (free, refl),
      )
]

ranks_before-total : (a b : StrategyEvaluation) → ranks_before a b ≡ false → ranks_before b a ≡ true
ranks_before-total a b h = ground arith

ranks_before_trans :
    (a b c : StrategyEvaluation)
    → ranks_before a b ≡ true
    → ranks_before b c ≡ true
    → ranks_before a c ≡ true
ranks_before_trans a b c h k = ground arith

-- The ranking holds the evaluation of each of the six candidates once, the best composite first.
pub ranking_lem :
    (task : AgentTask)
    → Perm (ranking_of task) (map (evaluate task) all_strategies)
      × IsSorted ranks_before (ranking_of task)
unfolding ranking_of
ranking_lem task = (
  sort_by-perm ranks_before (map (evaluate task) all_strategies),
  sort_by-IsSorted ranks_before ranks_before-total ranks_before_trans
      (map (evaluate task) all_strategies),
)
