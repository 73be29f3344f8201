-- ===== src/Orchestration/Selector.antt =====
-- src/orchestration/StrategySelector.ts. The scores are fractions, and the model keeps them exact:
-- quality in hundredths, risk in 400ths, approval burden in 28ths, cost and time in 28000ths and
-- 10500ths of the full loop, the composite in 6720000ths.
pub mod Choice
use harp_ochestration.Prelude.{
  ℕ, ◌+◌, ◌-◌, ◌*◌, min, String, Bool, true, false, ◌||◌, List, [], ◌∷◌, Option, none, some,
  if◌then◌else◌, leb, ◌==◌, any, find, map, length, is_true, is_false, ◌⧺◌,
}
use mathlib.Core.Option
use harp_ochestration.Prelude.Sort.{sort_by}
use harp_ochestration.Core.Ids.{
  AgentId, CoordinationStrategyName, sequential_review, escalation, parallel_review, arbitration,
  negotiation, voting, ra, horus_nexus, anubis_sentinel, agent_id_eq, strategy_name_eq,
  risk_level_eq, critical, risk_name,
}
use harp_ochestration.Core.Records.{AgentTask}
use harp_ochestration.Core.Constants.{risk_weight}
use harp_ochestration.Orchestration.Strategies.{CoordinationStrategy, all_strategies}

pub record StrategyScore : Type 0 where
  pub estimated_token_cost : ℕ
  pub estimated_runtime_ms : ℕ
  pub expected_quality : ℕ
  pub expected_risk : ℕ
  pub approval_burden : ℕ

pub record StrategyEvaluation : Type 0 where
  pub strategy : CoordinationStrategy
  pub score : StrategyScore
  pub composite : ℕ
  pub rationale : String

pub record Selection : Type 0 where
  pub chosen : CoordinationStrategy
  pub ranking : List StrategyEvaluation
  pub rationale : String

abbrev approx_tokens_per_agent_step : ℕ
approx_tokens_per_agent_step = 4_000

abbrev approx_ms_per_agent_step : ℕ
approx_ms_per_agent_step = 1_500

-- The agents behind the first "ra" of a sequence, if it has one.
unfoldable pub after_ra : List AgentId → Option (List AgentId)
after_ra [] = none
after_ra (id ∷ ids) = if id == ra then some ids else after_ra ids

unfoldable pub covers_post_build_review : AgentTask → CoordinationStrategy → Bool
unfolding after_ra
covers_post_build_review task strategy = elim (after_ra (strategy.select_sequence task)) [
  | none ↦ false
  | some rest ↦ any (λ id. id == horus_nexus || id == anubis_sentinel) rest
]

-- In hundredths.
unfoldable pub mitigation : CoordinationStrategyName → Bool → ℕ
mitigation sequential_review covers = 50
mitigation escalation covers = 60
mitigation _ covers = if covers then 35 else 20

unfoldable pub residual_risk : CoordinationStrategyName → ℕ → Bool → ℕ
unfolding mitigation
residual_risk name weight covers = weight * (100 - mitigation name covers)

unfoldable pub praise_of : CoordinationStrategyName → String
praise_of sequential_review =
    "Ordered review-build-validate loop; best safety/quality for risky or production-impacting work."
praise_of parallel_review =
    "Independent reviewer assessment for fast, broad triage of lower-risk work."
praise_of arbitration = "Pharaoh arbitrates conflicting reviewer recommendations."
praise_of negotiation = "Reviewers reconcile tradeoffs over multiple rounds for design decisions."
praise_of voting = "Multiple candidate solutions weighed for low-risk implementation choices."
praise_of escalation = "Risk/uncertainty exceeds threshold; assess then defer to human approval."

unfoldable pub rationale_for : CoordinationStrategyName → AgentTask → String
unfolding praise_of
rationale_for name task = praise_of name ⧺ " (task risk: " ⧺ risk_name task.risk_level ⧺ ")"

-- 0.45 (1 - risk) + (0.2 + 0.2 w / 4) quality + 0.15 (1 - w / 4) cost + 0.05 time - 0.05 burden
unfoldable pub composite_of : ℕ → StrategyScore → ℕ
composite_of weight score =
    7_560 * (400 - score.expected_risk)
    + 3_360 * (4 + weight) * score.expected_quality
    + 9 * (4 - weight) * (28_000 - min 28_000 score.estimated_token_cost)
    + 32 * (10_500 - min 10_500 score.estimated_runtime_ms)
    - 12_000 * score.approval_burden

unfoldable pub score_of : AgentTask → CoordinationStrategy → StrategyScore
unfolding covers_post_build_review residual_risk risk_weight
score_of task strategy =
    let steps = length (strategy.select_sequence task) in
    let weight = risk_weight task.risk_level in
    record {
      estimated_token_cost = steps * approx_tokens_per_agent_step;
      estimated_runtime_ms = steps * approx_ms_per_agent_step;
      expected_quality = min 100 (45 + steps * 8);
      expected_risk = residual_risk strategy.name weight (covers_post_build_review task strategy);
      approval_burden = min 28 (steps * weight);
    }

unfoldable pub evaluate : AgentTask → CoordinationStrategy → StrategyEvaluation
unfolding score_of composite_of
evaluate task strategy = record {
  strategy = strategy;
  score = score_of task strategy;
  composite = composite_of (risk_weight task.risk_level) (score_of task strategy);
  rationale = rationale_for strategy.name task;
}

-- `touchesSecrets === true`, `reversible === false`
unfoldable pub force_escalation : AgentTask → Bool
force_escalation task =
    task.risk_level == critical || is_true task.touches_secrets || is_false task.reversible

abbrev pub ranks_before : StrategyEvaluation → StrategyEvaluation → Bool
ranks_before a b = leb b.composite a.composite

unfoldable pub ranking_of : AgentTask → List StrategyEvaluation
unfolding evaluate sort_by all_strategies
ranking_of task = sort_by ranks_before (map (evaluate task) all_strategies)

-- The entry that is chosen; `none` would be an access to `undefined`.
unfoldable pub chosen_entry : Bool → List StrategyEvaluation → Option StrategyEvaluation
chosen_entry true ranking = find (λ e. e.strategy.name == escalation) ranking
chosen_entry false [] = none
chosen_entry false (best ∷ rest) = some best

unfoldable pub selection_of : AgentTask → StrategyEvaluation → Selection
unfolding ranking_of force_escalation
selection_of task entry = record {
  chosen = entry.strategy;
  ranking = ranking_of task;
  rationale =
      if force_escalation task
      then "Forced escalation: critical risk, secrets involvement, or irreversible action."
      else entry.rationale;
}

unfoldable pub select : AgentTask → Option Selection
unfolding ranking_of chosen_entry force_escalation selection_of
select task =
    Option.map (selection_of task) (chosen_entry (force_escalation task) (ranking_of task))
