-- ===== src/Orchestration/Activation/Gate.antt =====
-- The gate in front of the advanced strategies never fails open.
use harp_ochestration.Prelude.{
  true, ◌≡◌, refl, ◌↔◌, ◌⊎◌, inl, inr, arith, Elem, contains_iff, codes, codes_eq, Bool-cases,
}
use harp_ochestration.Core.Records.{AgentTask}
use harp_ochestration.Orchestration.Strategies.{sequential_review_strategy}
use harp_ochestration.Orchestration.Activation.{
  Environment, AdvancedStrategyName, advanced_name, is_set, enabled_set, evaluate, gated_sequence,
  gated_strategy, activated_sequence, safe_fallback,
}

-- The opt-in, the strategy's own name among the enabled ones, and the validation.
pub IsActivated : Environment → AdvancedStrategyName → Type 0
IsActivated env name =
    (is_set env "HARP_ENABLE_ADVANCED_STRATEGIES" ≡ true)
    × Elem (codes (advanced_name name)) (enabled_set env)
    × (is_set env "HARP_MODEL_VALIDATED" ≡ true)

-- The policy allows a strategy exactly when the global opt-in is set, the strategy is named among
-- the enabled ones, and the validation of the model is confirmed.
pub evaluate_iff :
    (env : Environment) (name : AdvancedStrategyName)
    → ((evaluate env name).allowed ≡ true) ↔ IsActivated env name
unfolding evaluate IsActivated
evaluate_iff env name = ground (arith, contains_iff (enabled_set env) (codes (advanced_name name)))

-- An advanced strategy runs its own sequence exactly when it is activated; otherwise it runs the
-- sequence of the sequential review. Either way it stops where the sequential review stops.
pub gated_strategy-FailsSafe :
    (env : Environment) (name : AdvancedStrategyName) (task : AgentTask)
    → ((IsActivated env name
          × ((gated_strategy env name).select_sequence task ≡ activated_sequence name))
        ⊎ ((¬ IsActivated env name)
            × ((gated_strategy env name).select_sequence task
                ≡ sequential_review_strategy.select_sequence task)))
      × ((gated_strategy env name).should_stop ≡ sequential_review_strategy.should_stop)
unfolding gated_strategy gated_sequence safe_fallback sequential_review_strategy
gated_strategy-FailsSafe env name task = (
  elim (Bool-cases (evaluate env name).allowed) [
    | inl t ↦ inl ((evaluate_iff env name).0 t, rw t refl)
    | inr f ↦ inr ((λ a. ground (arith, (evaluate_iff env name).1 a, f)), rw f refl)
  ],
  refl,
)
