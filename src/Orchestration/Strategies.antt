-- ===== src/Orchestration/Strategies.antt =====
-- src/orchestration/strategies: the interface and the six strategies.
use harp_ochestration.Prelude.{Bool, ◌||◌, List, [], ◌∷◌, Option, none, some, any}
use harp_ochestration.Core.Ids.{
  AgentId, CoordinationStrategyName, ResultStatus, sequential_review, parallel_review, arbitration,
  negotiation, voting, escalation, pharaoh, horus_nexus, anubis_sentinel, ra,
}
use harp_ochestration.Core.Records.{AgentTask, AgentResult}

pub record WorkflowState : Type 0 where
  pub task : AgentTask
  pub completed_agents : List AgentId
  pub results : List AgentResult
  pub blocked_for_approval : Bool

pub record CoordinationStrategy : Type 0 where
  pub name : CoordinationStrategyName
  pub select_sequence : AgentTask → List AgentId
  pub should_stop : Option (WorkflowState → Bool)

-- `r.status === "blocked" || r.status === "failed"`
abbrev pub is_blocked_or_failed : ResultStatus → Bool
is_blocked_or_failed ResultStatus.success = Bool.false
is_blocked_or_failed ResultStatus.blocked = Bool.true
is_blocked_or_failed ResultStatus.failed = Bool.true

unfoldable pub any_blocked_or_failed : List AgentResult → Bool
any_blocked_or_failed results = any (λ r. is_blocked_or_failed r.status) results

unfoldable pub sequential_review_strategy : CoordinationStrategy
unfolding any_blocked_or_failed
sequential_review_strategy = record {
  name = sequential_review;
  select_sequence = λ task.
      pharaoh ∷ horus_nexus ∷ anubis_sentinel ∷ ra ∷ horus_nexus ∷ anubis_sentinel ∷ pharaoh ∷ [];
  should_stop = some (λ state. state.blocked_for_approval || any_blocked_or_failed state.results);
}

unfoldable pub parallel_review_strategy : CoordinationStrategy
unfolding any_blocked_or_failed
parallel_review_strategy = record {
  name = parallel_review;
  select_sequence = λ task. pharaoh ∷ horus_nexus ∷ anubis_sentinel ∷ pharaoh ∷ [];
  should_stop = some (λ state. any_blocked_or_failed state.results);
}

unfoldable pub arbitration_strategy : CoordinationStrategy
arbitration_strategy = record {
  name = arbitration;
  select_sequence = λ task. pharaoh ∷ horus_nexus ∷ anubis_sentinel ∷ pharaoh ∷ [];
  should_stop = none;
}

unfoldable pub negotiation_strategy : CoordinationStrategy
negotiation_strategy = record {
  name = negotiation;
  select_sequence = λ task. pharaoh ∷ horus_nexus ∷ anubis_sentinel ∷ horus_nexus ∷ pharaoh ∷ [];
  should_stop = none;
}

unfoldable pub voting_strategy : CoordinationStrategy
voting_strategy = record {
  name = voting;
  select_sequence = λ task. pharaoh ∷ ra ∷ horus_nexus ∷ anubis_sentinel ∷ pharaoh ∷ [];
  should_stop = none;
}

unfoldable pub escalation_strategy : CoordinationStrategy
escalation_strategy = record {
  name = escalation;
  select_sequence = λ task. pharaoh ∷ anubis_sentinel ∷ pharaoh ∷ [];
  should_stop = some (λ state. state.blocked_for_approval);
}

unfoldable pub all_strategies : List CoordinationStrategy
unfolding sequential_review_strategy parallel_review_strategy arbitration_strategy
    negotiation_strategy voting_strategy escalation_strategy
all_strategies =
    sequential_review_strategy ∷ parallel_review_strategy ∷ arbitration_strategy
    ∷ negotiation_strategy ∷ voting_strategy ∷ escalation_strategy ∷ []
