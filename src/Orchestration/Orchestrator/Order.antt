-- ===== src/Orchestration/Orchestrator/Order.antt =====
-- The order in which the agents of a sequence run.
use mathlib.Core.List.{append_assoc, append-nil}
use harp_ochestration.Prelude.{
  true, not, ◌||◌, List, [], ◌∷◌, ◌++◌, ◌≡◌, refl, ap, sym, ◌∙◌, ◌⊎◌, inl, inr, Bool-cases, ◌==◌,
}
use harp_ochestration.Core.Ids.{AgentId, agent_id_eq, ra}
use harp_ochestration.Core.Records.{AgentResult, ApprovalDecision}
use harp_ochestration.Core.Errors.{Result, ok, err}
use harp_ochestration.Orchestration.Workflow.{
  System, Parts, Job, Progress, LoopEnd, finished, held, threw, recorded, stops,
}
use harp_ochestration.Orchestration.Orchestrator.{
  hold_back, decided, gate, after_agent, run_sequence,
}

-- A loop is finished when no agent is left, or where the strategy stops it.
pub EndsWell : Job → LoopEnd → Progress → List AgentId → Type 0
EndsWell job finished p rest = (rest ≡ []) ⊎ (stops job p ≡ true)
EndsWell job (held r) p rest = Unit {0}
EndsWell job (threw e) p rest = Unit {0}

module _ {W : Type 0} where
  -- The agents that have run since `before` are the first ones of the sequence, in its order.
  pub RanInOrder : Job → Progress → List AgentId → LoopEnd × Progress × System W → Type 0
  RanInOrder job before ids (end, p, s) =
      (ran rest : List AgentId) × (ids ≡ ran ++ rest)
      × (p.completed_agents ≡ before.completed_agents ++ ran)
      × EndsWell job end p rest

  module _ (parts : Parts W) (job : Job) (before : Progress) (id : AgentId)
      (ids : List AgentId) where
    decided-RanInOrder :
        (r : AgentResult) (d : Result ApprovalDecision) (s : System W)
        (rest : System W → LoopEnd × Progress × System W)
        → ((s' : System W) → RanInOrder job before (id ∷ ids) (rest s'))
        → RanInOrder job before
            (id ∷ ids)
            (decided parts.runtime job d (recorded id r before) s rest)
    unfolding decided hold_back RanInOrder EndsWell
    decided-RanInOrder r (err e) s rest h = (id ∷ [], ids, refl, refl, tt)
    decided-RanInOrder r (ok d) s rest h = elim (Bool-cases (not d.required || d.approved)) [
      | inl t ↦ rw t (h _)
      | inr f ↦ rw f (id ∷ [], ids, refl, refl, tt)
    ]

    gate-RanInOrder :
        (r : AgentResult) (s : System W) (rest : System W → LoopEnd × Progress × System W)
        → ((s' : System W) → RanInOrder job before (id ∷ ids) (rest s'))
        → RanInOrder job before (id ∷ ids) (gate parts job id r (recorded id r before) s rest)
    unfolding gate
    gate-RanInOrder r s rest h = elim (Bool-cases (id == ra)) [
      | inl t ↦ rw t (decided-RanInOrder r _ _ rest h)
      | inr f ↦ rw f (h s)
    ]

    later-RanInOrder :
        (r : AgentResult) (x : LoopEnd × Progress × System W)
        → RanInOrder job (recorded id r before) ids x
        → RanInOrder job before (id ∷ ids) x
    unfolding RanInOrder
    later-RanInOrder r x (ran, rest, e, c, w) = (
      id ∷ ran,
      rest,
      ap (λ l. id ∷ l) e,
      c ∙ append_assoc before.completed_agents (id ∷ []) ran,
      w,
    )

    after_agent-RanInOrder :
        (r : Result AgentResult) (s : System W)
        (rest : Progress → System W → LoopEnd × Progress × System W)
        → ((p : Progress) (s' : System W) → RanInOrder job p ids (rest p s'))
        → RanInOrder job before (id ∷ ids) (after_agent parts job id r before s rest)
    unfolding after_agent RanInOrder EndsWell
    after_agent-RanInOrder (err e) s rest h =
        ([], id ∷ ids, refl, sym (append-nil before.completed_agents), tt)
    after_agent-RanInOrder (ok r) s rest h = gate-RanInOrder r _ _ (λ s'.
        elim (Bool-cases (stops job (recorded id r before))) [
          | inl t ↦ rw t (id ∷ [], ids, refl, refl, inr t)
          | inr f ↦
              rw f
                (later-RanInOrder r (rest (recorded id r before) s') (h (recorded id r before) s'))
        ])

  -- The agents run in the order of the sequence, each place at most once, and whatever is thrown or
  -- held back; a loop that comes to its end has run them all or stopped where the strategy says so.
  pub run_sequence-RanInOrder :
      (parts : Parts W) (job : Job) (ids : List AgentId) (p : Progress) (s : System W)
      → RanInOrder job p ids (run_sequence parts job ids p s)
  unfolding run_sequence RanInOrder EndsWell
  run_sequence-RanInOrder parts job [] p s =
      ([], [], refl, sym (append-nil p.completed_agents), inl refl)
  run_sequence-RanInOrder parts job (id ∷ ids) p s =
      after_agent-RanInOrder parts job p id ids _ _ _
        (λ p' s'. run_sequence-RanInOrder parts job ids p' s')
