-- ===== src/Orchestration/Orchestrator/Approvals.antt =====
-- The approval gate behind Ra: no workflow gets past it without a decision of the provider.
use harp_ochestration.Prelude.{
  ℕ, true, false, not, ◌||◌, List, [], ◌∷◌, ◌++◌, ◌≡◌, refl, ◌⊎◌, inl, inr, arith, Bool-cases, ◌==◌,
  Elem, Elem-append,
}
use harp_ochestration.Core.Ids.{AgentId, agent_id_eq, ra}
use harp_ochestration.Core.Records.{AgentResult, ApprovalDecision, ApprovalRequest}
use harp_ochestration.Core.Runtime.{Runtime}
use harp_ochestration.Core.Errors.{Result, ok, err}
use harp_ochestration.Security.Approval.{
  ApprovalProvider, evaluate, requires_approval, is_state_changing,
}
use harp_ochestration.Orchestration.Workflow.{
  System, Parts, Job, Progress, LoopEnd, finished, held, threw, recorded, stops, repo_write_request,
  start_progress,
}
use harp_ochestration.Orchestration.Orchestrator.{
  hold_back, decided, gate, after_agent, run_sequence,
}

-- The gate of a repository write asks the provider, whatever the task.
pub evaluate_repo_write :
    (rt : Runtime) (provider : ApprovalProvider) (job : Job) (r : AgentResult) (now : ℕ)
    → evaluate rt provider (repo_write_request job r) now ≡ provider (repo_write_request job r) now
unfolding evaluate requires_approval is_state_changing
evaluate_repo_write rt provider job r now = ground arith

-- Behind an agent that is not Ra, Ra has run only if it had before.
ran_before :
    (ids : List AgentId) (id : AgentId)
    → (id == ra) ≡ false
    → Elem ra (ids ++ id ∷ [])
    → Elem ra ids
ran_before ids id f m = elim ((Elem-append ids (id ∷ []) ra).0 m) [
  | inl k ↦ k
  | inr (inl e) ↦ ground (arith, (agent_id_eq.eqb_iff id ra).1 e, f)
  | inr (inr k) ↦ absurd k
]

module _ {W : Type 0} where
  -- The provider has let a repository write of the task through.
  unfoldable pub IsApproved : Parts W → Job → Type 0
  IsApproved parts job =
      (input : ApprovalRequest) × (now : ℕ) × (d : ApprovalDecision) × (input.task ≡ job.task)
      × (input.action ≡ "repo.write")
      × (parts.provider input now ≡ ok d)
      × ((d.required ≡ false) ⊎ (d.approved ≡ true))

  -- A loop that is finished with Ra among its agents has an approval.
  unfoldable pub RaIsApproved : Parts W → Job → LoopEnd × Progress × System W → Type 0
  RaIsApproved parts job (finished, p, s) = Elem ra p.completed_agents → IsApproved parts job
  RaIsApproved parts job (held r, p, s) = Unit {0}
  RaIsApproved parts job (threw e, p, s) = Unit {0}

  module _ (parts : Parts W) (job : Job) where
    decided-RaIsApproved :
        (d : Result ApprovalDecision) (p : Progress) (s : System W)
        (rest : System W → LoopEnd × Progress × System W)
        → ((x : ApprovalDecision)
            → d ≡ ok x
            → (x.required ≡ false) ⊎ (x.approved ≡ true)
            → (s' : System W) → RaIsApproved parts job (rest s'))
        → RaIsApproved parts job (decided parts.runtime job d p s rest)
    unfolding decided hold_back RaIsApproved
    decided-RaIsApproved (err e) p s rest h = tt
    decided-RaIsApproved (ok d) p s rest h = elim (Bool-cases (not d.required || d.approved)) [
      | inl t ↦ rw t (h d refl (ground (arith, t)) _)
      | inr f ↦ rw f tt
    ]

    gate-RaIsApproved :
        (id : AgentId) (r : AgentResult) (p : Progress) (s : System W)
        (rest : System W → LoopEnd × Progress × System W)
        → (Elem ra p.completed_agents → IsApproved parts job)
        → ((Elem ra (p.completed_agents ++ id ∷ []) → IsApproved parts job)
            → (s' : System W) → RaIsApproved parts job (rest s'))
        → RaIsApproved parts job (gate parts job id r (recorded id r p) s rest)
    unfolding gate IsApproved
    gate-RaIsApproved id r p s rest old h = elim (Bool-cases (id == ra)) [
      | inl t ↦
          rw (t, evaluate_repo_write parts.runtime parts.provider job r s.ticks)
            (decided-RaIsApproved (parts.provider (repo_write_request job r) s.ticks)
              (recorded id r p) _ rest
              (λ x e fine s'.
                h (λ m. (repo_write_request job r, s.ticks, x, refl, refl, e, fine)) s'))
      | inr f ↦ rw f (h (λ m. old (ran_before p.completed_agents id f m)) s)
    ]

    after_agent-RaIsApproved :
        (id : AgentId) (r : Result AgentResult) (p : Progress) (s : System W)
        (rest : Progress → System W → LoopEnd × Progress × System W)
        → (Elem ra p.completed_agents → IsApproved parts job)
        → ((p' : Progress) (s' : System W)
            → (Elem ra p'.completed_agents → IsApproved parts job)
            → RaIsApproved parts job (rest p' s'))
        → RaIsApproved parts job (after_agent parts job id r p s rest)
    unfolding after_agent RaIsApproved
    after_agent-RaIsApproved id (err e) p s rest old h = tt
    after_agent-RaIsApproved id (ok r) p s rest old h = gate-RaIsApproved id r p _ _ old (λ new s'.
        elim (Bool-cases (stops job (recorded id r p))) [
          | inl t ↦ rw t (λ m. new m)
          | inr f ↦ rw f (h (recorded id r p) s' new)
        ])

    sequence-RaIsApproved :
        (ids : List AgentId) (p : Progress) (s : System W)
        → (Elem ra p.completed_agents → IsApproved parts job)
        → RaIsApproved parts job (run_sequence parts job ids p s)
    unfolding run_sequence RaIsApproved
    sequence-RaIsApproved [] p s old = old
    sequence-RaIsApproved (id ∷ ids) p s old =
        after_agent-RaIsApproved id _ p _ _ old (λ p' s' new. sequence-RaIsApproved ids p' s' new)

  -- When the loop over any sequence of agents comes to its end with Ra among the agents that have
  -- run, the approval provider has answered a request to write to the repository for this task,
  -- with an approval or with a waiver. It holds at any risk: the gate never waives Ra by itself.
  pub run_sequence-RaIsApproved :
      (parts : Parts W) (job : Job) (ids : List AgentId) (s : System W)
      → RaIsApproved parts job (run_sequence parts job ids start_progress s)
  run_sequence-RaIsApproved parts job ids s =
      sequence-RaIsApproved parts job ids start_progress s (λ m. absurd m)
