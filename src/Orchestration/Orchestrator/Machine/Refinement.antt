-- ===== src/Orchestration/Orchestrator/Machine/Refinement.antt =====
-- The loop over the agents is a run of the abstract machine.
use harp_ochestration.Prelude.{
  ℕ, refl, not, ◌||◌, List, [], ◌∷◌, ◌++◌, ◌≡◌, inl, inr, Bool-cases, ◌==◌, arith,
}
use harp_ochestration.Core.Ids.{AgentId, agent_id_eq, ra}
use harp_ochestration.Core.Records.{AgentResult, ApprovalDecision, WorkflowResult}
use harp_ochestration.Core.Errors.{Result, ok, err}
use harp_ochestration.Orchestration.Workflow.{
  repo_write_request, System, Parts, Job, Progress, LoopEnd, finished, held, threw, recorded, stops,
}
use harp_ochestration.Orchestration.Orchestrator.{
  hold_back, decided, gate, after_agent, run_sequence,
}
use harp_ochestration.Orchestration.Orchestrator.Approvals.{evaluate_repo_write}
use harp_ochestration.Orchestration.Orchestrator.Machine.{
  Ending, done, blocked, broken, Phase, turn, gated, passed, over, Step, exhausted, crashes,
  answers, reaches_gate, is_allowed, is_refused, gate_throws, goes_on, is_cut, Steps, stay, step,
  EndsWithRa, GateIsRa, steps-GateIsRa,
}

abbrev pub ending : LoopEnd → Ending
ending finished = done
ending (held r) = blocked
ending (threw e) = broken

module _ {W : Type 0} where
  -- What the provider of a system answers when it is asked to let a result of the job be written.
  abbrev pub ProviderAnswers : Parts W → Job → AgentResult → Result ApprovalDecision → Type 0
  ProviderAnswers parts job r d = (now : ℕ) × (parts.provider (repo_write_request job r) now ≡ d)

  -- From the phase, the machine that asks this provider can come to the end that the loop came to,
  -- with the same agents run.
  unfoldable pub Refines : Parts W → Job → Phase → LoopEnd × Progress × System W → Type 0
  Refines parts job phase (end, p, s) =
      Steps (ProviderAnswers parts job) phase (over (ending end) p.completed_agents)

  first-Refines :
      (parts : Parts W) (job : Job) (a b : Phase) (x : LoopEnd × Progress × System W)
      → Step (ProviderAnswers parts job) a b
      → Refines parts job b x
      → Refines parts job a x
  unfolding Refines
  first-Refines parts job a b (end, p, s) one more = step a b _ one more

  module _ (parts : Parts W) (job : Job) (before : Progress) (id : AgentId) (ids : List AgentId)
      (r : AgentResult) where
    decided-Refines :
        (d : Result ApprovalDecision) (s : System W)
        (rest : System W → LoopEnd × Progress × System W)
        → ProviderAnswers parts job r d
        → ((s' : System W)
            → Refines parts job (passed (before.completed_agents ++ id ∷ []) ids) (rest s'))
        → Refines parts job
            (gated (before.completed_agents ++ id ∷ []) ids r)
            (decided parts.runtime job d (recorded id r before) s rest)
    unfolding decided hold_back Refines
    decided-Refines (err e) s rest asked h = step _ _ _ (gate_throws _ ids r e asked) (stay _)
    decided-Refines (ok d) s rest asked h = elim (Bool-cases (not d.required || d.approved)) [
      | inl t ↦ rw t (
          first-Refines parts job _ _ (rest _) (is_allowed _ ids r d asked (ground (arith, t)))
            (h _))
      | inr f ↦
          rw f (
            step _ _ _ (is_refused _ ids r d asked (ground (arith, f)) (ground (arith, f)))
              (stay _))
    ]

    gate-Refines :
        (s : System W) (rest : System W → LoopEnd × Progress × System W)
        → ((s' : System W)
            → Refines parts job (passed (before.completed_agents ++ id ∷ []) ids) (rest s'))
        → Refines parts job
            (turn before.completed_agents (id ∷ ids))
            (gate parts job id r (recorded id r before) s rest)
    unfolding gate
    gate-Refines s rest h = elim (Bool-cases (id == ra)) [
      | inl t ↦
          rw (t, evaluate_repo_write parts.runtime parts.provider job r s.ticks)
            (first-Refines parts job _ _ _
              (rw ((agent_id_eq.eqb_iff id ra).0 t) (reaches_gate _ ids r))
              (decided-Refines (parts.provider (repo_write_request job r) s.ticks) _ rest
                (s.ticks, refl) h))
      | inr f ↦ rw f (
          first-Refines parts job _ _ (rest s)
            (answers _ ids id (λ e. absurd (ground (arith, agent_id_eq.eqb_iff id ra)))) (h s))
    ]

    after_agent-Refines :
        (s : System W) (rest : Progress → System W → LoopEnd × Progress × System W)
        → ((p : Progress) (s' : System W)
            → Refines parts job (turn p.completed_agents ids) (rest p s'))
        → Refines parts job
            (turn before.completed_agents (id ∷ ids))
            (after_agent parts job id (ok r) before s rest)
    unfolding after_agent Refines
    after_agent-Refines s rest h = gate-Refines _ _ (λ s'.
        elim (Bool-cases (stops job (recorded id r before))) [
          | inl t ↦ rw t (step _ _ _ (is_cut _ ids) (stay _))
          | inr f ↦ rw f (
              first-Refines parts job _ _ (rest (recorded id r before) s') (goes_on _ ids) (h _ s'))
        ])

  agent-Refines :
      (parts : Parts W) (job : Job) (before : Progress) (id : AgentId) (ids : List AgentId)
      (r : Result AgentResult) (s : System W)
      (rest : Progress → System W → LoopEnd × Progress × System W)
      → ((p : Progress) (s' : System W)
          → Refines parts job (turn p.completed_agents ids) (rest p s'))
      → Refines parts job
          (turn before.completed_agents (id ∷ ids))
          (after_agent parts job id r before s rest)
  unfolding after_agent Refines
  agent-Refines parts job before id ids (err e) s rest h =
      step _ _ _ (crashes before.completed_agents ids id) (stay _)
  agent-Refines parts job before id ids (ok r) s rest h =
      after_agent-Refines parts job before id ids r s rest h

  -- The loop refines the abstract machine of an approval gate: whatever the agents, the context
  -- manager and the approval provider answer or throw, its run is a run of the machine from the turn
  -- of the first agent left to the end that the loop comes to, with the same agents run in the same
  -- order. In the machine nothing follows an answer of Ra but what the provider answers when it is
  -- asked to let that answer be written: the loop goes on past the gate only on a decision that
  -- approves it or needs no approval, is blocked only on one that needs an approval and has none,
  -- and breaks off at the gate only when the provider throws.
  pub run_sequence-Refines :
      (parts : Parts W) (job : Job) (ids : List AgentId) (p : Progress) (s : System W)
      → Refines parts job (turn p.completed_agents ids) (run_sequence parts job ids p s)
  unfolding run_sequence Refines
  run_sequence-Refines parts job [] p s = step _ _ _ (exhausted p.completed_agents) (stay _)
  run_sequence-Refines parts job (id ∷ ids) p s =
      agent-Refines parts job p id ids _ _ _ (λ p' s'. run_sequence-Refines parts job ids p' s')

  held-EndsWithRa :
      (parts : Parts W) (job : Job) (phase : Phase) (x : LoopEnd × Progress × System W)
      (r : WorkflowResult)
      → Refines parts job phase x
      → GateIsRa phase
      → x.0 ≡ held r
      → EndsWithRa x.1.completed_agents
  unfolding Refines
  held-EndsWithRa parts job phase (held q, p, s) r run start e = steps-GateIsRa _ _ run start
  held-EndsWithRa parts job phase (finished, p, s) r run start e = ground (arith, e)
  held-EndsWithRa parts job phase (threw x, p, s) r run start e = ground (arith, e)

  -- A workflow that is held back for approval has run Ra, and no agent after Ra.
  pub run_sequence-held :
      (parts : Parts W) (job : Job) (ids : List AgentId) (p : Progress) (s : System W)
      (r : WorkflowResult)
      → (run_sequence parts job ids p s).0 ≡ held r
      → EndsWithRa (run_sequence parts job ids p s).1.completed_agents
  run_sequence-held parts job ids p s r e =
      held-EndsWithRa parts job _ (run_sequence parts job ids p s) r
        (run_sequence-Refines parts job ids p s) tt e
