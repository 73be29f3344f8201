-- ===== src/Orchestration/Orchestrator/Machine.antt =====
-- An abstract view of the loop of src/orchestration/HarpOrchestrator.ts: which agents have run, which
-- are left, and whether the approval gate stands open, without what the agents say.
pub mod Refinement
use harp_ochestration.Prelude.{true, false, ◌⊎◌, List, [], ◌∷◌, ◌++◌, ◌≡◌, ◌≢◌, refl}
use harp_ochestration.Core.Ids.{AgentId, ra}
use harp_ochestration.Core.Records.{AgentResult, ApprovalDecision}
use harp_ochestration.Core.Errors.{HarpError, Result, ok, err}

pub data Ending : Type 0 where
  done blocked broken : Ending

pub data Phase : Type 0 where
  -- The first of `left` is to run.
  turn : (ran left : List AgentId) → Phase
  -- Ra has answered with `result`; nothing goes on before a decision.
  gated : (ran left : List AgentId) (result : AgentResult) → Phase
  -- An agent has answered, and the gate behind it is open.
  passed : (ran left : List AgentId) → Phase
  over : Ending → (ran : List AgentId) → Phase

-- `Answers r d`: `d` is what the approval provider may answer, or throw, when it is asked about `r`.
pub data Step (Answers : AgentResult → Result ApprovalDecision → Type 0)
    : Phase → Phase → Type 0 where
  exhausted : (ran : List AgentId) → Step Answers (turn ran []) (over done ran)
  crashes :
      (ran left : List AgentId) (id : AgentId)
      → Step Answers (turn ran (id ∷ left)) (over broken ran)
  answers :
      (ran left : List AgentId) (id : AgentId)
      → id ≢ ra
      → Step Answers (turn ran (id ∷ left)) (passed (ran ++ id ∷ []) left)
  reaches_gate :
      (ran left : List AgentId) (r : AgentResult)
      → Step Answers (turn ran (ra ∷ left)) (gated (ran ++ ra ∷ []) left r)
  -- The provider has approved the write, or says that it needs no approval.
  is_allowed :
      (ran left : List AgentId) (r : AgentResult) (d : ApprovalDecision)
      → Answers r (ok d)
      → (d.required ≡ false) ⊎ (d.approved ≡ true)
      → Step Answers (gated ran left r) (passed ran left)
  -- The provider has asked for an approval and not given it.
  is_refused :
      (ran left : List AgentId) (r : AgentResult) (d : ApprovalDecision)
      → Answers r (ok d)
      → d.required ≡ true
      → d.approved ≡ false
      → Step Answers (gated ran left r) (over blocked ran)
  -- The provider has thrown.
  gate_throws :
      (ran left : List AgentId) (r : AgentResult) (e : HarpError)
      → Answers r (err e)
      → Step Answers (gated ran left r) (over broken ran)
  goes_on : (ran left : List AgentId) → Step Answers (passed ran left) (turn ran left)
  is_cut : (ran left : List AgentId) → Step Answers (passed ran left) (over done ran)

pub data Steps (Answers : AgentResult → Result ApprovalDecision → Type 0)
    : Phase → Phase → Type 0 where
  stay : (a : Phase) → Steps Answers a a
  step : (a b c : Phase) → Step Answers a b → Steps Answers b c → Steps Answers a c

-- The last agent that has run is Ra.
abbrev pub EndsWithRa : List AgentId → Type 0
EndsWithRa ran = (before : List AgentId) × (ran ≡ before ++ ra ∷ [])

-- What the machine keeps: a gate that is closed, or that has blocked the workflow, is Ra's.
abbrev pub GateIsRa : Phase → Type 0
GateIsRa (turn ran left) = Unit
GateIsRa (gated ran left r) = EndsWithRa ran
GateIsRa (passed ran left) = Unit
GateIsRa (over done ran) = Unit
GateIsRa (over blocked ran) = EndsWithRa ran
GateIsRa (over broken ran) = Unit

module _ {Answers : AgentResult → Result ApprovalDecision → Type 0} where
  step-GateIsRa : (a b : Phase) → Step Answers a b → GateIsRa a → GateIsRa b
  step-GateIsRa a b (exhausted ran) h = tt
  step-GateIsRa a b (crashes ran left id) h = tt
  step-GateIsRa a b (answers ran left id n) h = tt
  step-GateIsRa a b (reaches_gate ran left r) h = (ran, refl)
  step-GateIsRa a b (is_allowed ran left r d w q) h = tt
  step-GateIsRa a b (is_refused ran left r d w q n) h = h
  step-GateIsRa a b (gate_throws ran left r e w) h = tt
  step-GateIsRa a b (goes_on ran left) h = tt
  step-GateIsRa a b (is_cut ran left) h = tt

  pub steps-GateIsRa : (a c : Phase) → Steps Answers a c → GateIsRa a → GateIsRa c
  steps-GateIsRa a c (stay p) h = h
  steps-GateIsRa a c (step p b q s more) h = steps-GateIsRa b c more (step-GateIsRa a b s h)
