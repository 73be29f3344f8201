-- ===== src/Models/Budget/Spending.antt =====
-- Spending under the verdicts: the hard limits hold, and what an allowed check reports as remaining.
use harp_ochestration.Prelude.{
  ℕ, ◌+◌, ◌≤◌, ◌≡◌, inl, inr, refl, String, List, [], ◌∷◌, ◌++◌, Option, none, some, if◌then◌else◌,
  or_else, ◌==◌, lookup, lookup-insert, string_eq, All, arith, Bool-cases,
}
use harp_ochestration.Models.Budget.{
  agent, ok, Amount, infinity, finite, ScopeState, BudgetManager, Spend, Check, checks,
  remaining_of, advise, check_all, check, used_by, agent_checks, day_checks, add, add_agent,
  add_day, record_spend, BudgetLimits, make_manager,
}
use harp_ochestration.Models.Budget.Verdicts.{Fits, IsCalm, IsCutoff, check_cases}

-- No key of the scope is beyond the hard limit.
abbrev pub Capped : ScopeState → Type 0
Capped s = (key : String) → used_by s key ≤ s.hard

abbrev pub CappedOption : Option ScopeState → Type 0
CappedOption none = Unit
CappedOption (some s) = Capped s

pub record IsCapped (m : BudgetManager) : Type 0 where
  pub workflow : Capped m.workflow
  pub agent : CappedOption m.agent
  pub day : CappedOption m.day

pub used_by-add :
    (tokens : ℕ) (key k : String) (s : ScopeState)
    → used_by (add tokens key s) k ≡ (if key == k then used_by s key + tokens else used_by s k)
unfolding used_by add
used_by-add tokens key k s =
    ground (arith, lookup-insert key k (or_else (lookup key s.used) 0 + tokens) s.used)

add-Capped :
    (tokens : ℕ) (key : String) (s : ScopeState)
    → used_by s key + tokens ≤ s.hard
    → Capped s
    → Capped (add tokens key s)
add-Capped tokens key s fit h k =
    let same : (add tokens key s).limits ≡ s.limits = unfold add in refl in
    ground (arith, used_by-add tokens key k s, h k, same)

-- One scope after another: what its check gives for its record, and the checks left.
add_agent-Capped :
    (tokens : ℕ) (id : Option String) (s : Option ScopeState) (rest : List Check)
    → All (Fits tokens) (agent_checks s id ++ rest)
    → CappedOption s
    → CappedOption (add_agent tokens id s) × All (Fits tokens) rest
unfolding add_agent agent_checks
add_agent-Capped tokens id none rest f h = (tt, f)
add_agent-Capped tokens none (some s) rest f h = (h, f)
add_agent-Capped tokens (some id) (some s) rest f h = elim (Bool-cases (id == "")) [
  | inl e ↦ rw e (h, rw e at f)
  | inr n ↦ rw n (
      let g : All (Fits tokens) (record { scope = agent; key = id; state = s } ∷ rest) =
        rw n at f in
      (add-Capped tokens id s g.0 h, g.1))
]

add_day-Capped :
    (tokens : ℕ) (key : String) (s : Option ScopeState)
    → All (Fits tokens) (day_checks s key)
    → CappedOption s
    → CappedOption (add_day tokens key s)
unfolding add_day day_checks
add_day-Capped tokens key none f h = tt
add_day-Capped tokens key (some s) f h = add-Capped tokens key s f.0 h

record_spend-IsCapped :
    (m : BudgetManager) (today : String) (input : Spend)
    → All (Fits input.tokens) (checks m today input)
    → IsCapped m
    → IsCapped (record_spend m today input)
unfolding checks record_spend
record_spend-IsCapped m today input f h =
    let (agents, days) = add_agent-Capped input.tokens input.agent_id m.agent _ f.1 h.agent in
    record {
      workflow = add-Capped input.tokens input.workflow_id m.workflow f.0 h.workflow;
      agent = agents;
      day = add_day-Capped input.tokens (or_else input.day today) m.day days h.day;
    }

-- A spend that is recorded after a check on the same day did not cut it off leaves every key of
-- every scope within its hard limit.
pub check-record_spend-IsCapped :
    (m : BudgetManager) (today : String) (input : Spend)
    → ¬ IsCutoff (check m today input)
    → IsCapped m
    → IsCapped (record_spend m today input)
check-record_spend-IsCapped m today input allowed h = elim (check_cases m today input) [
  | inl (_, k) ↦ absurd (allowed k)
  | inr (inl (f, _, _)) ↦ record_spend-IsCapped m today input f h
  | inr (inr (f, _, _)) ↦ record_spend-IsCapped m today input f h
]

-- A new manager starts within its limits.
pub make_manager-IsCapped :
    (a : Option BudgetLimits) (w : BudgetLimits) (d : Option BudgetLimits)
    → IsCapped (make_manager a w d)
unfolding make_manager used_by lookup
make_manager-IsCapped none w none = omega arith
make_manager-IsCapped none w (some d) = omega arith
make_manager-IsCapped (some a) w none = omega arith
make_manager-IsCapped (some a) w (some d) = omega arith

remaining_of_last :
    (tokens : ℕ) (cs : List Check) (c : Check) (before : Amount)
    → All (Fits tokens) (cs ++ c ∷ [])
    → All (IsCalm tokens) (cs ++ c ∷ [])
    → check_all tokens (cs ++ c ∷ []) (ok before) ≡ ok (finite (remaining_of c))
unfolding check_all advise
remaining_of_last tokens [] c before f g = ground (arith, f.0, g.0)
remaining_of_last tokens (d ∷ cs) c before f g =
    ground (arith, f.0, g.0, remaining_of_last tokens cs c (finite (remaining_of d)) f.1 g.1)

-- When a spend is let through, the amount reported as remaining is that of the last active scope
-- (the day, or else the agent, or else the workflow), however little the scopes before it have left.
pub check_remaining :
    (m : BudgetManager) (today : String) (input : Spend) (cs : List Check) (c : Check)
    → checks m today input ≡ cs ++ c ∷ []
    → All (Fits input.tokens) (checks m today input)
    → All (IsCalm input.tokens) (checks m today input)
    → check m today input ≡ ok (finite (remaining_of c))
unfolding check
check_remaining m today input cs c e f g =
    rw e (remaining_of_last input.tokens cs c infinity (rw e at f) (rw e at g))
