-- ===== src/Models/Budget.antt =====
-- src/models/BudgetManager.ts. Tokens and limits are natural numbers. The counter that `record` adds
-- to is in Metering, what a history of spends leaves in Ledger.
pub mod Verdicts
pub mod Spending
pub mod Ledger
pub mod Metering
use harp_ochestration.Prelude.{
  ℕ, ◌+◌, ◌-◌, String, Bool, true, false, not, ◌&&◌, List, [], ◌∷◌, ◌++◌, Option, none, some,
  if◌then◌else◌, ltb, or_else, ◌==◌, lookup, insert, string_eq, ◌⧺◌, decimal,
}
use mathlib.Core.Option

pub data BudgetScope : Type 0 where
  agent workflow day : BudgetScope

unfoldable pub scope_name : BudgetScope → String
scope_name agent = "agent"
scope_name workflow = "workflow"
scope_name day = "day"

pub record BudgetLimits : Type 0 where
  pub hard : ℕ
  pub soft : ℕ

-- `Infinity` is the value before the first scope is read.
pub data Amount : Type 0 where
  infinity : Amount
  finite : ℕ → Amount

pub data BudgetVerdict : Type 0 where
  ok : (remaining : Amount) → BudgetVerdict
  downshift : (remaining : Amount) (reason : String) → BudgetVerdict
  cutoff : (reason : String) → BudgetVerdict

pub record ScopeState : Type 0 where
  pub limits : BudgetLimits
  pub open limits use *
  pub used : List (String × ℕ)

pub record BudgetManager : Type 0 where
  pub workflow : ScopeState
  pub agent : Option ScopeState
  pub day : Option ScopeState

pub record Spend : Type 0 where
  pub tokens : ℕ
  pub workflow_id : String
  pub agent_id : Option String
  pub day : Option String

-- The constructor of the class.
abbrev start : BudgetLimits → ScopeState
start limits = record { limits = limits; used = [] }

unfoldable pub make_manager :
    Option BudgetLimits → BudgetLimits → Option BudgetLimits → BudgetManager
make_manager per_agent per_workflow per_day = record {
  workflow = start per_workflow;
  agent = Option.map start per_agent;
  day = Option.map start per_day;
}

unfoldable pub used_by : ScopeState → String → ℕ
used_by state key = or_else (lookup key state.used) 0

pub record Check : Type 0 where
  pub scope : BudgetScope
  pub key : String
  pub state : ScopeState

-- An agent is charged if its scope is active and it has a name that is not empty.
unfoldable pub agent_checks : Option ScopeState → Option String → List Check
agent_checks none id = []
agent_checks (some state) none = []
agent_checks (some state) (some id) =
    if id == "" then [] else record { scope = agent; key = id; state = state } ∷ []

unfoldable pub day_checks : Option ScopeState → String → List Check
day_checks none key = []
day_checks (some state) key = record { scope = day; key = key; state = state } ∷ []

-- The list `checks`; `today` is the date that the clock gives.
unfoldable pub checks : BudgetManager → String → Spend → List Check
checks m today input =
    record { scope = workflow; key = input.workflow_id; state = m.workflow }
    ∷ (agent_checks m.agent input.agent_id ++ day_checks m.day (or_else input.day today))

abbrev pub is_ok : BudgetVerdict → Bool
is_ok (ok remaining) = true
is_ok _ = false

abbrev pub projected : Check → ℕ → ℕ
projected c tokens = used_by c.state c.key + tokens

abbrev pub remaining_of : Check → ℕ
remaining_of c = c.state.hard - used_by c.state c.key

-- The verdict behind one scope that is not cut off.
unfoldable pub advise : ℕ → Check → BudgetVerdict → BudgetVerdict
advise tokens c verdict =
    let advised =
      if ltb c.state.soft (projected c tokens) && is_ok verdict
      then downshift (finite (remaining_of c))
          (scope_name c.scope ⧺ " budget soft threshold crossed; downshift recommended.")
      else verdict in
    if is_ok advised then ok (finite (remaining_of c)) else advised

unfoldable pub over_reason : Check → String
over_reason c =
    scope_name c.scope
    ⧺ " budget hard limit reached (used "
    ⧺ decimal (used_by c.state c.key)
    ⧺ ", limit "
    ⧺ decimal c.state.hard
    ⧺ ")."

-- The loop over the checks.
unfoldable pub check_all : ℕ → List Check → BudgetVerdict → BudgetVerdict
check_all tokens [] verdict = verdict
check_all tokens (c ∷ cs) verdict =
    let rest = check_all tokens cs (advise tokens c verdict) in
    if ltb c.state.hard (projected c tokens) then cutoff (over_reason c) else rest

unfoldable pub check : BudgetManager → String → Spend → BudgetVerdict
check m today input = check_all input.tokens (checks m today input) (ok infinity)

-- The local function `add` of `record`.
unfoldable pub add : ℕ → String → ScopeState → ScopeState
add tokens key state = record state { used = insert key (used_by state key + tokens) state.used }

unfoldable pub add_agent : ℕ → Option String → Option ScopeState → Option ScopeState
add_agent tokens id none = none
add_agent tokens none (some state) = some state
add_agent tokens (some id) (some state) = some (if id == "" then state else add tokens id state)

unfoldable pub add_day : ℕ → String → Option ScopeState → Option ScopeState
add_day tokens key none = none
add_day tokens key (some state) = some (add tokens key state)

-- `record` of the source.
unfoldable pub record_spend : BudgetManager → String → Spend → BudgetManager
record_spend m today input = record {
  workflow = add input.tokens input.workflow_id m.workflow;
  agent = add_agent input.tokens input.agent_id m.agent;
  day = add_day input.tokens (or_else input.day today) m.day;
}

unfoldable pub state_of : BudgetManager → BudgetScope → Option ScopeState
state_of m agent = m.agent
state_of m workflow = some m.workflow
state_of m day = m.day

-- `this.scopes[scope]?.used.get(key) ?? 0`
abbrev pub used_in : Option ScopeState → String → ℕ
used_in none key = 0
used_in (some state) key = used_by state key

unfoldable pub usage : BudgetManager → BudgetScope → String → ℕ
usage m scope key = used_in (state_of m scope) key
