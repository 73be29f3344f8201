-- ===== src/Models/Budget/Ledger.antt =====
-- What a budget manager has recorded, up to order: the accounts and the verdicts stand on it alone.
pub mod Checks
use mathlib.Core.List.{Perm, Permᴰ}
use mathlib.Core.List.Permᴰ
use mathlib.Core.Logic.{∥∥₁_elim}
use mathlib.Core.Quot
use mathlib.Core.Quot.{Quot, Quot-set}
use native.Mathlib.Nat.{ℕ_set}
use harp_ochestration.Prelude.{
  ℕ, ◌+◌, ◌-◌, String, List, [], ◌∷◌, ◌++◌, Option, none, some, ◌≡◌, refl, sym, ap, ◌∙◌, or_else,
  if◌then◌else◌, ◌==◌, string_eq, arith, lookup, ltb, eq_iff, Bool, true, false, Bool-cases, inl,
  inr,
}
use harp_ochestration.Models.Budget.{
  BudgetScope, agent, workflow, day, ScopeState, BudgetManager, BudgetLimits, BudgetVerdict, Spend,
  Check, ok, used_by, used_in, usage, state_of, add, add_agent, add_day, record_spend, checks,
  agent_checks, day_checks, check, check_all, advise, over_reason, remaining_of,
}
use harp_ochestration.Models.Budget.Spending.{used_by-add}

-- A spend with the day on which it is recorded.
abbrev pub Entry : Type 0
Entry = String × Spend

unfoldable pub record_all : BudgetManager → List Entry → BudgetManager
record_all m [] = m
record_all m ((today, input) ∷ more) = record_all (record_spend m today input) more

-- The scope is active.
abbrev pub has : Option ScopeState → Bool
has none = false
has (some s) = true

abbrev pub charge_agent : Option String → String → ℕ → ℕ
charge_agent none key tokens = 0
charge_agent (some id) key tokens = if id == "" then 0 else if id == key then tokens else 0

-- What an entry adds to the account of a key.
abbrev pub charge : BudgetScope → String → Entry → ℕ
charge workflow key (today, input) = if input.workflow_id == key then input.tokens else 0
charge agent key (today, input) = charge_agent input.agent_id key input.tokens
charge day key (today, input) = if or_else input.day today == key then input.tokens else 0

unfoldable pub total : BudgetScope → String → List Entry → ℕ
total scope key [] = 0
total scope key (e ∷ es) = charge scope key e + total scope key es

abbrev pub SameTotals : List Entry → List Entry → Type 0
SameTotals xs ys = (scope : BudgetScope) (key : String) → total scope key xs ≡ total scope key ys

-- The abstract view of a history.
abbrev pub Ledger : Type 0
Ledger = Quot SameTotals

abbrev pub ledger_of : List Entry → Ledger
ledger_of = Quot.mk

-- What a ledger holds on a key.
unfoldable pub balance : BudgetScope → String → Ledger → ℕ
balance scope key = Quot.lift ℕ_set (total scope key) (λ xs ys h. h scope key)

pub exact : (xs ys : List Entry) → ledger_of xs ≡ ledger_of ys → SameTotals xs ys
unfolding balance
exact xs ys e scope key = ap (balance scope key) e

total-Perm :
    {xs ys : List Entry} (scope : BudgetScope) (key : String)
    → Permᴰ xs ys
    → total scope key xs ≡ total scope key ys
unfolding total
total-Perm scope key Permᴰ.nil = refl
total-Perm scope key (Permᴰ.cons e p) = rw e (omega (arith, total-Perm scope key p))
total-Perm scope key (Permᴰ.swap e f) = rw (e, f) (omega arith)
total-Perm scope key (Permᴰ.trans p q) = total-Perm scope key p ∙ total-Perm scope key q

-- The order of the entries does not matter.
pub ledger_of-Perm : (xs ys : List Entry) → Perm xs ys → ledger_of xs ≡ ledger_of ys
ledger_of-Perm xs ys p =
    ∥∥₁_elim p (Quot-set _ _) (λ q. Quot.sound (λ scope key. total-Perm scope key q))

used_by-add_charge :
    (tokens : ℕ) (key k : String) (s : ScopeState)
    → used_by (add tokens key s) k ≡ (if key == k then tokens else 0) + used_by s k
used_by-add_charge tokens key k s = ground (arith, used_by-add tokens key k s, eq_iff key k)

used_in-add_agent :
    (tokens : ℕ) (id : Option String) (key : String) (o : Option ScopeState)
    → used_in (add_agent tokens id o) key
      ≡ (if has o then charge_agent id key tokens else 0) + used_in o key
unfolding add_agent
used_in-add_agent tokens id key none = refl
used_in-add_agent tokens none key (some s) = omega arith
used_in-add_agent tokens (some id) key (some s) = elim (Bool-cases (id == "")) [
  | inl e ↦ rw e (omega arith)
  | inr n ↦ rw n (used_by-add_charge tokens id key s)
]

used_in-add_day :
    (tokens : ℕ) (d key : String) (o : Option ScopeState)
    → used_in (add_day tokens d o) key
      ≡ (if has o then if d == key then tokens else 0 else 0) + used_in o key
unfolding add_day
used_in-add_day tokens d key none = refl
used_in-add_day tokens d key (some s) = used_by-add_charge tokens d key s

-- What one record adds.
usage-record_spend :
    (m : BudgetManager) (today : String) (input : Spend) (scope : BudgetScope) (key : String)
    → usage (record_spend m today input) scope key
      ≡ (if has (state_of m scope) then charge scope key (today, input) else 0) + usage m scope key
unfolding usage state_of record_spend
usage-record_spend m today input workflow key =
    used_by-add_charge input.tokens input.workflow_id key m.workflow
usage-record_spend m today input agent key =
    used_in-add_agent input.tokens input.agent_id key m.agent
usage-record_spend m today input day key =
    used_in-add_day input.tokens (or_else input.day today) key m.day

-- The limits of a scope that is active.
abbrev pub config : Option ScopeState → Option BudgetLimits
config none = none
config (some s) = some s.limits

config-add_agent :
    (tokens : ℕ) (id : Option String) (o : Option ScopeState)
    → config (add_agent tokens id o) ≡ config o
unfolding add_agent add
config-add_agent tokens id none = refl
config-add_agent tokens none (some s) = refl
config-add_agent tokens (some id) (some s) = elim (Bool-cases (id == "")) [
  | inl e ↦ rw e refl
  | inr n ↦ rw n refl
]

config-add_day :
    (tokens : ℕ) (key : String) (o : Option ScopeState) → config (add_day tokens key o) ≡ config o
unfolding add_day add
config-add_day tokens key none = refl
config-add_day tokens key (some s) = refl

pub config-record_all :
    (m : BudgetManager) (es : List Entry) (scope : BudgetScope)
    → config (state_of (record_all m es) scope) ≡ config (state_of m scope)
unfolding record_all
config-record_all m [] scope = refl
config-record_all m ((today, input) ∷ es) scope =
    config-record_all (record_spend m today input) es scope ∙ config-record_spend scope
  where
    config-record_spend :
        (scope : BudgetScope)
        → config (state_of (record_spend m today input) scope) ≡ config (state_of m scope)
    config-record_spend workflow = unfold state_of record_spend add in refl
    config-record_spend agent =
        unfold state_of record_spend in config-add_agent input.tokens input.agent_id m.agent
    config-record_spend day =
        unfold state_of record_spend in config-add_day input.tokens (or_else input.day today) m.day

has-config : (o : Option ScopeState) (p : Option ScopeState) → config o ≡ config p → has o ≡ has p
has-config none none e = refl
has-config none (some s) e = absurd (cc e)
has-config (some s) none e = absurd (cc e)
has-config (some s) (some t) e = refl

-- The account of an active scope is what it was and the total of the history.
pub usage-record_all :
    (m : BudgetManager) (es : List Entry) (scope : BudgetScope) (key : String)
    → usage (record_all m es) scope key
      ≡ (if has (state_of m scope) then total scope key es else 0) + usage m scope key
unfolding record_all total
usage-record_all m [] scope key = ground arith
usage-record_all m ((today, input) ∷ es) scope key =
    let n = record_spend m today input in
    ground (
      arith,
      usage-record_all n es scope key,
      usage-record_spend m today input scope key,
      has-config (state_of n scope) (state_of m scope)
          (config-record_all m ((today, input) ∷ []) scope),
    )
