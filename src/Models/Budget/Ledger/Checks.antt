-- ===== src/Models/Budget/Ledger/Checks.antt =====
-- The verdict of a check stands on the limits and on the accounts, and so on the ledger.
use harp_ochestration.Prelude.{
  ℕ, ◌+◌, if◌then◌else◌, String, List, [], ◌∷◌, ◌++◌, Option, none, some, ◌≡◌, refl, sym, ◌∙◌,
  or_else, ◌==◌, string_eq, arith, Bool-cases, inl, inr,
}
use harp_ochestration.Models.Budget.{
  BudgetScope, agent, workflow, day, ScopeState, BudgetManager, BudgetVerdict, Spend, Check,
  used_by, used_in, usage, state_of, checks, agent_checks, day_checks, check, check_all, advise,
  over_reason,
}
use harp_ochestration.Models.Budget.Ledger.{
  Entry, SameTotals, ledger_of, exact, has, balance, record_all, usage-record_all, config,
  config-record_all,
}

-- Two checks that read the same numbers.
record IsAlike (c d : Check) : Type 0 where
  scope : c.scope ≡ d.scope
  hard : c.state.hard ≡ d.state.hard
  soft : c.state.soft ≡ d.state.soft
  used : used_by c.state c.key ≡ used_by d.state d.key

abbrev AllAlike : List Check → List Check → Type 0
AllAlike [] [] = Unit
AllAlike [] (d ∷ ds) = ⊥
AllAlike (c ∷ cs) [] = ⊥
AllAlike (c ∷ cs) (d ∷ ds) = IsAlike c d × AllAlike cs ds

AllAlike-append :
    (fs gs cs ds : List Check) → AllAlike fs gs → AllAlike cs ds → AllAlike (fs ++ cs) (gs ++ ds)
AllAlike-append [] [] cs ds h k = k
AllAlike-append [] (g ∷ gs) cs ds h k = absurd h
AllAlike-append (f ∷ fs) [] cs ds h k = absurd h
AllAlike-append (f ∷ fs) (g ∷ gs) cs ds (p, h) k = (p, AllAlike-append fs gs cs ds h k)

advise-IsAlike :
    (tokens : ℕ) (c d : Check) (v : BudgetVerdict)
    → IsAlike c d
    → advise tokens c v ≡ advise tokens d v
unfolding advise
advise-IsAlike tokens c d v h = rw (h.used, h.scope, h.hard, h.soft) refl

over_reason-IsAlike : (c d : Check) → IsAlike c d → over_reason c ≡ over_reason d
unfolding over_reason
over_reason-IsAlike c d h = rw (h.used, h.scope, h.hard) refl

check_all-AllAlike :
    (tokens : ℕ) (cs ds : List Check) (v : BudgetVerdict)
    → AllAlike cs ds
    → check_all tokens cs v ≡ check_all tokens ds v
unfolding check_all
check_all-AllAlike tokens [] [] v h = refl
check_all-AllAlike tokens [] (d ∷ ds) v h = absurd h
check_all-AllAlike tokens (c ∷ cs) [] v h = absurd h
check_all-AllAlike tokens (c ∷ cs) (d ∷ ds) v (p, h) =
    rw
      (
        over_reason-IsAlike c d p,
        advise-IsAlike tokens c d v p,
        p.used,
        p.hard,
        check_all-AllAlike tokens cs ds (advise tokens d v) h,
      )
      refl

-- Two states of a scope with the same limits and the same accounts.
record IsEven (o p : Option ScopeState) : Type 0 where
  limits : config o ≡ config p
  accounts : (key : String) → used_in o key ≡ used_in p key

state-IsAlike :
    (scope : BudgetScope) (key : String) (s t : ScopeState)
    → IsEven (some s) (some t)
    → IsAlike
        (record { scope = scope; key = key; state = s })
        (record { scope = scope; key = key; state = t })
state-IsAlike scope key s t h = record {
  scope = refl;
  hard = ground (arith, h.limits);
  soft = ground (arith, h.limits);
  used = h.accounts key;
}

day_checks-IsEven :
    (key : String) (o p : Option ScopeState)
    → IsEven o p
    → AllAlike (day_checks o key) (day_checks p key)
unfolding day_checks
day_checks-IsEven key none none h = tt
day_checks-IsEven key none (some t) h = absurd (cc h.limits)
day_checks-IsEven key (some s) none h = absurd (cc h.limits)
day_checks-IsEven key (some s) (some t) h = (state-IsAlike day key s t h, tt)

agent_checks-IsEven :
    (id : Option String) (o p : Option ScopeState)
    → IsEven o p
    → AllAlike (agent_checks o id) (agent_checks p id)
unfolding agent_checks
agent_checks-IsEven id none none h = tt
agent_checks-IsEven id none (some t) h = absurd (cc h.limits)
agent_checks-IsEven id (some s) none h = absurd (cc h.limits)
agent_checks-IsEven none (some s) (some t) h = tt
agent_checks-IsEven (some id) (some s) (some t) h = elim (Bool-cases (id == "")) [
  | inl e ↦ rw e tt
  | inr n ↦ rw n (state-IsAlike agent id s t h, tt)
]

check-IsEven :
    (m n : BudgetManager) (today : String) (input : Spend)
    → ((scope : BudgetScope) → IsEven (state_of m scope) (state_of n scope))
    → check m today input ≡ check n today input
unfolding check checks state_of
check-IsEven m n today input h =
    check_all-AllAlike input.tokens (checks m today input) (checks n today input) _ (
      state-IsAlike workflow input.workflow_id m.workflow n.workflow (h workflow),
      AllAlike-append (agent_checks m.agent input.agent_id) (agent_checks n.agent input.agent_id) _
          _ (agent_checks-IsEven input.agent_id m.agent n.agent (h agent))
          (day_checks-IsEven (or_else input.day today) m.day n.day (h day)),
    )

SameTotals-IsEven :
    (m : BudgetManager) (xs ys : List Entry)
    → SameTotals xs ys
    → (scope : BudgetScope)
    → IsEven (state_of (record_all m xs) scope) (state_of (record_all m ys) scope)
unfolding usage
SameTotals-IsEven m xs ys h scope = record {
  limits = config-record_all m xs scope ∙ sym (config-record_all m ys scope);
  accounts = λ key.
      ground (arith, usage-record_all m xs scope key, usage-record_all m ys scope key, h scope key);
}

-- A manager implements the ledger of what it has recorded, and two histories with one ledger are
-- told apart neither by an account nor by a check. The account of a key after the first history is
-- what it was and, where its scope is active, the balance of the ledger of the second: the tokens
-- of each spend once under its workflow, under its agent when it names one, and under its day or
-- else the day of the record; the account of a scope that is not active stays. After either
-- history every check has the same verdict.
pub record_all-implements :
    (m : BudgetManager) (xs ys : List Entry)
    → ledger_of xs ≡ ledger_of ys
    → ((scope : BudgetScope) (key : String)
        → usage (record_all m xs) scope key
          ≡ (if has (state_of m scope) then balance scope key (ledger_of ys) else 0)
            + usage m scope key)
      × ((today : String) (input : Spend)
          → check (record_all m xs) today input ≡ check (record_all m ys) today input)
unfolding balance
record_all-implements m xs ys e = (
  λ scope key. rw (sym (exact xs ys e scope key)) (usage-record_all m xs scope key),
  λ today input.
      check-IsEven (record_all m xs) (record_all m ys) today input
        (SameTotals-IsEven m xs ys (exact xs ys e)),
)
