-- ===== src/Models/Router/Accounting.antt =====
-- The token accounts of the router: usage is what the records add up to, and a budget is overdrawn
-- by one call at most.
use harp_ochestration.Prelude.{
  ℕ, ◌+◌, ◌<◌, String, List, [], ◌∷◌, ◌++◌, ◌≡◌, ◌⊎◌, inl, inr, if◌then◌else◌, leb, ◌==◌, string_eq,
  arith, lookup-insert, eq_iff, Bool-cases,
}
use harp_ochestration.Core.Records.{ModelRequest, ModelResponse}
use harp_ochestration.Core.Runtime.{Runtime}
use harp_ochestration.Core.Errors.{Result, ok, err, token_budget_exceeded}
use harp_ochestration.Models.Router.{
  Generate, ModelCallRecord, ModelRouter, scope_of, usage, remaining_budget, admit, total_tokens,
  call_record, settle, finish, deliver, generate,
}

-- The tokens of the calls recorded for a workflow.
unfoldable pub recorded : String → List ModelCallRecord → ℕ
recorded w [] = 0
recorded w (c ∷ cs) =
    (if scope_of c.workflow_id == w then c.input_tokens + c.output_tokens else 0) + recorded w cs

recorded-append :
    (w : String) (xs ys : List ModelCallRecord)
    → recorded w (xs ++ ys) ≡ recorded w xs + recorded w ys
unfolding recorded
recorded-append w [] ys = omega arith
recorded-append w (c ∷ cs) ys = omega (arith, recorded-append w cs ys)

-- The account of every workflow is the sum over its records.
abbrev pub IsBalanced : ModelRouter → Type 0
IsBalanced r = (w : String) → usage r w ≡ recorded w r.records

pub usage-settle :
    (rt : Runtime) (now used : ℕ) (request : ModelRequest) (response : ModelResponse)
    (r : ModelRouter) (w : String)
    → usage (settle rt now used request response r) w
      ≡ (if scope_of request.workflow_id == w then used + total_tokens response else usage r w)
unfolding usage settle
usage-settle rt now used request response r w = ground (
  arith,
  lookup-insert (scope_of request.workflow_id) w (used + total_tokens response) r.usage_by_workflow,
)

pub recorded-settle :
    (rt : Runtime) (now used : ℕ) (request : ModelRequest) (response : ModelResponse)
    (r : ModelRouter) (w : String)
    → recorded w (settle rt now used request response r).records
      ≡ recorded w r.records
        + (if scope_of request.workflow_id == w then total_tokens response else 0)
unfolding settle call_record recorded
recorded-settle rt now used request response r w =
    omega (arith, recorded-append w r.records (call_record rt now request response ∷ []))

settle-IsBalanced :
    (rt : Runtime) (now : ℕ) (request : ModelRequest) (response : ModelResponse) (r : ModelRouter)
    → IsBalanced r
    → IsBalanced (settle rt now (usage r (scope_of request.workflow_id)) request response r)
settle-IsBalanced rt now request response r h w =
    let used = usage r (scope_of request.workflow_id) in
    ground (
      arith,
      usage-settle rt now used request response r w,
      recorded-settle rt now used request response r w,
      eq_iff (scope_of request.workflow_id) w,
      h w,
    )

module _ {W : Type 0} (rt : Runtime) (now : ℕ) (provider : Generate W) where
  -- A call is refused exactly when nothing remains of the workflow's budget, with the usage and
  -- the budget in the error, and then neither the router nor the world behind the provider has
  -- changed. Otherwise the provider is called and its answer is accounted for.
  pub generate_cases :
      (request : ModelRequest) (r : ModelRouter) (w : W)
      → let id = scope_of request.workflow_id in
        ((remaining_budget r id ≡ 0)
          × (generate rt now provider request r w
              ≡ (err (token_budget_exceeded id (usage r id) r.budget), r, w)))
        ⊎ ((0 < remaining_budget r id)
            × (generate rt now provider request r w
                ≡ finish rt now (usage r id) request r (provider request w)))
  unfolding generate deliver admit remaining_budget
  generate_cases request r w =
      elim (Bool-cases (leb r.budget (usage r (scope_of request.workflow_id)))) [
        | inl t ↦ inl (ground arith, rw t)
        | inr f ↦ inr (ground arith, rw f)
      ]

  finish-IsBalanced :
      (request : ModelRequest) (r : ModelRouter) (answer : Result ModelResponse × W)
      → IsBalanced r
      → IsBalanced (finish rt now (usage r (scope_of request.workflow_id)) request r answer).1
  unfolding finish
  finish-IsBalanced request r (ok response, w) h = settle-IsBalanced rt now request response r h
  finish-IsBalanced request r (err e, w) h = h

  -- Every call, refused, failed or answered, keeps the accounts balanced.
  pub generate-IsBalanced :
      (request : ModelRequest) (r : ModelRouter) (w : W)
      → IsBalanced r
      → IsBalanced (generate rt now provider request r w).1
  generate-IsBalanced request r w h = elim (generate_cases request r w) [
    | inl (_, e) ↦ rw e h
    | inr (_, e) ↦ rw e (finish-IsBalanced request r (provider request w) h)
  ]
