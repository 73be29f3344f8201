-- ===== src/Models/Router/Bounds.antt =====
-- How far a workflow can overdraw its token budget, over any history of calls.
use harp_ochestration.Prelude.{
  ℕ, ◌+◌, ◌<◌, String, List, [], ◌∷◌, ◌≡◌, refl, ◌∙◌, inl, inr, lookup, string_eq, arith,
}
use harp_ochestration.Core.Records.{ModelRequest, ModelResponse}
use harp_ochestration.Core.Runtime.{Runtime}
use harp_ochestration.Core.Errors.{Result, ok, err}
use harp_ochestration.Models.Router.{
  Generate, ModelRouter, make_router, scope_of, usage, remaining_budget, admit, total_tokens,
  settle, finish, deliver, generate,
}
use harp_ochestration.Models.Router.Accounting.{
  usage-settle, generate_cases, IsBalanced, generate-IsBalanced, recorded,
}

-- A provider whose answers cost less than `most` tokens.
abbrev pub CostsBelow : {W : Type 0} → ℕ → Generate W → Type 0
CostsBelow {W} most provider =
    (request : ModelRequest) (w : W) (response : ModelResponse)
    → (provider request w).0 ≡ ok response
    → total_tokens response < most

-- No account is overdrawn by the cost of a call or more.
abbrev pub IsWithin : ℕ → ModelRouter → Type 0
IsWithin most r = (w : String) → usage r w < r.budget + most

settle-IsWithin :
    (rt : Runtime) (now most : ℕ) (request : ModelRequest) (response : ModelResponse)
    (r : ModelRouter)
    → usage r (scope_of request.workflow_id) < r.budget
    → total_tokens response < most
    → IsWithin most r
    → IsWithin most (settle rt now (usage r (scope_of request.workflow_id)) request response r)
settle-IsWithin rt now most request response r room cheap h w =
    let used = usage r (scope_of request.workflow_id) in
    let same : (settle rt now used request response r).budget ≡ r.budget = unfold settle in refl in
    ground (arith, usage-settle rt now used request response r w, h w, same)

-- The calls of a history, one after another, each at its own time.
unfoldable pub serve :
    {W : Type 0} → Runtime → ℕ → Generate W → List ModelRequest → ModelRouter → W → ModelRouter × W
serve rt now provider [] r w = (r, w)
serve rt now provider (request ∷ requests) r w =
    let (_, r', w') = generate rt now provider request r w in
    serve rt (now + 1) provider requests r' w'

module _ {W : Type 0} (rt : Runtime) (most : ℕ) (provider : Generate W) where
  finish-IsWithin :
      (now : ℕ) (request : ModelRequest) (r : ModelRouter) (answer : Result ModelResponse × W)
      → usage r (scope_of request.workflow_id) < r.budget
      → ((response : ModelResponse) → answer.0 ≡ ok response → total_tokens response < most)
      → IsWithin most r
      → IsWithin most (finish rt now (usage r (scope_of request.workflow_id)) request r answer).1
  unfolding finish
  finish-IsWithin now request r (ok response, w) room cheap h =
      settle-IsWithin rt now most request response r room (cheap response refl) h
  finish-IsWithin now request r (err e, w) room cheap h = h

  pub generate-IsWithin :
      (now : ℕ) (request : ModelRequest) (r : ModelRouter) (w : W)
      → CostsBelow most provider
      → IsWithin most r
      → IsWithin most (generate rt now provider request r w).1
  generate-IsWithin now request r w cheap h = elim (generate_cases rt now provider request r w) [
    | inl (_, e) ↦ rw e h
    | inr (room, e) ↦ rw e (
        finish-IsWithin now request r (provider request w)
          (unfold remaining_budget in (omega (arith, room))) (cheap request w) h)
  ]

  serve-IsWithin :
      (now : ℕ) (requests : List ModelRequest) (r : ModelRouter) (w : W)
      → CostsBelow most provider
      → IsWithin most r
      → IsWithin most (serve rt now provider requests r w).0
  unfolding serve
  serve-IsWithin now [] r w cheap h = h
  serve-IsWithin now (request ∷ requests) r w cheap h =
      let (_, r', w') = generate rt now provider request r w in
      serve-IsWithin (now + 1) requests r' w' cheap (generate-IsWithin now request r w cheap h)

serve-IsBalanced :
    {W : Type 0} (rt : Runtime) (now : ℕ) (provider : Generate W) (requests : List ModelRequest)
    (r : ModelRouter) (w : W)
    → IsBalanced r
    → IsBalanced (serve rt now provider requests r w).0
unfolding serve
serve-IsBalanced rt now provider [] r w h = h
serve-IsBalanced rt now provider (request ∷ requests) r w h =
    let (_, r', w') = generate rt now provider request r w in
    serve-IsBalanced rt (now + 1) provider requests r' w'
      (generate-IsBalanced rt now provider request r w h)

make_router-usage : (budget : ℕ) (w : String) → usage (make_router budget) w ≡ 0
unfolding usage make_router lookup
make_router-usage budget w = refl

pub generate-budget :
    {W : Type 0} (rt : Runtime) (now : ℕ) (provider : Generate W) (request : ModelRequest)
    (r : ModelRouter) (w : W)
    → (generate rt now provider request r w).1.budget ≡ r.budget
unfolding generate deliver admit
generate-budget {W} rt now provider request r w =
    ground (arith, finish-budget (usage r (scope_of request.workflow_id)) (provider request w))
  where
    finish-budget :
        (used : ℕ) (answer : Result ModelResponse × W)
        → (finish rt now used request r answer).1.budget ≡ r.budget
    finish-budget used (ok response, v) = unfold finish settle in refl
    finish-budget used (err e, v) = unfold finish in refl

serve-budget :
    {W : Type 0} (rt : Runtime) (now : ℕ) (provider : Generate W) (requests : List ModelRequest)
    (r : ModelRouter) (w : W)
    → (serve rt now provider requests r w).0.budget ≡ r.budget
unfolding serve
serve-budget rt now provider [] r w = refl
serve-budget rt now provider (request ∷ requests) r w =
    let (_, r', w') = generate rt now provider request r w in
    serve-budget rt (now + 1) provider requests r' w' ∙ generate-budget rt now provider request r w

module _ {W : Type 0} (rt : Runtime) (now : ℕ) (provider : Generate W) where
  -- After any history of calls on a new router, the usage of each workflow is the sum of the tokens
  -- of its recorded calls, whether calls were answered, failed or were refused.
  pub serve_accounts :
      (budget : ℕ) (requests : List ModelRequest) (w : W) (id : String)
      → let r = (serve rt now provider requests (make_router budget) w).0 in
        usage r id ≡ recorded id r.records
  serve_accounts budget requests w =
      serve-IsBalanced rt now provider requests (make_router budget) w
        (λ id. rw (make_router-usage budget id) (unfold make_router recorded in refl))

  -- If every answer of the provider costs less than `most` tokens, then after any history of calls
  -- on a new router with a positive budget no workflow has used the budget and `most` tokens or more.
  pub serve_overdraft :
      (budget most : ℕ) (requests : List ModelRequest) (w : W) (id : String)
      → 0 < budget
      → CostsBelow most provider
      → usage (serve rt now provider requests (make_router budget) w).0 id < budget + most
  unfolding make_router
  serve_overdraft budget most requests w id pos cheap =
      let start : IsWithin most (make_router budget) =
        λ v. rw (make_router-usage budget v) (omega arith) in
      let within =
        serve-IsWithin rt most provider now requests (make_router budget) w cheap start id in
      let same = serve-budget rt now provider requests (make_router budget) w in rw same at within
