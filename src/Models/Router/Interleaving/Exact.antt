-- ===== src/Models/Router/Interleaving/Exact.antt =====
-- What holds of the accounts when each workflow has one call in flight at most.
use harp_ochestration.Prelude.{
  ℕ, String, List, [], ◌∷◌, ◌++◌, ◌≡◌, ◌≢◌, refl, sym, string_eq, eq_iff, All, arith, lookup,
}
use harp_ochestration.Core.Records.{ModelRequest, ModelResponse}
use harp_ochestration.Core.Runtime.{Runtime}
use harp_ochestration.Models.Router.{ModelRouter, make_router, scope_of, usage, settle}
use harp_ochestration.Models.Router.Accounting.{recorded, recorded-settle, usage-settle, IsBalanced}
use harp_ochestration.Models.Router.Interleaving.{
  Pending, Traffic, Step, starts, settles, fails, Reaches, idle, Reaches-invariant, All-remove,
  admit-used,
}

abbrev scope : Pending → String
scope call = scope_of call.request.workflow_id

abbrev DiffersFrom : String → Pending → Type 0
DiffersFrom w call = scope call ≢ w

-- A call may start when none of its workflow waits, as the calls of one run of the orchestrator do.
abbrev pub OneEach : Traffic → ModelRequest → Type 0
OneEach t request = All (DiffersFrom (scope_of request.workflow_id)) t.pending

-- The waiting calls are of different workflows.
abbrev Apart : List Pending → Type 0
Apart [] = Unit
Apart (c ∷ calls) = All (DiffersFrom (scope c)) calls × Apart calls

All-differ :
    (w : String) (c : Pending) (before after : List Pending)
    → All (DiffersFrom w) (before ++ c ∷ after)
    → (w ≢ scope c) × All (DiffersFrom w) (before ++ after)
All-differ w c before after h =
    let (n, rest) = All-remove (DiffersFrom w) before after c h in ((λ e. n (sym e)), rest)

Apart-remove :
    (before after : List Pending) (call : Pending)
    → Apart (before ++ call ∷ after)
    → All (DiffersFrom (scope call)) (before ++ after) × Apart (before ++ after)
Apart-remove [] after call h = h
Apart-remove (x ∷ before) after call (d, h) =
    let (n, rest) = All-differ (scope x) call before after d in
    let (others, apart) = Apart-remove before after call h in ((n, others), (rest, apart))

abbrev UpToDate : ModelRouter → Pending → Type 0
UpToDate r call = call.used ≡ usage r (scope call)

pub record IsExact (t : Traffic) : Type 0 where
  pub accounts : IsBalanced t.router
  pub waiting : All (UpToDate t.router) t.pending
  pub apart : Apart t.pending

others-settle :
    (rt : Runtime) (now : ℕ) (call : Pending) (response : ModelResponse) (r : ModelRouter)
    (calls : List Pending)
    → All (DiffersFrom (scope call)) calls
    → All (UpToDate r) calls
    → All (UpToDate (settle rt now call.used call.request response r)) calls
others-settle rt now call response r [] d h = tt
others-settle rt now call response r (c ∷ calls) (n, d) (p, h) = (
  ground (
    arith,
    usage-settle rt now call.used call.request response r (scope c),
    eq_iff (scope call) (scope c),
  ),
  others-settle rt now call response r calls d h,
)

settle-exact :
    (rt : Runtime) (now : ℕ) (call : Pending) (response : ModelResponse) (r : ModelRouter)
    → UpToDate r call
    → IsBalanced r
    → IsBalanced (settle rt now call.used call.request response r)
settle-exact rt now call response r c h w = ground (
  arith,
  usage-settle rt now call.used call.request response r w,
  recorded-settle rt now call.used call.request response r w,
  eq_iff (scope call) w,
  h w,
)

Step-IsExact : {rt : Runtime} (t u : Traffic) → Step rt OneEach t u → IsExact t → IsExact u
Step-IsExact t u (starts request used m a e) h = rw e (record {
  accounts = h.accounts;
  waiting = (admit-used t.router request used a, h.waiting);
  apart = (m, h.apart);
})
Step-IsExact {rt} t u (settles before after call now response p e) h =
    let (c, rest) = All-remove (UpToDate t.router) before after call (rw p at h.waiting) in
    let (others, apart) = Apart-remove before after call (rw p at h.apart) in
    rw e (record {
      accounts = settle-exact rt now call response t.router c h.accounts;
      waiting = others-settle rt now call response t.router (before ++ after) others rest;
      apart = apart;
    })
Step-IsExact t u (fails before after call p e) h =
    let (c, rest) = All-remove (UpToDate t.router) before after call (rw p at h.waiting) in
    let (others, apart) = Apart-remove before after call (rw p at h.apart) in
    rw e (record { accounts = h.accounts; waiting = rest; apart = apart })

idle-IsExact : (budget : ℕ) → IsExact (idle budget)
unfolding make_router usage lookup recorded
idle-IsExact budget = record { accounts = λ w. refl; waiting = tt; apart = tt }

-- Calls of different workflows may overlap: from a new router, as long as a workflow starts no call
-- while one of its own waits, the account of every workflow is the sum over its records, whatever
-- settles or fails in whatever order.
pub Reaches-IsBalanced :
    (rt : Runtime) (budget : ℕ) (t : Traffic)
    → Reaches rt OneEach (idle budget) t
    → IsBalanced t.router
Reaches-IsBalanced rt budget t r w =
    (Reaches-invariant IsExact Step-IsExact (idle-IsExact budget) r).accounts w
