-- ===== src/Models/Router/Interleaving/Over.antt =====
-- What holds of the accounts however the calls overlap.
use harp_ochestration.Prelude.{
  ℕ, ◌≤◌, String, List, [], ◌∷◌, ◌++◌, ◌≡◌, refl, string_eq, eq_iff, All, arith, lookup,
}
use harp_ochestration.Core.Records.{ModelRequest, ModelResponse}
use harp_ochestration.Core.Runtime.{Runtime}
use harp_ochestration.Core.Errors.{HarpError, err}
use harp_ochestration.Models.Router.{ModelRouter, make_router, scope_of, usage, admit, settle}
use harp_ochestration.Models.Router.Accounting.{recorded, recorded-settle, usage-settle}
use harp_ochestration.Models.Router.Interleaving.{
  Pending, Traffic, Step, starts, settles, fails, Reaches, idle, Reaches-invariant, All-remove,
  admit-used,
}

abbrev Covered : ModelRouter → Pending → Type 0
Covered r call = call.used ≤ recorded (scope_of call.request.workflow_id) r.records

-- No account, and no usage that a waiting call has read, is above what the records add up to.
pub record NeverOver (budget : ℕ) (t : Traffic) : Type 0 where
  pub accounts : (w : String) → usage t.router w ≤ recorded w t.router.records
  pub waiting : All (Covered t.router) t.pending
  pub limited : t.router.budget ≡ budget

Covered-settle :
    (rt : Runtime) (now : ℕ) (call : Pending) (response : ModelResponse) (r : ModelRouter)
    (calls : List Pending)
    → All (Covered r) calls
    → All (Covered (settle rt now call.used call.request response r)) calls
Covered-settle rt now call response r [] h = tt
Covered-settle rt now call response r (c ∷ calls) (p, h) = (
  ground (
    arith,
    recorded-settle rt now call.used call.request response r (scope_of c.request.workflow_id),
  ),
  Covered-settle rt now call response r calls h,
)

settle-accounts :
    (rt : Runtime) (now : ℕ) (call : Pending) (response : ModelResponse) (r : ModelRouter)
    → Covered r call
    → ((w : String) → usage r w ≤ recorded w r.records)
    → (w : String)
    → usage (settle rt now call.used call.request response r) w
      ≤ recorded w (settle rt now call.used call.request response r).records
settle-accounts rt now call response r c h w = ground (
  arith,
  usage-settle rt now call.used call.request response r w,
  recorded-settle rt now call.used call.request response r w,
  eq_iff (scope_of call.request.workflow_id) w,
  h w,
)

Step-NeverOver :
    {rt : Runtime} {may : Traffic → ModelRequest → Type 0} (budget : ℕ) (t u : Traffic)
    → Step rt may t u
    → NeverOver budget t
    → NeverOver budget u
unfolding settle
Step-NeverOver budget t u (starts request used m a e) h = rw e (record {
  accounts = h.accounts;
  waiting = (rw (admit-used t.router request used a) (h.accounts _), h.waiting);
  limited = h.limited;
})
Step-NeverOver {rt} budget t u (settles before after call now response p e) h =
    let (c, rest) = All-remove (Covered t.router) before after call (rw p at h.waiting) in
    rw e (record {
      accounts = settle-accounts rt now call response t.router c h.accounts;
      waiting = Covered-settle rt now call response t.router (before ++ after) rest;
      limited = h.limited;
    })
Step-NeverOver budget t u (fails before after call p e) h =
    let (c, rest) = All-remove (Covered t.router) before after call (rw p at h.waiting) in
    rw e (record { accounts = h.accounts; waiting = rest; limited = h.limited })

idle-NeverOver : (budget : ℕ) → NeverOver budget (idle budget)
unfolding make_router usage lookup recorded
idle-NeverOver budget = record { accounts = λ w. omega arith; waiting = tt; limited = refl }

-- However the calls of any workflows overlap, no call is refused too early: from a new router, a call is
-- refused only when the records of its workflow add up to the budget or more.
pub Reaches-refusal :
    (rt : Runtime) (may : Traffic → ModelRequest → Type 0) (budget : ℕ) (t : Traffic)
    (request : ModelRequest) (error : HarpError)
    → Reaches rt may (idle budget) t
    → admit t.router request ≡ err error
    → budget ≤ recorded (scope_of request.workflow_id) t.router.records
unfolding admit
Reaches-refusal rt may budget t request error r a =
    let h =
      Reaches-invariant (NeverOver budget) (Step-NeverOver budget) (idle-NeverOver budget) r in
    ground (arith, h.accounts (scope_of request.workflow_id), h.limited, a)
