-- ===== src/Models/Router/Interleaving.antt =====
-- Calls of the router that overlap in any way: `generate` is two steps, and between them other calls
-- may start, settle and fail.
pub mod Over
pub mod Exact
use harp_ochestration.Prelude.{ℕ, List, [], ◌∷◌, ◌++◌, ◌≡◌, All, arith, if◌then◌else◌, leb}
use harp_ochestration.Core.Records.{ModelRequest, ModelResponse}
use harp_ochestration.Core.Runtime.{Runtime}
use harp_ochestration.Core.Errors.{ok, err}
use harp_ochestration.Models.Router.{ModelRouter, make_router, scope_of, usage, admit, settle}

-- A call that awaits the provider, with the usage that it has read.
pub record Pending : Type 0 where
  pub request : ModelRequest
  pub used : ℕ

pub record Traffic : Type 0 where
  pub router : ModelRouter
  pub pending : List Pending

-- A call that `may` start does so where the budget admits it; any call that waits may settle or fail
-- next. A call that is refused changes nothing.
pub data Step (rt : Runtime) (may : Traffic → ModelRequest → Type 0) (t : Traffic) (u : Traffic)
    : Type 0 where
  starts :
      (request : ModelRequest) (used : ℕ)
      → may t request
      → admit t.router request ≡ ok used
      → u ≡ record t { pending = record { request = request; used = used } ∷ t.pending }
      → Step rt may t u
  settles :
      (before after : List Pending) (call : Pending) (now : ℕ) (response : ModelResponse)
      → t.pending ≡ before ++ call ∷ after
      → u ≡ record {
        router = settle rt now call.used call.request response t.router;
        pending = before ++ after;
      }
      → Step rt may t u
  fails :
      (before after : List Pending) (call : Pending)
      → t.pending ≡ before ++ call ∷ after
      → u ≡ record t { pending = before ++ after }
      → Step rt may t u

pub data Reaches (rt : Runtime) (may : Traffic → ModelRequest → Type 0) (s : Traffic)
    : Traffic → Type 0 where
  here : Reaches rt may s s
  next : {t u : Traffic} → Reaches rt may s t → Step rt may t u → Reaches rt may s u

-- A router that no call has reached yet.
abbrev pub idle : ℕ → Traffic
idle budget = record { router = make_router budget; pending = [] }

-- An invariant holds wherever the steps lead that keep it.
pub Reaches-invariant :
    {rt : Runtime} {may : Traffic → ModelRequest → Type 0} (P : Traffic → Type 0) {s t : Traffic}
    → ((u v : Traffic) → Step rt may u v → P u → P v)
    → P s
    → Reaches rt may s t
    → P t
Reaches-invariant P keep h here = h
Reaches-invariant P keep h (next r st) = keep _ _ st (Reaches-invariant P keep h r)

pub All-remove :
    (P : Pending → Type 0) (before after : List Pending) (call : Pending)
    → All P (before ++ call ∷ after)
    → P call × All P (before ++ after)
All-remove P [] after call h = h
All-remove P (x ∷ before) after call (p, h) =
    let (q, rest) = All-remove P before after call h in (q, (p, rest))

pub admit-used :
    (r : ModelRouter) (request : ModelRequest) (used : ℕ)
    → admit r request ≡ ok used
    → used ≡ usage r (scope_of request.workflow_id)
unfolding admit
admit-used r request used h = ground (arith, h)
