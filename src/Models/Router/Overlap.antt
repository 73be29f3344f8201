-- ===== src/Models/Router/Overlap.antt =====
-- Two calls of one workflow that overlap: `generate` reads the usage before it awaits the provider
-- and writes it afterwards, so that the later write forgets the earlier call.
use harp_ochestration.Prelude.{ℕ, ◌+◌, String, ◌≡◌, string_eq, arith, eq_iff}
use harp_ochestration.Core.Records.{ModelRequest, ModelResponse}
use harp_ochestration.Core.Runtime.{Runtime}
use harp_ochestration.Core.Errors.{ok}
use harp_ochestration.Models.Router.{ModelRouter, scope_of, usage, admit, total_tokens, settle}
use harp_ochestration.Models.Router.Accounting.{usage-settle, recorded-settle, IsBalanced, recorded}

-- Both calls are admitted before either settles; the first settles first.
unfoldable pub overlap :
    Runtime
    → (now later : ℕ) → (first second : ModelRequest) → (answer answer' : ModelResponse)
    → (used used' : ℕ) → ModelRouter
    → ModelRouter
overlap rt now later first second answer answer' used used' r =
    settle rt later used' second answer' (settle rt now used first answer r)

-- When two calls of one workflow overlap on a balanced router, the account ends short of the
-- recorded tokens by exactly the tokens of the call that settled first.
pub overlap_loses :
    (rt : Runtime) (now later used used' : ℕ) (first second : ModelRequest)
    (answer answer' : ModelResponse) (r : ModelRouter) (id : String)
    → IsBalanced r
    → scope_of first.workflow_id ≡ id
    → scope_of second.workflow_id ≡ id
    → admit r first ≡ ok used
    → admit r second ≡ ok used'
    → let r' = overlap rt now later first second answer answer' used used' r in
      usage r' id + total_tokens answer ≡ recorded id r'.records
unfolding overlap admit
overlap_loses rt now later used used' first second answer answer' r id h e e' a a' =
    let mid = settle rt now used first answer r in
    ground (
      arith,
      usage-settle rt later used' second answer' mid id,
      recorded-settle rt later used' second answer' mid id,
      recorded-settle rt now used first answer r id,
      eq_iff (scope_of first.workflow_id) id,
      eq_iff (scope_of second.workflow_id) id,
      h id,
    )
