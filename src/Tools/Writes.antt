-- ===== src/Tools/Writes.antt =====
-- Who can change state through the default tools.
use harp_ochestration.Prelude.{
  String, Bool, true, false, List, [], ◌∷◌, some, ◌≡◌, refl, sym, ◌∙◌, ◌⊎◌, inl, inr, arith, find,
  Elem, All, All-Elem, subst, Bool-cases,
}
use mathlib.Core.Option.{some-injective}
use harp_ochestration.Core.Ids.{AgentId, Permission, ra, repo_write, schedule_create}
use harp_ochestration.Core.Records.{ToolContext}
use harp_ochestration.Core.Runtime.{Runtime}
use harp_ochestration.Security.Permissions.{can, can_change_state_iff}
use harp_ochestration.Tools.Registry.{ToolDefinition, ToolState, find_tool, invoke}
use harp_ochestration.Tools.Guards.{IsCleared, IsRefused, invoke-IsGuarded}
use harp_ochestration.Tools.Defaults.{
  Search, knowledge_search, repo_read_tool, repo_write_tool, schedule_create_tool,
  security_scan_tool, ToolInput, ToolOutput, default_tools,
}

find-Elem : {A : Type 0} (p : A → Bool) (xs : List A) (a : A) → find p xs ≡ some a → Elem a xs
find-Elem p [] a e = ground arith
find-Elem p (x ∷ xs) a e = elim (Bool-cases (p x)) [
  | inl t ↦ inl (some-injective x a (sym (rw t refl) ∙ e))
  | inr f ↦ inr (find-Elem p xs a (rw f at e))
]

holder-Ra :
    (id : AgentId) (p : Permission)
    → (p ≡ repo_write) ⊎ (p ≡ schedule_create)
    → can id p ≡ true
    → id ≡ ra
holder-Ra id p (inl e) c =
    (can_change_state_iff id).0 (ground (arith, subst (λ q. can id q ≡ true) e c))
holder-Ra id p (inr e) c =
    (can_change_state_iff id).0 (ground (arith, subst (λ q. can id q ≡ true) e c))

module _ (W : Type 0) {H : Type 0} where
  -- A tool that changes state asks for one of Ra's two permissions.
  AsksForRa : ToolDefinition W ToolInput (ToolOutput H) → Type 0
  AsksForRa tool =
      tool.state_changing ≡ true
      → (tool.required_permission ≡ repo_write) ⊎ (tool.required_permission ≡ schedule_create)

  default_tools-AskForRa : (knowledge : Search H) → All AsksForRa (default_tools knowledge)
  unfolding default_tools AsksForRa knowledge_search repo_read_tool repo_write_tool
      schedule_create_tool security_scan_tool
  default_tools-AskForRa knowledge = (
    λ c. ground arith,
    (λ c. ground arith, (λ c. inl refl, (λ c. inr refl, (λ c. ground arith, tt)))),
  )

  -- When a call of a default tool that changes state succeeds, the caller is Ra and the call has
  -- been approved.
  pub invoke-NeedsRa :
      (rt : Runtime) (knowledge : Search H) (name : String) (input : ToolInput)
      (context : ToolContext) (tool : ToolDefinition W ToolInput (ToolOutput H)) (s : ToolState W)
      → find_tool name (default_tools knowledge) ≡ some tool
      → tool.state_changing ≡ true
      → (invoke rt (default_tools knowledge) name input context s).0.is_ok ≡ true
      → (context.agent_id ≡ ra) × (context.approval_granted ≡ true)
  unfolding IsCleared IsRefused AsksForRa
  invoke-NeedsRa rt knowledge name input context tool s found changes success =
      elim (invoke-IsGuarded rt (default_tools knowledge) name input context s) [
        | inr (n, (bad, same)) ↦ ground (arith, bad, success)
        | inl (ran, e, (c, approved), r) ↦
            let same : ran ≡ tool = some-injective ran tool (sym e ∙ found) in
            let cleared : can context.agent_id tool.required_permission ≡ true =
              subst (λ t. can context.agent_id t.required_permission ≡ true) same c in
            let permitted : (tool.state_changing ≡ false) ⊎ (context.approval_granted ≡ true) =
              subst (λ t. (t.state_changing ≡ false) ⊎ (context.approval_granted ≡ true)) same
                approved in
            (
              holder-Ra context.agent_id tool.required_permission
                  (All-Elem AsksForRa (default_tools knowledge) tool
                    (default_tools-AskForRa knowledge)
                    (find-Elem _ (default_tools knowledge) tool found) changes)
                  cleared,
              ground (arith, permitted, changes),
            )
      ]
