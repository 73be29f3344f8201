-- ===== src/Tools/Guards.antt =====
-- The guards that stand before a tool's run, and the trail that every call leaves.
use harp_ochestration.Prelude.{
  String, Bool, true, false, List, [], ◌∷◌, ◌++◌, ◌&&◌, not, Option, none, some, ◌≡◌, refl, subst,
  ◌⊎◌, inl, inr, arith, Bool-cases,
}
use mathlib.Core.Option.{some-injective}
use harp_ochestration.Core.Ids.{agent}
use harp_ochestration.Core.Records.{AuditEvent, ToolContext}
use harp_ochestration.Core.Runtime.{Runtime}
use harp_ochestration.Security.Permissions.{can}
use harp_ochestration.Storage.Audit.{write, saved}
use harp_ochestration.Tools.Registry.{
  Run, returns, throws, ToolDefinition, ToolResult, ToolState, tool_entry, find_tool, conclude_run,
  invoke_tool, dispatch, invoke,
}

module _ {W I O : Type 0} where
  -- The agent holds the permission of the tool, and a tool that changes state has its approval.
  unfoldable pub IsCleared : ToolContext → ToolDefinition W I O → Type 0
  IsCleared context tool =
      (can context.agent_id tool.required_permission ≡ true)
      × ((tool.state_changing ≡ false) ⊎ (context.approval_granted ≡ true))

module _ {W O : Type 0} where
  -- Nothing is done: no success, and the world as it was.
  unfoldable pub IsRefused : ToolState W → ToolResult O × ToolState W → Type 0
  IsRefused s (r, after) = (r.is_ok ≡ false) × (after.world ≡ s.world)

  -- One event more, of the agent and the tool; the result names it.
  pub IsTraced : String → ToolContext → ToolState W → ToolResult O × ToolState W → Type 0
  IsTraced name context s (r, after) =
      (e : AuditEvent) × (after.events ≡ s.events ++ e ∷ [])
      × (e.actor ≡ agent context.agent_id)
      × (e.target ≡ some name)
      × (r.audit_id ≡ some e.id)

  -- What a run comes to, told by the result and the world: an answer is the output of a success,
  -- a throw is the error of a failure, and the world is the one that the run has left.
  unfoldable pub Tells : String → Run O × W → ToolResult O × ToolState W → Type 0
  Tells name (returns o, w) (r, after) =
      (r.tool_name ≡ name)
      × (r.is_ok ≡ true)
      × (r.output ≡ some o)
      × (r.error ≡ none)
      × (after.world ≡ w)
  Tells name (throws m, w) (r, after) =
      (r.tool_name ≡ name)
      × (r.is_ok ≡ false)
      × (r.output ≡ none)
      × (r.error ≡ some m)
      × (after.world ≡ w)

  conclude_run-Tells :
      (rt : Runtime) (name : String) (context : ToolContext) (changing : Bool) (x : Run O × W)
      (s : ToolState W)
      → Tells name x (conclude_run rt name context changing x s)
  unfolding Tells write saved tool_entry
  conclude_run-Tells rt name context changing (returns o, w) s = (refl, refl, refl, refl, refl)
  conclude_run-Tells rt name context changing (throws m, w) s = (refl, refl, refl, refl, refl)

  conclude_run-IsTraced :
      (rt : Runtime) (name : String) (context : ToolContext) (changing : Bool) (x : Run O × W)
      (s : ToolState W)
      → IsTraced name context s (conclude_run rt name context changing x s)
  unfolding IsTraced write saved tool_entry
  conclude_run-IsTraced rt name context changing (returns o, w) s = (_, refl, refl, refl, refl)
  conclude_run-IsTraced rt name context changing (throws m, w) s = (_, refl, refl, refl, refl)

module _ {W I O : Type 0} where
  invoke_tool-IsTraced :
      (rt : Runtime) (name : String) (input : I) (context : ToolContext)
      (tool : ToolDefinition W I O) (s : ToolState W)
      → IsTraced name context s (invoke_tool rt name input context tool s)
  unfolding invoke_tool write saved tool_entry IsTraced
  invoke_tool-IsTraced rt name input context tool s =
      elim (Bool-cases (can context.agent_id tool.required_permission)) [
        | inr f ↦ rw f (_, refl, refl, refl, refl)
        | inl t ↦ rw t (elim (Bool-cases (tool.state_changing && not context.approval_granted)) [
          | inl b ↦ rw b (_, refl, refl, refl, refl)
          | inr b ↦ rw b (
              conclude_run-IsTraced rt name context tool.state_changing
                (tool.run input context s.world) s)
        ])
      ]

  pub invoke_tool-IsGuarded :
      (rt : Runtime) (name : String) (input : I) (context : ToolContext)
      (tool : ToolDefinition W I O) (s : ToolState W)
      → (IsCleared context tool
          × Tells name (tool.run input context s.world) (invoke_tool rt name input context tool s))
        ⊎ ((¬ IsCleared context tool) × IsRefused s (invoke_tool rt name input context tool s))
  unfolding invoke_tool IsCleared IsRefused
  invoke_tool-IsGuarded rt name input context tool s =
      elim (Bool-cases (can context.agent_id tool.required_permission)) [
        | inr f ↦ inr ((λ h. ground (arith, h.0, f)), rw f (refl, refl))
        | inl t ↦ elim (Bool-cases (tool.state_changing && not context.approval_granted)) [
          | inl b ↦ inr ((λ h. ground (arith, h.1, b)), rw (t, b) (refl, refl))
          | inr b ↦ inl (
            (t, ground (arith, b)),
            rw (t, b)
                (conclude_run-Tells rt name context tool.state_changing
                  (tool.run input context s.world) s),
          )
        ]
      ]

  dispatch-IsTraced :
      (rt : Runtime) (name : String) (input : I) (context : ToolContext)
      (found : Option (ToolDefinition W I O)) (s : ToolState W)
      → ((found ≡ none) × IsRefused s (dispatch rt name input context found s))
        ⊎ (((tool : ToolDefinition W I O) × (found ≡ some tool))
            × IsTraced name context s (dispatch rt name input context found s))
  unfolding IsRefused
  dispatch-IsTraced rt name input context none s = inl (refl, (refl, refl))
  dispatch-IsTraced rt name input context (some tool) s =
      inr ((tool, refl), invoke_tool-IsTraced rt name input context tool s)

  -- Every call of a registered tool leaves one event behind, whatever it comes to: the event names
  -- the agent and the tool, and the result names the event. A call of an unknown tool is refused.
  pub invoke-IsTraced :
      (rt : Runtime) (tools : List (ToolDefinition W I O)) (name : String) (input : I)
      (context : ToolContext) (s : ToolState W)
      → ((find_tool name tools ≡ none) × IsRefused s (invoke rt tools name input context s))
        ⊎ (((tool : ToolDefinition W I O) × (find_tool name tools ≡ some tool))
            × IsTraced name context s (invoke rt tools name input context s))
  unfolding invoke
  invoke-IsTraced rt tools name input context s =
      dispatch-IsTraced rt name input context (find_tool name tools) s

  dispatch-IsGuarded :
      (rt : Runtime) (name : String) (input : I) (context : ToolContext)
      (found : Option (ToolDefinition W I O)) (s : ToolState W)
      → ((tool : ToolDefinition W I O) × (found ≡ some tool)
          × IsCleared context tool
          × Tells name (tool.run input context s.world) (dispatch rt name input context found s))
        ⊎ (((tool : ToolDefinition W I O) → found ≡ some tool → ¬ IsCleared context tool)
            × IsRefused s (dispatch rt name input context found s))
  unfolding IsRefused
  dispatch-IsGuarded rt name input context none s = inr ((λ tool e. ground arith), (refl, refl))
  dispatch-IsGuarded rt name input context (some tool) s =
      elim (invoke_tool-IsGuarded rt name input context tool s) [
        | inl (c, e) ↦ inl (tool, refl, c, e)
        | inr (n, r) ↦
            inr ((λ other e. subst (λ t. ¬ IsCleared context t) (some-injective tool other e) n), r)
      ]

  -- A call runs the tool of that name exactly when the agent holds its permission and, if the tool
  -- changes state, the call is approved. The result then bears the tool's name and is a success with
  -- the output of the run, or, when the run throws, a failure with its message and no output; the
  -- world is the one that the run has left. Otherwise the call is refused: no success, and the world
  -- as it was.
  pub invoke-IsGuarded :
      (rt : Runtime) (tools : List (ToolDefinition W I O)) (name : String) (input : I)
      (context : ToolContext) (s : ToolState W)
      → ((tool : ToolDefinition W I O) × (find_tool name tools ≡ some tool)
          × IsCleared context tool
          × Tells name (tool.run input context s.world) (invoke rt tools name input context s))
        ⊎ (((tool : ToolDefinition W I O)
              → find_tool name tools ≡ some tool
              → ¬ IsCleared context tool)
            × IsRefused s (invoke rt tools name input context s))
  unfolding invoke
  invoke-IsGuarded rt tools name input context s =
      dispatch-IsGuarded rt name input context (find_tool name tools) s
