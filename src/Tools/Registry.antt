-- ===== src/Tools/Registry.antt =====
-- src/tools/ToolRegistry.ts. A tool works on the world that it is given, and returns or throws.
use harp_ochestration.Prelude.{
  ℕ, suc, String, Bool, true, false, not, ◌&&◌, List, [], ◌∷◌, ◌++◌, Option, none, some,
  if◌then◌else◌, find, filter, any, ◌==◌, string_eq, ◌⧺◌,
}
use harp_ochestration.Core.Ids.{
  AgentId, Permission, ApprovalState, agent, agent_name, permission_name, required,
}
use harp_ochestration.Core.Records.{AuditEntry, AuditEvent, ToolContext, Details, text, flag}
use harp_ochestration.Core.Runtime.{Runtime}
use harp_ochestration.Core.Errors.{Result, ok, err, plain}
use harp_ochestration.Security.Permissions.{can}
use harp_ochestration.Storage.Audit.{write}

-- What `await tool.run(input, context)` comes to; a throw carries the text of what is thrown.
pub data Run (O : Type 0) : Type 0 where
  returns : O → Run O
  throws : (message : String) → Run O

pub record ToolDefinition (W I O : Type 0) : Type 0 where
  pub name : String
  pub description : String
  pub required_permission : Permission
  pub state_changing : Bool
  pub run : I → ToolContext → W → Run O × W

pub record ToolResult (O : Type 0) : Type 0 where
  pub tool_name : String
  pub is_ok : Bool
  pub output : Option O
  pub error : Option String
  pub audit_id : Option String

-- The audit log with its counter, and the world that the tools change.
pub record ToolState (W : Type 0) : Type 0 where
  pub ticks : ℕ
  pub events : List AuditEvent
  pub world : W

unfoldable pub tool_entry :
    ToolContext → String → String → Option ApprovalState → Details → AuditEntry
tool_entry context name action approval details = record {
  actor = agent context.agent_id;
  action = action;
  target = some name;
  workflow_id = some context.workflow_id;
  task_id = some context.task.id;
  risk_level = some context.task.risk_level;
  approval_state = approval;
  details = details;
}

module _ {W I O : Type 0} where
  abbrev pub has : String → List (ToolDefinition W I O) → Bool
  has name tools = any (λ t. t.name == name) tools

  abbrev pub find_tool : String → List (ToolDefinition W I O) → Option (ToolDefinition W I O)
  find_tool name tools = find (λ t. t.name == name) tools

  unfoldable pub register_tool :
      ToolDefinition W I O → List (ToolDefinition W I O) → Result (List (ToolDefinition W I O))
  register_tool tool tools =
      if has tool.name tools
      then err (plain ("Tool already registered: " ⧺ tool.name))
      else ok (tools ++ tool ∷ [])

  unfoldable pub available_to : AgentId → List (ToolDefinition W I O) → List (ToolDefinition W I O)
  available_to id tools = filter (λ t. can id t.required_permission) tools

module _ {W : Type 0} where
  -- The log after an event, and the world `w`.
  abbrev pub logged : Runtime → AuditEntry → W → ToolState W → ToolState W
  logged rt entry w s = record {
    ticks = suc s.ticks;
    events = (write rt s.ticks entry s.events).1;
    world = w;
  }

module _ {W O : Type 0} where
  abbrev pub refusal :
      Runtime → String → String → AuditEntry → ToolState W → ToolResult O × ToolState W
  refusal rt name error entry s = (
    record {
      tool_name = name;
      is_ok = false;
      output = none;
      error = some error;
      audit_id = some (write rt s.ticks entry s.events).0.id;
    },
    logged rt entry s.world s,
  )

  -- What follows a run: the event and the result of a return, or those of a throw.
  abbrev pub conclude_run :
      Runtime → String → ToolContext → Bool → Run O × W → ToolState W → ToolResult O × ToolState W
  conclude_run rt name context changing (returns output, w) s =
      let entry =
        tool_entry context name "tool.invoked" none (("stateChanging", flag changing) ∷ []) in
      (
        record {
          tool_name = name;
          is_ok = true;
          output = some output;
          error = none;
          audit_id = some (write rt s.ticks entry s.events).0.id;
        },
        logged rt entry w s,
      )
  conclude_run rt name context changing (throws message, w) s =
      let entry = tool_entry context name "tool.failed" none (("error", text message) ∷ []) in
      (
        record {
          tool_name = name;
          is_ok = false;
          output = none;
          error = some message;
          audit_id = some (write rt s.ticks entry s.events).0.id;
        },
        logged rt entry w s,
      )

  abbrev pub unknown_tool : String → ToolState W → ToolResult O × ToolState W
  unknown_tool name s = (
    record {
      tool_name = name;
      is_ok = false;
      output = none;
      error = some ("Unknown tool: " ⧺ name);
      audit_id = none;
    },
    s,
  )

module _ {W I O : Type 0} where
  unfoldable pub invoke_tool :
      Runtime
      → String
      → I
      → ToolContext
      → ToolDefinition W I O
      → ToolState W
      → ToolResult O × ToolState W
  invoke_tool rt name input context tool s =
      if not (can context.agent_id tool.required_permission)
      then refusal rt name
          ("Permission denied: "
            ⧺ agent_name context.agent_id
            ⧺ " lacks "
            ⧺ permission_name tool.required_permission)
          (tool_entry context name "tool.permission_denied" none
            (("requiredPermission", text (permission_name tool.required_permission)) ∷ []))
          s
      else if tool.state_changing && not context.approval_granted
      then refusal rt name ("Approval required before invoking state-changing tool: " ⧺ name)
          (tool_entry context name "tool.approval_required" (some required)
            (("reason", text "State-changing tool invoked without approval.") ∷ []))
          s
      else conclude_run rt name context tool.state_changing (tool.run input context s.world) s

  -- What follows the look-up of the name.
  abbrev pub dispatch :
      Runtime
      → String
      → I
      → ToolContext
      → Option (ToolDefinition W I O)
      → ToolState W
      → ToolResult O × ToolState W
  dispatch rt name input context none s = unknown_tool name s
  dispatch rt name input context (some tool) s = invoke_tool rt name input context tool s

  unfoldable pub invoke :
      Runtime
      → List (ToolDefinition W I O)
      → String
      → I
      → ToolContext
      → ToolState W
      → ToolResult O × ToolState W
  invoke rt tools name input context s = dispatch rt name input context (find_tool name tools) s
