-- ===== src/Tests/Tools.antt =====
-- src/tools and the gate of the advanced strategies at concrete inputs.
use harp_ochestration.Prelude.{
  ◌==◌, string_eq, ℕ, String, Bool, ◌≡◌, ◌⊎◌, refl, none, some, true, false, [], List, decide,
  if◌then◌else◌, trim, split, lower_case, codes_eq,
}
use harp_ochestration.Core.Ids.{low, ra, pharaoh, AgentId, Permission-discrete}
use harp_ochestration.Core.Records.{ToolContext}
use harp_ochestration.Security.Permissions.{can}
use harp_ochestration.Tools.Registry.{
  returns, ToolDefinition, ToolState, find_tool, invoke_tool, invoke,
}
use harp_ochestration.Tools.Guards.{IsCleared, IsRefused, Tells, invoke-IsGuarded}
use harp_ochestration.Tools.Defaults.{
  Search, ToolInput, ToolOutput, default_tools, knowledge_search, repo_read_tool, repo_write_tool,
}
use harp_ochestration.Tools.Writes.{invoke-NeedsRa}
use harp_ochestration.Orchestration.Activation.{
  Environment, evaluate, gated_strategy, enabled_set, advanced_name, aufheben, activated_sequence,
}
use harp_ochestration.Orchestration.Activation.Gate.{IsActivated, gated_strategy-FailsSafe}
use harp_ochestration.Orchestration.Strategies.{sequential_review_strategy}
use harp_ochestration.Tests.Samples.{clock, task_at}

abbrev no_hits : Search String
no_hits query limit = returns []

abbrev write_input : ToolInput
write_input = record {
  query = none;
  path = some "a.ts";
  contents = some "new";
  cron = none;
  target = none;
}

abbrev caller : AgentId → Bool → ToolContext
caller id approved = record {
  agent_id = id;
  task = task_at low none;
  workflow_id = "w";
  approval_granted = approved;
}

abbrev start : ToolState ℕ
start = record { ticks = 0; events = []; world = 7 }

abbrev tools : List (ToolDefinition ℕ ToolInput (ToolOutput String))
tools = default_tools no_hits

refused_write :
    (invoke clock tools "repo.write" write_input (caller pharaoh true) start).0.is_ok ≡ false
unfolding invoke invoke_tool default_tools repo_write_tool can Permission-discrete decide
refused_write = refl

invoke-IsGuarded_example :
    ((tool : ToolDefinition ℕ ToolInput (ToolOutput String)) × (find_tool "repo.write" tools
        ≡ some tool)
      × IsCleared (caller ra false) tool
      × Tells "repo.write"
          (tool.run write_input (caller ra false) start.world)
          (invoke clock tools "repo.write" write_input (caller ra false) start))
    ⊎ (((tool : ToolDefinition ℕ ToolInput (ToolOutput String))
          → find_tool "repo.write" tools ≡ some tool
          → ¬ IsCleared (caller ra false) tool)
        × IsRefused start (invoke clock tools "repo.write" write_input (caller ra false) start))
invoke-IsGuarded_example =
    invoke-IsGuarded clock tools "repo.write" write_input (caller ra false) start

invoke-NeedsRa_example :
    ((caller ra true).agent_id ≡ ra) × ((caller ra true).approval_granted ≡ true)
unfolding invoke invoke_tool default_tools repo_write_tool knowledge_search repo_read_tool can
    Permission-discrete decide
invoke-NeedsRa_example =
    invoke-NeedsRa ℕ clock no_hits "repo.write" write_input (caller ra true) repo_write_tool start
      refl refl refl

abbrev debating : Environment
debating name =
    if name == "HARP_ENABLED_STRATEGIES" then some "aufheben, chain-of-debates" else some "TRUE"

activated : (evaluate debating aufheben).allowed ≡ true
unfolding evaluate enabled_set advanced_name trim split lower_case
activated = refl

gated_strategy-FailsSafe_example :
    ((IsActivated debating aufheben
        × ((gated_strategy debating aufheben).select_sequence (task_at low none)
            ≡ activated_sequence aufheben))
      ⊎ ((¬ IsActivated debating aufheben)
          × ((gated_strategy debating aufheben).select_sequence (task_at low none)
              ≡ sequential_review_strategy.select_sequence (task_at low none))))
    × ((gated_strategy debating aufheben).should_stop ≡ sequential_review_strategy.should_stop)
gated_strategy-FailsSafe_example = gated_strategy-FailsSafe debating aufheben (task_at low none)
