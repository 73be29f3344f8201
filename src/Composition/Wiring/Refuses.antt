-- ===== src/Composition/Wiring/Refuses.antt =====
-- What no workflow of the system of src/index.ts can do, since nobody approves for it.
use harp_ochestration.Prelude.{ℕ, true, false, [], Option, ◌≡◌, refl, subst, inl, inr, Elem, arith}
use harp_ochestration.Core.Ids.{ra, completed}
use harp_ochestration.Core.Records.{AgentTask, ProjectContext, WorkflowResult, ApprovalDecision}
use harp_ochestration.Core.Runtime.{Runtime}
use harp_ochestration.Core.Errors.{Result, ok, err}
use harp_ochestration.Security.Approval.{console_approval}
use harp_ochestration.Orchestration.Strategies.{CoordinationStrategy}
use harp_ochestration.Orchestration.Workflow.{System}
use harp_ochestration.Orchestration.Orchestrator.{execute}
use harp_ochestration.Agents.Registry.{Backend}
use harp_ochestration.Composition.{Gate, harp_parts}
use harp_ochestration.Composition.Choice.{ModelChoice, build_model_provider}
use harp_ochestration.Knowledge.{KnowledgeHit, load}
use harp_ochestration.Tools.Defaults.{
  Search, default_tools, knowledge_search, repo_read_tool, repo_write_tool, schedule_create_tool,
  security_scan_tool,
}
use harp_ochestration.Tools.Registry.{register_tool}
use harp_ochestration.Composition.Approved.{HasApproval, authors, execute-HasApproval}
use harp_ochestration.Composition.Wiring.{
  Process, HarpSystem, create_harp_system, platform_of, search_of, register_tools, with_provider,
  assembled,
}

-- Required and not approved.
abbrev Undecided : Result ApprovalDecision → Type 0
Undecided (ok d) = (d.required ≡ true) × (d.approved ≡ false)
Undecided (err e) = Unit

console-refuses : (rt : Runtime) (task : AgentTask) → ¬ HasApproval (console_approval rt) task
unfolding console_approval
console-refuses rt task (input, now, d, e, a, same, h) =
    let (t, f) = subst Undecided same (refl, refl) in
    elim h [ inl u ↦ ground (arith, t, u) | inr u ↦ ground (arith, f, u) ]

register_tools-default :
    {W : Type 0} (search : Search KnowledgeHit)
    → register_tools {W = W} (default_tools search) [] ≡ ok (default_tools search)
unfolding register_tools default_tools register_tool knowledge_search repo_read_tool repo_write_tool
    schedule_create_tool security_scan_tool
register_tools-default search = refl

module _ {B W : Type 0} (process : Process B W) where
  -- What becomes of the provider that is chosen.
  unfoldable pub Follows : ProjectContext → Result (ModelChoice B) → Result (HarpSystem W) → Type 0
  Follows project (err e) built = built ≡ err e
  Follows project (ok choice) built =
      (system : HarpSystem W) × (built ≡ ok system)
      × (system.orchestrator
          ≡ harp_parts (platform_of process choice) (console_approval process.runtime))
      × (system.tool_registry ≡ default_tools (search_of (load project)))

  with_provider-Follows :
      (project : ProjectContext) (choice : Result (ModelChoice B)) (w : W)
      → Follows project choice (with_provider process project choice w)
  unfolding Follows assembled
  with_provider-Follows project (err e) w = refl
  with_provider-Follows project (ok choice) w =
      rw (register_tools-default (search_of (load project))) (_, refl, refl, refl)

  -- `createHarpSystem` fails exactly where the choice of the provider fails, with its error; else the
  -- system has the five default tools over the knowledge of the project, and its approval gate asks
  -- the console.
  pub create_harp_system-Follows :
      (project : ProjectContext) (now : ℕ) (w : W)
      → Follows project
          (build_model_provider process.parse_x509 process.read_file now process.parse_list
            process.env)
          (create_harp_system process project now w)
  unfolding create_harp_system
  create_harp_system-Follows project now w = with_provider-Follows project _ w

  -- The approval gate asks the console.
  abbrev Consoled : Result (HarpSystem W) → Type 0
  Consoled (err e) = Unit
  Consoled (ok system) =
      (choice : ModelChoice B) × (system.orchestrator
        ≡ harp_parts (platform_of process choice) (console_approval process.runtime))

  Follows-Consoled :
      (project : ProjectContext) (choice : Result (ModelChoice B)) (built : Result (HarpSystem W))
      → Follows project choice built
      → Consoled built
  unfolding Follows
  Follows-Consoled project (err e) built h = rw h tt
  Follows-Consoled project (ok choice) built (system, h, o, t) = rw h (choice, o)

-- Of the system that `createHarpSystem` builds, whatever the environment, the provider and the
-- project are, no workflow is returned as completed with Ra among the authors of its results: for
-- every task and strategy, chosen or forced.
pub create_harp_system-Refuses :
    {B W : Type 0} (process : Process B W) (project : ProjectContext) (now : ℕ) (w : W)
    (system : HarpSystem W) (task : AgentTask) (context : ProjectContext)
    (force : Option CoordinationStrategy) (s : System (Backend (Gate W))) (r : WorkflowResult)
    → create_harp_system process project now w ≡ ok system
    → (execute system.orchestrator task context force s).0 ≡ ok r
    → r.status ≡ completed
    → ¬ Elem ra (authors r.agent_results)
create_harp_system-Refuses process project now w system task context force s r built ran c e =
    let (choice, o) =
      subst (Consoled process) built
        (Follows-Consoled process project _ _ (create_harp_system-Follows process project now w)) in
    console-refuses process.runtime task (
      execute-HasApproval (platform_of process choice) (console_approval process.runtime) task
        context force s r (rw o at ran) c e)
