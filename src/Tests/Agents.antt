-- ===== src/Tests/Agents.antt =====
-- src/agents and src/orchestration/ContextManager.ts at concrete inputs.
use harp_ochestration.Prelude.{
  ℕ, String, true, [], ◌∷◌, ◌++◌, none, some, ◌≡◌, refl, ◌↔◌, inl, codes,
}
use harp_ochestration.Core.Ids.{ra, anubis_sentinel, high, low, cloud_coding}
use harp_ochestration.Core.Records.{ProjectContext}
use harp_ochestration.Core.Errors.{ok}
use harp_ochestration.Agents.Json.{ParseJson, object, end}
use harp_ochestration.Agents.Output.{parse_model_output, read_json}
use harp_ochestration.Agents.Output.Noise.{parse_model_output-noise}
use harp_ochestration.Agents.Stub.{payload, generate_stub}
use harp_ochestration.Agents.Stub.Readable.{IsReadable, generate_stub-IsReadable}
use harp_ochestration.Agents.Results.{Making, result_for}
use harp_ochestration.Agents.Results.Approval.{AsksForApproval, result_for-approval_iff}
use harp_ochestration.Agents.Registry.{Backend, Platform, execute_harp}
use harp_ochestration.Agents.Registry.Execution.{IsReported, execute_harp-IsReported}
use harp_ochestration.Models.Router.{make_router}
use harp_ochestration.Orchestration.Workflow.{System}
use harp_ochestration.Orchestration.Context.{scoped_context}
use harp_ochestration.Orchestration.Context.Scope.{scoped_context-LooksAlike}
use harp_ochestration.Tests.Samples.{ask, clock, task_at, no_context, context_of, reply}

abbrev parse : ParseJson
parse text = some (object end)

parse_model_output-noise_example :
    parse_model_output parse "Here: {}." ≡ read_json (parse (b'{' ∷ ([] ++ b'}' ∷ [])))
parse_model_output-noise_example =
    parse_model_output-noise parse "Here: {}." (codes "Here: ") [] (codes ".") (inl refl)
      (refl, (refl, (refl, (refl, (refl, (refl, (refl, (refl, (refl, tt)))))))))
      (refl, (refl, (refl, (refl, (refl, (refl, tt)))))) (refl, tt)

abbrev making : Making
making = record {
  runtime = clock;
  now = 0;
  context = context_of (task_at low (some true));
  workflow_id = "w";
  model_class = cloud_coding;
}

result_for-approval_iff_example :
    ((result_for anubis_sentinel none "?" making).approval_required ≡ true)
    ↔ AsksForApproval anubis_sentinel none (task_at low (some true))
result_for-approval_iff_example = result_for-approval_iff anubis_sentinel none "?" making

abbrev offline : Platform ℕ
offline = record { runtime = clock; parse = parse; provider = λ request w. (ok (reply 3), w) }

abbrev idle : System (Backend ℕ)
idle = record {
  ticks = 0;
  events = [];
  memory = [];
  world = record { router = make_router 200_000; outside = 0 };
}

execute_harp-IsReported_example :
    IsReported offline ra
      (context_of (task_at high none))
      "w"
      idle
      (execute_harp offline ra "t1" (context_of (task_at high none)) "w" idle)
execute_harp-IsReported_example =
    execute_harp-IsReported offline ra "t1" (context_of (task_at high none)) "w" idle

abbrev with_decision : String → ProjectContext
with_decision text = record no_context {
  prior_decisions = text ∷ [];
  architecture_docs = text ∷ [];
}

scoped_context-LooksAlike_example :
    scoped_context ra (task_at low none) (with_decision "Use one queue.") [] "day-1"
    ≡ scoped_context ra (task_at low none) (with_decision "Keep the key safe.") [] "day-1"
scoped_context-LooksAlike_example =
    scoped_context-LooksAlike (with_decision "Use one queue.") (with_decision "Keep the key safe.")
      (task_at low none) [] "day-1"
      (record {
        docs = refl;
        procedures = refl;
        has_procedures = refl;
        issues = refl;
        terms = refl;
      })

generate_stub-IsReadable_example : IsReadable none (
    parse_model_output
      (λ text. some (payload (ask "w")))
      (generate_stub (λ j. "{}") 3 5 (ask "w")).text)
generate_stub-IsReadable_example =
    generate_stub-IsReadable (λ text. some (payload (ask "w"))) (λ j. "{}") 3 5 (ask "w") [] refl
      (refl, (refl, tt)) refl
