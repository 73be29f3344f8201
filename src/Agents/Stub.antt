-- ===== src/Agents/Stub.antt =====
-- src/models/providers/StubModelProvider.ts. `JSON.stringify` and the readings of the clock are
-- arguments.
pub mod Readable
use harp_ochestration.Prelude.{
  ℕ, ◌+◌, ◌-◌, ◌/◌, String, Bool, true, false, List, [], ◌∷◌, Option, none, some, if◌then◌else◌,
  ◌⧺◌, units, codes,
}
use harp_ochestration.Core.Ids.{
  AgentId, pharaoh, horus_nexus, anubis_sentinel, ra, agent_name, class_name,
}
use harp_ochestration.Core.Records.{ModelRequest, ModelResponse}
use harp_ochestration.Agents.Json.{
  Json, string, array, object, Items, nil, cons, Fields, end, field,
}

abbrev pub items : List String → Items
items [] = nil
items (s ∷ more) = cons (string s) (items more)

abbrev pub texts : List String → Json
texts ss = array (items ss)

abbrev pub is_ra : Option AgentId → Bool
is_ra none = false
is_ra (some pharaoh) = false
is_ra (some horus_nexus) = false
is_ra (some anubis_sentinel) = false
is_ra (some ra) = true

abbrev name_or_unknown : Option AgentId → String
name_or_unknown none = "unknown"
name_or_unknown (some id) = agent_name id

-- The four fields that are set for Ra only.
unfoldable pub proposal_fields : Bool → Fields
proposal_fields false = end
proposal_fields true = field "filesAffected" (texts ("(proposal only — no files written)" ∷ [])) (
    field "testPlan"
      (texts (
        "Add unit tests covering the proposed change." ∷ "Run pnpm run typecheck and pnpm test."
        ∷ []))
      (field "rollbackPlan"
        (texts ("Revert the proposal branch; no production state is touched." ∷ []))
        (field "validationCommands"
          (texts ("pnpm install" ∷ "pnpm run typecheck" ∷ "pnpm run build" ∷ "pnpm test" ∷ []))
          end)))

unfoldable pub payload : ModelRequest → Json
unfolding proposal_fields
payload request = object (
    field "summary"
      (string (
        "Stub "
        ⧺ class_name request.model_class
        ⧺ " response for agent "
        ⧺ name_or_unknown request.agent_id
        ⧺ "."))
      (field "findings"
        (texts (
          "Context was received and parsed."
          ∷ "No live model is connected; this is deterministic stub output." ∷ []))
        (field "risks"
          (texts (
            if is_ra request.agent_id
            then "Generated code must pass review and approval before any repo write." ∷ []
            else []))
          (field "recommendations"
            (texts ("Replace StubModelProvider with a real provider before production." ∷ []))
            (field "unknowns" (texts ("Real model judgement is unavailable in stub mode." ∷ [])) (
              field "nextSafeStep"
                (string
                  "Connect a real ModelProvider, then re-run the workflow under approval gates.")
                (field "assumptions" (texts ("Stub mode assumes no external model access." ∷ []))
                  (proposal_fields (is_ra request.agent_id)))))))))

-- `start` and `stop` are the two readings of the clock, the second not before the first.
unfoldable pub generate_stub : (Json → String) → (start stop : ℕ) → ModelRequest → ModelResponse
unfolding payload
generate_stub stringify start stop request =
    let written = stringify (payload request) in
    record {
      text = written;
      model_used = "stub:" ⧺ class_name request.model_class;
      model_class = request.model_class;
      input_tokens =
          (units (codes request.system_prompt) + units (codes request.user_prompt) + 3) / 4;
      output_tokens = (units (codes written) + 3) / 4;
      estimated_cost_usd = 0;
      latency_ms = stop - start;
    }
