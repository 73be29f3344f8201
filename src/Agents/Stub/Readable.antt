-- ===== src/Agents/Stub/Readable.antt =====
-- The agents can read what the stub provider answers.
use harp_ochestration.Prelude.{
  ℕ, String, Bool, true, false, List, [], ◌∷◌, ◌++◌, Option, none, some, ◌≡◌, refl, inl, codes,
}
use harp_ochestration.Core.Ids.{AgentId, pharaoh, horus_nexus, anubis_sentinel, ra}
use harp_ochestration.Core.Records.{ModelRequest}
use harp_ochestration.Agents.Json.{Json, ParseJson}
use harp_ochestration.Agents.Output.{ModelOutput, parse_model_output, read_json, read_output}
use harp_ochestration.Agents.Output.Noise.{Lacks, parse_model_output-noise}
use harp_ochestration.Agents.Stub.{payload, proposal_fields, generate_stub, is_ra}

abbrev is_given : Option (List String) → Bool
is_given none = false
is_given (some xs) = true

-- An output with a next step, and with all that belongs to a proposal if Ra has asked, and nothing of it
-- if another.
unfoldable pub IsReadable : Option AgentId → Option ModelOutput → Type 0
IsReadable asked none = ⊥
IsReadable asked (some o) =
    (o.next_safe_step
      ≡ "Connect a real ModelProvider, then re-run the workflow under approval gates.")
    × (is_given o.files_affected ≡ is_ra asked)
    × (is_given o.test_plan ≡ is_ra asked)
    × (is_given o.rollback_plan ≡ is_ra asked)
    × (is_given o.validation_commands ≡ is_ra asked)

payload-IsReadable :
    (request : ModelRequest) (asked : Option AgentId)
    → request.agent_id ≡ asked
    → IsReadable asked (read_json (some (payload request)))
unfolding payload proposal_fields IsReadable read_output
payload-IsReadable request none h = rw h (refl, refl, refl, refl, refl)
payload-IsReadable request (some pharaoh) h = rw h (refl, refl, refl, refl, refl)
payload-IsReadable request (some horus_nexus) h = rw h (refl, refl, refl, refl, refl)
payload-IsReadable request (some anubis_sentinel) h = rw h (refl, refl, refl, refl, refl)
payload-IsReadable request (some ra) h = rw h (refl, refl, refl, refl, refl)

-- Where the JSON text of the stub's payload is in braces, has no back-tick and is parsed back to the
-- payload, every agent can read the stub's answer: no agent is blocked by it, and it has the fields
-- of a proposal exactly if Ra asked.
pub generate_stub-IsReadable :
    (parse : ParseJson) (stringify : Json → String) (start stop : ℕ) (request : ModelRequest)
    (body : List ℕ)
    → codes (stringify (payload request)) ≡ b'{' ∷ (body ++ b'}' ∷ [])
    → Lacks b'`' (b'{' ∷ (body ++ b'}' ∷ []))
    → parse (b'{' ∷ (body ++ b'}' ∷ [])) ≡ some (payload request)
    → IsReadable request.agent_id
        (parse_model_output parse (generate_stub stringify start stop request).text)
unfolding generate_stub
generate_stub-IsReadable parse stringify start stop request body written ticks read =
    rw
      (
        parse_model_output-noise parse (stringify (payload request)) [] body [] (inl written) ticks
            tt tt,
        read,
      )
      (payload-IsReadable request request.agent_id refl)
