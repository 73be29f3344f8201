-- ===== src/Agents/Prompt.antt =====
-- src/agents/BaseAgent.ts: `buildPrompt` and `outputSchema`.
use harp_ochestration.Prelude.{
  String, List, [], ◌∷◌, ◌++◌, map, if◌then◌else◌, ◌==◌, string_eq, ◌⧺◌, join,
}
use harp_ochestration.Core.Ids.{AgentId, agent_id_eq, ra, agent_name, risk_name}
use harp_ochestration.Core.Records.{ScopedContext, ArtifactSummary}
use harp_ochestration.Core.AgentConfig.{AgentConfig}

abbrev pub bullets : List String → List String
bullets lines = map (λ l. "- " ⧺ l) lines

unfoldable pub output_schema : AgentId → String
output_schema id =
    let base =
      "{ \"summary\": string, \"findings\": string[], \"risks\": string[], "
      ⧺ "\"recommendations\": string[], \"unknowns\": string[], \"nextSafeStep\": string, "
      ⧺ "\"assumptions\": string[]" in
    if id == ra
    then base ⧺ ", \"filesAffected\": string[], \"testPlan\": string[], "
      ⧺ "\"rollbackPlan\": string[], \"validationCommands\": string[] }"
    else base ⧺ " }"

-- What the prompt shows of the artifacts of the agents before.
unfoldable pub artifact_lines : List ArtifactSummary → List String
artifact_lines [] = []
artifact_lines (a ∷ more) =
    (("- [" ⧺ agent_name a.author ⧺ "] " ⧺ a.title) ∷ map (λ c. "    • " ⧺ c) a.claims)
    ++ artifact_lines more

abbrev or_none : String → String
or_none s = if s == "" then "none" else s

unfoldable pub prompt_lines : AgentConfig → ScopedContext → List String
unfolding artifact_lines output_schema
prompt_lines config context =
    ("Agent: " ⧺ config.display_name)
    ∷ ("Role: " ⧺ config.role)
    ∷ ("Mission: " ⧺ config.mission)
    ∷ ""
    ∷ ("Task: " ⧺ context.task.title)
    ∷ ("Description: " ⧺ context.task.description)
    ∷ ("Risk Level: " ⧺ risk_name context.task.risk_level)
    ∷ ("Context snapshot: " ⧺ context.snapshot_at)
    ∷ ("Context sources: " ⧺ or_none (join ", " context.context_source_ids))
    ∷ ""
    ∷ "Constraints:"
    ∷ (bullets context.constraints
        ++ (""
            ∷ "Architecture Docs:"
            ∷ (bullets context.architecture_docs
                ++ (""
                    ∷ "SOPs:"
                    ∷ (bullets context.standard_operating_procedures
                        ++ (""
                            ∷ "Prior Decisions:"
                            ∷ (bullets context.prior_decisions
                                ++ (""
                                    ∷ "Open Issues:"
                                    ∷ (bullets context.open_issues
                                        ++ (""
                                            ∷ "Prior Artifacts (claims only):"
                                            ∷ (artifact_lines context.prior_artifacts
                                                ++ (""
                                                    ∷ "Unresolved unknowns:"
                                                    ∷ (bullets context.unresolved_unknowns
                                                        ++ (""
                                                            ∷ "Evaluation Criteria:"
                                                            ∷ (bullets config.evaluation_criteria
                                                            ++ (""
                                                            ∷ "Respond ONLY with a JSON object (no prose, no markdown fences) with keys:"
                                                            ∷ output_schema config.id
                                                            ∷ []))))))))))))))))

unfoldable pub build_prompt : AgentConfig → ScopedContext → String
build_prompt config context = join "\n" (prompt_lines config context)
