-- ===== src/Agents/Results.antt =====
-- src/agents: what each agent makes of a parsed output (Pharaoh.ts, HorusNexus.ts,
-- AnubisSentinel.ts, Ra.ts), and of one that cannot be parsed (BaseAgent.ts).
pub mod Approval
use harp_ochestration.Prelude.{
  ℕ, String, Bool, true, false, ◌||◌, List, [], ◌∷◌, ◌++◌, Option, none, some, map, filter,
  if◌then◌else◌, ◌==◌, string_eq, ◌⧺◌, or_else, ltb, length, join, chars, text_of, slice_to,
  is_true,
}
use harp_ochestration.Core.Ids.{
  AgentId, ArtifactType, ModelClass, RiskLevel, risk_level_eq, pharaoh, horus_nexus,
  anubis_sentinel, ra, high, critical, final_report, review, risk_report, code, success, blocked,
}
use harp_ochestration.Core.Records.{
  ScopedContext, Artifact, AgentResult, CodeWorkDetails, AgentTask,
}
use harp_ochestration.Core.Constants.{temperature}
use harp_ochestration.Core.AgentConfig.{AgentConfig, agent_configs}
use harp_ochestration.Core.Runtime.{Runtime}
use harp_ochestration.Agents.Output.{ModelOutput}
use harp_ochestration.Agents.Prompt.{bullets}

unfoldable pub artifact_type : AgentId → ArtifactType
artifact_type pharaoh = final_report
artifact_type horus_nexus = review
artifact_type anubis_sentinel = risk_report
artifact_type ra = code

unfoldable pub temperature_of : AgentId → ℕ
temperature_of pharaoh = temperature.evaluation
temperature_of horus_nexus = temperature.code_review
temperature_of anubis_sentinel = temperature.security_review
temperature_of ra = temperature.implementation

abbrev pub is_high : RiskLevel → Bool
is_high risk = risk == high || risk == critical

unfoldable pub model_class_for : AgentConfig → ScopedContext → ModelClass
model_class_for config context =
    if is_high context.task.risk_level then config.high_risk_model else config.preferred_model

-- What `makeArtifact` takes besides the title and the content.
pub record Making : Type 0 where
  pub runtime : Runtime
  pub now : ℕ
  pub context : ScopedContext
  pub workflow_id : String
  pub model_class : ModelClass

unfoldable pub make_artifact : AgentId → String → String → Making → Artifact
make_artifact id title content m = record {
  id = m.runtime.uuid m.now;
  type = artifact_type id;
  title = title;
  content = content;
  author = id;
  timestamp = m.runtime.iso_date m.now;
  task_id = m.context.task.id;
  workflow_id = m.workflow_id;
  context_source_ids = m.context.context_source_ids;
  model_route = some m.model_class;
  supersedes = none;
  metadata = none;
}

unfoldable pub pharaoh_result : ModelOutput → Making → AgentResult
unfolding make_artifact
pharaoh_result o m = record {
  agent_id = pharaoh;
  status = success;
  summary = o.summary;
  findings = o.findings;
  risks = o.risks;
  recommendations = o.recommendations;
  artifacts =
      make_artifact pharaoh "Pharaoh Final Recommendation"
        (join "\n" (
          "Executive orchestration complete."
          ∷ ""
          ∷ "Pharaoh confirms the workflow proceeded through controlled review,"
          ∷ "validation, and approval gates."
          ∷ ""
          ∷ "Summary:"
          ∷ o.summary
          ∷ ""
          ∷ "Recommendations:"
          ∷ bullets o.recommendations))
        m
      ∷ [];
  approval_required = is_high m.context.task.risk_level;
  unknowns = o.unknowns;
  next_safe_step = o.next_safe_step;
  code_work = none;
  assumptions = o.assumptions;
}

unfoldable pub horus_nexus_result : ModelOutput → Making → AgentResult
unfolding make_artifact
horus_nexus_result o m = record {
  agent_id = horus_nexus;
  status = success;
  summary = o.summary;
  findings = o.findings;
  risks = o.risks;
  recommendations = o.recommendations;
  artifacts =
      make_artifact horus_nexus "Horus Nexus Architecture Review"
        (join "\n" (
          "Observation / Review / Long-term Planning"
          ∷ ""
          ∷ "Findings:"
          ∷ (bullets o.findings ++ "" ∷ "Recommendations:" ∷ bullets o.recommendations)))
        m
      ∷ [];
  approval_required = false;
  unknowns = o.unknowns;
  next_safe_step = o.next_safe_step;
  code_work = none;
  assumptions = o.assumptions;
}

abbrev pub is_sensitive : AgentTask → Bool
is_sensitive task =
    is_true task.requires_repo_write || is_true task.touches_secrets || is_high task.risk_level

abbrev pub sensitive_warning : String
sensitive_warning =
    "Security-sensitive or state-changing work: human approval required before execution."

abbrev pub anubis_risks : ModelOutput → AgentTask → List String
anubis_risks o task = if is_sensitive task then o.risks ++ sensitive_warning ∷ [] else o.risks

unfoldable pub anubis_sentinel_result : ModelOutput → Making → AgentResult
unfolding make_artifact
anubis_sentinel_result o m =
    let risks = anubis_risks o m.context.task in
    let adversarial = is_high m.context.task.risk_level in
    record {
      agent_id = anubis_sentinel;
      status = success;
      summary = o.summary;
      findings = o.findings;
      risks = risks;
      recommendations = o.recommendations;
      artifacts =
          make_artifact anubis_sentinel "Anubis Sentinel Risk & Security Review"
            (join "\n" (
              filter (λ l. if l == "" then false else true)
                ("Validation / Risk / Security Monitoring"
                  ∷ (if adversarial then "(adversarial review mode)" else "")
                  ∷ ""
                  ∷ "Risks:"
                  ∷ (bullets risks ++ "" ∷ "Findings:" ∷ bullets o.findings))))
            m
          ∷ [];
      approval_required = adversarial || ltb (length o.risks) (length risks);
      unknowns = o.unknowns;
      next_safe_step = o.next_safe_step;
      code_work = none;
      assumptions = o.assumptions;
    }

unfoldable pub code_work_of : ModelOutput → CodeWorkDetails
code_work_of o = record {
  files_affected = or_else o.files_affected ("(proposal only)" ∷ []);
  test_plan = or_else o.test_plan ("Add unit tests for the proposed change." ∷ []);
  rollback_plan =
      or_else o.rollback_plan ("Revert the proposal branch; no production state is touched." ∷ []);
  validation_commands =
      or_else o.validation_commands
        ("pnpm install" ∷ "pnpm run typecheck" ∷ "pnpm run build" ∷ "pnpm test" ∷ []);
}

unfoldable pub ra_result : ModelOutput → Making → AgentResult
unfolding make_artifact code_work_of
ra_result o m =
    let work = code_work_of o in
    record {
      agent_id = ra;
      status = success;
      summary = o.summary;
      findings = o.findings;
      risks = o.risks ++ "Generated code must pass review and approval before any repo write." ∷ [];
      recommendations = o.recommendations;
      artifacts =
          make_artifact ra "Ra Implementation Proposal"
            (join "\n" (
              "Generation / Creation / Scheduling / Automation"
              ∷ ""
              ∷ "This is an implementation PROPOSAL, not a committed patch."
              ∷ ""
              ∷ "Summary:"
              ∷ o.summary
              ∷ ""
              ∷ "Files affected:"
              ∷ (bullets work.files_affected
                  ++ (""
                      ∷ "Test plan:"
                      ∷ (bullets work.test_plan
                          ++ ("" ∷ "Rollback plan:" ∷ bullets work.rollback_plan))))))
            m
          ∷ [];
      approval_required = true;
      unknowns = o.unknowns;
      next_safe_step = o.next_safe_step;
      code_work = some work;
      assumptions = o.assumptions;
    }

unfoldable pub build_result : AgentId → ModelOutput → Making → AgentResult
build_result pharaoh = pharaoh_result
build_result horus_nexus = horus_nexus_result
build_result anubis_sentinel = anubis_sentinel_result
build_result ra = ra_result

-- `rawText` is the text that could not be parsed.
unfoldable pub build_blocked_result : AgentId → String → Making → AgentResult
unfolding make_artifact
build_blocked_result id raw_text m = record {
  agent_id = id;
  status = blocked;
  summary =
      (agent_configs id).display_name
      ⧺ " could not parse model output; blocking rather than guessing.";
  findings = [];
  risks = "Model returned malformed output; no findings can be trusted." ∷ [];
  recommendations = "Retry with a stricter prompt or a different model." ∷ [];
  artifacts =
      make_artifact id ((agent_configs id).display_name ⧺ " — unpar-seable model output")
        ("Model output could not be parsed into the required schema.\n\n"
          ⧺ "Raw (truncated):\n"
          ⧺ text_of (slice_to 500 (chars raw_text)))
        m
      ∷ [];
  approval_required = true;
  unknowns = "All — model output was unusable." ∷ [];
  next_safe_step = "Re-run this agent; if it persists, escalate to a human.";
  code_work = none;
  assumptions = [];
}

unfoldable pub result_for : AgentId → Option ModelOutput → String → Making → AgentResult
unfolding build_result build_blocked_result
result_for id none raw_text = build_blocked_result id raw_text
result_for id (some output) raw_text = build_result id output
