-- ===== src/Tools/Defaults.antt =====
-- src/tools/defaultTools.ts. The inputs of the five tools are one record, a missing field of which
-- is `undefined`; the world is whatever the tools stand on, and none of them changes it.
use harp_ochestration.Prelude.{
  ℕ, String, true, false, List, [], ◌∷◌, Option, none, some, codes, units,
}
use harp_ochestration.Core.Ids.{
  repo_read, repo_write, knowledge_read, schedule_create, security_scan,
}
use harp_ochestration.Core.Records.{Details, text, texts, number, absent, Detail}
use harp_ochestration.Tools.Registry.{Run, returns, throws, ToolDefinition}

pub record ToolInput : Type 0 where
  pub query : Option String
  pub path : Option String
  pub contents : Option String
  pub cron : Option String
  pub target : Option String

-- `knowledgeStore.search`, which answers or throws.
abbrev pub Search : Type 0 → Type 0
Search H = Option String → ℕ → Run (List H)

pub data ToolOutput (H : Type 0) : Type 0 where
  hits : List H → ToolOutput H
  report : Details → ToolOutput H

abbrev field : Option String → Detail
field none = absent
field (some s) = text s

module _ {H : Type 0} where
  abbrev found_hits : Run (List H) → Run (ToolOutput H)
  found_hits (returns hs) = returns (hits hs)
  found_hits (throws m) = throws m

  abbrev proposed_write : Option String → Option String → Run (ToolOutput H)
  proposed_write path none = throws "Cannot read properties of undefined (reading 'length')"
  proposed_write path (some contents) = returns (
      report (
        ("path", field path)
        ∷ ("bytes", number (units (codes contents)))
        ∷ ("note", text "Stub repo write — in production this opens a PR, never a direct commit.")
        ∷ []))

module _ {W H : Type 0} where
  unfoldable pub knowledge_search : Search H → ToolDefinition W ToolInput (ToolOutput H)
  knowledge_search search = record {
    name = "knowledge.search";
    description = "Search project knowledge for relevant grounding material.";
    required_permission = knowledge_read;
    state_changing = false;
    run = λ input context w. (found_hits (search input.query 8), w);
  }

  unfoldable pub repo_read_tool : ToolDefinition W ToolInput (ToolOutput H)
  repo_read_tool = record {
    name = "repo.read";
    description = "Read a file from the project repository (sandboxed).";
    required_permission = repo_read;
    state_changing = false;
    run = λ input context w. (
      returns (
          report (
            ("path", field input.path)
            ∷ ("note", text "Stub repo read — connect a sandboxed repository reader.")
            ∷ [])),
      w,
    );
  }

  unfoldable pub repo_write_tool : ToolDefinition W ToolInput (ToolOutput H)
  repo_write_tool = record {
    name = "repo.write";
    description = "Propose a write to the repository. APPROVAL-GATED.";
    required_permission = repo_write;
    state_changing = true;
    run = λ input context w. (proposed_write input.path input.contents, w);
  }

  unfoldable pub schedule_create_tool : ToolDefinition W ToolInput (ToolOutput H)
  schedule_create_tool = record {
    name = "schedule.create";
    description = "Create a scheduled automation. APPROVAL-GATED.";
    required_permission = schedule_create;
    state_changing = true;
    run = λ input context w. (
      returns (
          report (
            ("cron", field input.cron)
            ∷ ("note", text "Stub scheduler — requires explicit authorization in production.")
            ∷ [])),
      w,
    );
  }

  unfoldable pub security_scan_tool : ToolDefinition W ToolInput (ToolOutput H)
  security_scan_tool = record {
    name = "security.scan";
    description = "Run a security scan over a target path or artifact.";
    required_permission = security_scan;
    state_changing = false;
    run = λ input context w. (
      returns (
          report (
            ("target", field input.target)
            ∷ ("findings", texts [])
            ∷ ("note", text "Stub security scan — connect a real SAST/secret scanner.")
            ∷ [])),
      w,
    );
  }

  unfoldable pub default_tools : Search H → List (ToolDefinition W ToolInput (ToolOutput H))
  unfolding knowledge_search repo_read_tool repo_write_tool schedule_create_tool security_scan_tool
  default_tools search =
      knowledge_search search
      ∷ repo_read_tool
      ∷ repo_write_tool
      ∷ schedule_create_tool
      ∷ security_scan_tool
      ∷ []
