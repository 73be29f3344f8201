-- ===== src/Governance.antt =====
-- src/governance/mapping.ts: the controls by the frameworks that ask for them, and their summary.
use harp_ochestration.Prelude.{
  ℕ, ◌+◌, String, List, [], ◌∷◌, ◌≡◌, refl, Eq, eq_of_discrete, ◌==◌, filter, length, join, decimal,
  ◌⧺◌, if◌then◌else◌, arith, decide,
}

pub data Framework : Type 0 where
  nist_ai_rmf iso_42001 : Framework

pub data ControlStatus : Type 0 where
  implemented scaffolded planned : ControlStatus

unfoldable pub ControlStatus-discrete : Discrete ControlStatus
ControlStatus-discrete = hlevel

instance abbrev pub control_status_eq : Eq ControlStatus
control_status_eq = eq_of_discrete ControlStatus-discrete

pub record ControlMapping : Type 0 where
  pub framework : Framework
  -- A function of NIST or a clause of ISO.
  pub reference : String
  pub requirement : String
  pub control : String
  pub implemented_by : List String
  pub status : ControlStatus

abbrev pub governance_mapping : List ControlMapping
governance_mapping =
    record {
      framework = nist_ai_rmf;
      reference = "Govern";
      requirement =
          "Define roles, responsibilities, permissions, and accountability for the AI system.";
      control =
          "Core Four agents have fixed roles; least-privilege permission map enforced at runtime.";
      implemented_by =
          "src/core/agentConfig.ts" ∷ "src/security/PermissionGuard.ts"
          ∷ "src/tools/ToolRegistry.ts" ∷ [];
      status = implemented;
    }
    ∷ record {
      framework = nist_ai_rmf;
      reference = "Govern";
      requirement = "Human oversight and approval authority over high-impact actions.";
      control = "Approval gate blocks state-changing work pending human sign-off.";
      implemented_by =
          "src/security/ApprovalGate.ts" ∷ "src/orchestration/HarpOrchestrator.ts" ∷ [];
      status = implemented;
    }
    ∷ record {
      framework = nist_ai_rmf;
      reference = "Map";
      requirement = "Identify task context, risk level, data involved, and approval requirements.";
      control =
          "Tasks carry explicit risk level and flags (repo write, secrets, reversibility); strategy selection classifies before execution.";
      implemented_by = "src/core/types.ts" ∷ "src/orchestration/StrategySelector.ts" ∷ [];
      status = implemented;
    }
    ∷ record {
      framework = nist_ai_rmf;
      reference = "Measure";
      requirement = "Measure model cost, latency, token spend, error rates, and risk findings.";
      control =
          "OpenTelemetry-shaped traces/metrics; per-call cost records; multi-scope budget tracking.";
      implemented_by =
          "src/observability/types.ts" ∷ "src/models/ModelRouter.ts" ∷ "src/models/BudgetManager.ts"
          ∷ [];
      status = implemented;
    }
    ∷ record {
      framework = nist_ai_rmf;
      reference = "Manage";
      requirement =
          "Manage risk via mitigation, fallback strategies, budget controls, and incident handling.";
      control =
          "Tiered failover with no silent downgrade; budget downshift/cutoff; structured failure results.";
      implemented_by =
          "src/gateway/concierge/Concierge.ts" ∷ "src/models/BudgetManager.ts"
          ∷ "src/orchestration/HarpOrchestrator.ts" ∷ [];
      status = implemented;
    }
    ∷ record {
      framework = iso_42001;
      reference = "Clause 5 (Leadership)";
      requirement = "Establish clear roles and accountability for the AI management system.";
      control = "Documented agent roles and human-led orchestration (managed-contractor model).";
      implemented_by = "src/core/agentConfig.ts" ∷ "AGENTS.md" ∷ "AIOS_PROTOCOL.md" ∷ [];
      status = implemented;
    }
    ∷ record {
      framework = iso_42001;
      reference = "Clause 6 (Planning)";
      requirement = "Conduct AI system impact assessment and risk-based planning.";
      control = "Risk classification and coordination-strategy scoring per task.";
      implemented_by = "src/orchestration/StrategySelector.ts" ∷ [];
      status = implemented;
    }
    ∷ record {
      framework = iso_42001;
      reference = "Clause 9 (Performance Evaluation)";
      requirement = "Monitor, measure, and audit the AI system; retain reconstructable records.";
      control = "Append-only audit log queryable by workflow/task/actor; metadata-only telemetry.";
      implemented_by = "src/storage/AuditLogger.ts" ∷ "src/observability/types.ts" ∷ [];
      status = implemented;
    }
    ∷ record {
      framework = nist_ai_rmf;
      reference = "Govern";
      requirement = "Secure service-to-service communication and workload identity.";
      control =
          "Mutual TLS between concierge and containers; pluggable cert provider; production fail-closed on dev material; SPIFFE/Vault-ready.";
      implemented_by =
          "src/gateway/security/mtls.ts" ∷ "src/gateway/security/CertificateProvider.ts"
          ∷ "src/gateway/security/certProviders.ts" ∷ [];
      status = implemented;
    }
    ∷ record {
      framework = nist_ai_rmf;
      reference = "Manage";
      requirement = "Support advanced risk-reduction coordination patterns under explicit control.";
      control =
          "Chain-of-Debates, Loose Coalitions, and Aufheben strategies are registered, audited, and config-gated — DISABLED pending real-model validation.";
      implemented_by = "src/orchestration/strategies/advanced/" ∷ [];
      status = scaffolded;
    }
    ∷ []

-- The local function `byStatus`.
unfoldable pub by_status : ControlStatus → List ControlMapping → ℕ
by_status s mapping = length (filter (λ m. m.status == s) mapping)

unfoldable pub summary_of : List ControlMapping → String
unfolding by_status decimal
summary_of mapping = join "\n" (
    "H.A.R.P. Governance Mapping (ISO/IEC 42001 & NIST AI RMF)"
    ∷ ("Implemented controls: " ⧺ decimal (by_status implemented mapping))
    ∷ ("Scaffolded (gated) controls: " ⧺ decimal (by_status scaffolded mapping))
    ∷ ("Planned controls: " ⧺ decimal (by_status planned mapping))
    ∷ ""
    ∷ "Note: mapping supports audit readiness; certification requires external review."
    ∷ [])

-- `governanceSummary`
unfoldable pub governance_summary : String
unfolding summary_of
governance_summary = summary_of governance_mapping

-- A status is one of the three.
one_status :
    (s : ControlStatus)
    → (if s == implemented then 1 else 0)
        + (if s == scaffolded then 1 else 0)
        + (if s == planned then 1 else 0)
      ≡ 1
unfolding ControlStatus-discrete decide
one_status implemented = refl
one_status _ = refl

-- The three numbers of the summary count every control of a mapping once.
pub by_status-total :
    (mapping : List ControlMapping)
    → by_status implemented mapping + by_status scaffolded mapping + by_status planned mapping
      ≡ length mapping
unfolding by_status
by_status-total [] = refl
by_status-total (m ∷ mapping) = ground (arith, one_status m.status, by_status-total mapping)

-- Nine controls are implemented, one is scaffolded, none is planned.
governance_counts :
    (by_status implemented governance_mapping ≡ 9)
    × (by_status scaffolded governance_mapping ≡ 1)
    × (by_status planned governance_mapping ≡ 0)
unfolding by_status ControlStatus-discrete decide
governance_counts = (refl, refl, refl)
