-- ===== src/Lib.antt =====
-- H.A.R.P., an orchestrator of four software agents (Pharaoh, Horus Nexus, Anubis Sentinel and
-- Ra) that work on a task one after another through a model gateway. A strategy fixes the order
-- of the agents, the approval gate holds state-changing work back for a human, the model router
-- and the budget manager bound the tokens, and the concierge sends each prompt, redacted, to a
-- container that serves the model class. Every step leaves an event in the audit log.
--
-- The model follows the sources file by file. Paths are from the repository's root.
--
--   Prelude: Boolean tests, lists over native numbers, texts as code points, maps as
--     association lists, a stable sort, and texts that are split and trimmed.
--   Core: the types, constants, agent configurations and errors of src/core. Core.Runtime
--     stands for randomUUID and the clock: two streams, read at a counter.
--   Security: src/security. Permissions is the PermissionGuard, Approval the ApprovalGate
--     with its providers.
--   Storage: src/storage. Audit is the InMemoryAuditLogger, Memory the InMemoryArtifactStore.
--   Models: src/models. Router is the ModelRouter, Budget the BudgetManager, Resource the
--     ResourceAwareRouter. Budget.Ledger is the quotient of the histories of spends by what
--     each adds to the accounts.
--   Tools: src/tools. Registry is the ToolRegistry, Defaults the five default tools.
--   Orchestration: src/orchestration. Strategies, Selector (StrategySelector), Activation
--     (strategies/advanced), Validator (SequentialValidator) and Context (ContextManager).
--     Workflow and Orchestrator are HarpOrchestrator.ts: what a workflow keeps, and its run,
--     over any registry of agents and any context manager; Orchestrator.Machine is an
--     abstract machine of the loop, with the phases of the approval gate and what the
--     provider answers there.
--   Agents: src/agents. Json is a value that JSON.parse gives, Output the parse of a model's
--     answer, Prompt the prompt, Results what each of the four agents makes of an output,
--     Registry the run of an agent (HarpAgent.execute) and AgentRegistry, Stub the provider
--     of src/models/providers/StubModelProvider.ts.
--   Composition: src/index.ts and src/modelProvider.ts, where the orchestrator gets the four
--     agents and the context manager, and the model router the concierge. Choice is
--     buildModelProvider, with JSON.parse of the list of containers as an argument. Wiring is
--     createHarpSystem, over a process that stands for Node; behind a delivery that is left
--     pending the run does not go on, and anything may stand there. Steps, Trail, Stored,
--     Accounted, Spent, Completes, Approved, Redacted and Wiring.Refuses are about whole
--     workflows of that system.
--   Gateway: src/gateway. Wire is contracts/wire.ts, Registry is routing/Router.ts, Concierge
--     is concierge/Concierge.ts; Redaction is redaction/Redactor.ts, Logging is
--     security/SafeLogger.ts. Certificates is security/CertificateProvider.ts,
--     Certificates.Providers is security/certProviders.ts with security/mtls.ts, Transport is
--     concierge/MtlsHttpTransport.ts, where a delivery resolves, throws or is left pending.
--     Container is the other end of the wire: server.ts and Provider.ts of container/src;
--     Container.Start is the start of its process, index.ts.
--   Governance: src/governance. Knowledge: src/knowledge. Observability: src/observability.
--     Loading: src/context, the ThreadCompactor and the ProgressiveContextLoader.
--   Tests: the theorems at concrete inputs.
--
-- State is passed explicitly. An operation of a class takes the state of its object and returns
-- the new one; a `Map` is an association list in the order of insertion, an append-only array a
-- list with the newest element last. What an operation calls and does not own (the model
-- provider, the transport, the approval provider, the redactor, a tool's run) is a function
-- argument that may read and change a world of any type. A thrown error is the `err` of a
-- Result, and a promise that is rejected likewise; an `await` between a read and a write is
-- modelled where it matters, as the two halves `admit` and `settle` of ModelRouter.generate,
-- and Models.Router.Interleaving is a step relation of calls that overlap in any way.
--
-- Numbers are natural. The source's fractions are exact: scores are kept in hundredths and in
-- common denominators that Orchestration.Selector names, costs in millionths of a dollar,
-- temperatures in tenths. JavaScript's rounding of floating point numbers is not modelled.
-- `Math.max(0, a - b)` is the subtraction of natural numbers, and an infinite budget is a value
-- of its own. `toLowerCase` folds the ASCII letters.
--
-- Regular expressions of the redactor (each by how it cuts a text), JSON.parse and
-- JSON.stringify, the X.509 parser, the URL parser, node:https, the file system and the
-- environment are arguments too. What JSON.parse gives is taken at the type the source casts it
-- to: a request or a response with missing fields is not modelled, and the fields of an object
-- of a model's answer are read at their first occurrence. The keys of a record stand in the
-- order of insertion. A text is cut and measured in UTF-16 units.
--
-- Loops are structural: over the agents of a sequence, the pieces of a context, over the
-- containers of a plan, over the attempts that are left (the retries allowed, which bound the
-- source's loop), over the steps of a validation, and over the checks of a budget. No fuel is
-- used but for decimal numerals, where the number itself and one is enough.
--
-- Not modelled: what the demonstration of src/index.ts prints, NoopObservability, which does
-- nothing (the absent observability of Observability.Optional stands for it). Sockets and the
-- console are I/O.
pub mod Prelude
pub mod Core
pub mod Security
pub mod Storage
pub mod Models
pub mod Gateway
pub mod Governance
pub mod Orchestration
pub mod Tools
pub mod Agents
pub mod Composition
pub mod Tests
pub mod Knowledge
pub mod Observability
pub mod Loading
