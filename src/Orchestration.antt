-- ===== src/Orchestration.antt =====
-- src/orchestration: strategies, their selection and activation, the validator, the context manager and
-- the orchestrator.
pub mod Strategies
pub mod Selector
pub mod Validator
pub mod Activation
pub mod Context
pub mod Workflow
pub mod Orchestrator
