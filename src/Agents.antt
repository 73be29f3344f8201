-- ===== src/Agents.antt =====
-- src/agents: what a model answers, the prompts, the four agents and their registry; the stub provider.
pub mod Json
pub mod Output
pub mod Prompt
pub mod Results
pub mod Registry
pub mod Stub
