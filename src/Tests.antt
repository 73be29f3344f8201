-- ===== src/Tests.antt =====
-- Tests: the theorems at concrete inputs, and the definitions evaluated there.
mod Samples
pub mod Gateway
pub mod Models
pub mod Security
pub mod Orchestration
pub mod Tools
pub mod Workflow
pub mod Wiring
pub mod Start
pub mod Agents
pub mod Services
pub mod Composition
pub mod Knowledge
