-- ===== src/Core.antt =====
-- src/core: types.ts (Ids, Records), constants.ts (Constants), and the runtime services that the
-- program calls (Runtime).
pub mod Ids
pub mod Records
pub mod Constants
pub mod Runtime
pub mod Errors
pub mod AgentConfig
