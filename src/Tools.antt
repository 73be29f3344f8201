-- ===== src/Tools.antt =====
-- src/tools: the registry that every tool call goes through, and the default tools.
pub mod Registry
pub mod Guards
pub mod Defaults
pub mod Writes
