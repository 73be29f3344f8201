-- ===== src/Security.antt =====
-- src/security: the approval gate and the permission guard.
pub mod Approval
pub mod Permissions
