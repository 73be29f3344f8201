-- ===== src/Storage.antt =====
-- src/storage: the audit log and the artifact store.
pub mod Audit
pub mod Memory
