-- ===== src/Models.antt =====
-- src/models: the model router, the budget manager and the resource-aware router.
pub mod Router
pub mod Budget
pub mod Resource
