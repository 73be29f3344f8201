-- ===== src/Loading.antt =====
-- src/context: the thread compactor and the progressive context loader.
pub mod Compactor
pub mod Progressive
