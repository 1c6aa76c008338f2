-- ===== src/Infra.antt =====
-- apps/api/src/infra: the names of Redis keys, and Redis itself as an interface.
pub mod Keys
pub mod Redis
