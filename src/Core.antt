-- ===== src/Core.antt =====
-- packages/core/src: what every module builds on.
pub mod Result
pub mod Rbac
pub mod Payments
pub mod Ingestion
mod Samples
