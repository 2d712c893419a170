-- ===== src/Platform.antt =====
-- apps/platform: what every request passes, error answers, idempotency keys and jobs.
pub mod Http
pub mod Errors
pub mod Idempotency
pub mod Jobs
pub mod Tenancy
pub mod Middleware
pub mod Pipeline
