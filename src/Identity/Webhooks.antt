-- ===== src/Identity/Webhooks.antt =====
-- apps/identity/webhooks.py: the admin events that Keycloak posts.
pub mod Events
pub mod Ledger
pub mod Endpoint
pub mod Dedupe
pub mod Admission
pub mod Task
pub mod Reprocess
mod Tests
