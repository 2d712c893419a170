-- ===== src/Identity/OrgReplication.antt =====
-- apps/identity/org_replication.py: Keycloak groups drive organizations and memberships.
pub mod Claims
pub mod Organizations
pub mod Memberships
pub mod Reconcile
pub mod Spared
pub mod Kept
pub mod Removal
pub mod Login
pub mod Manual
pub mod Frozen
mod Tests
