-- ===== src/Identity.antt =====
-- apps/identity: organizations, users, memberships and roles, and what Keycloak replicates.
pub mod Models
pub mod Authorization
pub mod Projection
pub mod OrgReplication
pub mod Webhooks
pub mod Authentication
pub mod Migrations
pub mod Api
