-- ===== src/Identity/Migrations.antt =====
-- The data migrations of apps/identity/migrations.
pub mod Seed
pub mod Merge
