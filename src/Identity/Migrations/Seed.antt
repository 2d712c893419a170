-- ===== src/Identity/Migrations/Seed.antt =====
-- apps/identity/migrations/0003_rbac_roles_capabilities.py: the system roles, which the migration
-- writes out again.
pub mod Seeded
mod Tests
use sgdy_pa_backend.Prelude.{
  ℕ, ◌==◌, Bool, true, not, Option, none, some, List, [], ◌∷◌, any, select, update_where,
  if◌then◌else◌,
}
use sgdy_pa_backend.Prelude.Text.{Text, lit, text_eq}
use sgdy_pa_backend.Identity.Models.{Role, MembershipRole}
use sgdy_pa_backend.Identity.Authorization.Roles.{has_code, sorted}

-- An item of the dictionary `roles`.
pub record SeedItem : Type 0 where
  pub code : Text
  pub name : Text
  pub capabilities : List Text

abbrev pub seed_items : List SeedItem
seed_items =
    record {
      code = lit "P1";
      name = lit "Auditor Líder";
      capabilities =
          lit "manage_findings"
          ∷ lit "decide_closure_branch"
          ∷ lit "verify_capa_effectiveness"
          ∷ lit "read"
          ∷ [];
    }
    ∷ record {
      code = lit "P2";
      name = lit "Auditor";
      capabilities = lit "manage_findings" ∷ lit "read" ∷ [];
    }
    ∷ record {
      code = lit "P3";
      name = lit "Auditado";
      capabilities = lit "appeal_finding_fact" ∷ lit "create_capa" ∷ lit "read" ∷ [];
    }
    ∷ record {
      code = lit "P4";
      name = lit "Gestor Documental";
      capabilities = lit "request_disposition" ∷ lit "read" ∷ [];
    }
    ∷ record {
      code = lit "P5";
      name = lit "Responsable de Programa";
      capabilities =
          lit "commission_audit"
          ∷ lit "verify_capa_effectiveness"
          ∷ lit "approve_disposition"
          ∷ lit "read"
          ∷ [];
    }
    ∷ record {
      code = lit "P6";
      name = lit "Administrador del Tenant";
      capabilities = lit "manage_memberships" ∷ lit "read" ∷ [];
    }
    ∷ record { code = lit "P7"; name = lit "Auditor Externo"; capabilities = lit "read" ∷ [] }
    ∷ []

-- The columns under `defaults`.
unfoldable pub item_defaults : SeedItem → Role → Role
unfolding sorted
item_defaults s r = record r {
  name = s.name;
  capabilities = sorted s.capabilities;
  is_system = true;
}

module _ (uuid4 : List Role → ℕ) where
  unfoldable pub seed_item : SeedItem → List Role → List Role
  unfolding item_defaults
  seed_item s table =
      if any (has_code s.code) table
      then update_where (has_code s.code) (item_defaults s) table
      else item_defaults s (record {
        id = uuid4 table;
        code = s.code;
        name = [];
        capabilities = [];
        is_system = true;
      })
        ∷ table

  unfoldable pub seed_items_from : List SeedItem → List Role → List Role
  unfolding seed_item
  seed_items_from [] table = table
  seed_items_from (s ∷ rest) table = seed_items_from rest (seed_item s table)

  -- The migration's `seed_system_roles`
  unfoldable pub migrate_roles : List Role → List Role
  unfolding seed_items_from
  migrate_roles = seed_items_from seed_items

abbrev pub seeded_codes : List Text
seeded_codes = lit "P1" ∷ lit "P2" ∷ lit "P3" ∷ lit "P4" ∷ lit "P5" ∷ lit "P6" ∷ lit "P7" ∷ []

abbrev pub is_seeded : Role → Bool
is_seeded r = any (λ c. text_eq r.code c) seeded_codes

-- `unseed_system_roles`: a role that is assigned is protected, and none is deleted.
unfoldable pub unseed_system_roles : List MembershipRole → List Role → Option (List Role)
unseed_system_roles links table =
    if any (λ r. any (λ a. a.role_id == r.id) links) (select is_seeded table)
    then none
    else some (select (λ r. not (is_seeded r)) table)
