-- ===== src/Identity/Migrations/Seed/Tests.antt =====
-- The migration of the roles at a concrete table: the theorems applied.
use sgdy_pa_backend.Prelude.{ℕ, ◌≡◌, refl, suc, false, some, List, [], ◌∷◌, length}
use sgdy_pa_backend.Prelude.Text.{lit, text_eq}
use sgdy_pa_backend.Identity.Models.{Role, MembershipRole}
use sgdy_pa_backend.Identity.Authorization.Roles.{seed_system_roles}
use sgdy_pa_backend.Identity.Migrations.Seed.{migrate_roles, unseed_system_roles}
use sgdy_pa_backend.Identity.Migrations.Seed.Seeded.{migrate_roles_same, unseed-migrate_roles}

abbrev new_key : List Role → ℕ
new_key table = suc (length table)

abbrev guest : Role
guest = record {
  id = 0;
  code = lit "guest";
  name = lit "Invitado";
  capabilities = [];
  is_system = false;
}

abbrev old_p2 : Role
old_p2 = record guest { code = lit "P2" }

abbrev guest_link : List MembershipRole
guest_link = record { membership_id = 4; role_id = 0 } ∷ []

migrate_roles_same_example :
    migrate_roles new_key (old_p2 ∷ []) ≡ seed_system_roles new_key (old_p2 ∷ [])
migrate_roles_same_example = migrate_roles_same new_key (old_p2 ∷ [])

unseed-migrate_roles_example :
    unseed_system_roles guest_link (migrate_roles new_key (guest ∷ [])) ≡ some (guest ∷ [])
unfolding migrate_roles text_eq
unseed-migrate_roles_example = unseed-migrate_roles new_key guest_link (guest ∷ []) (refl, tt) refl
