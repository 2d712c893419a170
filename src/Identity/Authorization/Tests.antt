-- ===== src/Identity/Authorization/Tests.antt =====
-- Roles, assignments and access decisions at concrete inputs: runs, and the theorems applied.
use sgdy_pa_backend.Prelude.{
  ℕ, ◌==◌, ◌≡◌, ◌↔◌, ◌⊎◌, inl, inr, refl, true, false, not, ◌&&◌, ◌||◌, none, some, List, [], ◌∷◌,
  In, length, ◌∙◌, sym,
}
use sgdy_pa_backend.Prelude.Text.{text_eq, lit}
use sgdy_pa_backend.Prelude.Json.{Json, end}
use sgdy_pa_backend.Identity.Models.{
  is_active, Organization, active, keycloak, Role, Membership, MembershipRole,
}
use sgdy_pa_backend.Identity.Authorization.{
  Db, ok, authorization_error, is_active_in, assign_membership_role, revoke_membership_role,
  membership_has_capability, user_has_capability, require_capability, active_membership, Bool,
  roles_of, contains, is_third_party_read,
}
use sgdy_pa_backend.Identity.Authorization.Roles.{
  value, read, manage_memberships, request_disposition, approve_disposition, SystemRole, p4, p5, p6,
  p7, code, with_defaults, seed_system_roles, update_or_create,
}
use sgdy_pa_backend.Identity.Authorization.Decision.{
  IsGranted, IsUnique, Permits, membership_has_capability_iff, user_has_capability_iff,
  require_capability_cases,
}
use sgdy_pa_backend.Identity.Authorization.Assignment.{
  linked, linked-revoke, assign_membership_role_lem,
}
use sgdy_pa_backend.Identity.Authorization.Seeding.{
  IsSeeded, seed_system_roles-IsSeeded, seeded_duties,
}

abbrev never_equal : Json → Json → Bool
never_equal a b = false

abbrev acme : Organization
acme = record {
  id = 7;
  name = lit "Acme";
  slug = lit "acme";
  is_active = true;
  keycloak_group_id = none;
  keycloak_group_path = [];
}

abbrev admin : Role
admin = record {
  id = 1;
  code = lit "P6";
  name = lit "Administrador del Tenant";
  capabilities = value manage_memberships ∷ value read ∷ [];
  is_system = true;
}

abbrev member : Membership
member = record {
  id = 20;
  organization_id = 7;
  user_id = 3;
  status = active;
  origin = keycloak;
  scope = end;
  expires_at = some 100;
}

abbrev tables : Db
tables = record {
  organizations = acme ∷ [];
  memberships = member ∷ [];
  roles = admin ∷ [];
  membership_roles = record { membership_id = 20; role_id = 1 } ∷ [];
}

may_manage : user_has_capability never_equal 50 tables 3 7 (value manage_memberships) none ≡ true
unfolding user_has_capability active_membership membership_has_capability is_active_in is_active
    roles_of contains is_third_party_read text_eq
may_manage = refl

expired : user_has_capability never_equal 100 tables 3 7 (value manage_memberships) none ≡ false
unfolding user_has_capability active_membership membership_has_capability is_active_in is_active
    roles_of contains is_third_party_read text_eq
expired = refl

membership_has_capability_iff_example :
    (membership_has_capability never_equal 50 tables member (value manage_memberships) none ≡ true)
    ↔ IsGranted never_equal 50 tables member (value manage_memberships) none
membership_has_capability_iff_example =
    membership_has_capability_iff never_equal 50 tables member (value manage_memberships) none

one_row : IsUnique never_equal tables.memberships
one_row m m' (inl e) (inl e') same_org same_user = e ∙ sym e'
one_row m m' (inr h) h' same_org same_user = absurd h
one_row m m' (inl e) (inr h) same_org same_user = absurd h

user_has_capability_iff_example :
    (user_has_capability never_equal 50 tables 3 7 (value manage_memberships) none ≡ true)
    ↔ Permits never_equal 50 tables 3 7 (value manage_memberships) none
user_has_capability_iff_example =
    user_has_capability_iff never_equal 50 tables 3 7 (value manage_memberships) none one_row

require_capability_cases_example :
    ((require_capability never_equal 50 tables 3 8 (value read) none ≡ ok tt)
      × Permits never_equal 50 tables 3 8 (value read) none)
    ⊎ ((require_capability never_equal 50 tables 3 8 (value read) none ≡ authorization_error)
        × ¬ (Permits never_equal 50 tables 3 8 (value read) none))
require_capability_cases_example =
    require_capability_cases never_equal 50 tables 3 8 (value read) none one_row

assign_membership_role_lem_example :
    ((is_active_in 50 (acme ∷ []) member ≡ false)
      × (assign_membership_role 50 (acme ∷ []) member admin [] ≡ authorization_error))
    ⊎ ((table' : List MembershipRole) × (is_active_in 50 (acme ∷ []) member ≡ true)
        × (assign_membership_role 50 (acme ∷ []) member admin [] ≡ ok table')
        × ((i j : ℕ) → linked i j table' ≡ (linked i j [] || ((i == 20) && (j == 1))))
        × (assign_membership_role 50 (acme ∷ []) member admin table' ≡ ok table'))
assign_membership_role_lem_example = assign_membership_role_lem member admin 50 (acme ∷ []) []

linked-revoke_example :
    linked 20 1 (revoke_membership_role member admin tables.membership_roles)
    ≡ (linked 20 1 tables.membership_roles && not ((20 == 20) && (1 == 1)))
linked-revoke_example = linked-revoke member admin 20 1 tables.membership_roles

seed_system_roles-IsSeeded_example :
    ((s : SystemRole) → IsSeeded s (seed_system_roles length (admin ∷ [])))
    × (seed_system_roles length (seed_system_roles length (admin ∷ []))
        ≡ seed_system_roles length (admin ∷ []))
seed_system_roles-IsSeeded_example = seed_system_roles-IsSeeded length (admin ∷ [])

abbrev external_auditor : Role
external_auditor =
    with_defaults p7
      (record { id = 6; code = code p7; name = []; capabilities = []; is_system = true })

seeded_duties_example :
    (In (value manage_memberships) external_auditor.capabilities ↔ (p7 ≡ p6))
    × (In (value request_disposition) external_auditor.capabilities ↔ (p7 ≡ p4))
    × (In (value approve_disposition) external_auditor.capabilities ↔ (p7 ≡ p5))
unfolding seed_system_roles update_or_create with_defaults text_eq
seeded_duties_example = seeded_duties length [] external_auditor p7 (inl refl) refl
