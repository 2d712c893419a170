-- ===== src/Identity/Api/Tests.antt =====
-- The membership API at concrete tables: runs of the definitions, and the theorems applied.
use sgdy_pa_backend.Identity.Authorization.{is_third_party_read}
use sgdy_pa_backend.Identity.Authorization.{contains}
use sgdy_pa_backend.Identity.Authorization.{roles_of}
use sgdy_pa_backend.Identity.Authorization.{membership_has_capability}
use sgdy_pa_backend.Identity.Models.{is_active}
use sgdy_pa_backend.Identity.Authorization.{is_active_in}
use sgdy_pa_backend.Identity.Authorization.{active_membership}
use sgdy_pa_backend.Identity.Authorization.{require_capability}
use sgdy_pa_backend.Prelude.{
  ℕ, ◌≡◌, ◌∙◌, sym, ap, refl, inl, inr, suc, true, false, Bool, Option, none, some, List, [], ◌∷◌,
  In, length, arith,
}
use sgdy_pa_backend.Prelude.Text.{Text, lit, text_eq}
use sgdy_pa_backend.Prelude.Json.{Json, end}
use sgdy_pa_backend.Identity.Models.{
  Organization, User, Role, Membership, active, invited, revoked, manual,
}
use sgdy_pa_backend.Identity.Authorization.{Db, user_has_capability}
use sgdy_pa_backend.Identity.Authorization.Roles.{value, manage_memberships}
use sgdy_pa_backend.Identity.Authorization.Decision.{IsUnique}
use sgdy_pa_backend.Platform.Errors.{http404}
use sgdy_pa_backend.Identity.Api.{
  MembershipCall, create, remove_role, returned, raises, perform, list_organizations, get_orgs,
}
use sgdy_pa_backend.Identity.Api.Isolation.{IsIsolated, perform-IsIsolated}

abbrev never_equal : Json → Json → Bool
never_equal a b = false

abbrev parse_one : Text → Option ℕ
parse_one t = some 1

abbrev new_id : List Membership → ℕ
new_id t = suc (length t)

abbrev acme : Organization
acme = record {
  id = 7;
  name = lit "Acme";
  slug = lit "acme";
  is_active = true;
  keycloak_group_id = none;
  keycloak_group_path = [];
}

abbrev admin : Role
admin = record {
  id = 6;
  code = lit "P6";
  name = lit "Administrador del Tenant";
  capabilities = lit "manage_memberships" ∷ [];
  is_system = true;
}

abbrev admin_row : Membership
admin_row = record {
  id = 0;
  organization_id = 7;
  user_id = 3;
  status = active;
  origin = manual;
  scope = end;
  expires_at = none;
}

abbrev left_row : Membership
left_row = record admin_row { id = 1; organization_id = 8; status = revoked }

abbrev tables : Db
tables = record {
  organizations = acme ∷ record acme { id = 8 } ∷ [];
  memberships = admin_row ∷ left_row ∷ [];
  roles = admin ∷ [];
  membership_roles = record { membership_id = 0; role_id = 6 } ∷ [];
}

abbrev bob : User
bob = record {
  id = 4;
  username = lit "bob";
  email = [];
  first_name = [];
  last_name = [];
  display_name = [];
  email_verified = false;
  is_active = true;
  keycloak_sub = none;
}

abbrev invite : MembershipCall
invite =
    create (some (lit "k"))
      (some (record { user_id = 4; status = none; alcance = none; expira_en = none }))

abbrev bob_row : Membership
bob_row = record admin_row { id = 3; user_id = 4; status = invited }

abbrev invited_tables : Db
invited_tables = record tables { memberships = bob_row ∷ admin_row ∷ left_row ∷ [] }

invite_run :
    perform never_equal parse_one new_id 5 3 7 invite (bob ∷ []) tables
    ≡ returned 201 invited_tables
unfolding perform require_capability user_has_capability active_membership is_active_in is_active
    membership_has_capability roles_of contains text_eq is_third_party_read
invite_run = refl

-- A membership of another organization is not found.
other_organization_run :
    perform never_equal parse_one new_id 5 3 7 (remove_role 1 6) [] tables ≡ raises http404
unfolding perform require_capability user_has_capability active_membership is_active_in is_active
    membership_has_capability roles_of contains text_eq is_third_party_read
other_organization_run = refl

-- An organization that the user has left is in one list, and not in the other.
left_run : (list_organizations 3 tables ≡ tables.organizations) × (get_orgs 3 tables ≡ acme ∷ [])
unfolding list_organizations get_orgs
left_run = (refl, refl)

different : {x y : Membership} → x ≡ admin_row → y ≡ left_row → x.id ≡ y.id → ⊥
different {x} {y} ex ey same =
    let ix : x.id ≡ 0 = ap (λ m. m.id) ex in let iy : y.id ≡ 1 = ap (λ m. m.id) ey in omega arith

keyed : (x y : Membership) → In x tables.memberships → In y tables.memberships → x.id ≡ y.id → x ≡ y
keyed x y (inl ex) (inl ey) same = ex ∙ sym ey
keyed x y (inl ex) (inr (inl ey)) same = absurd (different ex ey same)
keyed x y (inl ex) (inr (inr m)) same = absurd m
keyed x y (inr (inl ex)) (inl ey) same = absurd (different ey ex (sym same))
keyed x y (inr (inl ex)) (inr (inl ey)) same = ex ∙ sym ey
keyed x y (inr (inl ex)) (inr (inr m)) same = absurd m
keyed x y (inr (inr m)) my same = absurd m

apart :
    {x y : Membership} → x ≡ admin_row → y ≡ left_row → x.organization_id ≡ y.organization_id → ⊥
apart {x} {y} ex ey same =
    let ix : x.organization_id ≡ 7 = ap (λ m. m.organization_id) ex in
    let iy : y.organization_id ≡ 8 = ap (λ m. m.organization_id) ey in omega arith

unique : IsUnique never_equal tables.memberships
unique x y (inl ex) (inl ey) o u = ex ∙ sym ey
unique x y (inl ex) (inr (inl ey)) o u = absurd (apart ex ey o)
unique x y (inl ex) (inr (inr m)) o u = absurd m
unique x y (inr (inl ex)) (inl ey) o u = absurd (apart ey ex (sym o))
unique x y (inr (inl ex)) (inr (inl ey)) o u = ex ∙ sym ey
unique x y (inr (inl ex)) (inr (inr m)) o u = absurd m
unique x y (inr (inr m)) my o u = absurd m

perform-IsIsolated_example :
    (user_has_capability never_equal 5 tables 3 7 (value manage_memberships) none ≡ true)
    × IsIsolated never_equal parse_one new_id 5 3 7 tables invited_tables
    × IsUnique never_equal invited_tables.memberships
    × (invited_tables.organizations ≡ tables.organizations)
    × (invited_tables.roles ≡ tables.roles)
perform-IsIsolated_example =
    perform-IsIsolated never_equal parse_one new_id 5 3 7 invite (bob ∷ []) tables invited_tables
      201 keyed unique invite_run
