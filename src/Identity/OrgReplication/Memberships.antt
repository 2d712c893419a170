-- ===== src/Identity/OrgReplication/Memberships.antt =====
-- Memberships driven by groups (apps/identity/org_replication.py). The transaction runs on the
-- tables of the database, an error undoes it. The clock is read once.
use sgdy_pa_backend.Prelude.{
  ℕ, ◌==◌, Bool, true, false, not, ◌&&◌, none, some, List, [], ◌∷◌, ◌++◌, any, find, select,
  update_where, if◌then◌else◌,
}
use sgdy_pa_backend.Prelude.Text.{Text, text_eq}
use sgdy_pa_backend.Prelude.Json.{end}
use sgdy_pa_backend.Identity.Models.{
  Organization, Role, Membership, MembershipRole, Status, active, revoked, Origin, keycloak, manual,
  is_status_active,
}
use sgdy_pa_backend.Identity.Authorization.{
  Db, Result, ok, authorization_error, contains, is_active_in, assign_membership_role,
}
use sgdy_pa_backend.Identity.Authorization.Roles.{code, label, choices, has_code}
use sgdy_pa_backend.Identity.OrgReplication.Claims.{GroupRef}
use sgdy_pa_backend.Identity.OrgReplication.Organizations.{resolve_or_create_organization}

-- The keys that a new row gets, of the table it goes into.
pub record Keys : Type 0 where
  pub organization_key : List Organization → ℕ
  pub membership_key : List Membership → ℕ
  pub role_key : List Role → ℕ

abbrev pub is_keycloak : Origin → Bool
is_keycloak keycloak = true
is_keycloak manual = false

abbrev pub is_revoked : Status → Bool
is_revoked revoked = true
is_revoked _ = false

-- `_ROLE_NAMES.get(code, code)`
unfoldable pub role_name : Text → Text
role_name c = elim (find (λ s. text_eq (code s) c) choices) [ none ↦ c | some s ↦ label s ]

-- `_get_role`
unfoldable pub get_role : Keys → Text → List Role → Role × List Role
unfolding role_name
get_role keys c roles = elim (find (has_code c) roles) [
  | some r ↦ (r, roles)
  | none ↦
      let r : Role = record {
        id = keys.role_key roles;
        code = c;
        name = role_name c;
        capabilities = [];
        is_system = true;
      } in
      (r, roles ++ r ∷ [])
]

-- The loop of `_sync_membership_roles`.
unfoldable pub assign_codes : Keys → (now : ℕ) → Membership → List Text → Db → Result Db
unfolding get_role assign_membership_role
assign_codes keys now m [] db = ok db
assign_codes keys now m (c ∷ rest) db =
    let (role, roles) = get_role keys c db.roles in
    elim (assign_membership_role now db.organizations m role db.membership_roles) [
      | authorization_error ↦ authorization_error
      | ok links ↦
          assign_codes keys now m rest (record db { roles = roles; membership_roles = links })
    ]

-- `role__code__in=role_codes`, of the role that an assignment refers to.
abbrev pub has_code_in : List Text → List Role → MembershipRole → Bool
has_code_in codes roles a = any (λ r. (r.id == a.role_id) && contains r.code codes) roles

-- `_sync_membership_roles`
unfoldable pub sync_membership_roles :
    Keys → (now : ℕ) → Membership → List Text → (prune : Bool) → Db → Result Db
unfolding assign_codes
sync_membership_roles keys now m codes prune db =
    if not (is_active_in now db.organizations m)
    then ok db
    else elim (assign_codes keys now m codes db) [
      | authorization_error ↦ authorization_error
      | ok db' ↦
          if prune
          then ok (record db' {
            membership_roles =
                select (λ a. not ((a.membership_id == m.id) && not (has_code_in codes db'.roles a)))
                  db'.membership_roles;
          })
          else ok db'
    ]

-- `membership.status = s`, saved.
unfoldable pub save_status : Status → Membership → List Membership → List Membership
save_status s m = update_where (λ row. row.id == m.id) (λ row. record row { status = s })

abbrev pub is_member : (user org : ℕ) → Membership → Bool
is_member user org row = (row.user_id == user) && (row.organization_id == org)

-- `Membership.objects.get_or_create(organization=org, user=user, defaults=...)`
unfoldable pub get_or_create_membership :
    Keys → (user org : ℕ) → List Membership → Membership × List Membership
get_or_create_membership keys user org table = elim (find (is_member user org) table) [
  | some m ↦ (m, table)
  | none ↦
      let m : Membership = record {
        id = keys.membership_key table;
        organization_id = org;
        user_id = user;
        status = active;
        origin = keycloak;
        scope = end;
        expires_at = none;
      } in
      (m, table ++ m ∷ [])
]

-- The state of the loop over the groups: the tables, the objects of `by_org_id` (a key has at most
-- one, by the unique constraint on organization and user), and the two sets.
pub record Visit : Type 0 where
  pub db : Db
  pub by_org_id : List Membership
  pub desired_org_ids : List ℕ
  pub active_org_ids : List ℕ

-- `by_org_id.get(org.id)`, or a new row.
unfoldable pub membership_for : Keys → (user org : ℕ) → Visit → Membership × Visit
unfolding get_or_create_membership
membership_for keys user org v = elim (find (λ m. m.organization_id == org) v.by_org_id) [
  | some m ↦ (m, v)
  | none ↦
      let (m, table) = get_or_create_membership keys user org v.db.memberships in
      (m, record v { db = record v.db { memberships = table }; by_org_id = m ∷ v.by_org_id })
]

-- The object is shared with `by_org_id`.
unfoldable pub activate : Membership → Visit → Membership × Visit
unfolding save_status
activate m v = if is_status_active m.status then (m, v) else (
  record m { status = active },
  record v {
    db = record v.db { memberships = save_status active m v.db.memberships };
    by_org_id = save_status active m v.by_org_id;
  },
)

unfoldable pub visit_membership :
    Keys
    → (now : ℕ) → (codes : List Text) → (prune : Bool) → (org : ℕ) → Membership
    → Visit
    → Result Visit
unfolding activate sync_membership_roles
visit_membership keys now codes prune org m v =
    if not (is_keycloak m.origin)
    then ok v
    else (let (m', v') = activate m v in
        elim (sync_membership_roles keys now m' codes prune v'.db) [
          | authorization_error ↦ authorization_error
          | ok db ↦ ok (record v' { db = db; active_org_ids = org ∷ v'.active_org_ids })
        ])

module _ (slugify : Text → Text) (keys : Keys) (now user : ℕ) where
  -- One round of the loop over the groups.
  unfoldable pub visit_group : List Text → (prune : Bool) → GroupRef → Visit → Result Visit
  unfolding membership_for visit_membership
  visit_group codes prune ref v =
      let (resolved, orgs) =
        resolve_or_create_organization slugify keys.organization_key ref v.db.organizations in
      let read = record v { db = record v.db { organizations = orgs } } in
      elim resolved [
        | none ↦ ok read
        | some org ↦
            let (m, v') =
              membership_for keys user org.id
                (record read { desired_org_ids = org.id ∷ read.desired_org_ids }) in
            visit_membership keys now codes prune org.id m v'
      ]

  unfoldable pub visit_groups : List Text → (prune : Bool) → List GroupRef → Visit → Result Visit
  unfolding visit_group
  visit_groups codes prune [] v = ok v
  visit_groups codes prune (ref ∷ rest) v = elim (visit_group codes prune ref v) [
    | authorization_error ↦ authorization_error
    | ok v' ↦ visit_groups codes prune rest v'
  ]
