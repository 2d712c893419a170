-- ===== src/Identity/OrgReplication/Tests.antt =====
-- The replication of groups at concrete inputs: runs of the definitions, and the theorems applied.
use sgdy_pa_backend.Prelude.{
  ℕ, suc, ◌+◌, ◌≡◌, ◌≢◌, ◌⊎◌, inl, refl, true, false, none, some, List, [], ◌∷◌, any, In, arith,
}
use sgdy_pa_backend.Prelude.Text.{Text, lit, text_eq}
use sgdy_pa_backend.Prelude.Json.{str, arr, obj, nil, cons, Fields, end, field, get}
use sgdy_pa_backend.Prelude.Strings.{strip_of, split}
use sgdy_pa_backend.Identity.Models.{
  Organization, Membership, active, is_active, keycloak, manual, revoked,
}
use sgdy_pa_backend.Identity.Authorization.{Db, ok, contains}
use sgdy_pa_backend.Identity.OrgReplication.Claims.{
  GroupRef, parse_groups_from_claims, parse_role_codes_from_claims, normalize_path,
}
use sgdy_pa_backend.Identity.OrgReplication.Organizations.{
  find_organization, resolve_or_create_organization, slug_for, org_name,
  sync_organization_from_group, synced,
}
use sgdy_pa_backend.Identity.OrgReplication.Frozen.{
  IsExtended, resolve_or_create_organization-IsExtended, sync_organization_from_group-IsExtended,
}
use sgdy_pa_backend.Identity.OrgReplication.Memberships.{Keys, visit_groups}
use sgdy_pa_backend.Identity.OrgReplication.Reconcile.{
  ReconcileResult, reconcile_user_memberships, reconcile_from_claims, apply_group_membership_change,
}
use sgdy_pa_backend.Identity.OrgReplication.Spared.{has_id, IsKept}
use sgdy_pa_backend.Identity.OrgReplication.Kept.{IsFresh}
use sgdy_pa_backend.Identity.OrgReplication.Removal.{IsRemoved}
use sgdy_pa_backend.Identity.OrgReplication.Login.{has, organizations_of, reconcile-IsRemoved}
use sgdy_pa_backend.Identity.OrgReplication.Manual.{
  reconcile_from_claims-IsKept, apply_group_membership_change-IsKept,
}

abbrev plain_slug : Text → Text
plain_slug s = s

-- A key above every key of the table.
abbrev next_key : List Membership → ℕ
next_key [] = 0
next_key (m ∷ t) = suc (m.id + next_key t)

abbrev keys : Keys
keys = record { organization_key = λ orgs. 9; membership_key = next_key; role_key = λ roles. 5 }

above_keys : (k n : ℕ) (t : List Membership) → n ≡ next_key t + k → any (has_id n) t ≡ false
above_keys k n [] e = refl
above_keys k n (m ∷ t) e = ground (arith, above_keys (suc (m.id + k)) n t)

keys-IsFresh : IsFresh keys
keys-IsFresh t = above_keys 0 (next_key t) t (omega arith)

abbrev acme : Organization
acme = record {
  id = 7;
  name = lit "Acme";
  slug = lit "acme";
  is_active = true;
  keycloak_group_id = none;
  keycloak_group_path = lit "/acme";
}

abbrev legacy : Organization
legacy = record acme { id = 8; slug = lit "legacy"; keycloak_group_path = [] }

abbrev synced_row : Membership
synced_row = record {
  id = 20;
  organization_id = 7;
  user_id = 3;
  status = active;
  origin = keycloak;
  scope = end;
  expires_at = none;
}

abbrev manual_row : Membership
manual_row = record synced_row { id = 21; organization_id = 8; origin = manual }

abbrev tables : Db
tables = record {
  organizations = acme ∷ legacy ∷ [];
  memberships = synced_row ∷ manual_row ∷ [];
  roles = [];
  membership_roles =
      record { membership_id = 20; role_id = 1 } ∷ record { membership_id = 21; role_id = 2 } ∷ [];
}

abbrev claims : Fields
claims = field (lit "groups") (arr (cons (str (lit "/team/")) nil)) (
    field (lit "realm_access")
      (obj (field (lit "roles") (arr (cons (str (lit "auditor")) nil)) end)) end)

abbrev team : GroupRef
team = record { keycloak_group_id = none; path = some (lit "/team/"); name = some (lit "team") }

-- The one group of the claims becomes an organization and a membership, the other is removed.
login_run :
    (db : Db) × (reconcile_from_claims plain_slug keys 0
        (lit "groups")
        ((lit "auditor", lit "P2") ∷ [])
        3
        claims
        tables
      ≡ ok db)
    × (db.memberships
        ≡ record synced_row { status = revoked }
          ∷ manual_row
          ∷ record synced_row { id = next_key tables.memberships; organization_id = 9 }
          ∷ [])
    × (db.membership_roles
        ≡ record { membership_id = next_key tables.memberships; role_id = 5 }
          ∷ record { membership_id = 21; role_id = 2 }
          ∷ [])
unfolding reconcile_from_claims parse_groups_from_claims get text_eq visit_groups
    resolve_or_create_organization find_organization normalize_path slug_for strip_of is_active
    parse_role_codes_from_claims contains
login_run = (_, refl, refl, refl)

-- Stripping the slash can leave a space at the end, which a second pass strips.
normalize_path_run :
    (normalize_path (some (lit "/a /")) ≡ lit "/a ")
    × (normalize_path (some (lit "/a ")) ≡ lit "/a")
unfolding normalize_path
normalize_path_run = (refl, refl)

reconcile_from_claims-IsKept_example :
    (db' : Db) × (reconcile_from_claims plain_slug keys 0
        (lit "groups")
        ((lit "auditor", lit "P2") ∷ [])
        3
        claims
        tables
      ≡ ok db')
    × IsKept 21 tables db'
    × ((parse_groups_from_claims claims (lit "groups") ≢ none) ⊎ (db' ≡ tables))
reconcile_from_claims-IsKept_example =
    reconcile_from_claims-IsKept plain_slug keys keys-IsFresh 0 3 21 tables (refl, refl)
      (lit "groups") ((lit "auditor", lit "P2") ∷ []) claims

apply_group_membership_change-IsKept_example :
    IsKept 21 tables (apply_group_membership_change plain_slug keys 0 3 team true tables).1
apply_group_membership_change-IsKept_example =
    apply_group_membership_change-IsKept plain_slug keys keys-IsFresh 0 3 21 tables (refl, refl)
      team true

reconcile-IsRemoved_example :
    let wanted =
      has (organizations_of plain_slug keys.organization_key (team ∷ []) tables.organizations) 7 in
    (db' : Db) × (r : ReconcileResult) × (reconcile_user_memberships plain_slug keys 0 3
        (team ∷ [])
        (lit "P2" ∷ [])
        true
        tables
      ≡ ok (db', r))
    × (((wanted ≡ true) × (has r.revoked_org_ids 7 ≡ false))
        ⊎ ((wanted ≡ false) × IsRemoved synced_row db' × In 7 r.revoked_org_ids))
reconcile-IsRemoved_example =
    reconcile-IsRemoved plain_slug keys 0 3 (team ∷ []) (lit "P2" ∷ []) tables synced_row (inl refl)
      refl refl

-- The slug of the path is taken, the next one is free.
abbrev fork : GroupRef
fork = record { keycloak_group_id = some (lit "g-1"); path = some (lit "acme"); name = none }

abbrev after_fork : List Organization
after_fork =
    acme
    ∷ legacy
    ∷ record {
      id = 9;
      name = lit "acme";
      slug = lit "acme-2";
      is_active = true;
      keycloak_group_id = some (lit "g-1");
      keycloak_group_path = lit "acme";
    }
    ∷ []

fork_run :
    resolve_or_create_organization plain_slug keys.organization_key fork (acme ∷ legacy ∷ []) ≡ (
      some (record acme {
        id = 9;
        name = lit "acme";
        slug = lit "acme-2";
        keycloak_group_id = some (lit "g-1");
        keycloak_group_path = lit "acme";
      }),
      after_fork,
    )
unfolding resolve_or_create_organization find_organization normalize_path slug_for strip_of text_eq
    org_name split
fork_run = refl

resolve_or_create_organization-IsExtended_example :
    IsExtended
      (acme ∷ legacy ∷ [])
      (resolve_or_create_organization plain_slug keys.organization_key fork (acme ∷ legacy ∷ [])).1
resolve_or_create_organization-IsExtended_example =
    resolve_or_create_organization-IsExtended plain_slug keys.organization_key fork
      (acme ∷ legacy ∷ [])

abbrev renamed : GroupRef
renamed = record { keycloak_group_id = none; path = some (lit "/acme"); name = some (lit "ACME") }

sync_run :
    sync_organization_from_group plain_slug keys.organization_key renamed (acme ∷ legacy ∷ [])
    ≡ synced
        (some (record acme { name = lit "ACME" }))
        (record acme { name = lit "ACME" } ∷ legacy ∷ [])
unfolding sync_organization_from_group resolve_or_create_organization find_organization
    normalize_path strip_of text_eq
sync_run = refl

sync_organization_from_group-IsExtended_example :
    IsExtended (acme ∷ legacy ∷ []) (record acme { name = lit "ACME" } ∷ legacy ∷ [])
sync_organization_from_group-IsExtended_example =
    sync_organization_from_group-IsExtended plain_slug keys.organization_key renamed
      (acme ∷ legacy ∷ []) (some (record acme { name = lit "ACME" }))
      (record acme { name = lit "ACME" } ∷ legacy ∷ []) sync_run
