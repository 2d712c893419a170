-- ===== src/Identity/OrgReplication/Reconcile.antt =====
-- The entry points of apps/identity/org_replication.py: login and the admin event.
use sgdy_pa_backend.Prelude.{
  ℕ, ◌==◌, Bool, true, not, Option, none, some, List, [], ◌∷◌, any, find, select, if◌then◌else◌,
}
use sgdy_pa_backend.Prelude.Text.{Text}
use sgdy_pa_backend.Prelude.Json.{Fields}
use sgdy_pa_backend.Identity.Models.{Membership, active, revoked, is_status_active}
use sgdy_pa_backend.Identity.Authorization.{Db, Result, ok, authorization_error}
use sgdy_pa_backend.Identity.OrgReplication.Claims.{
  GroupRef, parse_groups_from_claims, parse_role_codes_from_claims,
}
use sgdy_pa_backend.Identity.OrgReplication.Organizations.{
  find_organization, resolve_or_create_organization,
}
use sgdy_pa_backend.Identity.OrgReplication.Memberships.{
  Keys, is_keycloak, is_revoked, save_status, is_member, get_or_create_membership, Visit,
  visit_groups,
}

pub record ReconcileResult : Type 0 where
  pub active_org_ids : List ℕ
  pub revoked_org_ids : List ℕ

-- A soft removal: the status, and every assignment.
unfoldable pub soft_remove : Membership → Db → Db
unfolding save_status
soft_remove m db = record db {
  memberships =
      if is_revoked m.status then db.memberships else save_status revoked m db.memberships;
  membership_roles = select (λ a. not (a.membership_id == m.id)) db.membership_roles;
}

-- The pruning loop, over the memberships read at the start. Those of no desired organization are
-- not touched by the loop over the groups.
unfoldable pub prune_memberships : (desired : List ℕ) → List Membership → Db × List ℕ → Db × List ℕ
unfolding soft_remove
prune_memberships desired [] s = s
prune_memberships desired (m ∷ rest) s = prune_memberships desired rest (
    if not (is_keycloak m.origin)
    then s
    else if any (λ o. o == m.organization_id) desired
    then s
    else (soft_remove m s.0, m.organization_id ∷ s.1))

-- The user's rows, `locked`.
unfoldable pub memberships_of : (user : ℕ) → List Membership → List Membership
memberships_of user = select (λ m. m.user_id == user)

unfoldable pub start : (user : ℕ) → Db → Visit
unfolding memberships_of
start user db = record {
  db = db;
  by_org_id = memberships_of user db.memberships;
  desired_org_ids = [];
  active_org_ids = [];
}

module _ (slugify : Text → Text) (keys : Keys) (now : ℕ) where
  unfoldable pub reconcile_user_memberships :
      (user : ℕ)
      → List GroupRef
      → (codes : List Text) → (prune : Bool) → Db
      → Result (Db × ReconcileResult)
  unfolding prune_memberships start
  reconcile_user_memberships user refs codes prune db =
      elim (visit_groups slugify keys now user codes prune refs (start user db)) [
        | authorization_error ↦ authorization_error
        | ok v ↦
            let (db', removed) =
              if prune
              then prune_memberships v.desired_org_ids (memberships_of user db.memberships)
                  (v.db, [])
              else (v.db, []) in
            ok (db', record { active_org_ids = v.active_org_ids; revoked_org_ids = removed })
      ]

  -- The claim's name and the role map are settings.
  unfoldable pub reconcile_from_claims :
      (groups_claim : Text)
      → (role_map : List (Text × Text)) → (user : ℕ) → (claims : Fields) → Db
      → Result Db
  unfolding reconcile_user_memberships
  reconcile_from_claims groups_claim role_map user claims db =
      elim (parse_groups_from_claims claims groups_claim) [
        | none ↦ ok db
        | some refs ↦
            elim (reconcile_user_memberships user refs
              (parse_role_codes_from_claims claims role_map) true db) [
                | authorization_error ↦ authorization_error
                | ok s ↦ ok s.0
              ]
      ]

  -- The event of a user who joined a group.
  unfoldable pub apply_joined : (user : ℕ) → GroupRef → Db → Option Membership × Db
  unfolding get_or_create_membership save_status
  apply_joined user ref db =
      let (resolved, orgs) =
        resolve_or_create_organization slugify keys.organization_key ref db.organizations in
      elim resolved [
        | none ↦ (none, record db { organizations = orgs })
        | some org ↦
            let (m, table) = get_or_create_membership keys user org.id db.memberships in
            let db' = record db { organizations = orgs; memberships = table } in
            if not (is_keycloak m.origin)
            then (some m, db')
            else if is_status_active m.status
            then (some m, db')
            else (
              some (record m { status = active }),
              record db' { memberships = save_status active m table },
            )
      ]

  -- The event of a user who left a group.
  unfoldable pub apply_left : (user : ℕ) → GroupRef → Db → Option Membership × Db
  unfolding soft_remove
  apply_left user ref db =
      let (found, orgs) = find_organization ref db.organizations in
      let db' = record db { organizations = orgs } in
      elim found [
        | none ↦ (none, db')
        | some org ↦ elim (find (is_member user org.id) db'.memberships) [
          | none ↦ (none, db')
          | some m ↦
              if not (is_keycloak m.origin)
              then (some m, db')
              else (some (record m { status = revoked }), soft_remove m db')
        ]
      ]

  unfoldable pub apply_group_membership_change :
      (user : ℕ) → GroupRef → (added : Bool) → Db → Option Membership × Db
  unfolding apply_joined apply_left
  apply_group_membership_change user ref added db =
      if added then apply_joined user ref db else apply_left user ref db
