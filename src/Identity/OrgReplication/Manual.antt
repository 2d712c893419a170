-- ===== src/Identity/OrgReplication/Manual.antt =====
-- Manual memberships and those of other users, under the entry points of
-- apps/identity/org_replication.py.
use sgdy_pa_backend.Prelude.{
  ℕ, ◌==◌, ◌≡◌, ◌≢◌, ◌∙◌, ◌⊎◌, inl, inr, refl, Bool, Bool-cases, Option-cases, true, false, not,
  none, List, [], ◌∷◌, any, find, select, if◌then◌else◌, any-false, in-find, find-holds, arith,
}
use sgdy_pa_backend.Prelude.Text.{Text}
use sgdy_pa_backend.Prelude.Json.{Fields}
use sgdy_pa_backend.Identity.Models.{Membership, MembershipRole, active, is_status_active}
use sgdy_pa_backend.Identity.Authorization.{Db, ok}
use sgdy_pa_backend.Identity.OrgReplication.Claims.{
  GroupRef, parse_groups_from_claims, parse_role_codes_from_claims,
}
use sgdy_pa_backend.Identity.OrgReplication.Organizations.{
  find_organization, resolve_or_create_organization,
}
use sgdy_pa_backend.Identity.OrgReplication.Memberships.{
  Keys, is_keycloak, is_revoked, is_member, get_or_create_membership, Visit,
}
use sgdy_pa_backend.Identity.OrgReplication.Reconcile.{
  ReconcileResult, soft_remove, prune_memberships, memberships_of, start,
  reconcile_user_memberships, reconcile_from_claims, apply_group_membership_change, apply_left,
  apply_joined,
}
use sgdy_pa_backend.Identity.OrgReplication.Spared.{links_of, IsKept, select-save_status}
use sgdy_pa_backend.Identity.OrgReplication.Kept.{
  IsFresh, IsSpared, is_managed, is_held, Holds, visit_groups-Holds,
  get_or_create_membership-IsSpared,
}

module _ (user i : ℕ) where
  any-held :
      (t : List Membership)
      → any (is_managed user i) t ≡ false
      → any (is_held i) (memberships_of user t) ≡ false
  unfolding memberships_of
  any-held [] h = refl
  any-held (m ∷ t) h = ground (arith, any-held t)

  pub start-Holds : (db : Db) → IsSpared user i db.memberships → Holds user i db (start user db)
  unfolding start
  start-Holds db sp = ((refl, refl), sp, any-held db.memberships sp.1)

-- A soft removal of another row.
module _ (i : ℕ) (m : Membership) (other : (m.id == i) ≡ false) where
  select-links :
      (t : List MembershipRole)
      → select (links_of i) (select (λ a. not (a.membership_id == m.id)) t) ≡ select (links_of i) t
  select-links [] = refl
  select-links (a ∷ t) = ground (arith, other, select-links t)

  soft_remove-IsKept : (db₀ db : Db) → IsKept i db₀ db → IsKept i db₀ (soft_remove m db)
  unfolding soft_remove
  soft_remove-IsKept db₀ db h = (
    elim (Bool-cases (is_revoked m.status)) [
      | inl gone ↦ rw gone h.0
      | inr live ↦ rw live (select-save_status i m other _ db.memberships ∙ h.0)
    ],
    select-links db.membership_roles ∙ h.1,
  )

prune-IsKept :
    (i : ℕ) (desired : List ℕ) (locked : List Membership) (db : Db) (s : Db × List ℕ)
    → any (is_held i) locked ≡ false
    → IsKept i db s.0
    → IsKept i db (prune_memberships desired locked s).0
unfolding prune_memberships
prune-IsKept i desired [] db s held h = h
prune-IsKept i desired (x ∷ rest) db s held h = elim (Bool-cases (is_keycloak x.origin)) [
  | inr manual ↦
      rw (manual, prune_memberships) (prune-IsKept i desired rest db s (ground (arith, held)) h)
  | inl kc ↦
      let later : any (is_held i) rest ≡ false = ground (arith, held) in
      elim (Bool-cases (any (λ o. o == x.organization_id) desired)) [
        | inl wanted ↦ rw (kc, wanted, prune_memberships) (prune-IsKept i desired rest db s later h)
        | inr unwanted ↦
            rw (kc, unwanted, prune_memberships)
              (prune-IsKept i desired rest db (soft_remove x s.0, x.organization_id ∷ s.1) later
                (soft_remove-IsKept i x (ground (arith, held, kc)) db s.0 h))
      ]
]

module _ (slugify : Text → Text) (keys : Keys) (fresh : IsFresh keys) (now user i : ℕ) (db : Db)
    (spared : IsSpared user i db.memberships) where
  prune-Holds :
      (prune : Bool) (v : Visit)
      → Holds user i db v
      → IsKept i db
          (if prune
            then prune_memberships v.desired_org_ids (memberships_of user db.memberships) (v.db, [])
            else (v.db, [])).0
  prune-Holds true v h =
      prune-IsKept i v.desired_org_ids (memberships_of user db.memberships) db (v.db, [])
        (any-held user i db.memberships spared.1) h.0
  prune-Holds false v h = h.0

  reconcile-IsKept :
      (refs : List GroupRef) (codes : List Text) (prune : Bool)
      → (s : Db × ReconcileResult) × (reconcile_user_memberships slugify keys now user refs codes
            prune db
          ≡ ok s)
        × IsKept i db s.0
  unfolding reconcile_user_memberships
  reconcile-IsKept refs codes prune =
      let first = start-Holds user i db spared in
      let (v, e, h) =
        visit_groups-Holds slugify keys fresh now user i codes prune refs db (start user db)
          first in
      let locked = memberships_of user db.memberships in
      let (db', removed) =
        if prune then prune_memberships v.desired_org_ids locked (v.db, []) else (v.db, []) in
      (
        (db', record { active_org_ids = v.active_org_ids; revoked_org_ids = removed }),
        rw (e, reconcile_user_memberships) refl,
        prune-Holds prune v h,
      )

  -- A login does not raise, and leaves a membership that is manual or another user's, and its role
  -- assignments, as they were, given that the keys of new rows are fresh. Without a list of groups
  -- in the claims it changes nothing at all.
  pub reconcile_from_claims-IsKept :
      (groups_claim : Text) (role_map : List (Text × Text)) (claims : Fields)
      → (db' : Db) × (reconcile_from_claims slugify keys now groups_claim role_map user claims db
          ≡ ok db')
        × IsKept i db db'
        × ((parse_groups_from_claims claims groups_claim ≢ none) ⊎ (db' ≡ db))
  unfolding reconcile_from_claims
  reconcile_from_claims-IsKept groups_claim role_map claims =
      elim (Option-cases (parse_groups_from_claims claims groups_claim)) [
        | inl e ↦ (db, rw (e, reconcile_from_claims) refl, (refl, refl), inr refl)
        | inr (refs, e) ↦
            let (s, e', h) =
              reconcile-IsKept refs (parse_role_codes_from_claims claims role_map) true in
            (s.0, rw (e, e', reconcile_from_claims) refl, h, inl (λ n. cc (e, n)))
      ]

  apply_joined-IsKept : (ref : GroupRef) → IsKept i db (apply_joined slugify keys now user ref db).1
  unfolding apply_joined
  apply_joined-IsKept ref =
      elim (Option-cases
        (resolve_or_create_organization slugify keys.organization_key ref db.organizations).0) [
          | inl e ↦ rw (e, apply_joined) (refl, refl)
          | inr (org, e) ↦
              let (held, same, sp) =
                get_or_create_membership-IsSpared keys fresh user i org.id db.memberships spared in
              let (m, table) = get_or_create_membership keys user org.id db.memberships in
              elim (Bool-cases (is_keycloak m.origin)) [
                | inr manual ↦ rw (e, apply_joined, manual) (same, refl)
                | inl kc ↦ elim (Bool-cases (is_status_active m.status)) [
                  | inl act ↦ rw (e, apply_joined, kc, act) (same, refl)
                  | inr idle ↦
                      rw (e, apply_joined, kc, idle)
                        (
                          select-save_status i m (ground (arith, held, kc)) active table ∙ same,
                          refl,
                        )
                ]
              ]
        ]

  apply_left-IsKept : (ref : GroupRef) → IsKept i db (apply_left slugify keys now user ref db).1
  unfolding apply_left
  apply_left-IsKept ref = elim (Option-cases (find_organization ref db.organizations).0) [
    | inl e ↦ rw (e, apply_left) (refl, refl)
    | inr (org, e) ↦ elim (Option-cases (find (is_member user org.id) db.memberships)) [
      | inl e' ↦ rw (e, e', apply_left) (refl, refl)
      | inr (m, e') ↦ elim (Bool-cases (is_keycloak m.origin)) [
        | inr manual ↦ rw (e, e', apply_left, manual) (refl, refl)
        | inl kc ↦
            let mine = find-holds (is_member user org.id) db.memberships e' in
            let un =
              any-false (is_managed user i) db.memberships m spared.1
                (in-find _ db.memberships m e') in
            rw (e, e', apply_left, kc)
              (soft_remove-IsKept i m (ground (arith, un, mine, kc)) db
                (record db { organizations = (find_organization ref db.organizations).1 })
                (refl, refl))
      ]
    ]
  ]

  -- An admin event on a user's group leaves a membership that is manual or another user's, and its
  -- role assignments, as they were, given that the keys of new rows are fresh.
  pub apply_group_membership_change-IsKept :
      (ref : GroupRef) (added : Bool)
      → IsKept i db (apply_group_membership_change slugify keys now user ref added db).1
  unfolding apply_group_membership_change
  apply_group_membership_change-IsKept ref true = apply_joined-IsKept ref
  apply_group_membership_change-IsKept ref false = apply_left-IsKept ref
