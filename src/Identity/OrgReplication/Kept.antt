-- ===== src/Identity/OrgReplication/Kept.antt =====
-- The loop over the groups (apps/identity/org_replication.py), and the rows that it does not manage.
use sgdy_pa_backend.Prelude.{
  ℕ, ◌==◌, ◌≡◌, refl, inl, inr, Bool, Bool-cases, Option-cases, true, false, ◌&&◌, List, [], ◌∷◌,
  ◌++◌, any, find, select, any-false, in-find, find-holds, ==_iff, arith, ◌∙◌, any-update_where,
}
use sgdy_pa_backend.Prelude.Text.{Text}
use sgdy_pa_backend.Identity.Models.{Membership, is_status_active, Status, active}
use sgdy_pa_backend.Identity.Authorization.{Db, ok}
use sgdy_pa_backend.Identity.OrgReplication.Claims.{GroupRef}
use sgdy_pa_backend.Identity.OrgReplication.Organizations.{resolve_or_create_organization}
use sgdy_pa_backend.Identity.OrgReplication.Memberships.{
  Keys, is_keycloak, is_member, get_or_create_membership, Visit, activate, visit_membership,
  membership_for, save_status, visit_groups, visit_group,
}
use sgdy_pa_backend.Identity.OrgReplication.Spared.{
  has_id, IsKept, select-save_status, sync_membership_roles-IsSynced,
}

-- A new membership's key is the key of no row.
abbrev pub IsFresh : Keys → Type 0
IsFresh keys = (t : List Membership) → any (has_id (keys.membership_key t)) t ≡ false

-- The row with this key that the reconciliation of this user manages.
abbrev pub is_managed : (user i : ℕ) → Membership → Bool
is_managed user i m = has_id i m && (is_keycloak m.origin && (m.user_id == user))

-- There is a row with the key, and none that the reconciliation of the user manages.
abbrev pub IsSpared : (user i : ℕ) → List Membership → Type 0
IsSpared user i t = (any (has_id i) t ≡ true) × (any (is_managed user i) t ≡ false)

abbrev pub is_held : ℕ → Membership → Bool
is_held i m = has_id i m && is_keycloak m.origin

abbrev pub Holds : (user i : ℕ) → Db → Visit → Type 0
Holds user i db v =
    IsKept i db v.db × IsSpared user i v.db.memberships × (any (is_held i) v.by_org_id ≡ false)

module _ (i : ℕ) where
  fresh_other :
      (k : ℕ) (t : List Membership)
      → any (has_id i) t ≡ true
      → any (has_id k) t ≡ false
      → (k == i) ≡ false
  fresh_other k t there fresh = elim (Bool-cases (k == i)) [
    | inr other ↦ other
    | inl same ↦ cc (there, fresh, (==_iff k i).0 same)
  ]

  any-append_false :
      (p : Membership → Bool) (t : List Membership) (m : Membership)
      → any p t ≡ false
      → p m ≡ false
      → any p (t ++ m ∷ []) ≡ false
  any-append_false p [] m h e = ground arith
  any-append_false p (x ∷ t) m h e = ground (arith, any-append_false p t m)

  any-append_true :
      (p : Membership → Bool) (t : List Membership) (m : Membership)
      → any p t ≡ true
      → any p (t ++ m ∷ []) ≡ true
  any-append_true p [] m h = cc
  any-append_true p (x ∷ t) m h = ground (arith, any-append_true p t m)

  select-append_other :
      (p : Membership → Bool) (t : List Membership) (m : Membership)
      → p m ≡ false
      → select p (t ++ m ∷ []) ≡ select p t
  select-append_other p [] m e = ground arith
  select-append_other p (x ∷ t) m e = ground (arith, select-append_other p t m)

module _ (keys : Keys) (fresh : IsFresh keys) (user i : ℕ) where
  -- What the row that is found or created satisfies, and what is kept of the table.
  pub get_or_create_membership-IsSpared :
      (org : ℕ) (t : List Membership)
      → IsSpared user i t
      → (is_held i (get_or_create_membership keys user org t).0 ≡ false)
        × (select (has_id i) (get_or_create_membership keys user org t).1 ≡ select (has_id i) t)
        × IsSpared user i (get_or_create_membership keys user org t).1
  unfolding get_or_create_membership
  get_or_create_membership-IsSpared org t sp = elim (Option-cases (find (is_member user org) t)) [
    | inr (m, e) ↦
        let mine = find-holds (is_member user org) t e in
        let un = any-false (is_managed user i) t m sp.1 (in-find (is_member user org) t m e) in
        rw (e, get_or_create_membership) (ground arith, refl, sp)
    | inl e ↦
        let other = fresh_other i (keys.membership_key t) t sp.0 (fresh t) in
        rw (e, get_or_create_membership)
          (
            ground (arith, other),
            select-append_other i (has_id i) t _ other,
            (
              any-append_true i (has_id i) t _ sp.0,
              any-append_false i (is_managed user i) t _ sp.1 (ground (arith, other)),
            ),
          )
  ]

  membership_for-Holds :
      (org : ℕ) (db : Db) (v : Visit)
      → Holds user i db v
      → (is_held i (membership_for keys user org v).0 ≡ false)
        × Holds user i db (membership_for keys user org v).1
  unfolding membership_for
  membership_for-Holds org db v h =
      elim (Option-cases (find (λ m. m.organization_id == org) v.by_org_id)) [
        | inr (m, e) ↦
            rw (e, membership_for)
              (any-false (is_held i) v.by_org_id m h.2 (in-find _ v.by_org_id m e), h)
        | inl e ↦
            let (held, same, sp) = get_or_create_membership-IsSpared org v.db.memberships h.1 in
            rw (e, membership_for) (held, ((same ∙ h.0.0, h.0.1), sp, ground (arith, held, h.2)))
      ]

module _ (user i : ℕ) (m : Membership) (other : (m.id == i) ≡ false) where
  pub save_status-IsSpared :
      (s : Status) (t : List Membership) → IsSpared user i t → IsSpared user i (save_status s m t)
  unfolding save_status
  save_status-IsSpared s t sp = (
    any-update_where (has_id i) _ _ t (λ x. refl) ∙ sp.0,
    any-update_where (is_managed user i) _ _ t (λ x. refl) ∙ sp.1,
  )

  activate-Holds : (db : Db) (v : Visit) → Holds user i db v → Holds user i db (activate m v).1
  unfolding activate save_status
  activate-Holds db v h = elim (Bool-cases (is_status_active m.status)) [
    | inl act ↦ rw act h
    | inr inactive ↦ rw inactive (
      (select-save_status i m other active v.db.memberships ∙ h.0.0, h.0.1),
      save_status-IsSpared active v.db.memberships h.1,
      any-update_where (is_held i) _ _ v.by_org_id (λ x. refl) ∙ h.2,
    )
  ]

module _ (keys : Keys) (now : ℕ) where
  activate_id : (m : Membership) (v : Visit) → (activate m v).0.id ≡ m.id
  unfolding activate
  activate_id m v = ground arith

  visit_membership-Holds :
      (user i : ℕ) (codes : List Text) (prune : Bool) (org : ℕ) (m : Membership) (db : Db)
      (v : Visit)
      → is_held i m ≡ false
      → Holds user i db v
      → (v' : Visit) × (visit_membership keys now codes prune org m v ≡ ok v') × Holds user i db v'
  unfolding visit_membership
  visit_membership-Holds user i codes prune org m db v held h =
      elim (Bool-cases (is_keycloak m.origin)) [
        | inr manual ↦ (v, rw manual refl, h)
        | inl kc ↦
            let other : (m.id == i) ≡ false = ground (arith, held, kc) in
            let (m', v') = activate m v in
            let (k, sp, own) = activate-Holds user i m other db v h in
            let (db', e, (orgs, ms, ls)) =
              sync_membership_roles-IsSynced keys now m' codes prune v'.db in
            (
              record v' { db = db'; active_org_ids = org ∷ v'.active_org_ids },
              rw (kc, e) refl,
              ((rw ms k.0, ls i (rw (activate_id m v) other) ∙ k.1), rw ms sp, own),
            )
      ]

module _ (slugify : Text → Text) (keys : Keys) (fresh : IsFresh keys) (now user i : ℕ) where
  visit_group-Holds :
      (codes : List Text) (prune : Bool) (ref : GroupRef) (db : Db) (v : Visit)
      → Holds user i db v
      → (v' : Visit) × (visit_group slugify keys now user codes prune ref v ≡ ok v')
        × Holds user i db v'
  unfolding visit_group
  visit_group-Holds codes prune ref db v h =
      let (resolved, orgs) =
        resolve_or_create_organization slugify keys.organization_key ref v.db.organizations in
      let read = record v { db = record v.db { organizations = orgs } } in
      elim (Option-cases resolved) [
        | inl e ↦ (read, rw (e, visit_group) refl, h)
        | inr (org, e) ↦
            let seen = record read { desired_org_ids = org.id ∷ read.desired_org_ids } in
            let (held, h') = membership_for-Holds keys fresh user i org.id db seen h in
            let (v', e', h'') =
              visit_membership-Holds keys now user i codes prune org.id
                (membership_for keys user org.id seen).0 db (membership_for keys user org.id seen).1
                held h' in
            (v', rw (e, visit_group) e', h'')
      ]

  pub visit_groups-Holds :
      (codes : List Text) (prune : Bool) (refs : List GroupRef) (db : Db) (v : Visit)
      → Holds user i db v
      → (v' : Visit) × (visit_groups slugify keys now user codes prune refs v ≡ ok v')
        × Holds user i db v'
  unfolding visit_groups
  visit_groups-Holds codes prune [] db v h = (v, refl, h)
  visit_groups-Holds codes prune (ref ∷ rest) db v h =
      let (v', e, h') = visit_group-Holds codes prune ref db v h in
      let (w, e', h'') = visit_groups-Holds codes prune rest db v' h' in
      (w, rw (e, visit_groups) e', h'')
