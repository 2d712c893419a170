-- ===== src/Identity/OrgReplication/Login.antt =====
-- What the entry points of apps/identity/org_replication.py do to the memberships.
use sgdy_pa_backend.Prelude.{
  ℕ, ◌==◌, ◌≡◌, ◌⊎◌, inl, inr, refl, Bool, Bool-cases, Option-cases, true, false, ◌||◌, ◌∙◌, Option,
  none, some, find, List, [], ◌∷◌, any, In, in-select_of_in, ==_iff,
}
use sgdy_pa_backend.Prelude.Text.{Text}
use sgdy_pa_backend.Identity.Models.{Organization, Membership, is_status_active}
use sgdy_pa_backend.Identity.Authorization.{Db, ok}
use sgdy_pa_backend.Identity.OrgReplication.Claims.{GroupRef}
use sgdy_pa_backend.Identity.OrgReplication.Organizations.{resolve_or_create_organization}
use sgdy_pa_backend.Identity.OrgReplication.Memberships.{
  Keys, is_keycloak, Visit, membership_for, activate, visit_membership, visit_group, visit_groups,
}
use sgdy_pa_backend.Identity.OrgReplication.Reconcile.{
  ReconcileResult, prune_memberships, memberships_of, start, reconcile_user_memberships,
}
use sgdy_pa_backend.Identity.OrgReplication.Spared.{sync_membership_roles-IsSynced}
use sgdy_pa_backend.Identity.OrgReplication.Removal.{IsRemoved, prune-IsRemoved, prune-unreported}

-- The organization of a group in front of those that were there.
abbrev pub with_org : Option Organization → List ℕ → List ℕ
with_org none ids = ids
with_org (some org) ids = org.id ∷ ids

-- The organizations that the groups stand for, one group after the other, on the table that the
-- groups before it leave.
abbrev pub organizations_of :
    (slugify : Text → Text)
    → (uuid4 : List Organization → ℕ) → List GroupRef
    → List Organization
    → List ℕ
organizations_of slugify uuid4 [] orgs = []
organizations_of slugify uuid4 (ref ∷ rest) orgs =
    let (resolved, orgs') = resolve_or_create_organization slugify uuid4 ref orgs in
    with_org resolved (organizations_of slugify uuid4 rest orgs')

abbrev pub has : List ℕ → ℕ → Bool
has ids n = any (λ o. o == n) ids

-- The loop's body leaves the organizations and the desired ones alone.
abbrev IsSteady : Visit → Visit → Type 0
IsSteady v v' =
    (v'.db.organizations ≡ v.db.organizations) × (v'.desired_org_ids ≡ v.desired_org_ids)

activate-IsSteady : (m : Membership) (v : Visit) → IsSteady v (activate m v).1
unfolding activate
activate-IsSteady m v = elim (Bool-cases (is_status_active m.status)) [
  | inl act ↦ rw act (refl, refl)
  | inr idle ↦ rw idle (refl, refl)
]

module _ (keys : Keys) where
  membership_for-IsSteady :
      (user org : ℕ) (v : Visit) → IsSteady v (membership_for keys user org v).1
  unfolding membership_for
  membership_for-IsSteady user org v =
      elim (Option-cases (find (λ m. m.organization_id == org) v.by_org_id)) [
        | inl missing ↦ rw (membership_for, missing) (refl, refl)
        | inr (m, found) ↦ rw (membership_for, found) (refl, refl)
      ]

  visit_membership_total :
      (now : ℕ) (codes : List Text) (prune : Bool) (org : ℕ) (m : Membership) (v : Visit)
      → (v' : Visit) × (visit_membership keys now codes prune org m v ≡ ok v') × IsSteady v v'
  unfolding visit_membership
  visit_membership_total now codes prune org m v = elim (Bool-cases (is_keycloak m.origin)) [
    | inr manual ↦ (v, rw manual refl, (refl, refl))
    | inl kc ↦
        let (m', v') = activate m v in
        let (orgs', desired) = activate-IsSteady m v in
        let (db', e, (orgs, _, _)) = sync_membership_roles-IsSynced keys now m' codes prune v'.db in
        (
          record v' { db = db'; active_org_ids = org ∷ v'.active_org_ids },
          rw (kc, e) refl,
          (orgs ∙ orgs', desired),
        )
  ]

module _ (slugify : Text → Text) (keys : Keys) (now user : ℕ) where
  visit_group_total :
      (codes : List Text) (prune : Bool) (ref : GroupRef) (v : Visit)
      → let (resolved, orgs) =
          resolve_or_create_organization slugify keys.organization_key ref v.db.organizations in
        (v' : Visit) × (visit_group slugify keys now user codes prune ref v ≡ ok v')
        × (v'.db.organizations ≡ orgs)
        × (v'.desired_org_ids ≡ with_org resolved v.desired_org_ids)
  unfolding visit_group
  visit_group_total codes prune ref v =
      let (resolved, orgs) =
        resolve_or_create_organization slugify keys.organization_key ref v.db.organizations in
      let read = record v { db = record v.db { organizations = orgs } } in
      elim (Option-cases resolved) [
        | inl e ↦ (read, rw (e, visit_group) refl, refl, rw e refl)
        | inr (org, e) ↦
            let seen = record read { desired_org_ids = org.id ∷ read.desired_org_ids } in
            let (m, v') = membership_for keys user org.id seen in
            let (orgs', desired) = membership_for-IsSteady keys user org.id seen in
            let (w, e', (orgs'', desired')) =
              visit_membership_total keys now codes prune org.id m v' in
            (w, rw (e, visit_group) e', orgs'' ∙ orgs', rw e (desired' ∙ desired))
      ]

  visit_groups_total :
      (codes : List Text) (prune : Bool) (refs : List GroupRef) (v : Visit)
      → (v' : Visit) × (visit_groups slugify keys now user codes prune refs v ≡ ok v')
        × ((n : ℕ)
            → has v'.desired_org_ids n ≡ (
                has (organizations_of slugify keys.organization_key refs v.db.organizations) n
                || has v.desired_org_ids n))
  unfolding visit_groups
  visit_groups_total codes prune [] v = (v, refl, λ n. refl)
  visit_groups_total codes prune (ref ∷ rest) v =
      let (v', e, orgs, desired) = visit_group_total codes prune ref v in
      let (w, e', wanted) = visit_groups_total codes prune rest v' in
      (w, rw (e, visit_groups) e', λ n. wanted n ∙ rw (orgs, desired) (has-with_org _ _ _ n))
    where
      has-with_org :
          (o : Option Organization) (ids more : List ℕ) (n : ℕ)
          → (has ids n || has (with_org o more) n) ≡ (has (with_org o ids) n || has more n)
      has-with_org none ids more n = refl
      has-with_org (some org) ids more n = elim (Bool-cases (org.id == n)) [
        | inl here ↦
            rw here (elim (Bool-cases (has ids n)) [ inl x ↦ rw x refl | inr x ↦ rw x refl ])
        | inr other ↦ rw other refl
      ]

  -- A login reconciliation does not raise. Afterwards a Keycloak membership of the user that was
  -- there is in an organization that one of the groups stands for, which is not reported as
  -- revoked; or in another one, and then it has no role assignment, is revoked (or was before), and
  -- its organization is reported as revoked.
  pub reconcile-IsRemoved :
      (refs : List GroupRef) (codes : List Text) (db : Db) (m : Membership)
      → In m db.memberships
      → m.user_id ≡ user
      → is_keycloak m.origin ≡ true
      → let wanted =
          has
            (organizations_of slugify keys.organization_key refs db.organizations)
            m.organization_id in
        (db' : Db) × (r : ReconcileResult) × (reconcile_user_memberships slugify keys now user refs
            codes true db
          ≡ ok (db', r))
        × (((wanted ≡ true) × (has r.revoked_org_ids m.organization_id ≡ false))
            ⊎ ((wanted ≡ false) × IsRemoved m db' × In m.organization_id r.revoked_org_ids))
  unfolding reconcile_user_memberships memberships_of start
  reconcile-IsRemoved refs codes db m mem mine kc =
      let (v, e, desired) = visit_groups_total codes true refs (start user db) in
      let locked = memberships_of user db.memberships in
      let (db', removed) = prune_memberships v.desired_org_ids locked (v.db, []) in
      (
        db',
        record { active_org_ids = v.active_org_ids; revoked_org_ids = removed },
        rw (e, reconcile_user_memberships) refl,
        elim (Bool-cases (
            has (organizations_of slugify keys.organization_key refs db.organizations)
              m.organization_id)) [
                | inl wanted ↦ inl (
                  wanted,
                  prune-unreported v.desired_org_ids m.organization_id locked (v.db, [])
                      (desired m.organization_id ∙ rw wanted refl) refl,
                )
                | inr unwanted ↦
                    let (gone, noted) =
                      prune-IsRemoved v.desired_org_ids m locked (v.db, [])
                        (in-select_of_in _ db.memberships m mem ((==_iff m.user_id user).1 mine)) kc
                        (desired m.organization_id ∙ rw unwanted refl) in
                    inr (unwanted, gone, noted)
              ],
      )
