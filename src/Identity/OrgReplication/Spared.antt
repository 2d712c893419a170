-- ===== src/Identity/OrgReplication/Spared.antt =====
-- The rows that the reconciliation of apps/identity/org_replication.py does not manage, under the
-- assignment of roles.
use sgdy_pa_backend.Prelude.{
  ℕ, ◌==◌, ◌≡◌, ◌∙◌, refl, inl, inr, Bool, Bool-cases, true, false, not, ◌&&◌, List, [], ◌∷◌,
  select, arith,
}
use sgdy_pa_backend.Prelude.Text.{Text}
use sgdy_pa_backend.Identity.Models.{Role, Membership, MembershipRole, Status}
use sgdy_pa_backend.Identity.Authorization.{
  Db, ok, is_active_in, get_or_create_link, assign_membership_role,
}
use sgdy_pa_backend.Identity.OrgReplication.Memberships.{
  Keys, get_role, assign_codes, has_code_in, sync_membership_roles, save_status,
}

abbrev pub has_id : ℕ → Membership → Bool
has_id i row = row.id == i

abbrev pub links_of : ℕ → MembershipRole → Bool
links_of i a = a.membership_id == i

-- The membership rows with this key, and their assignments, are the same in both states.
abbrev pub IsKept : ℕ → Db → Db → Type 0
IsKept i db db' =
    (select (has_id i) db'.memberships ≡ select (has_id i) db.memberships)
    × (select (links_of i) db'.membership_roles ≡ select (links_of i) db.membership_roles)

module _ (i : ℕ) (m : Membership) (other : (m.id == i) ≡ false) where
  pub select-save_status :
      (s : Status) (t : List Membership)
      → select (has_id i) (save_status s m t) ≡ select (has_id i) t
  unfolding save_status
  select-save_status s [] = refl
  select-save_status s (x ∷ t) = ground (arith, other, select-save_status s t)

  select-get_or_create_link :
      (r : Role) (t : List MembershipRole)
      → select (links_of i) (get_or_create_link m r t) ≡ select (links_of i) t
  unfolding get_or_create_link
  select-get_or_create_link r t = ground (arith, other)

  -- A filter that drops rows of this membership only.
  pub select-drop :
      (p : MembershipRole → Bool) (t : List MembershipRole)
      → select (links_of i) (select (λ a. not ((a.membership_id == m.id) && p a)) t)
        ≡ select (links_of i) t
  select-drop p [] = refl
  select-drop p (a ∷ t) = ground (arith, other, select-drop p t)

-- What the assignment of roles to a membership leaves alone.
abbrev pub IsSynced : Membership → Db → Db → Type 0
IsSynced m db db' =
    (db'.organizations ≡ db.organizations)
    × (db'.memberships ≡ db.memberships)
    × ((i : ℕ)
        → (m.id == i) ≡ false
        → select (links_of i) db'.membership_roles ≡ select (links_of i) db.membership_roles)

module _ (keys : Keys) (now : ℕ) (m : Membership) where
  assign_codes-IsSynced :
      (codes : List Text) (db : Db)
      → is_active_in now db.organizations m ≡ true
      → (db' : Db) × (assign_codes keys now m codes db ≡ ok db') × IsSynced m db db'
  unfolding assign_codes assign_membership_role
  assign_codes-IsSynced [] db act = (db, refl, (refl, refl, λ i other. refl))
  assign_codes-IsSynced (c ∷ rest) db act =
      let (role, roles) = get_role keys c db.roles in
      let next = record db {
        roles = roles;
        membership_roles = get_or_create_link m role db.membership_roles;
      } in
      let (db', e, (orgs, ms, ls)) = assign_codes-IsSynced rest next act in
      (
        db',
        rw (act, assign_codes) e,
        (
          orgs,
          ms,
          λ i other. ls i other ∙ select-get_or_create_link i m other role db.membership_roles,
        ),
      )

  pub sync_membership_roles-IsSynced :
      (codes : List Text) (prune : Bool) (db : Db)
      → (db' : Db) × (sync_membership_roles keys now m codes prune db ≡ ok db') × IsSynced m db db'
  unfolding sync_membership_roles
  sync_membership_roles-IsSynced codes prune db =
      elim (Bool-cases (is_active_in now db.organizations m)) [
        | inr inactive ↦ (db, rw inactive refl, (refl, refl, λ i other. refl))
        | inl act ↦
            let (db', e, (orgs, ms, ls)) = assign_codes-IsSynced codes db act in
            elim (Bool-cases prune) [
              | inr keep ↦ (db', rw (act, e, keep) refl, (orgs, ms, ls))
              | inl drop ↦ (
                record db' {
                  membership_roles =
                      select
                        (λ a.
                          not ((a.membership_id == m.id) && not (has_code_in codes db'.roles a)))
                        db'.membership_roles;
                },
                rw (act, e, drop) refl,
                (
                  orgs,
                  ms,
                  λ i other.
                      select-drop i m other (λ a. not (has_code_in codes db'.roles a))
                        db'.membership_roles
                      ∙ ls i other,
                ),
              )
            ]
      ]
