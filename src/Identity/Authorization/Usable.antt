-- ===== src/Identity/Authorization/Usable.antt =====
-- What the parts of a decision of apps/identity/authorization.py test: `Membership.is_active`, the
-- roles that a membership holds, the capabilities that a role carries.
use sgdy_pa_backend.Prelude.{
  ℕ, ◌<◌, ◌≡◌, ◌↔◌, inl, inr, refl, subst, Bool, true, Option-cases, some, List, In, any, any-holds,
  any_of_in, in-select, in-select_of_in, arith,
}
use sgdy_pa_backend.Prelude.Text.{Text, text_eq, text_eq_iff, text_eq_refl}
use sgdy_pa_backend.Identity.Models.{
  Organization, active, Role, Membership, MembershipRole, is_active,
}
use sgdy_pa_backend.Identity.Authorization.{
  Db, links, organization_of, is_active_in, roles_of, contains,
}

-- The membership and its organization are active, and it has not expired.
pub record IsUsable (now : ℕ) (orgs : List Organization) (m : Membership) : Type 0 where
  pub organization : Organization
  pub found : organization_of m orgs ≡ some organization
  pub status_active : m.status ≡ active
  pub organization_active : organization.is_active ≡ true
  pub unexpired : (t : ℕ) → m.expires_at ≡ some t → now < t

-- The role exists, and the membership holds it.
abbrev pub IsAssigned : Db → Membership → Role → Type 0
IsAssigned db m r =
    In r db.roles
    × ((a : MembershipRole) × In a db.membership_roles
        × (a.membership_id ≡ m.id)
        × (a.role_id ≡ r.id))

is_active_of_parts :
    (now : ℕ) (o : Organization) (m : Membership)
    → m.status ≡ active
    → o.is_active ≡ true
    → ((t : ℕ) → m.expires_at ≡ some t → now < t)
    → is_active now o m ≡ true
unfolding is_active
is_active_of_parts now o m s a u = elim (Option-cases m.expires_at) [
  | inl never ↦ rw (s, a, never) refl
  | inr (t, e) ↦ let h : now < t = u t e in ground arith
]

is_active-status :
    (now : ℕ) (o : Organization) (m : Membership) → is_active now o m ≡ true → m.status ≡ active
unfolding is_active
is_active-status now o m e = ground arith

is_active-organization :
    (now : ℕ) (o : Organization) (m : Membership) → is_active now o m ≡ true → o.is_active ≡ true
unfolding is_active
is_active-organization now o m e = ground arith

is_active-unexpired :
    (now : ℕ) (o : Organization) (m : Membership) (t : ℕ)
    → is_active now o m ≡ true
    → m.expires_at ≡ some t
    → now < t
unfolding is_active
is_active-unexpired now o m t e p = ground arith

pub is_active_in_iff :
    (now : ℕ) (orgs : List Organization) (m : Membership)
    → (is_active_in now orgs m ≡ true) ↔ IsUsable now orgs m
unfolding is_active_in
is_active_in_iff now orgs m = (to, from)
  where
    to : is_active_in now orgs m ≡ true → IsUsable now orgs m
    to e = elim (Option-cases (organization_of m orgs)) [
      | inl missing ↦ cc (rw (missing, is_active_in) at e)
      | inr (o, found) ↦
          let act : is_active now o m ≡ true = rw (found, is_active_in) at e in
          record {
            organization = o;
            found = found;
            status_active = is_active-status now o m act;
            organization_active = is_active-organization now o m act;
            unexpired = λ t. is_active-unexpired now o m t act;
          }
    ]

    from : IsUsable now orgs m → is_active_in now orgs m ≡ true
    from u =
        rw (u.found, is_active_in)
          (is_active_of_parts now u.organization m u.status_active u.organization_active
            u.unexpired)

pub roles_of_iff : (db : Db) (m : Membership) (r : Role) → In r (roles_of m db) ↔ IsAssigned db m r
unfolding roles_of
roles_of_iff db m r = (to, from)
  where
    linked : MembershipRole → Bool
    linked = links m r

    to : In r (roles_of m db) → IsAssigned db m r
    to h =
        let (known, e) = in-select (λ x. any (links m x) db.membership_roles) db.roles r h in
        let (a, there, l) = any-holds linked db.membership_roles e in
        (known, (a, there, ground arith, ground arith))

    from : IsAssigned db m r → In r (roles_of m db)
    from (known, (a, there, l, l')) =
        in-select_of_in (λ x. any (links m x) db.membership_roles) db.roles r known
          (any_of_in linked db.membership_roles a there (ground arith))

pub contains_iff : (t : Text) (ts : List Text) → (contains t ts ≡ true) ↔ In t ts
unfolding contains
contains_iff t ts = (to, from)
  where
    to : contains t ts ≡ true → In t ts
    to e =
        let (s, there, same) = any-holds (λ s. text_eq s t) ts e in
        subst (λ x. In x ts) ((text_eq_iff s t).0 same) there

    from : In t ts → contains t ts ≡ true
    from there = any_of_in (λ s. text_eq s t) ts t there (text_eq_refl t)
