-- ===== src/Identity/Api/Effects.antt =====
-- The two things that a call of the membership API (apps/identity/views.py) does.
use sgdy_pa_backend.Prelude.{
  ℕ, ◌==◌, ==_iff, ◌≡◌, refl, ◌∙◌, sym, subst, ◌⊎◌, inl, inr, Bool, Bool-cases, Option-cases, true,
  false, ◌&&◌, ◌||◌, Option, none, some, List, ◌∷◌, In, any, find, find-holds, in-find, arith,
}
use sgdy_pa_backend.Prelude.Text.{Text}
use sgdy_pa_backend.Prelude.Json.{Json}
use sgdy_pa_backend.Identity.Models.{User, Role, Membership, MembershipRole}
use sgdy_pa_backend.Identity.Authorization.{
  Db, revoke_membership_role, user_has_capability, require_capability,
}
use sgdy_pa_backend.Identity.Authorization.Assignment.{
  linked, linked-revoke, assign_membership_role_lem,
}
use sgdy_pa_backend.Platform.Errors.{ApiError}
use sgdy_pa_backend.Identity.Authorization.Roles.{value, manage_memberships}
use sgdy_pa_backend.Identity.Api.{
  MembershipData, ApiOutcome, returned, checked, new_membership, MembershipCall, create, add_role,
  remove_role, get_object, is_member, require_org_capability, create_membership, assign_role,
  perform, add_role_to, remove_role_from,
}

-- One new membership of the organization, for a user who has none there.
abbrev pub AddsMember : (organization : ℕ) → Db → Db → Type 0
AddsMember o db db' =
    (m : Membership) × (m.organization_id ≡ o)
    × (any (is_member o m.user_id) db.memberships ≡ false)
    × (db' ≡ record db { memberships = m ∷ db.memberships })

-- The assignments of other rows are as they were.
abbrev pub ChangesRoles : (organization : ℕ) → Db → Db → Type 0
ChangesRoles o db db' =
    (m : Membership) × (table : List MembershipRole) × In m db.memberships
    × (m.organization_id ≡ o)
    × (db' ≡ record db { membership_roles = table })
    × ((i j : ℕ) → (i == m.id) ≡ false → linked i j table ≡ linked i j db.membership_roles)

checked-returned :
    (c : Option ApiError) (rest : ApiOutcome) (s : ℕ) (db : Db)
    → checked c rest ≡ returned s db
    → (c ≡ none) × (rest ≡ returned s db)
checked-returned none rest s db e = (refl, e)
checked-returned (some x) rest s db e = absurd (cc e)

and_right : (a b : Bool) → (a && b) ≡ true → b ≡ true
and_right a b e = ground arith

get_object-holds :
    (o i : ℕ) (db : Db) (m : Membership)
    → get_object o i db ≡ some m
    → In m db.memberships × (m.organization_id ≡ o)
get_object-holds o i db m e = (
  in-find _ db.memberships m e,
  (==_iff m.organization_id o).0
      (and_right _ _ (find-holds (λ x. (x.id == i) && (x.organization_id == o)) db.memberships e)),
)

returned-db : (s s' : ℕ) (db db' : Db) → returned s db ≡ returned s' db' → db ≡ db'
returned-db s s' db db' e = cc e

or_false : (b : Bool) → (b || false) ≡ b
or_false b = ground arith

and_true : (b : Bool) → (b && true) ≡ b
and_true b = ground arith

module _ (py_eq : Json → Json → Bool) (parse_uuid : Text → Option ℕ) (new_id : List Membership → ℕ)
    (now user organization : ℕ) where
  create_membership-AddsMember :
      (d : Option MembershipData) (users : List User) (db db' : Db) (s : ℕ)
      → create_membership py_eq parse_uuid new_id now user organization d users db ≡ returned s db'
      → AddsMember organization db db'
  unfolding create_membership new_membership
  create_membership-AddsMember none users db db' s e = absurd (cc e)
  create_membership-AddsMember (some d) users db db' s e =
      elim (Bool-cases (any (λ u. u.id == d.user_id) users)) [
        | inr unknown ↦ absurd (cc (rw (create_membership, unknown) at e))
        | inl known ↦ elim (Bool-cases (any (is_member organization d.user_id) db.memberships)) [
          | inl taken ↦ absurd (cc (rw (create_membership, known, taken) at e))
          | inr free ↦ (
            new_membership (new_id db.memberships) organization d,
            refl,
            free,
            sym (returned-db _ s _ db' (rw (create_membership, known, free) at e)),
          )
        ]
      ]

  assign_role-ChangesRoles :
      (m : Membership) (r : Option ℕ) (db db' : Db) (s : ℕ)
      → In m db.memberships
      → m.organization_id ≡ organization
      → assign_role py_eq parse_uuid new_id now user organization m r db ≡ returned s db'
      → ChangesRoles organization db db'
  unfolding assign_role
  assign_role-ChangesRoles m none db db' s there here e = absurd (cc e)
  assign_role-ChangesRoles m (some i) db db' s there here e =
      elim (Option-cases (find (λ r. r.id == i) db.roles)) [
        | inl missing ↦ absurd (cc (rw (assign_role, missing) at e))
        | inr (r, found) ↦
            elim (assign_membership_role_lem m r now db.organizations db.membership_roles) [
              | inl (idle, refused) ↦ absurd (cc (rw (assign_role, found, refused) at e))
              | inr (table, act, done, effect, again) ↦ (
                m,
                table,
                there,
                here,
                sym (returned-db _ s _ db' (rw (assign_role, found, done) at e)),
                λ k j other. effect k j ∙ rw other (or_false _),
              )
            ]
      ]

  remove_role-ChangesRoles :
      (m : Membership) (r : Role) (db : Db)
      → In m db.memberships
      → m.organization_id ≡ organization
      → ChangesRoles organization db
          (record db { membership_roles = revoke_membership_role m r db.membership_roles })
  remove_role-ChangesRoles m r db there here = (
    m,
    revoke_membership_role m r db.membership_roles,
    there,
    here,
    refl,
    λ k j other. linked-revoke m r k j db.membership_roles ∙ rw other (and_true _),
  )

  add_role_to-ChangesRoles :
      (i : ℕ) (role : Option ℕ) (db db' : Db) (s : ℕ)
      → add_role_to py_eq parse_uuid new_id now user organization i role db ≡ returned s db'
      → ChangesRoles organization db db'
  unfolding add_role_to
  add_role_to-ChangesRoles i role db db' s e = elim (Option-cases (get_object organization i db)) [
    | inl missing ↦ absurd (cc (rw (add_role_to, missing) at e))
    | inr (m, found) ↦
        let (there, here) = get_object-holds organization i db m found in
        assign_role-ChangesRoles m role db db' s there here (rw (add_role_to, found) at e)
  ]

  remove_role_from-ChangesRoles :
      (i role : ℕ) (db db' : Db) (s : ℕ)
      → remove_role_from py_eq parse_uuid new_id now user organization i role db ≡ returned s db'
      → ChangesRoles organization db db'
  unfolding remove_role_from
  remove_role_from-ChangesRoles i role db db' s e =
      elim (Option-cases (get_object organization i db)) [
        | inl missing ↦ absurd (cc (rw (remove_role_from, missing) at e))
        | inr (m, found) ↦ elim (Option-cases (find (λ r. r.id == role) db.roles)) [
          | inl unknown ↦ absurd (cc (rw (remove_role_from, found, unknown) at e))
          | inr (r, known) ↦
              let (there, here) = get_object-holds organization i db m found in
              subst (ChangesRoles organization db)
                (returned-db _ s _ db' (rw (remove_role_from, found, known) at e))
                (remove_role-ChangesRoles m r db there here)
        ]
      ]

  -- A call that succeeds passed the check of the capability, and does one of two things.
  pub perform-effect :
      (call : MembershipCall) (users : List User) (db db' : Db) (s : ℕ)
      → perform py_eq parse_uuid new_id now user organization call users db ≡ returned s db'
      → (require_org_capability py_eq parse_uuid new_id now user organization db ≡ none)
        × (AddsMember organization db db' ⊎ ChangesRoles organization db db')
  unfolding perform
  perform-effect (create header d) users db db' s e =
      let (may, e') = checked-returned _ _ s db' e in
      let (keyed, e'') = checked-returned _ _ s db' e' in
      (may, inl (create_membership-AddsMember d users db db' s e''))
  perform-effect (add_role header i role) users db db' s e =
      let (may, e') = checked-returned _ _ s db' e in
      let (keyed, e'') = checked-returned _ _ s db' e' in
      (may, inr (add_role_to-ChangesRoles i role db db' s e''))
  perform-effect (remove_role i role) users db db' s e =
      let (may, e') = checked-returned _ _ s db' e in
      (may, inr (remove_role_from-ChangesRoles i role db db' s e'))

  pub allowed :
      (db : Db)
      → require_org_capability py_eq parse_uuid new_id now user organization db ≡ none
      → user_has_capability py_eq now db user organization (value manage_memberships) none ≡ true
  unfolding require_org_capability require_capability
  allowed db e =
      elim (Bool-cases
        (user_has_capability py_eq now db user organization (value manage_memberships) none)) [
          | inl has ↦ has
          | inr lacks ↦ absurd (cc (rw (require_org_capability, lacks) at e))
        ]
