-- ===== src/Identity/Authorization/Assignment.antt =====
-- `assign_membership_role` and `revoke_membership_role` (apps/identity/authorization.py) on the
-- table of assignments.
use sgdy_pa_backend.Prelude.{
  ℕ, ◌==◌, ◌≡◌, ◌⊎◌, inl, inr, refl, Bool, Bool-cases, true, false, not, ◌&&◌, ◌||◌, List, [], ◌∷◌,
  any, select, arith,
}
use sgdy_pa_backend.Identity.Models.{Organization, Role, Membership, MembershipRole}
use sgdy_pa_backend.Identity.Authorization.{
  ok, authorization_error, links, is_active_in, get_or_create_link, assign_membership_role,
  revoke_membership_role,
}

-- Is there an assignment of this role to this membership?
abbrev pub linked : (membership role : ℕ) → List MembershipRole → Bool
linked i j = any (λ a. (a.membership_id == i) && (a.role_id == j))

module _ (m : Membership) (r : Role) where
  same_pair :
      (i j : ℕ) (table : List MembershipRole)
      → i ≡ m.id
      → j ≡ r.id
      → linked i j table ≡ any (links m r) table
  same_pair i j table e e' = rw (e, e') refl

  linked-get_or_create :
      (i j : ℕ) (table : List MembershipRole)
      → linked i j (get_or_create_link m r table)
        ≡ (linked i j table || ((i == m.id) && (j == r.id)))
  unfolding get_or_create_link
  linked-get_or_create i j table = elim (Bool-cases (any (links m r) table)) [
    | inr new ↦ rw new (ground arith)
    | inl old ↦ rw old (ground (arith, same_pair i j table))
  ]

  get_or_create_link_idem :
      (table : List MembershipRole)
      → get_or_create_link m r (get_or_create_link m r table) ≡ get_or_create_link m r table
  unfolding get_or_create_link
  get_or_create_link_idem table = ground arith

  linked-select :
      (i j : ℕ) (table : List MembershipRole)
      → linked i j (select (λ a. not (links m r a)) table)
        ≡ (linked i j table && not ((i == m.id) && (j == r.id)))
  linked-select i j [] = refl
  linked-select i j (a ∷ table) = ground (arith, linked-select i j table)

  -- Revoking removes exactly the assignment of that role to that membership, and no other.
  pub linked-revoke :
      (i j : ℕ) (table : List MembershipRole)
      → linked i j (revoke_membership_role m r table)
        ≡ (linked i j table && not ((i == m.id) && (j == r.id)))
  unfolding revoke_membership_role
  linked-revoke i j table = linked-select i j table

  -- Assigning raises exactly for an inactive membership; otherwise it adds that one assignment
  -- and no other, and assigning again changes nothing.
  pub assign_membership_role_lem :
      (now : ℕ) (orgs : List Organization) (table : List MembershipRole)
      → ((is_active_in now orgs m ≡ false)
          × (assign_membership_role now orgs m r table ≡ authorization_error))
        ⊎ ((table' : List MembershipRole) × (is_active_in now orgs m ≡ true)
            × (assign_membership_role now orgs m r table ≡ ok table')
            × ((i j : ℕ) → linked i j table' ≡ (linked i j table || ((i == m.id) && (j == r.id))))
            × (assign_membership_role now orgs m r table' ≡ ok table'))
  unfolding assign_membership_role
  assign_membership_role_lem now orgs table = elim (Bool-cases (is_active_in now orgs m)) [
    | inr inactive ↦ inl (inactive, rw inactive refl)
    | inl act ↦ inr (
      get_or_create_link m r table,
      act,
      rw act refl,
      λ i j. linked-get_or_create i j table,
      rw (act, get_or_create_link_idem table) refl,
    )
  ]
