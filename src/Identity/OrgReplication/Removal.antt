-- ===== src/Identity/OrgReplication/Removal.antt =====
-- Soft removal (apps/identity/org_replication.py): what login prunes, and what a leave event does.
use sgdy_pa_backend.Prelude.{
  ℕ, ◌==◌, ◌≡◌, ◌⊎◌, inl, inr, refl, Bool, Bool-cases, true, false, not, ◌&&◌, List, [], ◌∷◌, any,
  select, In, sym, subst, ==_iff, arith,
}
use sgdy_pa_backend.Identity.Models.{Membership, MembershipRole, revoked}
use sgdy_pa_backend.Identity.Authorization.{Db}
use sgdy_pa_backend.Identity.OrgReplication.Memberships.{is_keycloak, is_revoked, save_status}
use sgdy_pa_backend.Identity.OrgReplication.Reconcile.{soft_remove, prune_memberships}
use sgdy_pa_backend.Identity.OrgReplication.Spared.{has_id, links_of}

abbrev pub is_left : ℕ → Membership → Bool
is_left i m = has_id i m && not (is_revoked m.status)

-- No assignment is left, and, unless the row was revoked before, its row is revoked.
abbrev pub IsRemoved : Membership → Db → Type 0
IsRemoved m db =
    (any (links_of m.id) db.membership_roles ≡ false)
    × ((is_revoked m.status ≡ true) ⊎ (any (is_left m.id) db.memberships ≡ false))

module _ (i : ℕ) (m : Membership) where
  any-left_same :
      (t : List Membership) → m.id ≡ i → any (is_left i) (save_status revoked m t) ≡ false
  unfolding save_status
  any-left_same [] e = refl
  any-left_same (x ∷ t) e = ground (arith, any-left_same t e)

  any-left_kept :
      (t : List Membership)
      → any (is_left i) t ≡ false
      → any (is_left i) (save_status revoked m t) ≡ false
  unfolding save_status
  any-left_kept [] h = refl
  any-left_kept (x ∷ t) h = ground (arith, any-left_kept t)

  any-links_same :
      (t : List MembershipRole)
      → m.id ≡ i
      → any (links_of i) (select (λ a. not (a.membership_id == m.id)) t) ≡ false
  any-links_same [] e = refl
  any-links_same (a ∷ t) e = ground (arith, any-links_same t e)

  any-links_kept :
      (t : List MembershipRole)
      → any (links_of i) t ≡ false
      → any (links_of i) (select (λ a. not (a.membership_id == m.id)) t) ≡ false
  any-links_kept [] h = refl
  any-links_kept (a ∷ t) h = ground (arith, any-links_kept t)

pub soft_remove-IsRemoved : (m : Membership) (db : Db) → IsRemoved m (soft_remove m db)
unfolding soft_remove
soft_remove-IsRemoved m db = (
  any-links_same m.id m db.membership_roles refl,
  elim (Bool-cases (is_revoked m.status)) [
    | inl gone ↦ inl gone
    | inr live ↦ inr (rw live (any-left_same m.id m db.memberships refl))
  ],
)

IsRemoved-soft_remove :
    (m n : Membership) (db : Db) → IsRemoved m db → IsRemoved m (soft_remove n db)
unfolding soft_remove
IsRemoved-soft_remove m n db (ls, h) = (
  any-links_kept m.id n db.membership_roles ls,
  elim h [
    | inl gone ↦ inl gone
    | inr left ↦ elim (Bool-cases (is_revoked n.status)) [
      | inl gone ↦ inr (rw gone left)
      | inr live ↦ inr (rw live (any-left_kept m.id n db.memberships left))
    ]
  ],
)

module _ (desired : List ℕ) where
  -- Pruning keeps what is removed, and the organizations that are noted.
  prune-kept :
      (m : Membership) (o : ℕ) (rest : List Membership) (s : Db × List ℕ)
      → IsRemoved m s.0
      → In o s.1
      → IsRemoved m (prune_memberships desired rest s).0 × In o (prune_memberships desired rest s).1
  unfolding prune_memberships
  prune-kept m o [] s h n = (h, n)
  prune-kept m o (x ∷ rest) s h n = elim (Bool-cases (is_keycloak x.origin)) [
    | inr manual ↦ rw (manual, prune_memberships) (prune-kept m o rest s h n)
    | inl kc ↦ elim (Bool-cases (any (λ o. o == x.organization_id) desired)) [
      | inl wanted ↦ rw (kc, wanted, prune_memberships) (prune-kept m o rest s h n)
      | inr unwanted ↦
          rw (kc, unwanted, prune_memberships)
            (prune-kept m o rest (soft_remove x s.0, x.organization_id ∷ s.1)
              (IsRemoved-soft_remove m x s.0 h) (inr n))
    ]
  ]

  pub prune-IsRemoved :
      (m : Membership) (locked : List Membership) (s : Db × List ℕ)
      → In m locked
      → is_keycloak m.origin ≡ true
      → any (λ o. o == m.organization_id) desired ≡ false
      → IsRemoved m (prune_memberships desired locked s).0
        × In m.organization_id (prune_memberships desired locked s).1
  unfolding prune_memberships
  prune-IsRemoved m [] s mem kc un = absurd mem
  prune-IsRemoved m (x ∷ rest) s (inl e) kc un =
      rw (sym e, kc, un, prune_memberships)
        (prune-kept m m.organization_id rest (soft_remove m s.0, m.organization_id ∷ s.1)
          (soft_remove-IsRemoved m s.0) (inl refl))
  prune-IsRemoved m (x ∷ rest) s (inr mem) kc un = prune-IsRemoved m rest _ mem kc un

  -- A desired organization is not reported as removed.
  pub prune-unreported :
      (n : ℕ) (locked : List Membership) (s : Db × List ℕ)
      → any (λ o. o == n) desired ≡ true
      → any (λ o. o == n) s.1 ≡ false
      → any (λ o. o == n) (prune_memberships desired locked s).1 ≡ false
  unfolding prune_memberships
  prune-unreported n [] s wanted clear = clear
  prune-unreported n (x ∷ rest) s wanted clear = elim (Bool-cases (is_keycloak x.origin)) [
    | inr manual ↦ rw (manual, prune_memberships) (prune-unreported n rest s wanted clear)
    | inl kc ↦ elim (Bool-cases (any (λ o. o == x.organization_id) desired)) [
      | inl kept ↦ rw (kc, kept, prune_memberships) (prune-unreported n rest s wanted clear)
      | inr unwanted ↦
          rw (kc, unwanted, prune_memberships)
            (prune-unreported n rest (soft_remove x s.0, x.organization_id ∷ s.1) wanted
              (elim (Bool-cases (x.organization_id == n)) [
                | inr other ↦ rw other clear
                | inl same ↦ absurd (
                    cc (
                      wanted,
                      subst (λ k. any (λ o. o == k) desired ≡ false)
                          ((==_iff x.organization_id n).0 same) unwanted,
                    ))
              ]))
    ]
  ]
