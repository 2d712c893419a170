-- ===== src/Trail/Partitions/Ensured.antt =====
-- The table after the command that ensures partitions (ensure_trail_partitions.py).
use sgdy_pa_backend.Prelude.{
  ℕ, ◌==◌, ==_iff, ==_refl, ◌≡◌, ◌↔◌, ◌∙◌, inl, inr, refl, subst, Bool-cases, true, some, List, [],
  ◌∷◌, ◌++◌, In, All, All-map, any, any_of_in, any-false,
}
use sgdy_pa_backend.Prelude.Text.{Text}
use sgdy_pa_backend.Trail.{TrailEntry}
use sgdy_pa_backend.Trail.Backfill.Continuity.{any-organization_ids}
use sgdy_pa_backend.Trail.Partitions.{partition_name}
use sgdy_pa_backend.Trail.Partitions.Tables.{
  TrailTable, is_named, default_org_ids, create_missing, ensure_trail_partitions,
}
use sgdy_pa_backend.Trail.Partitions.Rehoming.{Holds, has_partition}
use sgdy_pa_backend.Trail.Partitions.Emptied.{
  IsNamed, IsMoved, found, create_partition_lem, rehome_default_rows_kept, partition_name_injective,
}

All-at {κ} :
    (P : ℕ → Type κ) (ids : List ℕ) (k : ℕ) → All P ids → any (λ i. i == k) ids ≡ true → P k
All-at P [] k h e = absurd (cc e)
All-at P (i ∷ ids) k h e = elim (Bool-cases (i == k)) [
  | inl same ↦ subst P ((==_iff i k).0 same) h.0
  | inr other ↦ All-at P ids k h.1 (rw other at e)
]

no_rows : (xs : List TrailEntry) → ((r : TrailEntry) → In r xs → ⊥) → xs ≡ []
no_rows [] h = refl
no_rows (x ∷ xs) h = absurd (h x (inl refl))

module _ (hex : ℕ → Text)
    (distinct : (o o' : ℕ) → partition_name hex o ≡ partition_name hex o' → o ≡ o') where
  create_missing_lem :
      (ids orgs : List ℕ) (t : TrailTable)
      → IsNamed hex t
      → t.default_rows ≡ []
      → All (λ o. has_partition o t ≡ true) ids
      → (t' : TrailTable) × (create_missing hex ids orgs t ≡ some t')
        × (t'.default_rows ≡ [])
        × All (λ o. has_partition o t' ≡ true) orgs
        × ((k : ℕ) → has_partition k t ≡ true → has_partition k t' ≡ true)
        × ((r : TrailEntry) → Holds r t' ↔ Holds r t)
  unfolding create_missing
  create_missing_lem ids [] t n d has = (t, refl, d, tt, (λ k h. h), λ r. ((λ h. h), (λ h. h)))
  create_missing_lem ids (o ∷ orgs) t n d has =
      elim (Bool-cases (any (is_named (partition_name hex o)) (t.partitions ++ t.detached))) [
        | inl there ↦
            let (t', e, d', all', retains, k) = create_missing_lem ids orgs t n d has in
            (
              t',
              rw (create_missing, there) e,
              d',
              (retains o (found hex distinct o t n there), all'),
              retains,
              k,
            )
        | inr new ↦ elim (Bool-cases (any (λ i. i == o) ids)) [
          | inl listed ↦
              let (t', e, d', all', retains, k) = create_missing_lem ids orgs t n d has in
              (
                t',
                rw (create_missing, new, listed) e,
                d',
                (retains o (All-at (λ i. has_partition i t ≡ true) ids o has listed), all'),
                retains,
                k,
              )
          | inr unlisted ↦
              let (t1, e1, n1, has1, d1, retains1, k1) =
                create_partition_lem hex distinct o t n (rw d refl) in
              let (t', e, d', all', retains, k) =
                create_missing_lem ids orgs t1 n1 (d1 ∙ d)
                  (All-map _ _ (λ i h. retains1 i h) ids has) in
              (
                t',
                rw (create_missing, e1, new, unlisted) e,
                d',
                (retains o has1, all'),
                (λ i h. retains i (retains1 i h)),
                λ r. ((λ h. (k1 r).0 ((k r).0 h)), (λ h. (k r).1 ((k1 r).1 h))),
              )
        ]
      ]

  emptied :
      (t t' : TrailTable)
      → All (IsMoved hex t') (default_org_ids t)
      → ((r : TrailEntry) → In r t'.default_rows → In r t.default_rows)
      → t'.default_rows ≡ []
  emptied t t' moved sub = no_rows t'.default_rows (λ r m.
      let listed =
        any-organization_ids r.organization_id t.default_rows
        ∙ any_of_in (λ e. e.organization_id == r.organization_id) t.default_rows r (sub r m)
            (==_refl r.organization_id) in
      let none' = All-at (IsMoved hex t') (default_org_ids t) r.organization_id moved listed in
      cc (
        any-false (λ x. x.organization_id == r.organization_id) t'.default_rows r none' m,
        ==_refl r.organization_id,
      ))

  ensured :
      (orgs : List ℕ) (t : TrailTable)
      → IsNamed hex t
      → (t' : TrailTable) × (ensure_trail_partitions hex orgs t ≡ some t')
        × (t'.default_rows ≡ [])
        × All (λ o. has_partition o t' ≡ true) orgs
        × ((r : TrailEntry) → Holds r t' ↔ Holds r t)
  unfolding ensure_trail_partitions
  ensured orgs t n =
      let ids = default_org_ids t in
      let (t1, e1, n1, moved, kept, has, retains, sub, k1) =
        rehome_default_rows_kept hex distinct ids t n in
      let (t', e, d, all', retains', k) =
        create_missing_lem ids orgs t1 n1 (emptied t t1 moved sub) has in
      (
        t',
        rw (ensure_trail_partitions, e1) e,
        d,
        all',
        λ r. ((λ h. (k1 r).0 ((k r).0 h)), (λ h. (k r).1 ((k1 r).1 h))),
      )

-- Where `hex` tells organizations apart, and tables are named after them, the command is not refused:
-- it leaves no row in the default partition and a partition for each organization, and the
-- partitions hold the same rows as before.
pub ensure_trail_partitions_lem :
    (hex : ℕ → Text) (orgs : List ℕ) (t : TrailTable)
    → ((o o' : ℕ) → hex o ≡ hex o' → o ≡ o')
    → IsNamed hex t
    → (t' : TrailTable) × (ensure_trail_partitions hex orgs t ≡ some t')
      × (t'.default_rows ≡ [])
      × All (λ o. has_partition o t' ≡ true) orgs
      × ((r : TrailEntry) → Holds r t' ↔ Holds r t)
ensure_trail_partitions_lem hex orgs t distinct n =
    ensured hex (λ o o' same. distinct o o' (partition_name_injective hex o o' same)) orgs t n
