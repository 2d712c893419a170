-- ===== src/Trail/Partitions/Emptied.antt =====
-- The default partition after its rows have moved (ensure_trail_partitions.py).
use sgdy_pa_backend.Prelude.Text.{lit}
use sgdy_pa_backend.Prelude.{
  ◌||◌, select, in-select, in-select_of_in, ◌⊎◌, All, not, Bool-cases, ℕ, ◌==◌, ==_iff, ==_refl,
  ◌≡◌, ◌≢◌, ◌↔◌, ◌⊎◌, inl, inr, refl, ◌∙◌, sym, subst, Bool, Bool-cases, true, false, some, List,
  [], ◌∷◌, ◌++◌, In, any, any-holds, any_of_in, in-update_where, if◌then◌else◌, arith,
}
use sgdy_pa_backend.Prelude.Text.{Text, text_eq_iff}
use sgdy_pa_backend.Trail.{TrailEntry}
use sgdy_pa_backend.Trail.Partitions.{partition_name, parent_table}
use sgdy_pa_backend.Trail.Partitions.Names.{append_injective}
use sgdy_pa_backend.Trail.Partitions.Tables.{
  rehome_default_rows, rehome, Partition, TrailTable, is_named, create_partition, takes, with_row,
  insert_row, insert_rows,
}
use sgdy_pa_backend.Trail.Partitions.Rehoming.{
  has_partition-insert_row, Holds, has_partition, any-others, insert_rows-default_rows,
  select-holds, Holds-insert_rows,
}

in-append : {A : Type 0} → (x : A) (xs ys : List A) → In x (xs ++ ys) → In x xs ⊎ In x ys
in-append x [] ys m = inr m
in-append x (y ∷ xs) ys (inl e) = inl (inl e)
in-append x (y ∷ xs) ys (inr m) = elim (in-append x xs ys m) [ inl k ↦ inl (inr k) | inr k ↦ inr k ]

still_none :
    (o k : ℕ) (xs : List TrailEntry)
    → any (λ r. r.organization_id == k) xs ≡ false
    → any (λ r. r.organization_id == k) (select (λ r. not (r.organization_id == o)) xs) ≡ false
still_none o k [] h = refl
still_none o k (x ∷ xs) h = ground (arith, still_none o k xs)

pub partition_name_injective :
    (hex : ℕ → Text) (o o' : ℕ) → partition_name hex o ≡ partition_name hex o' → hex o ≡ hex o'
unfolding partition_name
partition_name_injective hex o o' e = append_injective (parent_table ++ lit "_") (hex o) (hex o') e

or_true : (a b : Bool) → b ≡ true → (a || b) ≡ true
or_true a b e = ground arith

has_partition-insert_rows :
    (o : ℕ) (xs : List TrailEntry) (t : TrailTable)
    → has_partition o (insert_rows xs t) ≡ has_partition o t
unfolding insert_rows
has_partition-insert_rows o [] t = refl
has_partition-insert_rows o (x ∷ xs) t =
    has_partition-insert_rows o xs (insert_row x t) ∙ has_partition-insert_row o x t

module _ (hex : ℕ → Text) where
  -- A partition has the name of its organization, a detached table that of none.
  abbrev pub IsNamed : TrailTable → Type 0
  IsNamed t =
      ((p : Partition) → In p t.partitions → p.name ≡ partition_name hex p.organization)
      × ((p : Partition) → In p t.detached → (o : ℕ) → p.name ≢ partition_name hex o)

  -- No row of the organization stands in the default partition.
  abbrev pub IsMoved : TrailTable → ℕ → Type 0
  IsMoved t o = any (λ r. r.organization_id == o) t.default_rows ≡ false

  named_with_row :
      (x : TrailEntry) (p q : Partition) (b : Bool)
      → p ≡ (if b then with_row x q else q)
      → q.name ≡ partition_name hex q.organization
      → p.name ≡ partition_name hex p.organization
  named_with_row x p q true e n = subst (λ z. z.name ≡ partition_name hex z.organization) (sym e) n
  named_with_row x p q false e n = subst (λ z. z.name ≡ partition_name hex z.organization) (sym e) n

  insert_row-IsNamed : (x : TrailEntry) (t : TrailTable) → IsNamed t → IsNamed (insert_row x t)
  unfolding insert_row
  insert_row-IsNamed x t n = elim (Bool-cases (any (takes x) t.partitions)) [
    | inr default ↦ rw (insert_row, default) n
    | inl routed ↦
        rw (insert_row, routed)
          (
            (λ p m.
                let (q, mq, e) = in-update_where (takes x) (with_row x) t.partitions p m in
                named_with_row x p q (takes x q) e (n.0 q mq)),
            n.1,
          )
  ]

  insert_rows-IsNamed :
      (xs : List TrailEntry) (t : TrailTable) → IsNamed t → IsNamed (insert_rows xs t)
  unfolding insert_rows
  insert_rows-IsNamed [] t n = n
  insert_rows-IsNamed (x ∷ xs) t n =
      insert_rows-IsNamed xs (insert_row x t) (insert_row-IsNamed x t n)

  module _ (distinct : (o o' : ℕ) → partition_name hex o ≡ partition_name hex o' → o ≡ o') where
    pub found :
        (o : ℕ) (t : TrailTable)
        → IsNamed t
        → any (is_named (partition_name hex o)) (t.partitions ++ t.detached) ≡ true
        → has_partition o t ≡ true
    found o t n there =
        let (p, m, e) =
          any-holds (is_named (partition_name hex o)) (t.partitions ++ t.detached) there in
        let named : p.name ≡ partition_name hex o =
          (text_eq_iff p.name (partition_name hex o)).0 e in
        elim (in-append p t.partitions t.detached m) [
          | inr old ↦ absurd (n.1 p old o named)
          | inl here ↦
              any_of_in (λ q. q.organization == o) t.partitions p here
                ((==_iff p.organization o).1 (distinct p.organization o (sym (n.0 p here) ∙ named)))
        ]

    -- Without rows in the default partition, a partition is created, or it is there.
    pub create_partition_lem :
        (o : ℕ) (t : TrailTable)
        → IsNamed t
        → IsMoved t o
        → (t' : TrailTable) × (create_partition hex o t ≡ some t')
          × IsNamed t'
          × (has_partition o t' ≡ true)
          × (t'.default_rows ≡ t.default_rows)
          × ((k : ℕ) → has_partition k t ≡ true → has_partition k t' ≡ true)
          × ((r : TrailEntry) → Holds r t' ↔ Holds r t)
    unfolding create_partition
    create_partition_lem o t n moved =
        elim (Bool-cases (any (is_named (partition_name hex o)) (t.partitions ++ t.detached))) [
          | inl there ↦ (
            t,
            rw (create_partition, there) refl,
            n,
            found o t n there,
            refl,
            (λ k h. h),
            λ r. ((λ h. h), (λ h. h)),
          )
          | inr new ↦ (
            record t {
              partitions =
                  record { name = partition_name hex o; organization = o; rows = [] }
                  ∷ t.partitions;
            },
            rw (create_partition, new, moved) refl,
            (
              (λ p m. elim m [
                | inl e ↦ subst (λ z. z.name ≡ partition_name hex z.organization) (sym e) refl
                | inr k ↦ n.0 p k
              ]),
              n.1,
            ),
            rw (==_refl o) refl,
            refl,
            (λ k h. or_true (o == k) _ h),
            λ r. (
              (λ h. elim h [
                | inl m ↦ inl m
                | inr (p, inl e, m) ↦ absurd (subst (λ z. In r z.rows) e m)
                | inr (p, inr k, m) ↦ inr (p, k, m)
              ]),
              (λ h. elim h [ inl m ↦ inl m | inr (p, k, m) ↦ inr (p, inr k, m) ]),
            ),
          )
        ]

    rehome_lem :
        (o : ℕ) (t : TrailTable)
        → IsNamed t
        → (t' : TrailTable) × (rehome hex o t ≡ some t')
          × IsNamed t'
          × (t'.default_rows ≡ select (λ r. not (r.organization_id == o)) t.default_rows)
          × (has_partition o t' ≡ true)
          × ((k : ℕ) → has_partition k t ≡ true → has_partition k t' ≡ true)
          × ((r : TrailEntry) → Holds r t' ↔ Holds r t)
    unfolding rehome
    rehome_lem o t n =
        let moved = select (λ r. r.organization_id == o) t.default_rows in
        let rest : TrailTable = record t {
          default_rows = select (λ r. not (r.organization_id == o)) t.default_rows;
        } in
        let (t1, e, n1, has, d, retains, k) =
          create_partition_lem o rest n (any-others o t.default_rows) in
        (
          insert_rows moved t1,
          rw (rehome, e) refl,
          insert_rows-IsNamed moved t1 n1,
          insert_rows-default_rows o moved t1 (select-holds o t.default_rows) has ∙ d,
          has_partition-insert_rows o moved t1 ∙ has,
          (λ i h. has_partition-insert_rows i moved t1 ∙ retains i h),
          λ r. (
            (λ h. elim ((Holds-insert_rows moved t1 r).0 h) [
              | inl m ↦ inl (in-select (λ x. x.organization_id == o) t.default_rows r m).0
              | inr h' ↦ elim ((k r).0 h') [
                | inl m ↦ inl (in-select (λ x. not (x.organization_id == o)) t.default_rows r m).0
                | inr p ↦ inr p
              ]
            ]),
            (λ h. (Holds-insert_rows moved t1 r).1 (elim h [
              | inr p ↦ inr ((k r).1 (inr p))
              | inl m ↦ elim (Bool-cases (r.organization_id == o)) [
                | inl here ↦
                    inl (in-select_of_in (λ x. x.organization_id == o) t.default_rows r m here)
                | inr other ↦ inr (
                    (k r).1 (
                      inl (
                        in-select_of_in (λ x. not (x.organization_id == o)) t.default_rows r m
                          (rw other refl))))
              ]
            ])),
          ),
        )

    IsMoved-rehome :
        (o k : ℕ) (t t' : TrailTable)
        → t'.default_rows ≡ select (λ r. not (r.organization_id == o)) t.default_rows
        → (IsMoved t k ⊎ (o ≡ k))
        → IsMoved t' k
    IsMoved-rehome o k t t' d (inl moved) = rw d (still_none o k t.default_rows moved)
    IsMoved-rehome o k t t' d (inr same) = rw d (
        subst
          (λ i.
            any (λ r. r.organization_id == i)
              (select (λ r. not (r.organization_id == o)) t.default_rows)
            ≡ false)
          same (any-others o t.default_rows))

    pub rehome_default_rows_kept :
        (ids : List ℕ) (t : TrailTable)
        → IsNamed t
        → (t' : TrailTable) × (rehome_default_rows hex ids t ≡ some t')
          × IsNamed t'
          × All (IsMoved t') ids
          × ((k : ℕ) → IsMoved t k → IsMoved t' k)
          × All (λ o. has_partition o t' ≡ true) ids
          × ((k : ℕ) → has_partition k t ≡ true → has_partition k t' ≡ true)
          × ((r : TrailEntry) → In r t'.default_rows → In r t.default_rows)
          × ((r : TrailEntry) → Holds r t' ↔ Holds r t)
    unfolding rehome_default_rows
    rehome_default_rows_kept [] t n =
        (t, refl, n, tt, (λ k m. m), tt, (λ k h. h), (λ r m. m), λ r. ((λ h. h), (λ h. h)))
    rehome_default_rows_kept (o ∷ ids) t n =
        let (t1, e, n1, d, has, retains, k) = rehome_lem o t n in
        let (t2, e', n2, moved, kept, has', retains', sub, k') =
          rehome_default_rows_kept ids t1 n1 in
        (
          t2,
          rw (rehome_default_rows, e) e',
          n2,
          (kept o (IsMoved-rehome o o t t1 d (inr refl)), moved),
          (λ i m. kept i (IsMoved-rehome o i t t1 d (inl m))),
          (retains' o has, has'),
          (λ i h. retains' i (retains i h)),
          (λ r m.
              (in-select (λ x. not (x.organization_id == o)) t.default_rows r
                (subst (In r) d (sub r m))).0),
          λ r. ((λ h. (k r).0 ((k' r).0 h)), (λ h. (k' r).1 ((k r).1 h))),
        )
