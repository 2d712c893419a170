-- ===== src/Trail/Partitions/Rehoming.antt =====
-- What moving rows out of the default partition (ensure_trail_partitions.py) keeps.
use sgdy_pa_backend.Prelude.{
  ℕ, ◌==◌, ==_iff, ◌≡◌, ◌↔◌, ◌⊎◌, inl, inr, refl, ◌∙◌, sym, ap, subst, Bool, Bool-cases, true,
  false, not, List, [], ◌∷◌, In, All, any, any-holds, any-update_where, select, update_where,
  in-update_where, if◌then◌else◌, arith,
}
use sgdy_pa_backend.Trail.{TrailEntry}
use sgdy_pa_backend.Trail.Partitions.Tables.{
  Partition, TrailTable, takes, with_row, insert_row, insert_rows,
}

-- The row stands in the default partition, or in another one.
abbrev pub Holds : TrailEntry → TrailTable → Type 0
Holds r t = In r t.default_rows ⊎ ((p : Partition) × In p t.partitions × In r p.rows)

in-update_where_of :
    {A : Type 0}
    → (p : A → Bool) (f : A → A) (xs : List A) (x : A) → In x xs
    → In (if p x then f x else x) (update_where p f xs)
in-update_where_of p f [] x m = absurd m
in-update_where_of p f (y ∷ xs) x (inl e) = inl (ap (λ z. if p z then f z else z) e)
in-update_where_of p f (y ∷ xs) x (inr m) = inr (in-update_where_of p f xs x m)

abbrev pub routed_table : TrailEntry → TrailTable → TrailTable
routed_table x t = record t { partitions = update_where (takes x) (with_row x) t.partitions }

in_with_row :
    (x r : TrailEntry) (q : Partition) (b : Bool)
    → In r (if b then with_row x q else q).rows
    → (r ≡ x) ⊎ In r q.rows
in_with_row x r q true m = m
in_with_row x r q false m = inr m

kept_in :
    (x r : TrailEntry) (q : Partition) (b : Bool)
    → In r q.rows
    → In r (if b then with_row x q else q).rows
kept_in x r q true m = inr m
kept_in x r q false m = m

Holds-insert_row :
    (x : TrailEntry) (t : TrailTable) (r : TrailEntry)
    → Holds r (insert_row x t)
    → (r ≡ x) ⊎ Holds r t
unfolding insert_row
Holds-insert_row x t r h = elim (Bool-cases (any (takes x) t.partitions)) [
  | inr default ↦
      let h' : Holds r (record t { default_rows = x ∷ t.default_rows }) =
        rw (insert_row, default) at h in
      elim h' [ inl (inl same) ↦ inl same | inl (inr old) ↦ inr (inl old) | inr p ↦ inr (inr p) ]
  | inl routed ↦
      let h' : Holds r (routed_table x t) = rw (insert_row, routed) at h in
      elim h' [
        | inl old ↦ inr (inl old)
        | inr (p, mp, mr) ↦
            let (q, mq, e) = in-update_where (takes x) (with_row x) t.partitions p mp in
            elim (in_with_row x r q (takes x q) (subst (λ z. In r z.rows) e mr)) [
              | inl same ↦ inl same
              | inr old ↦ inr (inr (q, mq, old))
            ]
      ]
]

Holds-insert_row_of :
    (x : TrailEntry) (t : TrailTable) (r : TrailEntry)
    → (r ≡ x) ⊎ Holds r t
    → Holds r (insert_row x t)
unfolding insert_row
Holds-insert_row_of x t r h = elim (Bool-cases (any (takes x) t.partitions)) [
  | inr default ↦
      rw (insert_row, default)
        (elim h [ inl same ↦ inl (inl same) | inr (inl old) ↦ inl (inr old) | inr (inr p) ↦ inr p ])
  | inl routed ↦
      rw (insert_row, routed)
        (elim h [
          | inl same ↦
              let (p, mp, taken) = any-holds (takes x) t.partitions routed in
              inr (
                _,
                in-update_where_of (takes x) (with_row x) t.partitions p mp,
                rw taken (inl same),
              )
          | inr (inl old) ↦ inl old
          | inr (inr (p, mp, mr)) ↦ inr (
            _,
            in-update_where_of (takes x) (with_row x) t.partitions p mp,
            kept_in x r p (takes x p) mr,
          )
        ])
]

pub insert_row-default_rows :
    (x : TrailEntry) (t : TrailTable)
    → any (takes x) t.partitions ≡ true
    → (insert_row x t).default_rows ≡ t.default_rows
unfolding insert_row
insert_row-default_rows x t e = rw e refl

-- A partition of an organization stays.
abbrev pub has_partition : ℕ → TrailTable → Bool
has_partition o t = any (λ p. p.organization == o) t.partitions

pub has_partition-insert_row :
    (o : ℕ) (x : TrailEntry) (t : TrailTable) → has_partition o (insert_row x t) ≡ has_partition o t
unfolding insert_row
has_partition-insert_row o x t = elim (Bool-cases (any (takes x) t.partitions)) [
  | inr default ↦ rw (insert_row, default) refl
  | inl routed ↦
      rw (insert_row, routed)
        (any-update_where (λ p. p.organization == o) (takes x) (with_row x) t.partitions
          (λ p. refl))
]

-- Rows of an organization that has a partition are all moved there.
module _ (o : ℕ) where
  pub insert_rows-default_rows :
      (xs : List TrailEntry) (t : TrailTable)
      → All (λ r. (r.organization_id == o) ≡ true) xs
      → has_partition o t ≡ true
      → (insert_rows xs t).default_rows ≡ t.default_rows
  unfolding insert_rows
  insert_rows-default_rows [] t h e = refl
  insert_rows-default_rows (x ∷ xs) t h e =
      insert_rows-default_rows xs (insert_row x t) h.1 (has_partition-insert_row o x t ∙ e)
      ∙ insert_row-default_rows x t
          (subst (λ k. has_partition k t ≡ true) (sym ((==_iff x.organization_id o).0 h.0)) e)

  pub select-holds :
      (xs : List TrailEntry)
      → All (λ r. (r.organization_id == o) ≡ true) (select (λ r. r.organization_id == o) xs)
  select-holds [] = tt
  select-holds (x ∷ xs) = elim (Bool-cases (x.organization_id == o)) [
    | inl here ↦ rw here (here, select-holds xs)
    | inr other ↦ rw other (select-holds xs)
  ]

  pub any-others :
      (xs : List TrailEntry)
      → any (λ r. r.organization_id == o) (select (λ r. not (r.organization_id == o)) xs) ≡ false
  any-others [] = refl
  any-others (x ∷ xs) = ground (arith, any-others xs)

pub Holds-insert_rows :
    (xs : List TrailEntry) (t : TrailTable) (r : TrailEntry)
    → Holds r (insert_rows xs t) ↔ (In r xs ⊎ Holds r t)
unfolding insert_rows
Holds-insert_rows [] t r = (inr, λ h. elim h [ inl m ↦ absurd m | inr k ↦ k ])
Holds-insert_rows (x ∷ xs) t r = (
  λ h. elim ((Holds-insert_rows xs (insert_row x t) r).0 h) [
    | inl m ↦ inl (inr m)
    | inr k ↦ elim (Holds-insert_row x t r k) [ inl e ↦ inl (inl e) | inr k' ↦ inr k' ]
  ],
  λ h. (Holds-insert_rows xs (insert_row x t) r).1 (elim h [
    | inl (inl e) ↦ inr (Holds-insert_row_of x t r (inl e))
    | inl (inr m) ↦ inl m
    | inr k ↦ inr (Holds-insert_row_of x t r (inr k))
  ]),
)
