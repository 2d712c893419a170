-- ===== src/Trail/Backfill/Continuity.antt =====
-- The ledger after the migration of the heads (apps/trail/migrations/0002_ledgerhead.py).
use sgdy_pa_backend.Prelude.{
  subst, sym, ◌∙◌, ℕ, ◌-◌, ◌≤◌, ◌==◌, ltb, ◌≡◌, ◌≢◌, refl, Bool-cases, Option-cases, true, false,
  some, List, [], ◌∷◌, any, arith, is_some, All, inl, inr, ==_refl, ==_iff,
}
use sgdy_pa_backend.Prelude.Text.{Text}
use sgdy_pa_backend.Trail.{Hashing, TrailEntry, LedgerHead, Ledger, find_head}
use sgdy_pa_backend.Trail.Chain.{
  find_head-save_head_self, find_head-save_head_ne, entries_of, IsChain, IsChain-bound, IsLedger,
}
use sgdy_pa_backend.Trail.Backfill.{
  organization_ids, last_entry, update_or_create_head, backfill_one, backfill_from,
  backfill_ledger_head,
}

abbrev head_of : ℕ → TrailEntry → LedgerHead
head_of o t = record {
  organization_id = o;
  ultima_secuencia = t.sequence;
  ultimo_hash = t.entry_hash;
}

other_ids : (i o : ℕ) → (i == o) ≡ false → i ≢ o
other_ids i o e same = cc ((==_iff i o).1 same, e)

-- The head that one step writes for its organization, and what it leaves of another.
find_head-update_self :
    (t : TrailEntry) (o : ℕ) (heads : List LedgerHead)
    → find_head o (update_or_create_head t o heads) ≡ some (head_of o t)
unfolding update_or_create_head find_head
find_head-update_self t o heads = elim (Bool-cases (is_some (find_head o heads))) [
  | inl there ↦
      rw
        (
          update_or_create_head,
          there,
          find_head-save_head_self o t.sequence t.entry_hash heads,
          there,
        )
        refl
  | inr absent ↦ rw (update_or_create_head, absent, ==_refl o) refl
]

find_head-update_ne :
    (t : TrailEntry) (o o' : ℕ) (heads : List LedgerHead)
    → (o == o') ≡ false
    → find_head o' (update_or_create_head t o heads) ≡ find_head o' heads
unfolding update_or_create_head find_head
find_head-update_ne t o o' heads other = elim (Bool-cases (is_some (find_head o heads))) [
  | inl there ↦
      rw (update_or_create_head, there)
        (find_head-save_head_ne o o' t.sequence t.entry_hash heads (other_ids o o' other))
  | inr absent ↦ rw (update_or_create_head, absent, other) refl
]

module _ (entries : List TrailEntry) (o : ℕ) where
  backfill_one_self :
      (heads : List LedgerHead) (t : TrailEntry)
      → last_entry (entries_of o entries) ≡ some t
      → find_head o (backfill_one o entries heads) ≡ some (head_of o t)
  unfolding backfill_one
  backfill_one_self heads t e = rw (backfill_one, e) (find_head-update_self t o heads)

  backfill_one-ne :
      (i : ℕ) (heads : List LedgerHead)
      → (i == o) ≡ false
      → find_head o (backfill_one i entries heads) ≡ find_head o heads
  unfolding backfill_one
  backfill_one-ne i heads other = elim (Option-cases (last_entry (entries_of i entries))) [
    | inl e ↦ rw (backfill_one, e) refl
    | inr (t, e) ↦ rw (backfill_one, e) (find_head-update_ne t i o heads other)
  ]

  backfill_from-kept :
      (ids : List ℕ) (heads : List LedgerHead) (t : TrailEntry)
      → last_entry (entries_of o entries) ≡ some t
      → find_head o heads ≡ some (head_of o t)
      → find_head o (backfill_from ids entries heads) ≡ some (head_of o t)
  unfolding backfill_from
  backfill_from-kept [] heads t e there = there
  backfill_from-kept (i ∷ ids) heads t e there = elim (Bool-cases (i == o)) [
    | inl same ↦ backfill_from-kept ids (backfill_one i entries heads) t e (
        subst (λ k. find_head o (backfill_one k entries heads) ≡ some (head_of o t))
          (sym ((==_iff i o).0 same)) (backfill_one_self heads t e))
    | inr other ↦
        backfill_from-kept ids (backfill_one i entries heads) t e
          (backfill_one-ne i heads other ∙ there)
  ]

  backfill_from_self :
      (ids : List ℕ) (heads : List LedgerHead) (t : TrailEntry)
      → last_entry (entries_of o entries) ≡ some t
      → any (λ i. i == o) ids ≡ true
      → find_head o (backfill_from ids entries heads) ≡ some (head_of o t)
  unfolding backfill_from
  backfill_from_self [] heads t e listed = cc
  backfill_from_self (i ∷ ids) heads t e listed = elim (Bool-cases (i == o)) [
    | inl same ↦ backfill_from-kept ids (backfill_one i entries heads) t e (
        subst (λ k. find_head o (backfill_one k entries heads) ≡ some (head_of o t))
          (sym ((==_iff i o).0 same)) (backfill_one_self heads t e))
    | inr other ↦ backfill_from_self ids (backfill_one i entries heads) t e (rw other at listed)
  ]

  backfill_from-ne :
      (ids : List ℕ) (heads : List LedgerHead)
      → any (λ i. i == o) ids ≡ false
      → find_head o (backfill_from ids entries heads) ≡ find_head o heads
  unfolding backfill_from
  backfill_from-ne [] heads unlisted = refl
  backfill_from-ne (i ∷ ids) heads unlisted =
      backfill_from-ne ids (backfill_one i entries heads) (ground arith)
      ∙ backfill_one-ne i heads (ground arith)

pub any-organization_ids :
    (o : ℕ) (es : List TrailEntry)
    → any (λ i. i == o) (organization_ids es) ≡ any (λ e. e.organization_id == o) es
unfolding organization_ids
any-organization_ids o [] = refl
any-organization_ids o (e ∷ es) =
    let listed' = any (λ i. i == e.organization_id) (organization_ids es) in
    elim (Bool-cases (e.organization_id == o)) [
      | inl same ↦ elim (Bool-cases listed') [
        | inl listed ↦
            rw (listed, same)
              (subst (λ k. any (λ i. i == k) (organization_ids es) ≡ true)
                ((==_iff e.organization_id o).0 same) listed)
        | inr new ↦ rw (new, same) refl
      ]
      | inr other ↦ elim (Bool-cases listed') [
        | inl listed ↦ rw (listed, other) (any-organization_ids o es)
        | inr new ↦ rw (new, other) (any-organization_ids o es)
      ]
    ]

entries_of-none :
    (o : ℕ) (es : List TrailEntry)
    → any (λ e. e.organization_id == o) es ≡ false
    → entries_of o es ≡ []
entries_of-none o [] h = refl
entries_of-none o (e ∷ es) h = ground (arith, entries_of-none o es)

entries_of-some :
    (o : ℕ) (es : List TrailEntry)
    → any (λ e. e.organization_id == o) es ≡ true
    → (x : TrailEntry) × (xs : List TrailEntry) × (entries_of o es ≡ x ∷ xs)
entries_of-some o [] h = cc
entries_of-some o (e ∷ es) h = elim (Bool-cases (e.organization_id == o)) [
  | inl here ↦ (e, entries_of o es, rw here refl)
  | inr other ↦ let (x, xs, eq) = entries_of-some o es (rw other at h) in (x, xs, rw other eq)
]

All-last_entry {κ} :
    (P : TrailEntry → Type κ) (es : List TrailEntry) (t : TrailEntry)
    → All P es
    → last_entry es ≡ some t
    → P t
unfolding last_entry
All-last_entry P [] t h e = cc
All-last_entry P (x ∷ es) t h e = elim (Option-cases (last_entry es)) [
  | inl none' ↦ subst P (cc (rw none' at e)) h.0
  | inr (u, f) ↦ elim (Bool-cases (ltb x.sequence u.sequence)) [
    | inl later ↦ All-last_entry P es t h.1 (f ∙ rw (f, later) at e)
    | inr not_later ↦ subst P (cc (rw (f, not_later) at e)) h.0
  ]
]

ltb-false : (a b : ℕ) → b ≤ a → ltb a b ≡ false
ltb-false a b h = ground arith

-- The newest row of a chain is its last entry.
last_entry-IsChain :
    (h : Hashing) (n : ℕ) (t : Text) (e : TrailEntry) (es : List TrailEntry)
    → IsChain h n t (e ∷ es)
    → last_entry (e ∷ es) ≡ some e
unfolding last_entry
last_entry-IsChain h n t e es c = elim (Option-cases (last_entry es)) [
  | inl none' ↦ rw none' refl
  | inr (u, f) ↦
      let below : u.sequence ≤ n - 1 =
        All-last_entry (λ x. x.sequence ≤ n - 1) es u
          (IsChain-bound h (n - 1) e.previous_hash es c.4) f in
      rw (f, ltb-false e.sequence u.sequence (omega arith)) refl
]

-- A chain is a chain under the columns of its newest row.
IsChain-restart :
    (h : Hashing) (n : ℕ) (t : Text) (e : TrailEntry) (es : List TrailEntry)
    → IsChain h n t (e ∷ es)
    → IsChain h e.sequence e.entry_hash (e ∷ es)
IsChain-restart h n t e es c =
    (rw c.1 c.0, refl, refl, c.3, subst (λ k. IsChain h (k - 1) e.previous_hash es) (sym c.1) c.4)

-- Where every organization's rows are a chain, and there are no heads, the migration gives a
-- well-formed ledger: each chain goes on from its newest row.
pub backfill_ledger_head-IsLedger :
    (h : Hashing) (l : Ledger)
    → ((o : ℕ) → (n : ℕ) × (t : Text) × IsChain h n t (entries_of o l.entries))
    → l.heads ≡ []
    → IsLedger h (backfill_ledger_head l) × ((backfill_ledger_head l).entries ≡ l.entries)
unfolding backfill_ledger_head find_head
backfill_ledger_head-IsLedger h l chains empty = (
  λ o. elim (Bool-cases (any (λ e. e.organization_id == o) l.entries)) [
    | inl some' ↦
        let (e, es, eq) = entries_of-some o l.entries some' in
        let (n, t, c) = chains o in
        let c' : IsChain h n t (e ∷ es) = rw eq at c in
        let last : last_entry (entries_of o l.entries) ≡ some e =
          rw eq (last_entry-IsChain h n t e es c') in
        rw
          (
            backfill_from_self l.entries o (organization_ids l.entries) l.heads e last
                (any-organization_ids o l.entries ∙ some'),
            eq,
          )
          (IsChain-restart h n t e es c')
    | inr none' ↦
        rw
          (
            backfill_from-ne l.entries o (organization_ids l.entries) l.heads
                (any-organization_ids o l.entries ∙ none'),
            empty,
            entries_of-none o l.entries none',
          )
          (refl, refl)
  ],
  refl,
)
