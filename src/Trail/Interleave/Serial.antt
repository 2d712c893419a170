-- ===== src/Trail/Interleave/Serial.antt =====
-- Ledgers that interleaved appends (apps/trail/services.py) leave.
use native.Mathlib.Decide.{ℕ_discrete}
use sgdy_pa_backend.Prelude.{
  ℕ, ◌+◌, ◌-◌, ==_iff, ==_refl, ◌≡◌, ◌≢◌, refl, subst, inl, inr, Option-cases, true, false, Option,
  some, List, ◌∷◌, ◌++◌, is_some, arith, sym,
}
use sgdy_pa_backend.Trail.{
  Hashing, TrailEntry, LedgerHead, fresh_head, or_else, find_head, get_or_create_head, save_head,
  violates_unique, new_entry, hash_entry, canonical, canonical_dict, Ledger,
}
use sgdy_pa_backend.Trail.Chain.{
  entries_of, IsChain, IsLedger, IsChain-fresh, find_head-save_head_self, find_head-save_head_ne,
  find_head-get_or_create_ne, tip,
}
use sgdy_pa_backend.Trail.Interleave.{
  Call, Phase, free, head_read, inserted, State, set_phase, row_of, Step, locks, inserts, saves,
  Steps, none_taken, followed_by,
}

set_phase_self : (o : ℕ) (p : Phase) (f : ℕ → Phase) → set_phase o p f o ≡ p
unfolding set_phase
set_phase_self o p f = rw (==_refl o) refl

set_phase_ne : (o i : ℕ) (p : Phase) (f : ℕ → Phase) → o ≢ i → set_phase o p f i ≡ f i
unfolding set_phase
set_phase_ne o i p f other = ground (arith, ==_iff i o)

-- A property of every phase, after one is set.
set_phase_cases {κ} :
    (P : ℕ → Phase → Type κ) (o : ℕ) (p : Phase) (f : ℕ → Phase)
    → P o p
    → ((i : ℕ) → o ≢ i → P i (f i))
    → (i : ℕ) → P i (set_phase o p f i)
set_phase_cases P o p f here elsewhere i = elim (ℕ_discrete o i) [
  | yes same ↦ subst (λ k. P k (set_phase o p f k)) same (rw (set_phase_self o p f) here)
  | no other ↦ rw (set_phase_ne o i p f other) (elsewhere i other)
]

-- The head that is read is the stored one.
find_head-get_or_create :
    (o : ℕ) (heads : List LedgerHead)
    → find_head o (get_or_create_head o heads).1 ≡ some (get_or_create_head o heads).0
unfolding get_or_create_head find_head
find_head-get_or_create o heads = elim (Option-cases (find_head o heads)) [
  | inl absent ↦ rw (absent, ==_refl o) refl
  | inr (head, found) ↦ rw (found, found) refl
]

entries_of-row_ne :
    (h : Hashing) (c : Call) (head : LedgerHead) (o : ℕ) (es : List TrailEntry)
    → c.organization.id ≢ o
    → entries_of o (row_of h c head ∷ es) ≡ entries_of o es
unfolding new_entry
entries_of-row_ne h c head o es other = ground (arith, ==_iff c.organization.id o)

add-sub_one : (n : ℕ) → n + 1 - 1 ≡ n
add-sub_one n = omega arith

module _ (h : Hashing) where
  -- What holds of an organization's head and rows, under the phase of its lock.
  abbrev pub IsPhase : ℕ → Option LedgerHead → List TrailEntry → Phase → Type 0
  IsPhase o stored rows free =
      IsChain h (or_else stored (fresh_head o)).ultima_secuencia
        (or_else stored (fresh_head o)).ultimo_hash rows
  IsPhase o stored rows (head_read c head) =
      (c.organization.id ≡ o)
      × (stored ≡ some head)
      × IsChain h head.ultima_secuencia head.ultimo_hash rows
  IsPhase o stored rows (inserted c e) =
      (c.organization.id ≡ o) × (is_some stored ≡ true) × IsChain h e.sequence e.entry_hash rows

  abbrev pub IsSound : State → Type 0
  IsSound s =
      (o : ℕ) → IsPhase o (find_head o s.ledger.heads) (entries_of o s.ledger.entries) (s.phase o)

  -- The row that is inserted under the head of a chain continues it.
  row_of-IsChain :
      (c : Call) (head : LedgerHead) (es : List TrailEntry)
      → IsChain h head.ultima_secuencia head.ultimo_hash (entries_of c.organization.id es)
      → let e = row_of h c head in
        IsChain h e.sequence e.entry_hash (entries_of c.organization.id (e ∷ es))
  unfolding new_entry hash_entry canonical canonical_dict
  row_of-IsChain c head es chain =
      rw (==_refl c.organization.id)
        (omega arith, refl, refl, refl, rw (add-sub_one head.ultima_secuencia) chain)

  phase_at :
      (s : State) (o : ℕ) (p : Phase)
      → IsSound s
      → s.phase o ≡ p
      → IsPhase o (find_head o s.ledger.heads) (entries_of o s.ledger.entries) p
  phase_at s o p sound e =
      subst (IsPhase o (find_head o s.ledger.heads) (entries_of o s.ledger.entries)) e (sound o)

  row_of-free :
      (s : State) (c : Call) (head : LedgerHead)
      → IsSound s
      → s.phase c.organization.id ≡ head_read c head
      → violates_unique (row_of h c head) s.ledger.entries ≡ false
  unfolding new_entry
  row_of-free s c head sound e =
      let o = c.organization.id in
      let (same, stored, chain) =
        subst (IsPhase o (find_head o s.ledger.heads) (entries_of o s.ledger.entries)) e
          (sound o) in
      IsChain-fresh h head.ultima_secuencia head.ultimo_hash (row_of h c head) s.ledger.entries
        chain refl

  Step-IsSound : (s s' : State) → Step h s s' → IsSound s → IsSound s'
  unfolding get_or_create_head
  Step-IsSound _ _ (locks l f xs ys c e) sound =
      let o = c.organization.id in
      let heads = (get_or_create_head o l.heads).1 in
      set_phase_cases (λ i. IsPhase i (find_head i heads) (entries_of i l.entries)) o
        (head_read c (get_or_create_head o l.heads).0) f
        (
          refl,
          find_head-get_or_create o l.heads,
          phase_at (record { ledger = l; phase = f; pending = xs ++ c ∷ ys }) o free sound e,
        )
        (λ i other. rw (find_head-get_or_create_ne o i l.heads other) (sound i))
  Step-IsSound _ _ (inserts l f ps c head e new) sound =
      let o = c.organization.id in
      let row = row_of h c head in
      let (same, stored, chain) =
        phase_at (record { ledger = l; phase = f; pending = ps }) o (head_read c head) sound e in
      set_phase_cases (λ i. IsPhase i (find_head i l.heads) (entries_of i (row ∷ l.entries))) o
        (inserted c row) f (refl, rw stored refl, row_of-IsChain c head l.entries chain)
        (λ i other. rw (entries_of-row_ne h c head i l.entries other) (sound i))
  Step-IsSound _ _ (saves l f ps c x e) sound =
      let o = c.organization.id in
      let heads = save_head o x.sequence x.entry_hash l.heads in
      let (same, stored, chain) =
        phase_at (record { ledger = l; phase = f; pending = ps }) o (inserted c x) sound e in
      set_phase_cases (λ i. IsPhase i (find_head i heads) (entries_of i l.entries)) o free f
        (rw (find_head-save_head_self o x.sequence x.entry_hash l.heads, stored) chain)
        (λ i other. rw (find_head-save_head_ne o i x.sequence x.entry_hash l.heads other) (sound i))

  Steps-IsSound : (s s' : State) → Steps h s s' → IsSound s → IsSound s'
  Steps-IsSound s _ (none_taken _) sound = sound
  Steps-IsSound s s'' (followed_by {s' = s'} before step) sound =
      Step-IsSound s' s'' step (Steps-IsSound s s' before sound)

  start-IsSound : (s : State) → IsLedger h s.ledger → ((o : ℕ) → s.phase o ≡ free) → IsSound s
  start-IsSound s inv idle o = rw (idle o) (inv o)

  -- What is promised of an organization by the phase of its lock: free, its rows are a chain that its
  -- head closes; once an append has read the head, its row is not refused; once the row is
  -- inserted, it is the newest of a chain.
  abbrev pub AtPhase : Ledger → ℕ → Phase → Type 0
  AtPhase l o free =
      IsChain h (tip o l.heads).ultima_secuencia (tip o l.heads).ultimo_hash
        (entries_of o l.entries)
  AtPhase l o (head_read c head) = violates_unique (row_of h c head) l.entries ≡ false
  AtPhase l o (inserted c e) = IsChain h e.sequence e.entry_hash (entries_of o l.entries)

  AtPhase-IsSound :
      (s : State) (o : ℕ) (p : Phase) → IsSound s → s.phase o ≡ p → AtPhase s.ledger o p
  AtPhase-IsSound s o free sound e = phase_at s o free sound e
  AtPhase-IsSound s o (inserted c x) sound e = (phase_at s o (inserted c x) sound e).2
  AtPhase-IsSound s o (head_read c head) sound e =
      let (same, stored, chain) = phase_at s o (head_read c head) sound e in
      row_of-free s c head sound (subst (λ i. s.phase i ≡ head_read c head) (sym same) e)

  -- From a well-formed ledger, with every lock free, however the steps of appends are taken in turn:
  -- where an organization's lock is free, its rows are a chain that its head closes; an append
  -- that has read a head is not refused; and an inserted row is the newest of a chain.
  pub Steps-AtPhase :
      (s s' : State)
      → IsLedger h s.ledger
      → ((o : ℕ) → s.phase o ≡ free)
      → Steps h s s'
      → (o : ℕ) → AtPhase s'.ledger o (s'.phase o)
  Steps-AtPhase s s' inv idle steps o =
      AtPhase-IsSound s' o (s'.phase o) (Steps-IsSound s s' steps (start-IsSound s inv idle)) refl
