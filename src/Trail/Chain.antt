-- ===== src/Trail/Chain.antt =====
-- The invariant of the audit ledger (apps/trail/services.py): each organization's rows are a hash
-- chain that its head closes, and every append keeps it so.
use sgdy_pa_backend.Prelude.{
  ℕ, ◌+◌, ◌-◌, ◌≤◌, ◌<◌, ◌==◌, ◌≡◌, ◌≢◌, refl, true, false, none, some, List, [], ◌∷◌, All, All-map,
  any, select, arith, is_some, if◌then◌else◌,
}
use sgdy_pa_backend.Prelude.Text.{Text}
use sgdy_pa_backend.Trail.{
  Hashing, TrailEntry, LedgerHead, Ledger, hash_entry, fresh_head, or_else, find_head,
  get_or_create_head, save_head, violates_unique,
}

-- The head that `append_trail_entry` reads for the organization.
abbrev pub tip : ℕ → List LedgerHead → LedgerHead
tip o heads = or_else (find_head o heads) (fresh_head o)

abbrev pub entries_of : ℕ → List TrailEntry → List TrailEntry
entries_of o = select (λ e. e.organization_id == o)

abbrev closed : ℕ → ℕ → Text → LedgerHead
closed o n t = record { organization_id = o; ultima_secuencia = n; ultimo_hash = t }

pub find_head-save_head_self :
    (o n : ℕ) (t : Text) (heads : List LedgerHead)
    → find_head o (save_head o n t heads)
      ≡ (if is_some (find_head o heads) then some (closed o n t) else none)
unfolding find_head save_head
find_head-save_head_self o n t [] = refl
find_head-save_head_self o n t (x ∷ heads) = ground (arith, find_head-save_head_self o n t heads)

pub find_head-save_head_ne :
    (o o' n : ℕ) (t : Text) (heads : List LedgerHead)
    → o ≢ o'
    → find_head o' (save_head o n t heads) ≡ find_head o' heads
unfolding find_head save_head
find_head-save_head_ne o o' n t [] h = refl
find_head-save_head_ne o o' n t (x ∷ heads) h =
    ground (arith, find_head-save_head_ne o o' n t heads h)

find_head-get_or_create_self :
    (o : ℕ) (heads : List LedgerHead) → is_some (find_head o (get_or_create_head o heads).1) ≡ true
unfolding get_or_create_head find_head
find_head-get_or_create_self o heads = ground arith

pub find_head-get_or_create_ne :
    (o o' : ℕ) (heads : List LedgerHead)
    → o ≢ o'
    → find_head o' (get_or_create_head o heads).1 ≡ find_head o' heads
unfolding get_or_create_head find_head
find_head-get_or_create_ne o o' heads h = ground arith

-- The head after an append: of the organization itself, and of any other.
pub tip-save_head_self :
    (o n : ℕ) (t : Text) (heads : List LedgerHead)
    → tip o (save_head o n t (get_or_create_head o heads).1) ≡ closed o n t
tip-save_head_self o n t heads =
    rw
      (
        find_head-save_head_self o n t (get_or_create_head o heads).1,
        find_head-get_or_create_self o heads,
      )
      refl

pub tip-save_head_ne :
    (o o' n : ℕ) (t : Text) (heads : List LedgerHead)
    → o ≢ o'
    → tip o' (save_head o n t (get_or_create_head o heads).1) ≡ tip o' heads
tip-save_head_ne o o' n t heads h =
    rw
      (
        find_head-save_head_ne o o' n t (get_or_create_head o heads).1 h,
        find_head-get_or_create_ne o o' heads h,
      )
      refl

-- A row collides only with a row of its own organization.
violates_unique-entries_of :
    (e : TrailEntry) (es : List TrailEntry)
    → violates_unique e es
      ≡ any (λ row. row.sequence == e.sequence) (entries_of e.organization_id es)
unfolding violates_unique
violates_unique-entries_of e [] = refl
violates_unique-entries_of e (x ∷ es) = ground (arith, violates_unique-entries_of e es)

none_equal :
    (n : ℕ) (es : List TrailEntry)
    → All (λ e. e.sequence < n) es
    → any (λ row. row.sequence == n) es ≡ false
none_equal n [] h = refl
none_equal n (x ∷ es) h = ground (arith, none_equal n es h.1)

module _ (h : Hashing) where
  -- The rows, newest first, under a tip: dense sequence numbers down to 1, each row's hash computed
  -- from its columns, and each row's `previous_hash` the hash of the row below it.
  abbrev pub IsChain : ℕ → Text → List TrailEntry → Type 0
  IsChain n t [] = (n ≡ 0) × (t ≡ [])
  IsChain n t (e ∷ es) =
      (1 ≤ n)
      × (e.sequence ≡ n)
      × (e.entry_hash ≡ t)
      × (e.entry_hash ≡ hash_entry h e)
      × IsChain (n - 1) e.previous_hash es

  -- Every organization's rows form a chain that its head closes.
  abbrev pub IsLedger : Ledger → Type 0
  IsLedger l =
      (o : ℕ)
      → IsChain (tip o l.heads).ultima_secuencia (tip o l.heads).ultimo_hash
          (entries_of o l.entries)

  pub IsChain-bound :
      (n : ℕ) (t : Text) (es : List TrailEntry) → IsChain n t es → All (λ e. e.sequence ≤ n) es
  IsChain-bound n t [] c = tt
  IsChain-bound n t (e ∷ es) c = (
    omega arith,
    All-map (λ e. e.sequence ≤ n - 1) (λ e. e.sequence ≤ n) (λ e p. omega arith) es
        (IsChain-bound (n - 1) e.previous_hash es c.4),
  )

  -- The number after a chain's tip is free.
  pub IsChain-fresh :
      (n : ℕ) (t : Text) (e : TrailEntry) (es : List TrailEntry)
      → IsChain n t (entries_of e.organization_id es)
      → e.sequence ≡ n + 1
      → violates_unique e es ≡ false
  IsChain-fresh n t e es c s =
      let rows = entries_of e.organization_id es in
      rw (violates_unique-entries_of e es) (
        none_equal e.sequence rows (
          All-map (λ x. x.sequence ≤ n) (λ x. x.sequence < e.sequence) (λ x p. omega arith) rows
            (IsChain-bound n t rows c)))

  -- The next number is free, so the unique constraint never refuses an append.
  pub IsLedger-fresh :
      (l : Ledger) (e : TrailEntry)
      → IsLedger l
      → e.sequence ≡ (tip e.organization_id l.heads).ultima_secuencia + 1
      → violates_unique e l.entries ≡ false
  IsLedger-fresh l e inv = IsChain-fresh _ _ e l.entries (inv e.organization_id)
