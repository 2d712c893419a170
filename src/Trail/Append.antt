-- ===== src/Trail/Append.antt =====
-- What `append_trail_entry` (apps/trail/services.py) does to a well-formed ledger.
use sgdy_pa_backend.Prelude.{
  ℕ, ◌+◌, ◌-◌, ==_refl, subst, ◌≡◌, ◌≢◌, refl, ap, sym, ◌⊎◌, inl, inr, Bool-cases, Option, ◌∷◌,
  arith,
}
use native.Mathlib.Decide.{ℕ_discrete}
use sgdy_pa_backend.Prelude.Text.{Text}
use sgdy_pa_backend.Prelude.Json.{Fields}
use sgdy_pa_backend.Identity.Models.{Organization, User}
use sgdy_pa_backend.Trail.{
  Hashing, TrailEntry, Ledger, ok, err, integrity_error, hash_entry, canonical, canonical_dict,
  get_or_create_head, save_head, new_entry, append_trail_entry, next_sequence, violates_unique,
}
use sgdy_pa_backend.Trail.Chain.{
  tip, entries_of, IsChain, IsLedger, IsLedger-fresh, tip-save_head_self, tip-save_head_ne,
}

add-sub_one : (n : ℕ) → n + 1 - 1 ≡ n
add-sub_one n = omega arith

module _ (h : Hashing) (org : Organization) (actor : User) (action entity : Text) (target : ℕ)
    (payload : Option Fields) where
  -- The row and the ledger that a successful append leaves.
  abbrev pub entry_after : Ledger → TrailEntry
  entry_after l = new_entry h (tip org.id l.heads) org actor action entity target payload

  abbrev pub ledger_after : Ledger → Ledger
  ledger_after l =
      let entry = entry_after l in
      record {
        entries = entry ∷ l.entries;
        heads =
            save_head org.id entry.sequence entry.entry_hash (get_or_create_head org.id l.heads).1;
      }

  -- The row continues the chain of its own organization.
  entry_after-IsChain :
      (l : Ledger)
      → IsLedger h l
      → let e = entry_after l in
        IsChain h e.sequence e.entry_hash (entries_of org.id (ledger_after l).entries)
  unfolding new_entry hash_entry canonical canonical_dict
  entry_after-IsChain l inv = rw (==_refl org.id) (
    omega arith,
    refl,
    refl,
    refl,
    rw (add-sub_one (tip org.id l.heads).ultima_secuencia) (inv org.id),
  )

  ledger_after-IsChain_self :
      (l : Ledger)
      → IsLedger h l
      → let head = tip org.id (ledger_after l).heads in
        IsChain h head.ultima_secuencia head.ultimo_hash
          (entries_of org.id (ledger_after l).entries)
  ledger_after-IsChain_self l inv =
      let e = entry_after l in
      rw (tip-save_head_self org.id e.sequence e.entry_hash l.heads) (entry_after-IsChain l inv)

  tip-ledger_after_ne :
      (o : ℕ) (l : Ledger) → org.id ≢ o → tip o (ledger_after l).heads ≡ tip o l.heads
  tip-ledger_after_ne o l other =
      tip-save_head_ne org.id o (entry_after l).sequence (entry_after l).entry_hash l.heads other

  entries_of-ledger_after_ne :
      (o : ℕ) (l : Ledger)
      → org.id ≢ o
      → entries_of o (ledger_after l).entries ≡ entries_of o l.entries
  unfolding new_entry
  entries_of-ledger_after_ne o l other = ground arith

  pub ledger_after-IsLedger : (l : Ledger) → IsLedger h l → IsLedger h (ledger_after l)
  ledger_after-IsLedger l inv o = elim (ℕ_discrete org.id o) [
    | yes same ↦
        let Goal = λ (k : ℕ).
          IsChain h (tip k (ledger_after l).heads).ultima_secuencia
            (tip k (ledger_after l).heads).ultimo_hash (entries_of k (ledger_after l).entries) in
        subst Goal same (ledger_after-IsChain_self l inv)
    | no other ↦ rw (tip-ledger_after_ne o l other, entries_of-ledger_after_ne o l other) (inv o)
  ]

  append-eq-ok :
      (l : Ledger)
      → IsLedger h l
      → append_trail_entry h org actor action entity target payload l
        ≡ ok (entry_after l, ledger_after l)
  unfolding append_trail_entry get_or_create_head new_entry
  append-eq-ok l inv = rw (IsLedger-fresh h l (entry_after l) inv refl) refl

  entry_after-sequence : (l : Ledger) → (entry_after l).sequence ≡ next_sequence org l
  unfolding new_entry next_sequence
  entry_after-sequence l = ground arith

  entry_after-previous_hash :
      (l : Ledger) → (entry_after l).previous_hash ≡ (tip org.id l.heads).ultimo_hash
  unfolding new_entry
  entry_after-previous_hash l = refl

  tip-ledger_after_self :
      (l : Ledger)
      → let e = entry_after l in
        tip org.id (ledger_after l).heads ≡ record {
          organization_id = org.id;
          ultima_secuencia = e.sequence;
          ultimo_hash = e.entry_hash;
        }
  tip-ledger_after_self l =
      tip-save_head_self org.id (entry_after l).sequence (entry_after l).entry_hash l.heads

  -- On a well-formed ledger an append always succeeds, and the ledger stays well formed: the row
  -- takes the number that `next_sequence_for_organization` foretold, points back at the hash that
  -- the head held, and becomes what the head holds.
  pub append-IsLedger :
      (l : Ledger)
      → IsLedger h l
      → (e : TrailEntry) × (l' : Ledger) × (append_trail_entry h org actor action entity target
            payload l
          ≡ ok (e, l'))
        × IsLedger h l'
        × (e.sequence ≡ next_sequence org l)
        × (e.previous_hash ≡ (tip org.id l.heads).ultimo_hash)
        × (tip org.id l'.heads).ultima_secuencia ≡ e.sequence
        × (tip org.id l'.heads).ultimo_hash ≡ e.entry_hash
  append-IsLedger l inv = (
    entry_after l,
    ledger_after l,
    append-eq-ok l inv,
    ledger_after-IsLedger l inv,
    entry_after-sequence l,
    entry_after-previous_hash l,
    ap (λ x. x.ultima_secuencia) (tip-ledger_after_self l),
    ap (λ x. x.ultimo_hash) (tip-ledger_after_self l),
  )

  -- Whatever the ledger, an append either is refused for its sequence number, or leaves every other
  -- organization's rows and head as they were.
  pub append-frame :
      (l : Ledger) (o : ℕ)
      → o ≢ org.id
      → (append_trail_entry h org actor action entity target payload l ≡ err integrity_error)
        ⊎ ((e : TrailEntry) × (l' : Ledger) × (append_trail_entry h org actor action entity target
                payload l
              ≡ ok (e, l'))
            × (entries_of o l'.entries ≡ entries_of o l.entries)
            × (tip o l'.heads ≡ tip o l.heads))
  unfolding append_trail_entry get_or_create_head
  append-frame l o other = elim (Bool-cases (violates_unique (entry_after l) l.entries)) [
    | inl clash ↦ inl (rw clash)
    | inr free ↦ inr (
      entry_after l,
      ledger_after l,
      rw free,
      entries_of-ledger_after_ne o l (λ e. other (sym e)),
      tip-ledger_after_ne o l (λ e. other (sym e)),
    )
  ]
