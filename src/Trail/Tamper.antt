-- ===== src/Trail/Tamper.antt =====
-- What the hash chain of apps/trail/services.py protects: history cannot be rewritten under a head.
use sgdy_pa_backend.Prelude.{
  ℕ, ◌-◌, ◌≡◌, ◌≢◌, ◌⊎◌, inl, inr, sym, ◌∙◌, Bool-cases, none, some, List, ap, [], ◌∷◌, arith,
}
use sgdy_pa_backend.Prelude.Text.{Text, lit, text_eq, text_eq_iff, text_eq-ne}
use sgdy_pa_backend.Prelude.Json.{Json, null, num, str, obj, Fields, end, get}
use sgdy_pa_backend.Trail.{Hashing, TrailEntry, Ledger, canonical_dict, canonical, hash_entry}
use sgdy_pa_backend.Trail.Canonical.{sort_keys, sort_fields, insert_field, text_leb}
use sgdy_pa_backend.Trail.Chain.{tip, entries_of, IsChain, IsLedger}

-- Values with one text are the same up to the order of keys: `json.loads(json.dumps(v)) == v`.
abbrev pub KeepsValue : Hashing → Type 0
KeepsValue h = (v w : Json) → h.dumps v ≡ h.dumps w → sort_keys v ≡ sort_keys w

-- `uuid.UUID(str(u)) == u`
abbrev pub KeepsUuid : Hashing → Type 0
KeepsUuid h = (a b : ℕ) → h.uuid_str a ≡ h.uuid_str b → a ≡ b

-- Two different texts with one digest.
abbrev pub Collision : Hashing → Type 0
Collision h = (s : Text) × (t : Text) × (s ≢ t) × (h.sha256_hex s ≡ h.sha256_hex t)

-- The same value in every column; the payloads may differ in the order of their keys.
pub record SameColumns (d e : TrailEntry) : Type 0 where
  pub organization_id : d.organization_id ≡ e.organization_id
  pub actor_id : d.actor_id ≡ e.actor_id
  pub actor_email_snapshot : d.actor_email_snapshot ≡ e.actor_email_snapshot
  pub actor_display_name_snapshot : d.actor_display_name_snapshot ≡ e.actor_display_name_snapshot
  pub action : d.action ≡ e.action
  pub target_entity : d.target_entity ≡ e.target_entity
  pub target_id : d.target_id ≡ e.target_id
  pub payload : sort_fields d.payload ≡ sort_fields e.payload
  pub sequence : d.sequence ≡ e.sequence
  pub previous_hash : d.previous_hash ≡ e.previous_hash
  pub entry_hash : d.entry_hash ≡ e.entry_hash

-- As many rows, and row by row the same columns.
abbrev pub SameRows : List TrailEntry → List TrailEntry → Type 0
SameRows [] [] = Unit
SameRows [] (e ∷ es) = ⊥
SameRows (d ∷ ds) [] = ⊥
SameRows (d ∷ ds) (e ∷ es) = SameColumns d e × SameRows ds es

abbrev field_of : Text → Json → Json
field_of k (obj d) = elim (get k d) [ none ↦ null | some v ↦ v ]
field_of k _ = null

abbrev text_in : Json → Text
text_in (str s) = s
text_in _ = []

abbrev number_in : Json → ℕ
number_in (num n) = n
number_in _ = 0

abbrev fields_in : Json → Fields
fields_in (obj d) = d
fields_in _ = end

module _ (h : Hashing) (values : KeepsValue h) (uuids : KeepsUuid h) where
  -- Every column is in the canonical text.
  canonical-SameColumns :
      (d e : TrailEntry)
      → d.entry_hash ≡ e.entry_hash
      → canonical h d ≡ canonical h e
      → SameColumns d e
  unfolding canonical canonical_dict sort_keys sort_fields insert_field text_leb get text_eq
  canonical-SameColumns d e digest same =
      let sorted = values (canonical_dict h d) (canonical_dict h e) same in
      record {
        organization_id =
            uuids d.organization_id e.organization_id
              (ap (λ v. text_in (field_of (lit "organization_id") v)) sorted);
        actor_id = ap (λ v. number_in (field_of (lit "actor_id") v)) sorted;
        actor_email_snapshot = ap (λ v. text_in (field_of (lit "actor_email_snapshot") v)) sorted;
        actor_display_name_snapshot =
            ap (λ v. text_in (field_of (lit "actor_display_name_snapshot") v)) sorted;
        action = ap (λ v. text_in (field_of (lit "action") v)) sorted;
        target_entity = ap (λ v. text_in (field_of (lit "target_entity") v)) sorted;
        target_id =
            uuids d.target_id e.target_id (ap (λ v. text_in (field_of (lit "target_id") v)) sorted);
        payload = ap (λ v. fields_in (field_of (lit "payload") v)) sorted;
        sequence = ap (λ v. number_in (field_of (lit "sequence") v)) sorted;
        previous_hash = ap (λ v. text_in (field_of (lit "previous_hash") v)) sorted;
        entry_hash = digest;
      }

  same_digest :
      (d e : TrailEntry)
      → hash_entry h d ≡ hash_entry h e
      → (canonical h d ≡ canonical h e) ⊎ Collision h
  unfolding hash_entry
  same_digest d e same = elim (Bool-cases (text_eq (canonical h d) (canonical h e))) [
    | inl equal ↦ inl ((text_eq_iff (canonical h d) (canonical h e)).0 equal)
    | inr differ ↦ inr (canonical h d, canonical h e, text_eq-ne _ _ differ, same)
  ]

  chains_agree :
      (n : ℕ) (t : Text) (ds es : List TrailEntry)
      → IsChain h n t ds
      → IsChain h n t es
      → SameRows ds es ⊎ Collision h
  chains_agree n t [] [] c c' = inl tt
  chains_agree n t [] (e ∷ es) c c' = absurd (omega arith)
  chains_agree n t (d ∷ ds) [] c c' = absurd (omega arith)
  chains_agree n t (d ∷ ds) (e ∷ es) c c' =
      elim (same_digest d e (sym c.3 ∙ c.2 ∙ sym c'.2 ∙ c'.3)) [
        | inr collision ↦ inr collision
        | inl same ↦
            let columns = canonical-SameColumns d e (c.2 ∙ sym c'.2) same in
            elim (chains_agree (n - 1) d.previous_hash ds es c.4 (rw columns.previous_hash c'.4)) [
              | inl below ↦ inl (columns, below)
              | inr collision ↦ inr collision
            ]
      ]

  -- If two well-formed ledgers hold the same head for an organization, then they hold as many rows
  -- of it, and row by row the same organization, actor, snapshots, action, target, payload,
  -- sequence and hashes, the payload up to the order of its keys; or two different texts are at
  -- hand that have one SHA-256 digest. It assumes that the texts of two JSON values, and of two
  -- UUIDs, agree only if the values do.
  pub same_head-SameRows :
      (l l' : Ledger) (o : ℕ)
      → IsLedger h l
      → IsLedger h l'
      → tip o l.heads ≡ tip o l'.heads
      → SameRows (entries_of o l.entries) (entries_of o l'.entries) ⊎ Collision h
  same_head-SameRows l l' o inv inv' same =
      chains_agree _ _ (entries_of o l.entries) (entries_of o l'.entries) (inv o) (rw same (inv' o))
