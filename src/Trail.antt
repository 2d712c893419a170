-- ===== src/Trail.antt =====
-- apps/trail/services.py and apps/trail/models.py: the audit ledger, a hash chain for each
-- organization. The table's rows are kept newest first.
pub mod Chain
pub mod Append
pub mod Canonical
pub mod Tamper
pub mod Encoding
pub mod Backfill
pub mod Interleave
pub mod Partitions
mod Tests
use sgdy_pa_backend.Prelude.{
  ℕ, ◌+◌, ◌==◌, Bool, not, ◌&&◌, Option, none, some, List, [], ◌∷◌, any, find, update_where,
  is_some, if◌then◌else◌,
}
use sgdy_pa_backend.Prelude.Text.{Text, lit}
use sgdy_pa_backend.Prelude.Json.{Json, str, num, obj, Fields, field, end}
use sgdy_pa_backend.Identity.Models.{Organization, User}

-- The columns that the services read and write. The key `id`, a random UUID, and `created_at` are
-- left out: no service reads them.
pub record TrailEntry : Type 0 where
  pub organization_id : ℕ
  pub actor_id : ℕ
  pub actor_email_snapshot : Text
  pub actor_display_name_snapshot : Text
  pub action : Text
  pub target_entity : Text
  pub target_id : ℕ
  pub payload : Fields
  pub sequence : ℕ
  pub previous_hash : Text
  pub entry_hash : Text

pub record LedgerHead : Type 0 where
  pub organization_id : ℕ
  pub ultima_secuencia : ℕ
  pub ultimo_hash : Text

pub record Ledger : Type 0 where
  pub entries : List TrailEntry
  pub heads : List LedgerHead

-- `json.dumps(..., sort_keys=True)`, `hashlib.sha256(...).hexdigest()` and `str(uuid)`.
pub record Hashing : Type 0 where
  pub dumps : Json → Text
  pub sha256_hex : Text → Text
  pub uuid_str : ℕ → Text

pub data Error : Type 0 where
  integrity_error : Error

pub data Result (A : Type 0) : Type 0 where
  ok : A → Result A
  err : Error → Result A

-- The dictionary that `_hash_entry` serialises, of the entry's columns.
unfoldable pub canonical_dict : Hashing → TrailEntry → Json
canonical_dict h e = obj (
    field (lit "organization_id") (str (h.uuid_str e.organization_id)) (
      field (lit "actor_id") (num e.actor_id) (
        field (lit "actor_email_snapshot") (str e.actor_email_snapshot) (
          field (lit "actor_display_name_snapshot") (str e.actor_display_name_snapshot) (
            field (lit "action") (str e.action) (
              field (lit "target_entity") (str e.target_entity) (
                field (lit "target_id") (str (h.uuid_str e.target_id)) (
                  field (lit "payload") (obj e.payload) (
                    field (lit "sequence") (num e.sequence)
                      (field (lit "previous_hash") (str e.previous_hash) end))))))))))

unfoldable pub canonical : Hashing → TrailEntry → Text
canonical h e = h.dumps (canonical_dict h e)

-- It does not read the column `entry_hash`.
unfoldable pub hash_entry : Hashing → TrailEntry → Text
hash_entry h e = h.sha256_hex (canonical h e)

-- The head of an organization that has none yet.
abbrev pub fresh_head : ℕ → LedgerHead
fresh_head o = record { organization_id = o; ultima_secuencia = 0; ultimo_hash = [] }

abbrev pub or_else {ℓ} : {A : Type ℓ} → Option A → A → A
or_else none d = d
or_else (some a) d = a

-- `LedgerHead.objects.filter(organization=...).first()`
unfoldable pub find_head : ℕ → List LedgerHead → Option LedgerHead
find_head o heads = find (λ head. head.organization_id == o) heads

-- `get_or_create(organization_id=o, defaults=...)`: the head, and the table with it.
unfoldable pub get_or_create_head : ℕ → List LedgerHead → LedgerHead × List LedgerHead
unfolding find_head
get_or_create_head o heads = (
  or_else (find_head o heads) (fresh_head o),
  if is_some (find_head o heads) then heads else fresh_head o ∷ heads,
)

-- `head.save(update_fields=[...])`
unfoldable pub save_head : ℕ → ℕ → Text → List LedgerHead → List LedgerHead
save_head o sequence hash =
    update_where (λ head. head.organization_id == o)
      (λ head. record head { ultima_secuencia = sequence; ultimo_hash = hash })

-- The unique constraint on organization and sequence.
unfoldable pub violates_unique : TrailEntry → List TrailEntry → Bool
violates_unique e =
    any (λ row. (row.organization_id == e.organization_id) && (row.sequence == e.sequence))

-- `payload or {}`
abbrev pub payload_or_empty : Option Fields → Fields
payload_or_empty none = end
payload_or_empty (some p) = p

module _ (h : Hashing) where
  -- The row that `append_trail_entry` inserts, once the head is read.
  unfoldable pub new_entry :
      LedgerHead → Organization → User → Text → Text → ℕ → Option Fields → TrailEntry
  new_entry head org actor action entity target payload =
      let draft : TrailEntry = record {
        organization_id = org.id;
        actor_id = actor.id;
        actor_email_snapshot = actor.email;
        actor_display_name_snapshot = actor.display_name;
        action = action;
        target_entity = entity;
        target_id = target;
        payload = payload_or_empty payload;
        sequence = head.ultima_secuencia + 1;
        previous_hash = head.ultimo_hash;
        entry_hash = [];
      } in
      record draft { entry_hash = hash_entry h draft }

  unfoldable pub append_trail_entry :
      Organization → User → Text → Text → ℕ → Option Fields → Ledger → Result (TrailEntry × Ledger)
  unfolding new_entry
  append_trail_entry org actor action entity target payload l =
      let (head, heads) = get_or_create_head org.id l.heads in
      let entry = new_entry head org actor action entity target payload in
      if violates_unique entry l.entries
      then err integrity_error
      else ok (
        entry,
        record {
          entries = entry ∷ l.entries;
          heads = save_head org.id entry.sequence entry.entry_hash heads;
        },
      )

-- `next_sequence_for_organization`
unfoldable pub next_sequence : Organization → Ledger → ℕ
next_sequence org l =
    (elim (find_head org.id l.heads) [ none ↦ 0 | some head ↦ head.ultima_secuencia ]) + 1
