-- ===== src/Trail/Backfill.antt =====
-- apps/trail/migrations/0002_ledgerhead.py: the heads of the organizations that already have rows.
pub mod Continuity
mod Tests
use sgdy_pa_backend.Prelude.{
  ℕ, ◌==◌, ltb, Option, none, some, List, [], ◌∷◌, any, is_some, if◌then◌else◌,
}
use sgdy_pa_backend.Prelude.Text.{Text}
use sgdy_pa_backend.Trail.{TrailEntry, LedgerHead, Ledger, find_head, fresh_head, save_head}
use sgdy_pa_backend.Trail.Chain.{entries_of}

-- `values_list("organization_id", flat=True).distinct()`
unfoldable pub organization_ids : List TrailEntry → List ℕ
organization_ids [] = []
organization_ids (e ∷ es) =
    let rest = organization_ids es in
    if any (λ o. o == e.organization_id) rest then rest else e.organization_id ∷ rest

-- `order_by("-sequence").first()`
unfoldable pub last_entry : List TrailEntry → Option TrailEntry
last_entry [] = none
last_entry (e ∷ es) = elim (last_entry es) [
  | none ↦ some e
  | some t ↦ if ltb e.sequence t.sequence then some t else some e
]

-- `LedgerHead.objects.update_or_create(organization_id=..., defaults=...)`
unfoldable pub update_or_create_head :
    TrailEntry → (organization : ℕ) → List LedgerHead → List LedgerHead
unfolding find_head save_head
update_or_create_head t o heads =
    if is_some (find_head o heads)
    then save_head o t.sequence t.entry_hash heads
    else record { organization_id = o; ultima_secuencia = t.sequence; ultimo_hash = t.entry_hash }
      ∷ heads

-- The body of the loop. An organization of the list has a row, so the last one is there.
unfoldable pub backfill_one :
    (organization : ℕ) → List TrailEntry → List LedgerHead → List LedgerHead
unfolding last_entry update_or_create_head
backfill_one o entries heads = elim (last_entry (entries_of o entries)) [
  | none ↦ heads
  | some t ↦ update_or_create_head t o heads
]

unfoldable pub backfill_from : List ℕ → List TrailEntry → List LedgerHead → List LedgerHead
unfolding backfill_one
backfill_from [] entries heads = heads
backfill_from (o ∷ rest) entries heads = backfill_from rest entries (backfill_one o entries heads)

-- `backfill_ledger_head`
unfoldable pub backfill_ledger_head : Ledger → Ledger
unfolding organization_ids backfill_from
backfill_ledger_head l = record l {
  heads = backfill_from (organization_ids l.entries) l.entries l.heads;
}
