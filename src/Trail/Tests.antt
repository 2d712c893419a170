-- ===== src/Trail/Tests.antt =====
-- The audit ledger at concrete inputs: runs of the definitions, and the theorems applied.
use sgdy_pa_backend.Prelude.{◌≡◌, refl, ◌⊎◌, true, none, some, [], ◌∷◌, arith}
use sgdy_pa_backend.Prelude.Text.{lit}
use sgdy_pa_backend.Identity.Models.{Organization, User}
use sgdy_pa_backend.Trail.{
  Hashing, TrailEntry, Ledger, ok, err, integrity_error, append_trail_entry, next_sequence,
  find_head, save_head, get_or_create_head, new_entry,
}
use sgdy_pa_backend.Trail.Chain.{IsLedger, entries_of, tip}
use sgdy_pa_backend.Trail.Append.{
  ledger_after, ledger_after-IsLedger, append-IsLedger, append-frame,
}
use sgdy_pa_backend.Trail.Encoding.{dump_sorted, dump_sorted-inj}
use sgdy_pa_backend.Trail.Tamper.{KeepsValue, KeepsUuid, Collision, SameRows, same_head-SameRows}

-- The texts keep the values, and the digest keeps all of the text.
abbrev plain : Hashing
plain = record { dumps = dump_sorted; sha256_hex = λ s. 0x30 ∷ s; uuid_str = λ n. n ∷ [] }

plain-KeepsValue : KeepsValue plain
plain-KeepsValue = dump_sorted-inj

plain-KeepsUuid : KeepsUuid plain
plain-KeepsUuid a b e = cc

abbrev acme : Organization
acme = record {
  id = 7;
  name = lit "Acme";
  slug = lit "acme";
  is_active = true;
  keycloak_group_id = none;
  keycloak_group_path = [];
}

abbrev actor : User
actor = record {
  id = 3;
  username = lit "ana";
  email = lit "ana@acme.mx";
  first_name = lit "Ana";
  last_name = [];
  display_name = lit "Ana";
  email_verified = true;
  is_active = true;
  keycloak_sub = some (lit "kc-3");
}

abbrev empty : Ledger
empty = record { entries = []; heads = [] }

empty-IsLedger : IsLedger plain empty
unfolding find_head
empty-IsLedger o = (refl, refl)

abbrev first : Ledger
first = ledger_after plain acme actor (lit "CREAR") (lit "DOCUMENT") 11 none empty

append-IsLedger_example :
    (e : TrailEntry) × (l' : Ledger) × (append_trail_entry plain acme actor
        (lit "LEER")
        (lit "DOCUMENT")
        11
        none
        first
      ≡ ok (e, l'))
    × IsLedger plain l'
    × (e.sequence ≡ next_sequence acme first)
    × (e.previous_hash ≡ (tip 7 first.heads).ultimo_hash)
    × ((tip 7 l'.heads).ultima_secuencia ≡ e.sequence)
    × ((tip 7 l'.heads).ultimo_hash ≡ e.entry_hash)
append-IsLedger_example =
    append-IsLedger plain acme actor (lit "LEER") (lit "DOCUMENT") 11 none first (
      ledger_after-IsLedger plain acme actor (lit "CREAR") (lit "DOCUMENT") 11 none empty
        empty-IsLedger)

append-frame_example :
    (append_trail_entry plain acme actor (lit "LEER") (lit "DOCUMENT") 11 none first
      ≡ err integrity_error)
    ⊎ ((e : TrailEntry) × (l' : Ledger) × (append_trail_entry plain acme actor
            (lit "LEER")
            (lit "DOCUMENT")
            11
            none
            first
          ≡ ok (e, l'))
        × (entries_of 8 l'.entries ≡ entries_of 8 first.entries)
        × (tip 8 l'.heads ≡ tip 8 first.heads))
append-frame_example =
    append-frame plain acme actor (lit "LEER") (lit "DOCUMENT") 11 none first 8 (omega arith)

same_head-SameRows_example :
    SameRows (entries_of 7 first.entries) (entries_of 7 first.entries) ⊎ Collision plain
same_head-SameRows_example =
    same_head-SameRows plain plain-KeepsValue plain-KeepsUuid first first 7
      (ledger_after-IsLedger plain acme actor (lit "CREAR") (lit "DOCUMENT") 11 none empty
        empty-IsLedger)
      (ledger_after-IsLedger plain acme actor (lit "CREAR") (lit "DOCUMENT") 11 none empty
        empty-IsLedger)
      refl

-- The first row of an organization has number 1, and the second follows it.
second_sequence : next_sequence acme first ≡ 2
unfolding next_sequence find_head save_head get_or_create_head new_entry
second_sequence = refl
