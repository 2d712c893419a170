-- ===== src/Trail/Interleave/Tests.antt =====
-- Two appends that take turns: the theorem applied.
use sgdy_pa_backend.Prelude.{ℕ, refl, none, [], ◌∷◌, true}
use sgdy_pa_backend.Prelude.Text.{lit}
use sgdy_pa_backend.Identity.Models.{Organization, User}
use sgdy_pa_backend.Trail.{
  get_or_create_head, new_entry, Hashing, TrailEntry, LedgerHead, find_head, fresh_head,
  violates_unique,
}
use sgdy_pa_backend.Trail.Chain.{IsLedger}
use sgdy_pa_backend.Trail.Interleave.{
  Call, Phase, free, head_read, inserted, State, set_phase, row_of, locks, inserts, Steps,
  none_taken, followed_by,
}
use sgdy_pa_backend.Trail.Interleave.Serial.{AtPhase, Steps-AtPhase}

abbrev blunt : Hashing
blunt = record { dumps = λ v. []; sha256_hex = λ s. lit "00"; uuid_str = λ n. n ∷ [] }

abbrev acme : Organization
acme = record {
  id = 7;
  name = lit "Acme";
  slug = lit "acme";
  is_active = true;
  keycloak_group_id = none;
  keycloak_group_path = [];
}

abbrev actor : User
actor = record {
  id = 3;
  username = lit "ana";
  email = [];
  first_name = [];
  last_name = [];
  display_name = lit "Ana";
  email_verified = true;
  is_active = true;
  keycloak_sub = none;
}

abbrev call_7 : Call
call_7 = record {
  organization = acme;
  actor = actor;
  action = lit "CREAR";
  entity = lit "DOCUMENT";
  target = 11;
  payload = none;
}

abbrev call_8 : Call
call_8 = record call_7 { organization = record acme { id = 8 } }

abbrev idle : ℕ → Phase
idle o = free

abbrev start : State
start = record {
  ledger = record { entries = []; heads = [] };
  phase = idle;
  pending = call_7 ∷ call_8 ∷ [];
}

abbrev head_8 : LedgerHead
head_8 = fresh_head 8

abbrev row_8 : TrailEntry
row_8 = row_of blunt call_8 head_8

abbrev locked : ℕ → Phase
locked = set_phase 8 (head_read call_8 head_8) (set_phase 7 (head_read call_7 (fresh_head 7)) idle)

abbrev both_locked : State
both_locked = record {
  ledger = record { entries = []; heads = fresh_head 8 ∷ fresh_head 7 ∷ [] };
  phase = locked;
  pending = [];
}

-- The append of the second organization is ahead of the first one's.
abbrev one_inserted : State
one_inserted = record {
  ledger = record { entries = row_8 ∷ []; heads = fresh_head 8 ∷ fresh_head 7 ∷ [] };
  phase = set_phase 8 (inserted call_8 row_8) locked;
  pending = [];
}

run : Steps blunt start one_inserted
unfolding set_phase get_or_create_head violates_unique new_entry
run =
    followed_by
      (followed_by
        (followed_by (none_taken start) (locks start.ledger idle [] (call_8 ∷ []) call_7 refl))
        (locks (record { entries = []; heads = fresh_head 7 ∷ [] })
          (set_phase 7 (head_read call_7 (fresh_head 7)) idle) [] [] call_8 refl))
      (inserts both_locked.ledger locked [] call_8 head_8 refl refl)

start-IsLedger : IsLedger blunt start.ledger
unfolding find_head
start-IsLedger o = (refl, refl)

Steps-AtPhase_example : AtPhase blunt one_inserted.ledger 7 (head_read call_7 (fresh_head 7))
unfolding set_phase
Steps-AtPhase_example = Steps-AtPhase blunt start one_inserted start-IsLedger (λ o. refl) run 7
