-- ===== src/Trail/Backfill/Tests.antt =====
-- The migration of the heads at a concrete ledger: a run, and the theorem applied.
use sgdy_pa_backend.Trail.{hash_entry}
use sgdy_pa_backend.Trail.{get_or_create_head}
use sgdy_pa_backend.Trail.{new_entry}
use sgdy_pa_backend.Prelude.{◌≡◌, refl, none, [], ◌∷◌, true}
use sgdy_pa_backend.Prelude.Text.{lit}
use sgdy_pa_backend.Identity.Models.{Organization, User}
use sgdy_pa_backend.Trail.{Hashing, Ledger, find_head}
use sgdy_pa_backend.Trail.Chain.{IsLedger}
use sgdy_pa_backend.Trail.Append.{ledger_after, ledger_after-IsLedger}
use sgdy_pa_backend.Trail.Backfill.{backfill_ledger_head}
use sgdy_pa_backend.Trail.Backfill.Continuity.{backfill_ledger_head-IsLedger}

-- A digest that is always the same.
abbrev blunt : Hashing
blunt = record { dumps = λ v. []; sha256_hex = λ s. lit "00"; uuid_str = λ n. n ∷ [] }

abbrev acme : Organization
acme = record {
  id = 7;
  name = lit "Acme";
  slug = lit "acme";
  is_active = true;
  keycloak_group_id = none;
  keycloak_group_path = [];
}

abbrev globex : Organization
globex = record acme { id = 8 }

abbrev actor : User
actor = record {
  id = 3;
  username = lit "ana";
  email = [];
  first_name = [];
  last_name = [];
  display_name = lit "Ana";
  email_verified = true;
  is_active = true;
  keycloak_sub = none;
}

abbrev create : Organization → Ledger → Ledger
create org = ledger_after blunt org actor (lit "CREAR") (lit "DOCUMENT") 11 none

abbrev empty : Ledger
empty = record { entries = []; heads = [] }

-- Two rows of one organization and one of another.
abbrev grown : Ledger
grown = create acme (create globex (create acme empty))

abbrev headless : Ledger
headless = record grown { heads = [] }

backfill_run :
    (backfill_ledger_head headless).heads
    ≡ record { organization_id = 7; ultima_secuencia = 2; ultimo_hash = lit "00" }
      ∷ record { organization_id = 8; ultima_secuencia = 1; ultimo_hash = lit "00" }
      ∷ []
unfolding backfill_ledger_head new_entry get_or_create_head hash_entry
backfill_run = refl

empty-IsLedger : IsLedger blunt empty
unfolding find_head
empty-IsLedger o = (refl, refl)

create-IsLedger :
    (org : Organization) (l : Ledger) → IsLedger blunt l → IsLedger blunt (create org l)
create-IsLedger org = ledger_after-IsLedger blunt org actor (lit "CREAR") (lit "DOCUMENT") 11 none

grown-IsLedger : IsLedger blunt grown
grown-IsLedger =
    create-IsLedger acme (create globex (create acme empty))
      (create-IsLedger globex (create acme empty) (create-IsLedger acme empty empty-IsLedger))

backfill_ledger_head-IsLedger_example :
    IsLedger blunt (backfill_ledger_head headless)
    × ((backfill_ledger_head headless).entries ≡ headless.entries)
backfill_ledger_head-IsLedger_example =
    backfill_ledger_head-IsLedger blunt headless (λ o. (_, _, grown-IsLedger o)) refl
