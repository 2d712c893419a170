-- ===== src/Identity/Webhooks/Tests.antt =====
-- The webhook at concrete inputs: runs of the definitions, and the theorems applied.
use sgdy_pa_backend.Prelude.{List, ℕ, ◌≡◌, ◌⊎◌, refl, true, none, some, [], ◌∷◌}
use sgdy_pa_backend.Prelude.Text.{Text, lit, text_eq}
use sgdy_pa_backend.Prelude.Json.{str, obj, Fields, end, field, get}
use sgdy_pa_backend.Identity.Webhooks.Events.{
  Parsing, parse_group_membership_event, parse_admin_event,
}
use sgdy_pa_backend.Identity.Webhooks.Ledger.{ReplicationEvent, event_ledger_entry}
use sgdy_pa_backend.Identity.Webhooks.Endpoint.{
  Request, Config, Externals, State, accepted, duplicate, invalid_signature, type_error,
  keycloak_events, verify_signature,
}
use sgdy_pa_backend.Identity.Webhooks.Admission.{IsAdmitted, event_ledger_entry-IsAdmitted}
use sgdy_pa_backend.Identity.Models.{User, active, keycloak}
use sgdy_pa_backend.Identity.OrgReplication.Memberships.{Keys}
use sgdy_pa_backend.Identity.OrgReplication.Claims.{normalize_path}
use sgdy_pa_backend.Identity.OrgReplication.Organizations.{
  find_organization, resolve_or_create_organization,
}
use sgdy_pa_backend.Identity.OrgReplication.Reconcile.{apply_group_membership_change}
use sgdy_pa_backend.Identity.Webhooks.Task.{
  World, returned, group_joined, process_keycloak_admin_event,
}
use sgdy_pa_backend.Identity.Webhooks.Reprocess.{IsRun, process_cases}
use sgdy_pa_backend.Identity.Webhooks.Dedupe.{
  IsAuthentic, IsNewEvent, IsQueuedOnce, with_event, keycloak_events_cases, keycloak_events_twice,
  handle_all, handle_all-IsQueuedOnce,
}

abbrev no_parsing : Parsing
no_parsing = record { loads = λ s. none; py_str = λ v. [] }

abbrev joined : Fields
joined = field (lit "resourceType") (str (lit "GROUP_MEMBERSHIP")) (
    field (lit "operationType") (str (lit "create")) (
      field (lit "uid") (str (lit "e1")) (
        field (lit "resourcePath") (str (lit "users/u1/groups/g1"))
          (field (lit "representation") (obj (field (lit "path") (str (lit "/team")) end)) end))))

-- Every body is the one payload, and every signature is the secret.
abbrev externals : Externals
externals = record {
  hmac_hex = λ secret body. secret;
  loads_body = λ body. some (obj joined);
  parsing = no_parsing;
}

abbrev config : Config
config = record { secret = lit "k3y"; enabled = true }

abbrev signed : Request
signed = record { method = lit "POST"; body = []; signature = lit " SHA256=k3y " }

abbrev forged : Request
forged = record signed { signature = lit "k4y" }

-- The header is not ASCII.
abbrev garbled : Request
garbled = record signed { signature = 233 ∷ [] }

abbrev idle : State
idle = record { events = []; queue = [] }

abbrev joined_row : ReplicationEvent
joined_row = record {
  event_id = lit "e1";
  event_type = lit "admin.GROUP_MEMBERSHIP-CREATE";
  operation = lit "CREATE";
  keycloak_sub = lit "u1";
  payload = field (lit "kind") (str (lit "group_membership")) (
      field (lit "event_id") (str (lit "e1")) (
        field (lit "type") (str (lit "admin.GROUP_MEMBERSHIP-CREATE")) (
          field (lit "operation") (str (lit "CREATE")) (
            field (lit "sub") (str (lit "u1")) (
              field (lit "group_id") (str (lit "g1")) (
                field (lit "group_path") (str (lit "/team"))
                  (field (lit "group_name") (str []) end)))))));
  processed_at = none;
  error = [];
}

signed_run :
    keycloak_events externals config signed idle ≡ (accepted (lit "e1"), with_event joined_row idle)
unfolding keycloak_events text_eq parse_admin_event get parse_group_membership_event
signed_run = refl

forged_run : keycloak_events externals config forged idle ≡ (invalid_signature, idle)
unfolding keycloak_events text_eq
forged_run = refl

garbled_run : keycloak_events externals config garbled idle ≡ (type_error, idle)
unfolding keycloak_events text_eq
garbled_run = refl

entry_run : event_ledger_entry no_parsing true (obj joined) ≡ some joined_row
unfolding event_ledger_entry parse_admin_event get text_eq parse_group_membership_event
entry_run = refl

signature_run : verify_signature externals [] (lit " SHA256=k3y ") (lit "k3y") ≡ some true
unfolding verify_signature text_eq
signature_run = refl

keycloak_events_cases_example :
    ((keycloak_events externals config signed idle).1 ≡ idle)
    ⊎ ((e : ReplicationEvent) × IsAuthentic externals config signed
        × IsNewEvent externals config [] idle e
        × (keycloak_events externals config signed idle ≡ (accepted e.event_id, with_event e idle)))
keycloak_events_cases_example = keycloak_events_cases externals config signed idle

keycloak_events_twice_example :
    (keycloak_events externals config signed idle
      ≡ (accepted (lit "e1"), with_event joined_row idle))
    × (keycloak_events externals config signed (with_event joined_row idle)
        ≡ (duplicate (lit "e1"), with_event joined_row idle))
unfolding text_eq
keycloak_events_twice_example =
    keycloak_events_twice externals config signed idle joined_row (refl, refl, signature_run)
      ((obj joined, refl, entry_run), refl)

handle_all-IsQueuedOnce_example :
    IsQueuedOnce (handle_all externals config (signed ∷ forged ∷ signed ∷ []) idle)
handle_all-IsQueuedOnce_example =
    handle_all-IsQueuedOnce externals config (signed ∷ forged ∷ signed ∷ []) idle (refl, tt)

event_ledger_entry-IsAdmitted_example : IsAdmitted true joined_row
event_ledger_entry-IsAdmitted_example =
    event_ledger_entry-IsAdmitted no_parsing true (obj joined) joined_row entry_run

abbrev first_id : List User → ℕ
first_id users = 1

abbrev plain_slug : Text → Text
plain_slug s = s

abbrev keys : Keys
keys = record {
  organization_key = λ orgs. 7;
  membership_key = λ memberships. 20;
  role_key = λ roles. 5;
}

abbrev ana : User
ana = record {
  id = 3;
  username = lit "ana";
  email = [];
  first_name = [];
  last_name = [];
  display_name = [];
  email_verified = true;
  is_active = true;
  keycloak_sub = some (lit "u1");
}

abbrev world : World
world = record {
  users = ana ∷ [];
  db = record { organizations = []; memberships = []; roles = []; membership_roles = [] };
  events = joined_row ∷ [];
}

-- The event of the payload makes the organization and the membership.
task_run :
    (w : World) × (process_keycloak_admin_event first_id plain_slug keys no_parsing 5
        (lit "e1")
        world
      ≡ returned group_joined w)
    × (w.db.memberships
        ≡ record {
          id = 20;
          organization_id = 7;
          user_id = 3;
          status = active;
          origin = keycloak;
          scope = end;
          expires_at = none;
        }
          ∷ [])
unfolding process_keycloak_admin_event text_eq get apply_group_membership_change
    resolve_or_create_organization find_organization normalize_path
task_run = (_, refl, refl)

process_cases_example : IsRun first_id plain_slug keys no_parsing 5 (lit "e1") world 9
process_cases_example = process_cases first_id plain_slug keys no_parsing 5 (lit "e1") world 9
