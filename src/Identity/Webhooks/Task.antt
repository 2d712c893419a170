-- ===== src/Identity/Webhooks/Task.antt =====
-- The task `process_keycloak_admin_event` (apps/identity/tasks.py) on all the tables. The webhook
-- stores texts under the keys of a group. Where the task raises, it is tried again, and the tables
-- are those that the part that raised leaves, which are not followed here.
use sgdy_pa_backend.Prelude.{
  ℕ, Bool, false, not, Option, none, some, List, [], find, update_where, if◌then◌else◌,
}
use sgdy_pa_backend.Prelude.Text.{Text, lit, text_eq, truthy, or_none}
use sgdy_pa_backend.Prelude.Strings.{upper}
use sgdy_pa_backend.Prelude.Json.{Json, str, obj, Fields, end}
use sgdy_pa_backend.Identity.Models.{User}
use sgdy_pa_backend.Identity.Authorization.{Db, get_or_null}
use sgdy_pa_backend.Identity.Projection.{from_representation}
use sgdy_pa_backend.Identity.Projection.Users.{
  ok, has_sub, upsert_user_projection, deactivate_user_projection,
}
use sgdy_pa_backend.Identity.OrgReplication.Claims.{GroupRef}
use sgdy_pa_backend.Identity.OrgReplication.Organizations.{synced, sync_organization_from_group}
use sgdy_pa_backend.Identity.OrgReplication.Memberships.{Keys}
use sgdy_pa_backend.Identity.OrgReplication.Reconcile.{apply_group_membership_change}
use sgdy_pa_backend.Identity.Webhooks.Events.{Parsing, text_of, is_truthy, or_json}
use sgdy_pa_backend.Identity.Webhooks.Ledger.{ReplicationEvent}
use sgdy_pa_backend.Identity.Webhooks.Endpoint.{has_event_id}

pub record World : Type 0 where
  pub users : List User
  pub db : Db
  pub events : List ReplicationEvent

pub data TaskStatus : Type 0 where
  missing already_processed skipped_no_sub skipped_no_group skipped_no_user : TaskStatus
  org_created org_synced group_joined group_removed deactivated user_created user_updated :
      TaskStatus

-- What an event does to the users and the organizations, with the error text of the row.
pub data Applied : Type 0 where
  applied : TaskStatus → (error : Text) → List User → Db → Applied
  raised : Applied

pub data Processed : Type 0 where
  returned : TaskStatus → World → Processed
  retried : Processed

-- `str(v)`
unfoldable pub str_of : Parsing → Json → Text
str_of parsing (str s) = s
str_of parsing v = parsing.py_str v

abbrev pub group_ref : Fields → GroupRef
group_ref payload = record {
  keycloak_group_id = or_none (text_of (get_or_null (lit "group_id") payload));
  path = or_none (text_of (get_or_null (lit "group_path") payload));
  name = or_none (text_of (get_or_null (lit "group_name") payload));
}

abbrev pub is_text : Text → Json → Bool
is_text t (str s) = text_eq s t
is_text t _ = false

-- `payload.get("representation") or {}`: another truthy value has no `get`.
abbrev pub representation_of : Fields → Option Fields
representation_of payload = elim (get_or_null (lit "representation") payload) [
  | obj d ↦ some d
  | v ↦ if is_truthy v then none else some end
]

abbrev pub with_outcome : (now : ℕ) → (error : Text) → ReplicationEvent → ReplicationEvent
with_outcome now error row = record row { error = error; processed_at = some now }

-- `next_id` is the key of a new user, `slugify` Django's.
module _ (next_id : List User → ℕ) (slugify : Text → Text) (keys : Keys) (parsing : Parsing)
    (now : ℕ) where
  unfoldable pub apply_group : Fields → (operation : Text) → List User → Db → Applied
  apply_group payload operation users db =
      elim (sync_organization_from_group slugify keys.organization_key (group_ref payload)
        db.organizations) [
          | synced none orgs ↦
              applied skipped_no_group [] users (record db { organizations = orgs })
          | synced (some _) orgs ↦
              applied (if text_eq operation (lit "CREATE") then org_created else org_synced) []
                users (record db { organizations = orgs })
          | _ ↦ raised
        ]

  unfoldable pub apply_group_membership : Fields → (operation sub : Text) → List User → Db → Applied
  apply_group_membership payload operation sub users db = elim (find (has_sub sub) users) [
    | none ↦ applied skipped_no_user [] users db
    | some user ↦
        let added = not (text_eq operation (lit "DELETE")) in
        let (_, db') =
          apply_group_membership_change slugify keys now user.id (group_ref payload) added db in
        applied (if added then group_joined else group_removed) [] users db'
  ]

  unfoldable pub apply_user : Fields → (operation sub : Text) → List User → Db → Applied
  apply_user payload operation sub users db =
      if text_eq operation (lit "DELETE")
      then (elim (deactivate_user_projection sub users) [
        | ok (_, users') ↦ applied deactivated [] users' db
        | _ ↦ raised
      ])
      else elim (representation_of payload) [
        | none ↦ raised
        | some d ↦ elim (upsert_user_projection next_id sub (from_representation d) users) [
          | ok u ↦ applied (if u.created then user_created else user_updated) [] u.table db
          | _ ↦ raised
        ]
      ]

  unfoldable pub apply_event : ReplicationEvent → List User → Db → Applied
  unfolding apply_group apply_group_membership apply_user str_of upper
  apply_event row users db =
      let payload = row.payload in
      let operation =
        upper
          (str_of parsing (or_json (get_or_null (lit "operation") payload) (str row.operation))) in
      let kind = get_or_null (lit "kind") payload in
      let sub = str_of parsing (or_json (get_or_null (lit "sub") payload) (str row.keycloak_sub)) in
      if is_text (lit "group") kind
      then apply_group payload operation users db
      else if not (truthy sub)
      then applied skipped_no_sub (lit "event carried no keycloak sub") users db
      else if is_text (lit "group_membership") kind
      then apply_group_membership payload operation sub users db
      else apply_user payload operation sub users db

  unfoldable pub process_keycloak_admin_event : (event_id : Text) → World → Processed
  unfolding apply_event
  process_keycloak_admin_event i w = elim (find (has_event_id i) w.events) [
    | none ↦ returned missing w
    | some row ↦ elim row.processed_at [
      | some _ ↦ returned already_processed w
      | none ↦ elim (apply_event row w.users w.db) [
        | raised ↦ retried
        | applied status error users db ↦ returned status (record {
          users = users;
          db = db;
          events = update_where (has_event_id i) (with_outcome now error) w.events;
        })
      ]
    ]
  ]
