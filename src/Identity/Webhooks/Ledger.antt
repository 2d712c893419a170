-- ===== src/Identity/Webhooks/Ledger.antt =====
-- The row of the deduplication ledger that an event becomes (apps/identity/webhooks.py).
use sgdy_pa_backend.Prelude.{ℕ, Bool, not, [], Option, none, some, if◌then◌else◌}
use sgdy_pa_backend.Prelude.Text.{Text, lit}
use sgdy_pa_backend.Prelude.Json.{Json, null, str, obj, Fields, end, field}
use sgdy_pa_backend.Identity.Webhooks.Events.{
  Parsing, AdminUserEvent, AdminGroupMembershipEvent, AdminGroupEvent, parse_admin_event,
  parse_group_membership_event, parse_group_event,
}

-- `KeycloakReplicationEvent`
pub record ReplicationEvent : Type 0 where
  pub event_id : Text
  pub event_type : Text
  pub operation : Text
  pub keycloak_sub : Text
  pub payload : Fields
  pub processed_at : Option ℕ
  pub error : Text

abbrev pub json_of : Option Fields → Json
json_of none = null
json_of (some d) = obj d

unfoldable pub user_row : AdminUserEvent → ReplicationEvent
user_row e = record {
  event_id = e.event_id;
  event_type = e.event_type;
  operation = e.operation;
  keycloak_sub = e.sub;
  payload = field (lit "kind") (str (lit "user")) (
      field (lit "event_id") (str e.event_id) (
        field (lit "type") (str e.event_type) (
          field (lit "operation") (str e.operation) (
            field (lit "sub") (str e.sub)
              (field (lit "representation") (json_of e.representation) end)))));
  processed_at = none;
  error = [];
}

unfoldable pub group_membership_row : AdminGroupMembershipEvent → ReplicationEvent
group_membership_row e = record {
  event_id = e.event_id;
  event_type = e.event_type;
  operation = e.operation;
  keycloak_sub = e.sub;
  payload = field (lit "kind") (str (lit "group_membership")) (
      field (lit "event_id") (str e.event_id) (
        field (lit "type") (str e.event_type) (
          field (lit "operation") (str e.operation) (
            field (lit "sub") (str e.sub) (
              field (lit "group_id") (str e.group_id) (
                field (lit "group_path") (str e.group_path)
                  (field (lit "group_name") (str e.group_name) end)))))));
  processed_at = none;
  error = [];
}

unfoldable pub group_row : AdminGroupEvent → ReplicationEvent
group_row e = record {
  event_id = e.event_id;
  event_type = e.event_type;
  operation = e.operation;
  keycloak_sub = [];
  payload = field (lit "kind") (str (lit "group")) (
      field (lit "event_id") (str e.event_id) (
        field (lit "type") (str e.event_type) (
          field (lit "operation") (str e.operation) (
            field (lit "group_id") (str e.group_id) (
              field (lit "group_path") (str e.group_path)
                (field (lit "group_name") (str e.group_name) end))))));
  processed_at = none;
  error = [];
}

-- `enabled` is the setting of the organization replication.
unfoldable pub event_ledger_entry : Parsing → (enabled : Bool) → Json → Option ReplicationEvent
unfolding user_row group_membership_row group_row
event_ledger_entry parsing enabled payload = elim (parse_admin_event parsing payload) [
  | some e ↦ some (user_row e)
  | none ↦ if not enabled then none else elim (parse_group_membership_event parsing payload) [
    | some e ↦ some (group_membership_row e)
    | none ↦ elim (parse_group_event parsing payload) [ some e ↦ some (group_row e) | none ↦ none ]
  ]
]
