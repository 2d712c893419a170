-- ===== src/Identity/Webhooks/Admission.antt =====
-- What the parsers of apps/identity/webhooks.py admit.
use sgdy_pa_backend.Prelude.{
  sym, ◌≡◌, ◌⊎◌, inl, inr, refl, Bool, Bool-cases, Option-cases, true, some, List, [], arith,
}
use sgdy_pa_backend.Prelude.Text.{Text, lit, text_eq, truthy}
use sgdy_pa_backend.Prelude.Json.{Json, null, boolean, num, str, arr, obj, Fields, get}
use sgdy_pa_backend.Identity.Webhooks.Ledger.{
  ReplicationEvent, user_row, group_membership_row, group_row, event_ledger_entry,
}
use sgdy_pa_backend.Identity.Webhooks.Events.{
  Parsing, is_operation, event_head, user_operations, parse_admin_event, AdminUserEvent,
  AdminGroupMembershipEvent, AdminGroupEvent, group_operations, group_membership_operations,
  parse_group_membership_event, parse_group_event,
}

-- The operation is admitted and the event id is not empty.
abbrev pub IsHead : List Text → Text × Text → Type 0
IsHead ops head = (is_operation ops head.0 ≡ true) × (truthy head.1 ≡ true)

event_head-IsHead :
    (resource : Text) (ops : List Text) (payload : Fields) (head : Text × Text)
    → event_head resource ops payload ≡ some head
    → IsHead ops head
unfolding event_head
event_head-IsHead resource ops payload head e = ground arith

parse_admin_event_lem :
    (parsing : Parsing) (payload : Json) (e : AdminUserEvent)
    → parse_admin_event parsing payload ≡ some e
    → IsHead user_operations (e.operation, e.event_id) × (truthy e.sub ≡ true)
unfolding parse_admin_event
parse_admin_event_lem parsing (obj payload) e h =
    elim (Option-cases (event_head (lit "USER") user_operations payload)) [
      | inl none_left ↦ cc (rw (parse_admin_event, none_left) at h)
      | inr (head, found) ↦
          let ok_head = event_head-IsHead (lit "USER") user_operations payload head found in
          ground (arith, ok_head, rw (parse_admin_event, found) at h)
    ]
parse_admin_event_lem parsing null e h = cc
parse_admin_event_lem parsing (boolean b) e h = cc
parse_admin_event_lem parsing (num n) e h = cc
parse_admin_event_lem parsing (str s) e h = cc
parse_admin_event_lem parsing (arr l) e h = cc

parse_group_membership_event_lem :
    (parsing : Parsing) (payload : Json) (e : AdminGroupMembershipEvent)
    → parse_group_membership_event parsing payload ≡ some e
    → IsHead group_membership_operations (e.operation, e.event_id)
      × (truthy e.sub ≡ true)
      × (truthy e.group_id ≡ true)
unfolding parse_group_membership_event
parse_group_membership_event_lem parsing (obj payload) e h =
    elim (Option-cases (event_head (lit "GROUP_MEMBERSHIP") group_membership_operations payload)) [
      | inl none_left ↦ cc (rw (parse_group_membership_event, none_left) at h)
      | inr (head, found) ↦
          let ok_head =
            event_head-IsHead (lit "GROUP_MEMBERSHIP") group_membership_operations payload head
              found in
          ground (arith, ok_head, rw (parse_group_membership_event, found) at h)
    ]
parse_group_membership_event_lem parsing null e h = cc
parse_group_membership_event_lem parsing (boolean b) e h = cc
parse_group_membership_event_lem parsing (num n) e h = cc
parse_group_membership_event_lem parsing (str s) e h = cc
parse_group_membership_event_lem parsing (arr l) e h = cc

parse_group_event_lem :
    (parsing : Parsing) (payload : Json) (e : AdminGroupEvent)
    → parse_group_event parsing payload ≡ some e
    → IsHead group_operations (e.operation, e.event_id) × (truthy e.group_id ≡ true)
unfolding parse_group_event
parse_group_event_lem parsing (obj payload) e h =
    elim (Option-cases (event_head (lit "GROUP") group_operations payload)) [
      | inl none_left ↦ cc (rw (parse_group_event, none_left) at h)
      | inr (head, found) ↦
          let ok_head = event_head-IsHead (lit "GROUP") group_operations payload head found in
          ground (arith, ok_head, rw (parse_group_event, found) at h)
    ]
parse_group_event_lem parsing null e h = cc
parse_group_event_lem parsing (boolean b) e h = cc
parse_group_event_lem parsing (num n) e h = cc
parse_group_event_lem parsing (str s) e h = cc
parse_group_event_lem parsing (arr l) e h = cc

-- The row names its event, and it is of one of the three kinds, with an operation of that kind and
-- the user, where the kind has one; the groups need the setting.
abbrev pub IsAdmitted : (enabled : Bool) → ReplicationEvent → Type 0
IsAdmitted enabled row =
    (truthy row.event_id ≡ true)
    × (((get (lit "kind") row.payload ≡ some (str (lit "user")))
          × (is_operation user_operations row.operation ≡ true)
          × (truthy row.keycloak_sub ≡ true))
        ⊎ (((get (lit "kind") row.payload ≡ some (str (lit "group_membership")))
              × (enabled ≡ true)
              × (is_operation group_membership_operations row.operation ≡ true)
              × (truthy row.keycloak_sub ≡ true))
            ⊎ ((get (lit "kind") row.payload ≡ some (str (lit "group")))
                × (enabled ≡ true)
                × (is_operation group_operations row.operation ≡ true)
                × (row.keycloak_sub ≡ []))))

user_row-IsAdmitted :
    (enabled : Bool) (e : AdminUserEvent)
    → IsHead user_operations (e.operation, e.event_id) × (truthy e.sub ≡ true)
    → IsAdmitted enabled (user_row e)
unfolding user_row get text_eq
user_row-IsAdmitted enabled e (head, sub) = (head.1, inl (refl, head.0, sub))

group_membership_row-IsAdmitted :
    (enabled : Bool) (e : AdminGroupMembershipEvent)
    → enabled ≡ true
    → IsHead group_membership_operations (e.operation, e.event_id)
    → truthy e.sub ≡ true
    → IsAdmitted enabled (group_membership_row e)
unfolding group_membership_row get text_eq
group_membership_row-IsAdmitted enabled e on head sub = (head.1, inr (inl (refl, on, head.0, sub)))

group_row-IsAdmitted :
    (enabled : Bool) (e : AdminGroupEvent)
    → enabled ≡ true
    → IsHead group_operations (e.operation, e.event_id)
    → IsAdmitted enabled (group_row e)
unfolding group_row get text_eq
group_row-IsAdmitted enabled e on head = (head.1, inr (inr (refl, on, head.0, refl)))

-- A payload becomes a row only with an event id, an operation of its kind and, but for an event of a
-- group itself, a user; events of groups and memberships only under the setting.
pub event_ledger_entry-IsAdmitted :
    (parsing : Parsing) (enabled : Bool) (payload : Json) (row : ReplicationEvent)
    → event_ledger_entry parsing enabled payload ≡ some row
    → IsAdmitted enabled row
unfolding event_ledger_entry
event_ledger_entry-IsAdmitted parsing enabled payload row h =
    elim (Option-cases (parse_admin_event parsing payload)) [
      | inr (e, found) ↦
          let is_row : user_row e ≡ row = cc (rw (found, event_ledger_entry) at h) in
          rw (sym is_row)
            (user_row-IsAdmitted enabled e (parse_admin_event_lem parsing payload e found))
      | inl no_user ↦ elim (Bool-cases enabled) [
        | inr off ↦ absurd (cc (rw (no_user, off, event_ledger_entry) at h))
        | inl on ↦ elim (Option-cases (parse_group_membership_event parsing payload)) [
          | inr (e, found) ↦
              let is_row : group_membership_row e ≡ row =
                cc (rw (no_user, on, found, event_ledger_entry) at h) in
              let (head, sub, _) = parse_group_membership_event_lem parsing payload e found in
              rw (sym is_row) (group_membership_row-IsAdmitted enabled e on head sub)
          | inl no_member ↦ elim (Option-cases (parse_group_event parsing payload)) [
            | inr (e, found) ↦
                let is_row : group_row e ≡ row =
                  cc (rw (no_user, on, no_member, found, event_ledger_entry) at h) in
                rw (sym is_row) (
                  group_row-IsAdmitted enabled e on
                    (parse_group_event_lem parsing payload e found).0)
            | inl no_group ↦
                absurd (cc (rw (no_user, on, no_member, no_group, event_ledger_entry) at h))
          ]
        ]
      ]
    ]
