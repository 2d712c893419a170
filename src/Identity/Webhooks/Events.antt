-- ===== src/Identity/Webhooks/Events.antt =====
-- Admin events parsed from a payload (apps/identity/webhooks.py).
use sgdy_pa_backend.Prelude.{
  Bool, true, false, not, ◌&&◌, Option, none, some, List, [], ◌∷◌, ◌++◌, any, select, if◌then◌else◌,
  ◌==◌,
}
use sgdy_pa_backend.Prelude.Text.{Text, lit, text_eq, truthy}
use sgdy_pa_backend.Prelude.Strings.{strip, split, upper}
use sgdy_pa_backend.Prelude.Json.{
  Json, null, boolean, num, str, arr, obj, nil, cons, Fields, end, field,
}
use sgdy_pa_backend.Identity.Authorization.{get_or_null}

-- `json.loads` on a text, `none` where it raises, and `str(...)` on a value that is no text.
pub record Parsing : Type 0 where
  pub loads : Text → Option Json
  pub py_str : Json → Text

pub record AdminUserEvent : Type 0 where
  pub event_id : Text
  pub event_type : Text
  pub operation : Text
  pub sub : Text
  pub representation : Option Fields

pub record AdminGroupMembershipEvent : Type 0 where
  pub event_id : Text
  pub event_type : Text
  pub operation : Text
  pub sub : Text
  pub group_id : Text
  pub group_path : Text
  pub group_name : Text

pub record AdminGroupEvent : Type 0 where
  pub event_id : Text
  pub event_type : Text
  pub operation : Text
  pub group_id : Text
  pub group_path : Text
  pub group_name : Text

-- The text of a string, the empty text of any other value.
abbrev pub text_of : Json → Text
text_of (str s) = s
text_of _ = []

-- `bool(v)`
abbrev pub is_truthy : Json → Bool
is_truthy null = false
is_truthy (boolean b) = b
is_truthy (num n) = not (n == 0)
is_truthy (str s) = truthy s
is_truthy (arr nil) = false
is_truthy (arr (cons _ _)) = true
is_truthy (obj end) = false
is_truthy (obj (field _ _ _)) = true

abbrev pub or_json : Json → Json → Json
or_json v w = if is_truthy v then v else w

abbrev pub or_empty : Option Fields → Fields
or_empty none = end
or_empty (some d) = d

-- `_coerce_representation`
unfoldable pub coerce_representation : Parsing → Json → Option Fields
unfolding strip
coerce_representation parsing (obj d) = some d
coerce_representation parsing (str s) =
    if not (truthy (strip s))
    then none
    else (elim (parsing.loads s) [ some (obj d) ↦ some d | _ ↦ none ])
coerce_representation parsing _ = none

-- `[seg for seg in resource_path.split("/") if seg]`
unfoldable pub segments : Json → List Text
unfolding split
segments (str path) = select truthy (split b'/' path)
segments _ = []

-- The segment after the first one that is the word and has a next.
unfoldable pub segment_after : Text → List Text → Text
segment_after word [] = []
segment_after word (s ∷ []) = []
segment_after word (s ∷ t ∷ rest) =
    let later = segment_after word (t ∷ rest) in if text_eq s word then t else later

unfoldable pub representation_id : Option Fields → Text
representation_id none = []
representation_id (some d) = text_of (get_or_null (lit "id") d)

unfoldable pub extract_sub : (resource_path : Json) → Option Fields → Text
unfolding segments segment_after representation_id
extract_sub path representation =
    if truthy (representation_id representation)
    then representation_id representation
    else segment_after (lit "users") (segments path)

unfoldable pub extract_group_id : Json → Text
unfolding segments segment_after
extract_group_id path = segment_after (lit "groups") (segments path)

-- The id in a path `groups/{id}`.
unfoldable pub top_group : List Text → Option Text
top_group (s ∷ t ∷ []) = if text_eq s (lit "groups") then some t else none
top_group _ = none

unfoldable pub extract_group_event_id : Json → Option Fields → Text
unfolding top_group segments representation_id
extract_group_event_id path representation =
    if truthy (representation_id representation)
    then representation_id representation
    else (elim (top_group (segments path)) [ none ↦ [] | some i ↦ i ])

abbrev pub is_operation : List Text → Text → Bool
is_operation ops o = any (λ w. text_eq w o) ops

-- The checks that open each parser: the operation and the event's id.
unfoldable pub event_head : (resource : Text) → (ops : List Text) → Fields → Option (Text × Text)
unfolding upper
event_head resource ops payload = elim (get_or_null (lit "resourceType") payload) [
  | str r ↦
      if not (text_eq r resource) then none else elim (get_or_null (lit "operationType") payload) [
        | str o ↦
            let i =
              text_of
                (or_json (get_or_null (lit "id") payload) (get_or_null (lit "uid") payload)) in
            if not (is_operation ops (upper o))
            then none
            else if not (truthy i)
            then none
            else some (upper o, i)
        | _ ↦ none
      ]
  | _ ↦ none
]

-- `str(payload.get("type") or f"admin.{resource}-{operation}")`
unfoldable pub event_type_of : Parsing → (resource operation : Text) → Fields → Text
event_type_of parsing resource operation payload =
    elim (or_json (get_or_null (lit "type") payload)
      (str (lit "admin." ++ resource ++ b'-' ∷ operation))) [ str s ↦ s | v ↦ parsing.py_str v ]

abbrev pub user_operations : List Text
user_operations = lit "CREATE" ∷ lit "UPDATE" ∷ lit "DELETE" ∷ []

abbrev pub group_operations : List Text
group_operations = lit "CREATE" ∷ lit "UPDATE" ∷ []

abbrev pub group_membership_operations : List Text
group_membership_operations = lit "CREATE" ∷ lit "DELETE" ∷ []

unfoldable pub parse_admin_event : Parsing → Json → Option AdminUserEvent
unfolding event_head extract_sub event_type_of coerce_representation
parse_admin_event parsing (obj payload) = elim (event_head (lit "USER") user_operations payload) [
  | none ↦ none
  | some (operation, event_id) ↦
      let representation =
        coerce_representation parsing (get_or_null (lit "representation") payload) in
      let sub = extract_sub (get_or_null (lit "resourcePath") payload) representation in
      if not (truthy sub)
      then none
      else some (record {
        event_id = event_id;
        event_type = event_type_of parsing (lit "USER") operation payload;
        operation = operation;
        sub = sub;
        representation = representation;
      })
]
parse_admin_event parsing _ = none

unfoldable pub parse_group_membership_event : Parsing → Json → Option AdminGroupMembershipEvent
unfolding event_head extract_sub extract_group_id event_type_of coerce_representation
parse_group_membership_event parsing (obj payload) =
    elim (event_head (lit "GROUP_MEMBERSHIP") group_membership_operations payload) [
      | none ↦ none
      | some (operation, event_id) ↦
          let path = get_or_null (lit "resourcePath") payload in
          let d =
            or_empty (coerce_representation parsing (get_or_null (lit "representation") payload)) in
          if not (truthy (extract_sub path none) && truthy (extract_group_id path))
          then none
          else some (record {
            event_id = event_id;
            event_type = event_type_of parsing (lit "GROUP_MEMBERSHIP") operation payload;
            operation = operation;
            sub = extract_sub path none;
            group_id = extract_group_id path;
            group_path = text_of (get_or_null (lit "path") d);
            group_name = text_of (get_or_null (lit "name") d);
          })
    ]
parse_group_membership_event parsing _ = none

unfoldable pub derive_group_path : Json → Option Fields → (name operation : Text) → Text
unfolding top_group segments strip
derive_group_path path representation name operation =
    let given = strip (text_of (get_or_null (lit "path") (or_empty representation))) in
    let derived : Text = elim (top_group (segments path)) [ none ↦ [] | some _ ↦ b'/' ∷ name ] in
    if truthy given
    then given
    else if text_eq operation (lit "CREATE") && truthy name
    then derived
    else []

unfoldable pub parse_group_event : Parsing → Json → Option AdminGroupEvent
unfolding event_head extract_group_event_id event_type_of coerce_representation derive_group_path
parse_group_event parsing (obj payload) = elim (event_head (lit "GROUP") group_operations payload) [
  | none ↦ none
  | some (operation, event_id) ↦
      let path = get_or_null (lit "resourcePath") payload in
      let representation =
        coerce_representation parsing (get_or_null (lit "representation") payload) in
      let group_id = extract_group_event_id path representation in
      let name = text_of (get_or_null (lit "name") (or_empty representation)) in
      if not (truthy group_id)
      then none
      else some (record {
        event_id = event_id;
        event_type = event_type_of parsing (lit "GROUP") operation payload;
        operation = operation;
        group_id = group_id;
        group_path = derive_group_path path representation name operation;
        group_name = name;
      })
]
parse_group_event parsing _ = none
