-- ===== src/Identity/OrgReplication/Claims.antt =====
-- Groups and roles read from token claims (apps/identity/org_replication.py).
use sgdy_pa_backend.Prelude.{
  ℕ, ltb, ◌==◌, Bool, not, Option, none, some, List, [], ◌∷◌, ◌++◌, length, if◌then◌else◌,
}
use sgdy_pa_backend.Prelude.Text.{Text, lit, text_eq, truthy}
use sgdy_pa_backend.Prelude.Strings.{strip, rstrip, split}
use sgdy_pa_backend.Prelude.Json.{Json, str, arr, obj, Items, nil, cons, Fields, end, field, get}

pub record GroupRef : Type 0 where
  pub keycloak_group_id : Option Text
  pub path : Option Text
  pub name : Option Text

abbrev pub is_slash : ℕ → Bool
is_slash c = c == b'/'

-- `parts[-1]`, of a list that is never empty.
abbrev pub last_part : List Text → Text
last_part [] = []
last_part (s ∷ []) = s
last_part (s ∷ t ∷ r) = last_part (t ∷ r)

-- `path.rstrip("/").split("/")[-1]`
unfoldable pub leaf : Text → Text
leaf path = last_part (split b'/' (rstrip is_slash path))

-- `s or t`
abbrev pub or_text : Text → Text → Text
or_text s t = if truthy s then s else t

unfoldable pub refs_from : Items → List GroupRef
unfolding leaf strip
refs_from nil = []
refs_from (cons (str item) rest) =
    let path = strip item in
    if not (truthy path)
    then refs_from rest
    else record {
      keycloak_group_id = none;
      path = some path;
      name = some (or_text (leaf path) path);
    }
      ∷ refs_from rest
refs_from (cons _ rest) = refs_from rest

-- `none` for a claim that is absent or no list.
unfoldable pub parse_groups_from_claims : Fields → (groups_claim : Text) → Option (List GroupRef)
unfolding refs_from
parse_groups_from_claims claims groups_claim = elim (get groups_claim claims) [
  | some (arr raw) ↦ some (refs_from raw)
  | _ ↦ none
]

-- The texts of a list.
unfoldable pub texts_of : Items → List Text
texts_of nil = []
texts_of (cons (str s) rest) = s ∷ texts_of rest
texts_of (cons _ rest) = texts_of rest

-- The role names of `{"roles": [...]}`, none of any other value.
unfoldable pub role_names : Option Json → List Text
unfolding texts_of
role_names (some (obj access)) = elim (get (lit "roles") access) [
  | some (arr roles) ↦ texts_of roles
  | _ ↦ []
]
role_names _ = []

unfoldable pub client_role_names : Fields → List Text
unfolding role_names
client_role_names end = []
client_role_names (field _ client rest) = role_names (some client) ++ client_role_names rest

-- `role_map.get(name)`
unfoldable pub mapped : List (Text × Text) → Text → Option Text
mapped [] name = none
mapped ((k, v) ∷ m) name = if text_eq k name then some v else mapped m name

unfoldable pub map_names : List (Text × Text) → List Text → List Text
unfolding mapped
map_names role_map [] = []
map_names role_map (name ∷ rest) = elim (mapped role_map name) [
  | none ↦ map_names role_map rest
  | some c ↦ c ∷ map_names role_map rest
]

-- A set of codes is a list that is read as a set.
unfoldable pub parse_role_codes_from_claims : Fields → List (Text × Text) → List Text
unfolding role_names client_role_names map_names
parse_role_codes_from_claims claims role_map =
    let realm = role_names (get (lit "realm_access") claims) in
    let clients : List Text = elim (get (lit "resource_access") claims) [
      | some (obj r) ↦ client_role_names r
      | _ ↦ []
    ] in
    map_names role_map (realm ++ clients)

unfoldable pub normalize_path : Option Text → Text
unfolding strip rstrip
normalize_path none = []
normalize_path (some path) =
    if not (truthy path)
    then []
    else (let n = strip path in if ltb 1 (length n) then rstrip is_slash n else n)
