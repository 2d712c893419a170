-- ===== src/Identity/OrgReplication/Organizations.antt =====
-- Groups matched to organizations (apps/identity/org_replication.py). The table of organizations is
-- kept in the order of creation, so that the first match is the oldest.
use sgdy_pa_backend.Prelude.{
  ℕ, zero, suc, ◌+◌, ltb, ◌==◌, Bool, true, false, not, ◌&&◌, ◌||◌, Option, none, some, List, [],
  ◌∷◌, ◌++◌, map, any, find, update_where, if◌then◌else◌,
}
use Prim.Native.Nat.{◌/◌, ◌%◌}
use sgdy_pa_backend.Prelude.Text.{Text, lit, text_eq, truthy}
use sgdy_pa_backend.Prelude.Strings.{strip_of}
use sgdy_pa_backend.Identity.Models.{Organization}
use sgdy_pa_backend.Identity.OrgReplication.Claims.{
  GroupRef, is_slash, leaf, or_text, normalize_path,
}

-- An optional text with `None` read as the empty text, as every test of the source reads it.
abbrev pub text_or_empty : Option Text → Text
text_or_empty none = []
text_or_empty (some s) = s

abbrev pub has_group_id : Text → Organization → Bool
has_group_id i org = elim org.keycloak_group_id [ none ↦ false | some j ↦ text_eq j i ]

abbrev pub has_path : Text → Organization → Bool
has_path p org = text_eq org.keycloak_group_path p

abbrev pub is_row : Organization → Organization → Bool
is_row org row = row.id == org.id

-- The unique constraints against the other rows. A missing group id and an empty path are exempt.
abbrev pub taken_id : Organization → Text → List Organization → Bool
taken_id org i = any (λ row. not (is_row org row) && has_group_id i row)

abbrev pub taken_path : Organization → Text → List Organization → Bool
taken_path org p = any (λ row. not (is_row org row) && (truthy p && has_path p row))

abbrev pub or_org : Option Organization → Organization → Organization
or_org none org = org
or_org (some o) _ = o

-- `_backfill_group_id`, of a row that was just read: the row to use, and the table.
unfoldable pub backfill_group_id :
    Organization → Text → List Organization → Organization × List Organization
backfill_group_id org i orgs =
    if truthy (text_or_empty org.keycloak_group_id)
    then (org, orgs)
    else if taken_id org i orgs
    then (or_org (find (has_group_id i) orgs) org, orgs)
    else (
      record org { keycloak_group_id = some i },
      update_where (is_row org) (λ row. record row { keycloak_group_id = some i }) orgs,
    )

-- `_backfill_group_path`
unfoldable pub backfill_group_path :
    Organization → Text → List Organization → Organization × List Organization
backfill_group_path org p orgs =
    if truthy org.keycloak_group_path
    then (org, orgs)
    else if taken_path org p orgs
    then (or_org (find (has_path p) orgs) org, orgs)
    else (
      record org { keycloak_group_path = p },
      update_where (is_row org) (λ row. record row { keycloak_group_path = p }) orgs,
    )

-- The fallback of `find_organization`, by the path.
unfoldable pub find_by_path :
    (group_id path : Text) → List Organization → Option Organization × List Organization
unfolding backfill_group_id
find_by_path group_id path orgs =
    if not (truthy path) then (none, orgs) else elim (find (has_path path) orgs) [
      | none ↦ (none, orgs)
      | some org ↦
          if truthy group_id && not (truthy (text_or_empty org.keycloak_group_id))
          then (let (o, t) = backfill_group_id org group_id orgs in (some o, t))
          else (some org, orgs)
    ]

unfoldable pub find_organization :
    GroupRef → List Organization → Option Organization × List Organization
unfolding backfill_group_path find_by_path
find_organization ref orgs =
    let group_id = text_or_empty ref.keycloak_group_id in
    let path = normalize_path ref.path in
    if not (truthy group_id)
    then find_by_path group_id path orgs
    else elim (find (has_group_id group_id) orgs) [
      | none ↦ find_by_path group_id path orgs
      | some org ↦
          if truthy path && not (truthy org.keycloak_group_path)
          then (let (o, t) = backfill_group_path org path orgs in (some o, t))
          else (some org, orgs)
    ]

-- A number below 100 in decimal.
abbrev pub decimal : ℕ → Text
decimal n = if ltb n 10 then (0x30 + n) ∷ [] else (0x30 + n / 10) ∷ (0x30 + n % 10) ∷ []

abbrev pub max_slug_attempts : ℕ
max_slug_attempts = 50

-- `base if attempt == 0 else f"{base}-{attempt + 1}"`
unfoldable pub slug_for : Text → ℕ → Text
slug_for base zero = base
slug_for base (suc n) = base ++ b'-' ∷ decimal (n + 2)

abbrev pub take : ℕ → Text → Text
take zero s = []
take (suc n) [] = []
take (suc n) (c ∷ s) = c ∷ take n s

unfoldable pub org_name : GroupRef → Text
unfolding leaf
org_name ref = or_text (text_or_empty ref.name) (
    or_text (leaf (text_or_empty ref.path))
      (or_text (text_or_empty ref.keycloak_group_id) (lit "Organization")))

-- Would the new row break a unique constraint?
abbrev pub slug_taken : Text → List Organization → Bool
slug_taken s = any (λ row. text_eq row.slug s)

abbrev pub group_taken : (group_id path : Text) → List Organization → Bool
group_taken i p = any (λ row. (truthy i && has_group_id i row) || (truthy p && has_path p row))

-- `or None`
abbrev pub none_if_empty : Text → Option Text
none_if_empty [] = none
none_if_empty (c ∷ s) = some (c ∷ s)

-- `IntegrityError` out of `sync_organization_from_group`, whose save does not catch it.
pub data SyncResult : Type 0 where
  synced : Option Organization → List Organization → SyncResult
  integrity_error : SyncResult

-- `slugify` is Django's, `uuid4` the key of a new row.
module _ (slugify : Text → Text) (uuid4 : List Organization → ℕ) where
  unfoldable pub slug_base : GroupRef → Text
  slug_base ref =
      let path = text_or_empty ref.path in
      let raw =
        if truthy path
        then map (λ c. if is_slash c then b'-' else c) (strip_of is_slash path)
        else text_or_empty ref.name in
      take 110 (or_text (slugify raw) (lit "org"))

  unfoldable pub new_organization : GroupRef → (slug : Text) → List Organization → Organization
  new_organization ref slug orgs = record {
    id = uuid4 orgs;
    name = org_name ref;
    slug = slug;
    is_active = true;
    keycloak_group_id = none_if_empty (text_or_empty ref.keycloak_group_id);
    keycloak_group_path = normalize_path ref.path;
  }

  -- The attempts that are left, and the number of the next.
  unfoldable pub try_create :
      (left attempt : ℕ) → GroupRef → List Organization → Option Organization × List Organization
  unfolding new_organization slug_base
  try_create zero attempt ref orgs = (none, orgs)
  try_create (suc left) attempt ref orgs =
      let slug = slug_for (slug_base ref) attempt in
      let refused =
        slug_taken slug orgs
        || group_taken (text_or_empty ref.keycloak_group_id) (normalize_path ref.path) orgs in
      let retry = try_create left (suc attempt) ref in
      if not refused
      then (some (new_organization ref slug orgs), orgs ++ new_organization ref slug orgs ∷ [])
      else (let (found, orgs') = find_organization ref orgs in
          elim found [ some org ↦ (some org, orgs') | none ↦ retry orgs' ])

  unfoldable pub resolve_or_create_organization :
      GroupRef → List Organization → Option Organization × List Organization
  unfolding try_create
  resolve_or_create_organization ref orgs =
      let (existing, orgs') = find_organization ref orgs in
      elim existing [
        | some org ↦ (some org, orgs')
        | none ↦ try_create max_slug_attempts 0 ref orgs'
      ]

  unfoldable pub sync_organization_from_group : GroupRef → List Organization → SyncResult
  sync_organization_from_group ref orgs =
      let (resolved, orgs') = resolve_or_create_organization ref orgs in
      elim resolved [
        | none ↦ synced none orgs'
        | some org ↦
            let path = normalize_path ref.path in
            let new_name = or_text (text_or_empty ref.name) org.name in
            let new_path = or_text path org.keycloak_group_path in
            if taken_path org new_path orgs'
            then integrity_error
            else synced (some (record org { name = new_name; keycloak_group_path = new_path })) (
                update_where (is_row org)
                  (λ row. record row { name = new_name; keycloak_group_path = new_path }) orgs')
      ]
