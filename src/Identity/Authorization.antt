-- ===== src/Identity/Authorization.antt =====
-- apps/identity/authorization.py: the capability table, role assignment and the access decision.
pub mod Roles
pub mod Usable
pub mod Decision
pub mod Assignment
pub mod Duties
pub mod Seeding
mod Tests
use sgdy_pa_backend.Prelude.{
  ℕ, ◌==◌, Bool, true, false, not, ◌&&◌, ◌||◌, Option, none, some, List, [], ◌∷◌, any, find, select,
  if◌then◌else◌,
}
use sgdy_pa_backend.Prelude.Text.{Text, lit, text_eq}
use sgdy_pa_backend.Prelude.Json.{Json, null, arr, Items, nil, cons, Fields, end, field, get}
use sgdy_pa_backend.Identity.Models.{Organization, Role, Membership, MembershipRole, is_active}
use sgdy_pa_backend.Identity.Authorization.Roles.{Capability, value}

-- The tables that the decision reads.
pub record Db : Type 0 where
  pub organizations : List Organization
  pub memberships : List Membership
  pub roles : List Role
  pub membership_roles : List MembershipRole

pub data Result (A : Type 0) : Type 0 where
  ok : A → Result A
  authorization_error : Result A

abbrev pub links : Membership → Role → MembershipRole → Bool
links m r a = (a.membership_id == m.id) && (a.role_id == r.id)

-- `MembershipRole.objects.get_or_create(membership=..., role=...)`
unfoldable pub get_or_create_link : Membership → Role → List MembershipRole → List MembershipRole
get_or_create_link m r table =
    if any (links m r) table then table else record { membership_id = m.id; role_id = r.id } ∷ table

-- The organization of a membership is the row that its foreign key names.
abbrev pub organization_of : Membership → List Organization → Option Organization
organization_of m = find (λ o. o.id == m.organization_id)

-- `membership.is_active`. The foreign key is enforced, so the row is there; without it, false.
unfoldable pub is_active_in : ℕ → List Organization → Membership → Bool
is_active_in now orgs m = elim (organization_of m orgs) [
  | none ↦ false
  | some o ↦ is_active now o m
]

unfoldable pub assign_membership_role :
    (now : ℕ)
    → List Organization
    → Membership
    → Role
    → List MembershipRole
    → Result (List MembershipRole)
unfolding get_or_create_link is_active_in
assign_membership_role now orgs m r table =
    if not (is_active_in now orgs m) then authorization_error else ok (get_or_create_link m r table)

unfoldable pub revoke_membership_role :
    Membership → Role → List MembershipRole → List MembershipRole
revoke_membership_role m r = select (λ a. not (links m r a))

-- `membership.roles.all()`
unfoldable pub roles_of : Membership → Db → List Role
roles_of m db = select (λ r. any (links m r) db.membership_roles) db.roles

-- `text in texts`
unfoldable pub contains : Text → List Text → Bool
contains t = any (λ s. text_eq s t)

unfoldable pub is_third_party_read : List Role → Text → Bool
is_third_party_read roles requested =
    text_eq requested (value Capability.read) && any (λ r. text_eq r.code (lit "P7")) roles

-- `d.get(key)`, with Python's `None` for a missing key.
abbrev pub get_or_null : Text → Fields → Json
get_or_null k d = elim (get k d) [ none ↦ null | some v ↦ v ]

-- `bool(d)`
abbrev pub is_empty_dict : Fields → Bool
is_empty_dict end = true
is_empty_dict (field _ _ _) = false

-- `Membership.objects.active().filter(user=user, organization_id=...).first()`
unfoldable pub active_membership : (now : ℕ) → Db → (user org : ℕ) → Option Membership
active_membership now db user org =
    find
      (λ m.
        is_active_in now db.organizations m && (m.user_id == user && (m.organization_id == org)))
      db.memberships

module _ (py_eq : Json → Json → Bool) where
  -- `value in items`, with Python's `==`.
  unfoldable pub item_in : Json → Items → Bool
  item_in v nil = false
  item_in v (cons x xs) = py_eq x v || item_in v xs

  -- One round of the loop of `_scope_allows`.
  unfoldable pub allows_value : Json → Json → Bool
  unfolding item_in
  allows_value (arr items) requested = item_in requested items
  allows_value allowed requested = py_eq allowed requested

  unfoldable pub allows_items : Fields → Fields → Bool
  unfolding allows_value
  allows_items scope end = true
  allows_items scope (field k requested rest) =
      allows_value (get_or_null k scope) requested && allows_items scope rest

  unfoldable pub scope_allows : Fields → Option Fields → Bool
  scope_allows scope object_scope =
      if is_empty_dict scope
      then false
      else (elim object_scope [ none ↦ true | some items ↦ allows_items scope items ])

  unfoldable pub membership_has_capability :
      (now : ℕ) → Db → Membership → (requested : Text) → Option Fields → Bool
  membership_has_capability now db m requested object_scope =
      if not (is_active_in now db.organizations m)
      then false
      else if not (any (λ r. contains requested r.capabilities) (roles_of m db))
      then false
      else if is_third_party_read (roles_of m db) requested
      then scope_allows m.scope object_scope
      else true

  -- The source reads the clock for the query and again for the row; here both readings are `now`.
  unfoldable pub user_has_capability :
      (now : ℕ) → Db → (user org : ℕ) → (requested : Text) → Option Fields → Bool
  user_has_capability now db user org requested object_scope =
      elim (active_membership now db user org) [
        | none ↦ false
        | some m ↦ membership_has_capability now db m requested object_scope
      ]

  unfoldable pub require_capability :
      (now : ℕ) → Db → (user org : ℕ) → (requested : Text) → Option Fields → Result (Unit {0})
  require_capability now db user org requested object_scope =
      if not (user_has_capability now db user org requested object_scope)
      then authorization_error
      else ok tt
