-- ===== src/Identity/Api.antt =====
-- apps/identity/views.py and apps/identity/serializers.py: the lists of the API, and the operations
-- on memberships. The framework parses the values of a request; where it refuses one, the value
-- is none. The contents of the answers are not followed.
pub mod Effects
pub mod Isolation
mod Tests
use sgdy_pa_backend.Prelude.{
  ℕ, ◌==◌, Bool, true, false, not, ◌&&◌, ◌||◌, Option, none, some, List, [], ◌∷◌, any, find, select,
  if◌then◌else◌,
}
use sgdy_pa_backend.Prelude.Text.{Text, lit, truthy}
use sgdy_pa_backend.Prelude.Strings.{strip}
use sgdy_pa_backend.Prelude.Json.{Json, arr, nil, Fields, end}
use sgdy_pa_backend.Identity.Models.{
  Organization, User, Status, invited, active, suspended, revoked, manual, Role, Membership,
}
use sgdy_pa_backend.Identity.Authorization.{
  Db, ok, authorization_error, links, get_or_create_link, assign_membership_role,
  revoke_membership_role, require_capability,
}
use sgdy_pa_backend.Identity.Authorization.Roles.{value, manage_memberships}
use sgdy_pa_backend.Platform.Errors.{
  ApiError, stable, http404, permission_error, validation_error, ErrorCode,
  idempotency_key_required, idempotency_key_invalid,
}

-- `OrganizationViewSet.get_queryset`
unfoldable pub list_organizations : (user : ℕ) → Db → List Organization
list_organizations u db =
    select (λ o. any (λ m. (m.organization_id == o.id) && (m.user_id == u)) db.memberships)
      db.organizations

-- `UserViewSet.get_queryset`, under the organization of the header.
unfoldable pub list_users : (organization : ℕ) → Db → List User → List User
list_users o db =
    select (λ u. any (λ m. (m.organization_id == o) && (m.user_id == u.id)) db.memberships)

-- `MembershipViewSet.get_queryset`
unfoldable pub list_memberships : (organization : ℕ) → Db → List Membership
list_memberships o db = select (λ m. m.organization_id == o) db.memberships

-- `status__in=[ACTIVE, INVITED]`
abbrev pub is_open : Status → Bool
is_open active = true
is_open invited = true
is_open suspended = false
is_open revoked = false

-- `MeSerializer.get_orgs`
unfoldable pub get_orgs : (user : ℕ) → Db → List Organization
get_orgs u db =
    select
      (λ o.
        any (λ m. (m.organization_id == o.id) && ((m.user_id == u) && is_open m.status))
          db.memberships)
      db.organizations

-- `MeSerializer.get_roles`
unfoldable pub get_roles : (user : ℕ) → Db → List Role
get_roles u db =
    select (λ r. any (λ m. (m.user_id == u) && any (links m r) db.membership_roles) db.memberships)
      db.roles

-- The validated fields of a new membership; `alcance` is a dictionary.
pub record MembershipData : Type 0 where
  pub user_id : ℕ
  pub status : Option Status
  pub alcance : Option Fields
  pub expira_en : Option ℕ

-- An answer with its status, and the tables that it leaves; or an exception, which changes none.
pub data ApiOutcome : Type 0 where
  returned : (status : ℕ) → Db → ApiOutcome
  raises : ApiError → ApiOutcome

-- The exception of a check, none where it passes.
abbrev pub checked : Option ApiError → ApiOutcome → ApiOutcome
checked none rest = rest
checked (some e) rest = raises e

abbrev pub stable_error : ErrorCode → Text → ApiError
stable_error code message =
    stable (record { code = code; message = message; status_code = 400; details = arr nil })

unfoldable pub require_idempotency_header :
    (parse_uuid : Text → Option ℕ) → (header : Option Text) → Option ApiError
unfolding strip
require_idempotency_header parse_uuid header =
    let raw_key : Text = elim header [ none ↦ [] | some k ↦ strip k ] in
    if not (truthy raw_key)
    then some (
        stable_error idempotency_key_required
          (lit "Idempotency-Key header is required for this operation."))
    else elim (parse_uuid raw_key) [
      | none ↦
          some (stable_error idempotency_key_invalid (lit "Idempotency-Key header must be a UUID."))
      | some _ ↦ none
    ]

abbrev pub or_default {ℓ} : {A : Type ℓ} → Option A → A → A
or_default none d = d
or_default (some a) d = a

-- `MembershipSerializer.create`, of the new row.
unfoldable pub new_membership : (id organization : ℕ) → MembershipData → Membership
new_membership i o d = record {
  id = i;
  organization_id = o;
  user_id = d.user_id;
  status = or_default d.status invited;
  origin = manual;
  scope = or_default d.alcance end;
  expires_at = d.expira_en;
}

-- The calls, with the values of the request.
pub data MembershipCall : Type 0 where
  create : (header : Option Text) → (posted : Option MembershipData) → MembershipCall
  add_role : (header : Option Text) → (membership : ℕ) → (role : Option ℕ) → MembershipCall
  remove_role : (membership role : ℕ) → MembershipCall

-- `get_object`, in the queryset of the view.
abbrev pub get_object : (organization id : ℕ) → Db → Option Membership
get_object o i db = find (λ m. (m.id == i) && (m.organization_id == o)) db.memberships

abbrev pub is_member : (organization user : ℕ) → Membership → Bool
is_member o u m = (m.organization_id == o) && (m.user_id == u)

-- `user` makes the request, under the organization of its header.
module _ (py_eq : Json → Json → Bool) (parse_uuid : Text → Option ℕ) (new_id : List Membership → ℕ)
    (now user organization : ℕ) where
  unfoldable pub require_org_capability : Db → Option ApiError
  require_org_capability db =
      elim (require_capability py_eq now db user organization (value manage_memberships) none) [
        | authorization_error ↦
            some (permission_error (lit "User lacks the required organization capability."))
        | ok _ ↦ none
      ]

  unfoldable pub create_membership : Option MembershipData → List User → Db → ApiOutcome
  unfolding new_membership
  create_membership none users db = raises (validation_error [])
  create_membership (some d) users db =
      if not (any (λ u. u.id == d.user_id) users)
      then raises (validation_error [])
      else if any (is_member organization d.user_id) db.memberships
      then raises (validation_error (lit "This user already has a membership in the organization."))
      else returned 201 (record db {
        memberships = new_membership (new_id db.memberships) organization d ∷ db.memberships;
      })

  unfoldable pub assign_role : Membership → Option ℕ → Db → ApiOutcome
  assign_role m none db = raises (validation_error [])
  assign_role m (some i) db = elim (find (λ r. r.id == i) db.roles) [
    | none ↦ raises (validation_error [])
    | some r ↦ elim (assign_membership_role now db.organizations m r db.membership_roles) [
      | authorization_error ↦
          raises (permission_error (lit "Membership must be active to receive roles."))
      | ok links' ↦ returned 201 (record db { membership_roles = links' })
    ]
  ]

  -- The rest of `MembershipViewSet.add_role`, after its checks.
  unfoldable pub add_role_to : (membership : ℕ) → (role : Option ℕ) → Db → ApiOutcome
  unfolding assign_role
  add_role_to i role db = elim (get_object organization i db) [
    | none ↦ raises http404
    | some m ↦ assign_role m role db
  ]

  -- The rest of `MembershipViewSet.remove_role`.
  unfoldable pub remove_role_from : (membership role : ℕ) → Db → ApiOutcome
  remove_role_from i role db = elim (get_object organization i db) [
    | none ↦ raises http404
    | some m ↦ elim (find (λ r. r.id == role) db.roles) [
      | none ↦ raises http404
      | some r ↦
          returned 204
            (record db { membership_roles = revoke_membership_role m r db.membership_roles })
    ]
  ]

  -- `MembershipViewSet`
  unfoldable pub perform : MembershipCall → List User → Db → ApiOutcome
  unfolding require_org_capability require_idempotency_header create_membership add_role_to
      remove_role_from
  perform (create header d) users db =
      checked (require_org_capability db)
        (checked (require_idempotency_header parse_uuid header) (create_membership d users db))
  perform (add_role header i role) users db =
      checked (require_org_capability db)
        (checked (require_idempotency_header parse_uuid header) (add_role_to i role db))
  perform (remove_role i role) users db =
      checked (require_org_capability db) (remove_role_from i role db)
