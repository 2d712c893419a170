-- ===== src/Platform/Tenancy.antt =====
-- apps/platform/tenancy.py: the active organization, and whether a user belongs to one.
use sgdy_pa_backend.Prelude.{
  ℕ, ◌==◌, Bool, false, ◌&&◌, ◌||◌, Option, none, some, List, [], ◌++◌, any, select, if◌then◌else◌,
}
use sgdy_pa_backend.Prelude.Text.{Text, truthy}
use sgdy_pa_backend.Identity.Models.{User}
use sgdy_pa_backend.Identity.Authorization.{Db, is_active_in}

-- `NO_ORGANIZATION`, the nil UUID.
abbrev pub no_organization : ℕ
no_organization = 0

-- `get_current_organization_scope`; every UUID is true.
unfoldable pub current_organization_scope : Option ℕ → ℕ
current_organization_scope none = no_organization
current_organization_scope (some o) = o

-- `TenantScopedQuerySet.for_current_organization`, of rows with the column `organization_id`.
unfoldable pub for_current_organization :
    {A : Type 0} → (organization_id : A → ℕ) → Option ℕ → List A → List A
for_current_organization column none rows = []
for_current_organization column (some o) rows = select (λ row. column row == o) rows

-- What is found among the memberships of a user: a dictionary, or an object. A value is the text
-- that `str` gives of it, `None` is none; `itself` is the text of the object.
pub data AnyMembership : Type 0 where
  dictionary : (organization_id organization : Option Text) → AnyMembership
  object : (organization_id organization : Option Text) → (itself : Text) → AnyMembership

-- What is read of a user. An attribute that is missing or cannot be iterated is an empty list.
pub record Principal : Type 0 where
  pub has_organization_membership : Option (ℕ → Bool)
  pub organization_ids : List (Option Text)
  pub organizations : List (Option Text)
  pub memberships : List AnyMembership
  pub organization_memberships : List AnyMembership

-- `_membership_organization_id`
unfoldable pub membership_organization_id : AnyMembership → Option Text
membership_organization_id (dictionary none o) = o
membership_organization_id (dictionary (some i) o) = if truthy i then some i else o
membership_organization_id (object (some i) o itself) = some i
membership_organization_id (object none (some o) itself) = some o
membership_organization_id (object none none itself) = some itself

-- `parse_uuid` is `uuid.UUID`, none where it raises.
module _ (parse_uuid : Text → Option ℕ) where
  unfoldable pub same_organization : Option Text → ℕ → Bool
  same_organization none o = false
  same_organization (some t) o = elim (parse_uuid t) [ none ↦ false | some i ↦ i == o ]

  unfoldable pub user_has_organization_membership : Principal → ℕ → Bool
  unfolding same_organization membership_organization_id
  user_has_organization_membership user o = elim (user.has_organization_membership) [
    | some checker ↦ checker o
    | none ↦
        any (λ v. same_organization v o) (user.organization_ids ++ user.organizations)
        || any (λ m. same_organization (membership_organization_id m) o)
            (user.memberships ++ user.organization_memberships)
  ]

-- `User.has_organization_membership` (apps/identity/models.py)
unfoldable pub has_organization_membership : (now : ℕ) → Db → (user organization : ℕ) → Bool
has_organization_membership now db u o =
    any (λ m. is_active_in now db.organizations m && (m.user_id == u && (m.organization_id == o)))
      db.memberships

-- A user of the application, as the middleware reads it.
unfoldable pub principal_of : (now : ℕ) → Db → User → Principal
unfolding has_organization_membership
principal_of now db u = record {
  has_organization_membership = some (has_organization_membership now db u.id);
  organization_ids = [];
  organizations = [];
  memberships = [];
  organization_memberships = [];
}
