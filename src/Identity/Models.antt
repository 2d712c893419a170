-- ===== src/Identity/Models.antt =====
-- The rows of apps/identity/models.py. A UUID or an integer key is a number, a timestamp a number
-- of seconds, a foreign key the key that it refers to.
use sgdy_pa_backend.Prelude.{ℕ, ltb, Bool, true, false, ◌&&◌, Option, none, some, List}
use sgdy_pa_backend.Prelude.Text.{Text}
use sgdy_pa_backend.Prelude.Json.{Fields}

pub record Organization : Type 0 where
  pub id : ℕ
  pub name : Text
  pub slug : Text
  pub is_active : Bool
  pub keycloak_group_id : Option Text
  pub keycloak_group_path : Text

pub record User : Type 0 where
  pub id : ℕ
  pub username : Text
  pub email : Text
  pub first_name : Text
  pub last_name : Text
  pub display_name : Text
  pub email_verified : Bool
  pub is_active : Bool
  pub keycloak_sub : Option Text

-- `Membership.Status`
pub data Status : Type 0 where
  invited active suspended revoked : Status

-- `Membership.Origin`
pub data Origin : Type 0 where
  keycloak manual : Origin

pub record Role : Type 0 where
  pub id : ℕ
  pub code : Text
  pub name : Text
  pub capabilities : List Text
  pub is_system : Bool

pub record Membership : Type 0 where
  pub id : ℕ
  pub organization_id : ℕ
  pub user_id : ℕ
  pub status : Status
  pub origin : Origin
  pub scope : Fields
  pub expires_at : Option ℕ

pub record MembershipRole : Type 0 where
  pub membership_id : ℕ
  pub role_id : ℕ

-- `status == Status.ACTIVE`
abbrev pub is_status_active : Status → Bool
is_status_active active = true
is_status_active _ = false

-- `expires_at is None or expires_at > now`
abbrev pub is_unexpired : ℕ → Option ℕ → Bool
is_unexpired now none = true
is_unexpired now (some t) = ltb now t

-- `Membership.is_active`, at the time `now`, for the organization that the row refers to.
unfoldable pub is_active : ℕ → Organization → Membership → Bool
is_active now org m = is_status_active m.status && (org.is_active && is_unexpired now m.expires_at)
