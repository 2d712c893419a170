-- ===== src/Identity/Projection.antt =====
-- apps/identity/replication.py: the attributes that Keycloak replicates, and the local user row.
pub mod Apply
pub mod Users
pub mod Validity
pub mod Frame
pub mod Insert
pub mod Upsert
pub mod Deactivate
mod Tests
use sgdy_pa_backend.Prelude.{
  ℕ, ◌==◌, Bool, true, false, not, ◌&&◌, ◌||◌, Option, none, some, List, [], ◌∷◌, ◌++◌, any, find,
  select, update_where, is_some, if◌then◌else◌,
}
use sgdy_pa_backend.Prelude.Text.{Text, lit, text_eq, truthy, or_none}
use sgdy_pa_backend.Prelude.Strings.{strip, join_space}
use sgdy_pa_backend.Prelude.Json.{Json, str, boolean, Fields, get}
use sgdy_pa_backend.Identity.Models.{User}

abbrev pub str_or_none : Option Json → Option Text
str_or_none (some (str s)) = some s
str_or_none _ = none

abbrev pub bool_or_none : Option Json → Option Bool
bool_or_none (some (boolean b)) = some b
bool_or_none _ = none

pub record ProjectionAttributes : Type 0 where
  pub username : Option Text
  pub email : Option Text
  pub first_name : Option Text
  pub last_name : Option Text
  pub display_name : Option Text
  pub email_verified : Option Bool
  pub enabled : Option Bool

unfoldable pub from_claims : Fields → ProjectionAttributes
from_claims claims = record {
  username = str_or_none (get (lit "preferred_username") claims);
  email = str_or_none (get (lit "email") claims);
  first_name = str_or_none (get (lit "given_name") claims);
  last_name = str_or_none (get (lit "family_name") claims);
  display_name = str_or_none (get (lit "name") claims);
  email_verified = bool_or_none (get (lit "email_verified") claims);
  enabled = none;
}

-- `part for part in (...) if part`
abbrev parts : Option Text → List Text
parts none = []
parts (some s) = if truthy s then s ∷ [] else []

unfoldable pub from_representation : Fields → ProjectionAttributes
from_representation representation =
    let first = str_or_none (get (lit "firstName") representation) in
    let last = str_or_none (get (lit "lastName") representation) in
    record {
      username = str_or_none (get (lit "username") representation);
      email = str_or_none (get (lit "email") representation);
      first_name = first;
      last_name = last;
      display_name = or_none (strip (join_space (parts first ++ parts last)));
      email_verified = bool_or_none (get (lit "emailVerified") representation);
      enabled = bool_or_none (get (lit "enabled") representation);
    }

-- The names in `update_fields`.
pub data Column : Type 0 where
  username email first_name last_name display_name email_verified is_active : Column

abbrev pub bool_eq : Bool → Bool → Bool
bool_eq true b = b
bool_eq false b = not b

-- A column is rewritten if a value is provided, passes the test, and differs.
abbrev pub provided : {A : Type 0} → (A → Bool) → (A → A → Bool) → Option A → A → Option A
provided ok eq none old = none
provided ok eq (some new) old = if ok new && not (eq old new) then some new else none

abbrev pub any_value : {A : Type 0} → A → Bool
any_value _ = true

abbrev pub write : {A : Type 0} → Option A → A → A
write none old = old
write (some new) old = new

abbrev pub note : {A : Type 0} → Option A → Column → List Column → List Column
note none c cs = cs
note (some _) c cs = c ∷ cs

unfoldable pub apply_projection : User → ProjectionAttributes → User × List Column
apply_projection u a =
    let name = provided truthy text_eq a.username u.username in
    let mail = provided truthy text_eq a.email u.email in
    let first = provided any_value text_eq a.first_name u.first_name in
    let last = provided any_value text_eq a.last_name u.last_name in
    let display = provided any_value text_eq a.display_name u.display_name in
    let verified = provided any_value bool_eq a.email_verified u.email_verified in
    let enabled = provided any_value bool_eq a.enabled u.is_active in
    (
      record u {
        username = write name u.username;
        email = write mail u.email;
        first_name = write first u.first_name;
        last_name = write last u.last_name;
        display_name = write display u.display_name;
        email_verified = write verified u.email_verified;
        is_active = write enabled u.is_active;
      },
      note name username (
          note mail email (
            note first first_name (
              note last last_name (
                note display display_name
                  (note verified email_verified (note enabled is_active [])))))),
    )

-- One column of `user.save(update_fields=...)`, from the object in memory to the stored row.
unfoldable pub save_column : User → Column → User → User
save_column u username row = record row { username = u.username }
save_column u email row = record row { email = u.email }
save_column u first_name row = record row { first_name = u.first_name }
save_column u last_name row = record row { last_name = u.last_name }
save_column u display_name row = record row { display_name = u.display_name }
save_column u email_verified row = record row { email_verified = u.email_verified }
save_column u is_active row = record row { is_active = u.is_active }

unfoldable pub save_columns : User → List Column → User → User
unfolding save_column
save_columns u [] row = row
save_columns u (c ∷ cs) row = save_columns u cs (save_column u c row)
