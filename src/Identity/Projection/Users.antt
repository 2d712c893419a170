-- ===== src/Identity/Projection/Users.antt =====
-- `upsert_user_projection` and `deactivate_user_projection` (apps/identity/replication.py) on the
-- table of users. An exception rolls the table back.
use sgdy_pa_backend.Prelude.{
  ℕ, ◌==◌, Bool, true, false, not, ◌&&◌, Option, none, some, List, [], ◌∷◌, any, find, update_where,
  if◌then◌else◌,
}
use sgdy_pa_backend.Prelude.Text.{Text, text_eq, truthy}
use sgdy_pa_backend.Identity.Models.{User}
use sgdy_pa_backend.Identity.Projection.{
  ProjectionAttributes, Column, apply_projection, save_columns,
}

pub data Result (A : Type 0) : Type 0 where
  ok : A → Result A
  value_error integrity_error : Result A

abbrev pub has_sub : Text → User → Bool
has_sub s u = elim u.keycloak_sub [ none ↦ false | some t ↦ text_eq t s ]

abbrev pub same_row : User → User → Bool
same_row u row = row.id == u.id

-- The unique constraint on the username.
abbrev pub collides : User → List User → Bool
collides u = any (λ row. not (same_row u row) && text_eq row.username u.username)

-- `a or b`, on texts that may be absent.
abbrev pub or_text : Option Text → Text → Text
or_text none s = s
or_text (some t) s = if truthy t then t else s

-- What `upsert_user_projection` returns, and the table.
pub record Upserted : Type 0 where
  pub user : User
  pub created : Bool
  pub changed : List Column
  pub table : List User

unfoldable pub new_user : (id : ℕ) → Text → ProjectionAttributes → User
new_user id sub a = record {
  id = id;
  username = or_text a.username (or_text a.email sub);
  email = [];
  first_name = [];
  last_name = [];
  display_name = [];
  email_verified = false;
  is_active = true;
  keycloak_sub = some sub;
}

-- `if changed: user.save(update_fields=changed)`, of the row `u` that is `u'` in memory.
unfoldable pub save_if_changed : Bool → (u u' : User) → List Column → List User → Result Upserted
save_if_changed created u u' [] table =
    ok (record { user = u'; created = created; changed = []; table = table })
save_if_changed created u u' (c ∷ cs) table =
    if collides u' table
    then integrity_error
    else ok (record {
      user = u';
      created = created;
      changed = c ∷ cs;
      table = update_where (same_row u) (save_columns u' (c ∷ cs)) table;
    })

-- `apply_projection`, and the save if a column changed.
unfoldable pub project : ProjectionAttributes → Bool → User → List User → Result Upserted
unfolding save_if_changed
project a created u table =
    let (u', changed) = apply_projection u a in save_if_changed created u u' changed table

-- `next_id` is the key that the database gives a new row.
unfoldable pub upsert_user_projection :
    (next_id : List User → ℕ) → Text → ProjectionAttributes → List User → Result Upserted
unfolding project new_user
upsert_user_projection next_id sub a table =
    if not (truthy sub) then value_error else elim (find (has_sub sub) table) [
      | some u ↦ project a false u table
      | none ↦
          let u = new_user (next_id table) sub a in
          if collides u table then integrity_error else project a true u (u ∷ table)
    ]

unfoldable pub deactivate_user_projection : Text → List User → Result (Bool × List User)
deactivate_user_projection sub table =
    if not (truthy sub) then value_error else elim (find (has_sub sub) table) [
      | none ↦ ok (false, table)
      | some u ↦
          if not u.is_active
          then ok (false, table)
          else ok (true, update_where (same_row u) (λ row. record row { is_active = false }) table)
    ]
