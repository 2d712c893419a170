-- ===== src/Identity/Projection/Upsert.antt =====
-- What `upsert_user_projection` and `deactivate_user_projection` (apps/identity/replication.py) do
-- to a well-formed table of users.
use sgdy_pa_backend.Prelude.{ℕ, ◌≡◌, ◌≢◌, ◌⊎◌, some, List, [], find}
use sgdy_pa_backend.Prelude.Text.{Text}
use sgdy_pa_backend.Identity.Models.{User}
use sgdy_pa_backend.Identity.Projection.{ProjectionAttributes, apply_projection, none}
use sgdy_pa_backend.Identity.Projection.Users.{has_sub, Upserted, new_user}
use sgdy_pa_backend.Identity.Projection.Frame.{IsTaken, IsSpared}
use sgdy_pa_backend.Identity.Projection.Validity.{IsValid}

-- What a successful `upsert_user_projection` leaves: a well-formed table, in which the subject's row
-- is the returned one and carries the attributes, every other subject's row is what it was, and the
-- rows without the subject, local accounts too, are the same.
pub record IsProjected (sub : Text) (a : ProjectionAttributes) (table : List User) (r : Upserted)
    : Type 0 where
  pub valid : IsValid r.table
  pub stored : find (has_sub sub) r.table ≡ some r.user
  pub in_place : apply_projection r.user a ≡ (r.user, [])
  pub others : (s : Text) → s ≢ sub → find (has_sub s) r.table ≡ find (has_sub s) table
  pub spared : IsSpared sub table r.table

-- The username that the upsert is to store is that of another row.
abbrev pub IsRefused :
    (next_id : List User → ℕ) (sub : Text) → ProjectionAttributes → List User → Type 0
IsRefused next_id sub a table =
    ((u : User) × (find (has_sub sub) table ≡ some u) × IsTaken (apply_projection u a).0 table)
    ⊎ ((find (has_sub sub) table ≡ none)
        × (IsTaken (new_user (next_id table) sub a) table
            ⊎ IsTaken (apply_projection (new_user (next_id table) sub a) a).0 table))
