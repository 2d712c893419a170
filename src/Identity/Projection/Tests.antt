-- ===== src/Identity/Projection/Tests.antt =====
-- The user projection at concrete inputs: runs, and the theorems applied.
use sgdy_pa_backend.Prelude.{
  ℕ, suc, ◌+◌, ◌≡◌, ◌≢◌, inl, inr, refl, ◌∙◌, sym, true, false, none, some, List, [], ◌∷◌, find,
}
use sgdy_pa_backend.Prelude.Text.{text_eq, Text, lit}
use sgdy_pa_backend.Prelude.Strings.{strip, join_space}
use sgdy_pa_backend.Prelude.Json.{get, str, field, end}
use sgdy_pa_backend.Identity.Models.{User}
use sgdy_pa_backend.Identity.Projection.{
  ProjectionAttributes, from_representation, apply_projection, save_columns, update_where,
}
use sgdy_pa_backend.Identity.Projection.Apply.{
  apply_projection_twice, save_columns-apply_projection,
}
use sgdy_pa_backend.Identity.Projection.Users.{ok, has_sub, deactivate_user_projection}
use sgdy_pa_backend.Identity.Projection.Validity.{IsValid}
use sgdy_pa_backend.Identity.Projection.Deactivate.{
  deactivated, was_active, deactivate_user_projection_lem,
}

abbrev ana : User
ana = record {
  id = 3;
  username = lit "kc-3";
  email = lit "ana@acme.mx";
  first_name = lit "Ana";
  last_name = [];
  display_name = [];
  email_verified = false;
  is_active = true;
  keycloak_sub = some (lit "kc-3");
}

abbrev renamed : ProjectionAttributes
renamed = record {
  username = some (lit "ana");
  email = some [];
  first_name = none;
  last_name = some (lit "Ruiz");
  display_name = some (lit "Ana Ruiz");
  email_verified = some true;
  enabled = none;
}

-- An empty email is not written.
renamed_email : (apply_projection ana renamed).0.email ≡ lit "ana@acme.mx"
unfolding apply_projection
renamed_email = refl

composed_name :
    let names =
      field (lit "firstName") (str (lit "Ana")) (field (lit "lastName") (str (lit "Ruiz")) end) in
    (from_representation names).display_name ≡ some (lit "Ana Ruiz")
unfolding from_representation strip join_space get text_eq
composed_name = refl

apply_projection_twice_example :
    apply_projection (apply_projection ana renamed).0 renamed
    ≡ ((apply_projection ana renamed).0, [])
apply_projection_twice_example = apply_projection_twice ana renamed

save_columns-apply_projection_example :
    save_columns (apply_projection ana renamed).0 (apply_projection ana renamed).1 ana
    ≡ (apply_projection ana renamed).0
save_columns-apply_projection_example = save_columns-apply_projection ana renamed

-- A key above all keys of the table.
abbrev next_id : List User → ℕ
next_id [] = 0
next_id (u ∷ us) = suc (u.id + next_id us)

ana-IsValid : IsValid (ana ∷ [])
ana-IsValid = record {
  unique_id = λ x y hx hy e. elim hx [
    | inl ex ↦ elim hy [ inl ey ↦ ex ∙ sym ey | inr h ↦ absurd h ]
    | inr h ↦ absurd h
  ];
  unique_username = λ x y hx hy e. elim hx [
    | inl ex ↦ elim hy [ inl ey ↦ ex ∙ sym ey | inr h ↦ absurd h ]
    | inr h ↦ absurd h
  ];
  unique_sub = λ x y s hx hy e e'. elim hx [
    | inl ex ↦ elim hy [ inl ey ↦ ex ∙ sym ey | inr h ↦ absurd h ]
    | inr h ↦ absurd h
  ];
}

deactivate_user_projection_lem_example :
    (table' : List User) × (deactivate_user_projection (lit "kc-3") (ana ∷ [])
      ≡ ok (was_active (find (has_sub (lit "kc-3")) (ana ∷ [])), table'))
    × (table'
        ≡ update_where (has_sub (lit "kc-3")) (λ row. record row { is_active = false }) (ana ∷ []))
    × (find (has_sub (lit "kc-3")) table' ≡ deactivated (find (has_sub (lit "kc-3")) (ana ∷ [])))
    × ((s : Text) → s ≢ lit "kc-3" → find (has_sub s) table' ≡ find (has_sub s) (ana ∷ []))
deactivate_user_projection_lem_example =
    deactivate_user_projection_lem (lit "kc-3") (ana ∷ []) ana-IsValid refl
