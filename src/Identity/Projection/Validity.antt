-- ===== src/Identity/Projection/Validity.antt =====
-- The invariant of the table of users, and what the saves of apps/identity/replication.py do to it.
use sgdy_pa_backend.Prelude.{
  ◌==◌, ==_iff, ◌≡◌, ◌≢◌, ◌∙◌, sym, ap, refl, subst, ◌⊎◌, inl, inr, Bool-cases, false, not, ◌&&◌,
  Option, none, some, List, [], ◌∷◌, In, any-false, find, in-find, Option-cases, find-update_where,
  update_where, in-update_where, if◌then◌else◌,
}
use sgdy_pa_backend.Prelude.Text.{Text, text_eq, text_eq_iff}
use sgdy_pa_backend.Identity.Models.{User}
use sgdy_pa_backend.Identity.Projection.{Column, username, save_column, save_columns}
use sgdy_pa_backend.Identity.Projection.Users.{has_sub, same_row, collides}

-- No two rows share a key, a username or a subject.
pub record IsValid (table : List User) : Type 0 where
  pub unique_id : (x y : User) → In x table → In y table → x.id ≡ y.id → x ≡ y
  pub unique_username : (x y : User) → In x table → In y table → x.username ≡ y.username → x ≡ y
  pub unique_sub :
      (x y : User) (s : Text)
      → In x table
      → In y table
      → x.keycloak_sub ≡ some s
      → y.keycloak_sub ≡ some s
      → x ≡ y

pub save_columns-id :
    (u : User) (cs : List Column) (row : User) → (save_columns u cs row).id ≡ row.id
unfolding save_columns
save_columns-id u [] row = refl
save_columns-id u (c ∷ cs) row = save_columns-id u cs (save_column u c row) ∙ keeps c
  where
    keeps : (c : Column) → (save_column u c row).id ≡ row.id
    keeps username = refl
    keeps _ = refl

pub save_columns-sub :
    (u : User) (cs : List Column) (row : User)
    → (save_columns u cs row).keycloak_sub ≡ row.keycloak_sub
unfolding save_columns
save_columns-sub u [] row = refl
save_columns-sub u (c ∷ cs) row = save_columns-sub u cs (save_column u c row) ∙ keeps c
  where
    keeps : (c : Column) → (save_column u c row).keycloak_sub ≡ row.keycloak_sub
    keeps username = refl
    keeps _ = refl

-- The row of a subject after `u` has become `u'`.
abbrev pub row_after : (u u' : User) → Option User → Option User
row_after u u' none = none
row_after u u' (some x) = some (if same_row u x then u' else x)

-- A row of the table is replaced by `u'`, of the same key and subject.
module _ (table : List User) (valid : IsValid table) (u u' : User) (there : In u table)
    (same_id : u'.id ≡ u.id) (same_sub : u'.keycloak_sub ≡ u.keycloak_sub) (f : User → User)
    (writes : f u ≡ u') where
  abbrev pub replaced : List User
  replaced = update_where (same_row u) f table

  -- A row of the new table is `u'`, or an old row of another key.
  pub replaced_cases : (x : User) → In x replaced → (x ≡ u') ⊎ (In x table × (x.id ≢ u.id))
  replaced_cases x m =
      let (y, old, e) = in-update_where (same_row u) f table x m in
      elim (Bool-cases (y.id == u.id)) [
        | inl same ↦
            let is_u : y ≡ u = valid.unique_id y u old there ((==_iff y.id u.id).0 same) in
            inl (rw same at e ∙ ap f is_u ∙ writes)
        | inr other ↦
            let e' : x ≡ y = rw other at e in
            inr (
              subst (λ z. In z table) (sym e') old,
              λ (p : x.id ≡ u.id). cc ((==_iff y.id u.id).1 (sym (ap (λ z. z.id) e') ∙ p)),
            )
      ]

  pub replaced-IsValid : collides u' table ≡ false → IsValid replaced
  replaced-IsValid free = record {
    unique_id = λ x y mx my e. elim (replaced_cases x mx) [
      | inl is_x ↦ elim (replaced_cases y my) [
        | inl is_y ↦ is_x ∙ sym is_y
        | inr (_, other) ↦ absurd (other (sym e ∙ ap (λ z. z.id) is_x ∙ same_id))
      ]
      | inr (old_x, other) ↦ elim (replaced_cases y my) [
        | inl is_y ↦ absurd (other (e ∙ ap (λ z. z.id) is_y ∙ same_id))
        | inr (old_y, _) ↦ valid.unique_id x y old_x old_y e
      ]
    ];
    unique_username = λ x y mx my e. elim (replaced_cases x mx) [
      | inl is_x ↦ elim (replaced_cases y my) [
        | inl is_y ↦ is_x ∙ sym is_y
        | inr (old, other) ↦ absurd (free_name y old other (sym e ∙ ap (λ z. z.username) is_x))
      ]
      | inr (old_x, other) ↦ elim (replaced_cases y my) [
        | inl is_y ↦ absurd (free_name x old_x other (e ∙ ap (λ z. z.username) is_y))
        | inr (old_y, _) ↦ valid.unique_username x y old_x old_y e
      ]
    ];
    unique_sub = λ x y s mx my ex ey. elim (replaced_cases x mx) [
      | inl is_x ↦ elim (replaced_cases y my) [
        | inl is_y ↦ is_x ∙ sym is_y
        | inr (old, other) ↦ absurd (
            other (sym (ap (λ z. z.id) (valid.unique_sub u y s there old (sub_of x s is_x ex) ey))))
      ]
      | inr (old_x, other) ↦ elim (replaced_cases y my) [
        | inl is_y ↦ absurd (
            other
              (sym (ap (λ z. z.id) (valid.unique_sub u x s there old_x (sub_of y s is_y ey) ex))))
        | inr (old_y, _) ↦ valid.unique_sub x y s old_x old_y ex ey
      ]
    ];
  }
    where
      free_name : (y : User) → In y table → y.id ≢ u.id → y.username ≢ u'.username
      free_name y old other same =
          let clear =
            any-false (λ row. not (same_row u' row) && text_eq row.username u'.username) table y
              free old in
          let named = (text_eq_iff y.username u'.username).1 same in
          elim (Bool-cases (y.id == u'.id)) [
            | inl equal ↦ other ((==_iff y.id u'.id).0 equal ∙ same_id)
            | inr differ ↦ cc (rw (differ, named) at clear)
          ]

      sub_of : (x : User) (s : Text) → x ≡ u' → x.keycloak_sub ≡ some s → u.keycloak_sub ≡ some s
      sub_of x s is_x e = sym same_sub ∙ sym (ap (λ z. z.keycloak_sub) is_x) ∙ e

  pub find-replaced :
      (s : Text)
      → ((x : User) → (f x).keycloak_sub ≡ x.keycloak_sub)
      → find (has_sub s) replaced ≡ row_after u u' (find (has_sub s) table)
  find-replaced s keeps =
      let moved =
        find-update_where (has_sub s) (same_row u) f table
          (λ x. ap (λ o. elim o [ none ↦ false | some t ↦ text_eq t s ]) (keeps x)) in
      elim (Option-cases (find (has_sub s) table)) [
        | inl missing ↦ rw (moved, missing) refl
        | inr (x, found) ↦
            rw (moved, found)
              (ap some (elim (Bool-cases (x.id == u.id)) [
                | inr other ↦ rw other refl
                | inl same ↦ rw same (
                    ap f (
                      valid.unique_id x u (in-find (has_sub s) table x found) there
                        ((==_iff x.id u.id).0 same))
                    ∙ writes)
              ]))
      ]
