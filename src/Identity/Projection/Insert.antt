-- ===== src/Identity/Projection/Insert.antt =====
-- The table of users of apps/identity/replication.py under an insert, and its rows by subject.
use sgdy_pa_backend.Prelude.{
  ◌==◌, ==_iff, ◌≡◌, ◌≢◌, ◌∙◌, sym, ap, refl, inl, inr, Bool-cases, Option-cases, true, false, not,
  ◌&&◌, none, some, List, ◌∷◌, In, any-false, find, in-find, find-holds, some, find-none, Option,
}
use sgdy_pa_backend.Prelude.Text.{Text, text_eq, text_eq_iff, text_eq_refl}
use sgdy_pa_backend.Identity.Models.{User}
use sgdy_pa_backend.Identity.Projection.Users.{has_sub, same_row, collides}
use sgdy_pa_backend.Identity.Projection.Validity.{IsValid, row_after}

pub has_sub_of_eq : (u : User) (s : Text) → u.keycloak_sub ≡ some s → has_sub s u ≡ true
has_sub_of_eq u s e = rw e (text_eq_refl s)

pub eq_of_has_sub : (u : User) (s : Text) → has_sub s u ≡ true → u.keycloak_sub ≡ some s
eq_of_has_sub u s h = elim (Option-cases u.keycloak_sub) [
  | inl missing ↦ cc (rw missing at h)
  | inr (t, e) ↦ e ∙ ap some ((text_eq_iff t s).0 (rw e at h))
]

pub two_subs :
    (s t : Text) (x y : User) → has_sub s x ≡ true → has_sub t y ≡ true → x ≡ y → s ≢ t → ⊥
two_subs s t x y hx hy e differ =
    differ (cc (eq_of_has_sub x s hx, ap (λ z. z.keycloak_sub) e, eq_of_has_sub y t hy))

-- A row that is put on top, of a new key, a free username and a new subject.
pub cons-IsValid :
    (u : User) (sub : Text) (table : List User)
    → IsValid table
    → ((x : User) → In x table → x.id ≢ u.id)
    → collides u table ≡ false
    → u.keycloak_sub ≡ some sub
    → find (has_sub sub) table ≡ none
    → IsValid (u ∷ table)
cons-IsValid u sub table valid new_id free is_sub absent = record {
  unique_id = λ x y mx my e. elim mx [
    | inl ex ↦ elim my [
      | inl ey ↦ ex ∙ sym ey
      | inr old ↦ absurd (new_id y old (sym e ∙ ap (λ z. z.id) ex))
    ]
    | inr old ↦ elim my [
      | inl ey ↦ absurd (new_id x old (e ∙ ap (λ z. z.id) ey))
      | inr old' ↦ valid.unique_id x y old old' e
    ]
  ];
  unique_username = λ x y mx my e. elim mx [
    | inl ex ↦ elim my [
      | inl ey ↦ ex ∙ sym ey
      | inr old ↦ absurd (new_name y old (sym e ∙ ap (λ z. z.username) ex))
    ]
    | inr old ↦ elim my [
      | inl ey ↦ absurd (new_name x old (e ∙ ap (λ z. z.username) ey))
      | inr old' ↦ valid.unique_username x y old old' e
    ]
  ];
  unique_sub = λ x y s mx my hx hy. elim mx [
    | inl ex ↦ elim my [
      | inl ey ↦ ex ∙ sym ey
      | inr old ↦ absurd (new_sub y old (hy ∙ sym hx ∙ ap (λ z. z.keycloak_sub) ex ∙ is_sub))
    ]
    | inr old ↦ elim my [
      | inl ey ↦ absurd (new_sub x old (hx ∙ sym hy ∙ ap (λ z. z.keycloak_sub) ey ∙ is_sub))
      | inr old' ↦ valid.unique_sub x y s old old' hx hy
    ]
  ];
}
  where
    new_name : (y : User) → In y table → y.username ≢ u.username
    new_name y old same =
        let clear =
          any-false (λ row. not (same_row u row) && text_eq row.username u.username) table y free
            old in
        let named = (text_eq_iff y.username u.username).1 same in
        elim (Bool-cases (y.id == u.id)) [
          | inl equal ↦ new_id y old ((==_iff y.id u.id).0 equal)
          | inr differ ↦ cc (rw (differ, named) at clear)
        ]

    new_sub : (y : User) → In y table → y.keycloak_sub ≢ some sub
    new_sub y old e = cc (has_sub_of_eq y sub e, find-none (has_sub sub) table y absent old)

pub find-cons_ne :
    (s sub : Text) (u : User) (table : List User)
    → u.keycloak_sub ≡ some sub
    → s ≢ sub
    → find (has_sub s) (u ∷ table) ≡ find (has_sub s) table
find-cons_ne s sub u table e differ = elim (Bool-cases (has_sub s u)) [
  | inl hit ↦ absurd (two_subs s sub u u hit (has_sub_of_eq u sub e) refl differ)
  | inr miss ↦ rw miss refl
]

row_after_ne :
    (u u' : User) (o : Option User) → ((x : User) → o ≡ some x → x.id ≢ u.id) → row_after u u' o ≡ o
row_after_ne u u' none other = refl
row_after_ne u u' (some x) other = elim (Bool-cases (x.id == u.id)) [
  | inl same ↦ absurd (other x refl ((==_iff x.id u.id).0 same))
  | inr differ ↦ rw differ refl
]

-- The row of another subject is not the row of this one.
pub row_after_other :
    (s sub : Text) (u u' : User) (table : List User)
    → IsValid table
    → find (has_sub sub) table ≡ some u
    → s ≢ sub
    → row_after u u' (find (has_sub s) table) ≡ find (has_sub s) table
row_after_other s sub u u' table valid found differ =
    row_after_ne u u' (find (has_sub s) table) λ x hit same.
      two_subs s sub x u (find-holds (has_sub s) table hit) (find-holds (has_sub sub) table found)
        (valid.unique_id x u (in-find (has_sub s) table x hit) (in-find (has_sub sub) table u found)
          same)
        differ
