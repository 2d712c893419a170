-- ===== src/Identity/Projection/Frame.antt =====
-- What the saves of apps/identity/replication.py leave alone, and when they are refused.
use sgdy_pa_backend.Prelude.{
  ◌==◌, ==_iff, ◌≡◌, ◌≢◌, ◌∙◌, sym, ap, inl, inr, Bool-cases, true, some, List, ◌∷◌, In, any-holds,
  find, in-find, find-holds, update_where, in-update_where_of_in,
}
use sgdy_pa_backend.Prelude.Text.{Text, text_eq_iff}
use sgdy_pa_backend.Identity.Models.{User}
use sgdy_pa_backend.Identity.Projection.Users.{has_sub, same_row, collides}
use sgdy_pa_backend.Identity.Projection.Apply.{Keeps}
use sgdy_pa_backend.Identity.Projection.Insert.{eq_of_has_sub}
use sgdy_pa_backend.Identity.Projection.Validity.{IsValid, replaced_cases}

-- Another row of the table has the username of this one.
abbrev pub IsTaken : User → List User → Type 0
IsTaken u table = (x : User) × In x table × (x.id ≢ u.id) × (x.username ≡ u.username)

-- The rows that do not have the subject, those without a subject too, are the same in both tables.
abbrev pub IsSpared : (sub : Text) → List User → List User → Type 0
IsSpared sub table table' =
    (y : User) → y.keycloak_sub ≢ some sub → (In y table' → In y table) × (In y table → In y table')

pub collides-IsTaken : (u : User) (table : List User) → collides u table ≡ true → IsTaken u table
collides-IsTaken u table clash =
    let (x, m, h) = any-holds _ table clash in
    elim (Bool-cases (x.id == u.id)) [
      | inl same ↦ absurd (cc (rw same at h))
      | inr differ ↦ (
        x,
        m,
        λ e. cc ((==_iff x.id u.id).1 e, differ),
        (text_eq_iff x.username u.username).0 (rw differ at h),
      )
    ]

-- A row is not taken by itself.
pub IsTaken-cons :
    (u u' : User) (table : List User) → u'.id ≡ u.id → IsTaken u' (u ∷ table) → IsTaken u' table
IsTaken-cons u u' table same (x, inl is_u, differ, e) =
    absurd (differ (ap (λ z. z.id) is_u ∙ sym same))
IsTaken-cons u u' table same (x, inr m, differ, e) = (x, m, differ, e)

pub replaced-IsSpared :
    (sub : Text) (table : List User) (u u' : User) (f : User → User)
    → IsValid table
    → find (has_sub sub) table ≡ some u
    → Keeps u u'
    → f u ≡ u'
    → IsSpared sub table (update_where (same_row u) f table)
replaced-IsSpared sub table u u' f valid found kept writes y other =
    let there = in-find (has_sub sub) table u found in
    let mine = eq_of_has_sub u sub (find-holds (has_sub sub) table found) in
    (
      λ m. elim (replaced_cases table valid u u' there kept.same_id kept.same_sub f writes y m) [
        | inl is_u' ↦ absurd (other (ap (λ z. z.keycloak_sub) is_u' ∙ kept.same_sub ∙ mine))
        | inr (old, _) ↦ old
      ],
      λ m. in-update_where_of_in (same_row u) f table y m (elim (Bool-cases (y.id == u.id)) [
        | inr differ ↦ differ
        | inl same ↦ absurd (
            other (
              ap (λ z. z.keycloak_sub) (valid.unique_id y u m there ((==_iff y.id u.id).0 same))
              ∙ mine))
      ]),
    )

pub IsSpared-cons :
    (sub : Text) (u : User) (table table' : List User)
    → u.keycloak_sub ≡ some sub
    → IsSpared sub (u ∷ table) table'
    → IsSpared sub table table'
IsSpared-cons sub u table table' mine spared y other = (
  λ m. elim ((spared y other).0 m) [
    | inl is_u ↦ absurd (other (ap (λ z. z.keycloak_sub) is_u ∙ mine))
    | inr old ↦ old
  ],
  λ m. (spared y other).1 (inr m),
)
