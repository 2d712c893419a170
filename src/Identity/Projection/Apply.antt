-- ===== src/Identity/Projection/Apply.antt =====
-- `apply_projection` (apps/identity/replication.py) on one user row.
use sgdy_pa_backend.Prelude.{◌≡◌, refl, sym, Bool, true, false, Option, none, some, List, [], arith}
use sgdy_pa_backend.Prelude.Text.{text_eq, text_eq_refl, truthy}
use sgdy_pa_backend.Prelude.Json.{Fields}
use sgdy_pa_backend.Identity.Models.{User}
use sgdy_pa_backend.Identity.Projection.{
  ProjectionAttributes, from_claims, Column, username, email, first_name, last_name, display_name,
  email_verified, is_active, bool_eq, provided, any_value, write, note, apply_projection,
  save_column, save_columns,
}

bool_eq_refl : (b : Bool) → bool_eq b b ≡ true
bool_eq_refl true = refl
bool_eq_refl false = refl

provided-write :
    {A : Type 0} (ok : A → Bool) (eq : A → A → Bool)
    → ((x : A) → eq x x ≡ true)
    → (a : Option A) (old : A) → provided ok eq a (write (provided ok eq a old) old) ≡ none
provided-write ok eq same none old = refl
provided-write ok eq same (some new) old = ground (arith, same new)

-- Applying the same attributes again changes no column and reports none.
pub apply_projection_twice :
    (u : User) (a : ProjectionAttributes)
    → apply_projection (apply_projection u a).0 a ≡ ((apply_projection u a).0, [])
unfolding apply_projection
apply_projection_twice u a =
    rw
      (
        provided-write truthy text_eq text_eq_refl a.username u.username,
        provided-write truthy text_eq text_eq_refl a.email u.email,
        provided-write any_value text_eq text_eq_refl a.first_name u.first_name,
        provided-write any_value text_eq text_eq_refl a.last_name u.last_name,
        provided-write any_value text_eq text_eq_refl a.display_name u.display_name,
        provided-write any_value bool_eq bool_eq_refl a.email_verified u.email_verified,
        provided-write any_value bool_eq bool_eq_refl a.enabled u.is_active,
      )
      refl

-- A column that is not reported would be saved as it is.
save_columns-note :
    {A : Type 0} (u row t : User) (o : Option A) (c : Column) (cs : List Column)
    → (o ≡ none → save_column u c row ≡ row)
    → save_columns u cs (save_column u c row) ≡ t
    → save_columns u (note o c cs) row ≡ t
unfolding save_columns
save_columns-note u row t none c cs same rest = rw (sym (same refl)) rest
save_columns-note u row t (some x) c cs same rest = rest

-- Saving only the reported columns stores the whole object.
pub save_columns-apply_projection :
    (u : User) (a : ProjectionAttributes)
    → let (u', changed) = apply_projection u a in save_columns u' changed u ≡ u'
unfolding apply_projection save_columns
save_columns-apply_projection u a =
    let u' = (apply_projection u a).0 in
    let r1 = save_column u' username u in
    let r2 = save_column u' email r1 in
    let r3 = save_column u' first_name r2 in
    let r4 = save_column u' last_name r3 in
    let r5 = save_column u' display_name r4 in
    let r6 = save_column u' email_verified r5 in
    save_columns-note u' u u' (provided truthy text_eq a.username u.username) username _
      (λ e. rw e refl)
      (save_columns-note u' r1 u' (provided truthy text_eq a.email u.email) email _ (λ e. rw e refl)
        (save_columns-note u' r2 u' (provided any_value text_eq a.first_name u.first_name)
          first_name _ (λ e. rw e refl)
          (save_columns-note u' r3 u' (provided any_value text_eq a.last_name u.last_name) last_name
            _ (λ e. rw e refl)
            (save_columns-note u' r4 u' (provided any_value text_eq a.display_name u.display_name)
              display_name _ (λ e. rw e refl)
              (save_columns-note u' r5 u'
                (provided any_value bool_eq a.email_verified u.email_verified) email_verified _
                (λ e. rw e refl)
                (save_columns-note u' r6 u' (provided any_value bool_eq a.enabled u.is_active)
                  is_active _ (λ e. rw e refl) refl))))))

-- An attribute set never touches the key, the subject, and empties neither username nor email.
pub record Keeps (u u' : User) : Type 0 where
  pub same_id : u'.id ≡ u.id
  pub same_sub : u'.keycloak_sub ≡ u.keycloak_sub
  pub has_username : truthy u.username ≡ true → truthy u'.username ≡ true
  pub has_email : truthy u.email ≡ true → truthy u'.email ≡ true

pub apply_projection-Keeps :
    (u : User) (a : ProjectionAttributes) → Keeps u (apply_projection u a).0
unfolding apply_projection
apply_projection-Keeps u a = ground arith

pub login_keeps_is_active :
    (u : User) (claims : Fields)
    → (apply_projection u (from_claims claims)).0.is_active ≡ u.is_active
unfolding apply_projection from_claims
login_keeps_is_active u claims = refl
