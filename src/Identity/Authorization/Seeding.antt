-- ===== src/Identity/Authorization/Seeding.antt =====
-- What `seed_system_roles` (apps/identity/authorization.py) leaves in the table of roles.
use sgdy_pa_backend.Prelude.{
  ℕ, ◌≡◌, ◌≢◌, ◌↔◌, ◌∙◌, sym, ap, ◌⊎◌, inl, inr, refl, subst, Bool-cases, true, false, List, [],
  ◌∷◌, In, any, any_of_in, update_where, in-update_where, any-update_where, update_where-id, arith,
}
use sgdy_pa_backend.Prelude.Text.{Text, text_eq_iff}
use sgdy_pa_backend.Identity.Models.{Role}
use sgdy_pa_backend.Identity.Authorization.Roles.{
  value, request_disposition, approve_disposition, manage_memberships, SystemRole, p4, p5, p6, code,
  choices, has_code, with_defaults, update_or_create, seed_from, seed_system_roles,
}
use sgdy_pa_backend.Identity.Authorization.Duties.{
  code-injective, SystemRole-discrete, in-choices, manage-IsOwned, request-IsOwned, approve-IsOwned,
  owned_iff,
}

-- There is a row of that code, and every row of that code has the columns of the source's table.
pub record IsSeeded (s : SystemRole) (table : List Role) : Type 0 where
  pub present : any (has_code (code s)) table ≡ true
  pub current : (r : Role) → In r table → r.code ≡ code s → r ≡ with_defaults s r

with_defaults-code : (s : SystemRole) (r : Role) → (with_defaults s r).code ≡ r.code
unfolding with_defaults
with_defaults-code s r = refl

with_defaults_twice :
    (s : SystemRole) (r : Role) → with_defaults s r ≡ with_defaults s (with_defaults s r)
unfolding with_defaults
with_defaults_twice s r = refl

settled : (s : SystemRole) (y r : Role) → r ≡ with_defaults s y → r ≡ with_defaults s r
settled s y r e = e ∙ with_defaults_twice s y ∙ ap (with_defaults s) (sym e)

has_code-with_defaults :
    (c : Text) (s : SystemRole) (r : Role) → has_code c (with_defaults s r) ≡ has_code c r
has_code-with_defaults c s r = rw with_defaults-code refl

has_code_of_eq : (c : Text) (r : Role) → r.code ≡ c → has_code c r ≡ true
has_code_of_eq c r e = (text_eq_iff r.code c).1 e

eq_of_has_code : (c : Text) (r : Role) → has_code c r ≡ true → r.code ≡ c
eq_of_has_code c r e = (text_eq_iff r.code c).0 e

-- A row of the updated table, seen from the row that it was.
update_cases :
    (t : SystemRole) (table : List Role) (r : Role)
    → In r (update_where (has_code (code t)) (with_defaults t) table)
    → (In r table × (has_code (code t) r ≡ false))
      ⊎ ((y : Role) × (r ≡ with_defaults t y) × (r.code ≡ code t))
update_cases t table r there =
    let (y, m, e) = in-update_where (has_code (code t)) (with_defaults t) table r there in
    elim (Bool-cases (has_code (code t) y)) [
      | inl coded ↦
          let e' : r ≡ with_defaults t y = rw coded at e in
          inr
            (y, e', ap (λ x. x.code) e' ∙ with_defaults-code t y ∙ eq_of_has_code (code t) y coded)
      | inr other ↦
          let e' : r ≡ y = rw other at e in
          inl (subst (λ x. In x table × (has_code (code t) x ≡ false)) (sym e') (m, other))
    ]

module _ (uuid4 : List Role → ℕ) where
  created : SystemRole → List Role → Role
  created s table =
      with_defaults s
        (record { id = uuid4 table; code = code s; name = []; capabilities = []; is_system = true })

  created-code : (s : SystemRole) (table : List Role) → (created s table).code ≡ code s
  unfolding created
  created-code s table = with_defaults-code s _

  update_or_create_self :
      (s : SystemRole) (table : List Role) → IsSeeded s (update_or_create uuid4 s table)
  unfolding update_or_create created
  update_or_create_self s table = elim (Bool-cases (any (has_code (code s)) table)) [
    | inl old ↦ rw old (record {
      present =
          any-update_where (has_code (code s)) (has_code (code s)) (with_defaults s) table
            (has_code-with_defaults (code s) s)
          ∙ old;
      current = λ r there coded. elim (update_cases s table r there) [
        | inl (_, uncoded) ↦ cc (has_code_of_eq (code s) r coded)
        | inr (y, e, _) ↦ settled s y r e
      ];
    })
    | inr new ↦ rw new (record {
      present = rw (has_code_of_eq (code s) (created s table) (created-code s table)) refl;
      current = λ r there coded. elim there [
        | inl e ↦ settled s _ r e
        | inr before ↦
            cc (any_of_in (has_code (code s)) table r before (has_code_of_eq (code s) r coded))
      ];
    })
  ]

  update_or_create_other :
      (s t : SystemRole) (table : List Role)
      → s ≢ t
      → IsSeeded s table
      → IsSeeded s (update_or_create uuid4 t table)
  unfolding update_or_create created
  update_or_create_other s t table other seeded =
      elim (Bool-cases (any (has_code (code t)) table)) [
        | inl old ↦ rw old (record {
          present =
              any-update_where (has_code (code s)) (has_code (code t)) (with_defaults t) table
                (has_code-with_defaults (code s) t)
              ∙ seeded.present;
          current = λ r there coded. elim (update_cases t table r there) [
            | inl (before, _) ↦ seeded.current r before coded
            | inr (y, e, coded') ↦ absurd (other (code-injective s t (sym coded ∙ coded')))
          ];
        })
        | inr new ↦ rw new (record {
          present = ground (arith, seeded.present);
          current = λ r there coded. elim there [
            | inl e ↦
                absurd (
                  other
                    (code-injective s t (sym coded ∙ ap (λ x. x.code) e ∙ created-code t table)))
            | inr before ↦ seeded.current r before coded
          ];
        })
      ]

  update_or_create-id :
      (s : SystemRole) (table : List Role)
      → IsSeeded s table
      → update_or_create uuid4 s table ≡ table
  unfolding update_or_create
  update_or_create-id s table seeded = rw (seeded.present) (
      update_where-id (has_code (code s)) (with_defaults s) table
        λ r there coded. sym (seeded.current r there (eq_of_has_code (code s) r coded)))

  update_or_create-IsSeeded :
      (s t : SystemRole) (table : List Role)
      → IsSeeded s table
      → IsSeeded s (update_or_create uuid4 t table)
  update_or_create-IsSeeded s t table seeded = elim (SystemRole-discrete t s) [
    | yes same ↦
        subst (λ u. IsSeeded u (update_or_create uuid4 t table)) same
          (update_or_create_self t table)
    | no other ↦ update_or_create_other s t table (λ e. other (sym e)) seeded
  ]

  seed_from-IsSeeded :
      (s : SystemRole) (rest : List SystemRole) (table : List Role)
      → In s rest ⊎ IsSeeded s table
      → IsSeeded s (seed_from uuid4 rest table)
  unfolding seed_from
  seed_from-IsSeeded s [] table (inl m) = absurd m
  seed_from-IsSeeded s [] table (inr seeded) = seeded
  seed_from-IsSeeded s (t ∷ rest) table (inl (inl e)) =
      seed_from-IsSeeded s rest (update_or_create uuid4 t table) (
        inr (
          subst (λ u. IsSeeded s (update_or_create uuid4 u table)) e
            (update_or_create_self s table)))
  seed_from-IsSeeded s (t ∷ rest) table (inl (inr m)) =
      seed_from-IsSeeded s rest (update_or_create uuid4 t table) (inl m)
  seed_from-IsSeeded s (t ∷ rest) table (inr seeded) =
      seed_from-IsSeeded s rest (update_or_create uuid4 t table)
        (inr (update_or_create-IsSeeded s t table seeded))

  seed_from-id :
      (rest : List SystemRole) (table : List Role)
      → ((s : SystemRole) → IsSeeded s table)
      → seed_from uuid4 rest table ≡ table
  unfolding seed_from
  seed_from-id [] table seeded = refl
  seed_from-id (t ∷ rest) table seeded =
      rw (update_or_create-id t table (seeded t)) (seed_from-id rest table seeded)

  -- Whatever stood in the table, seeding leaves for each of P1 to P7 a row, and gives every row of
  -- that code the name and the capabilities of the source's table; seeding again changes nothing.
  pub seed_system_roles-IsSeeded :
      (table : List Role)
      → ((s : SystemRole) → IsSeeded s (seed_system_roles uuid4 table))
        × (seed_system_roles uuid4 (seed_system_roles uuid4 table) ≡ seed_system_roles uuid4 table)
  unfolding seed_system_roles
  seed_system_roles-IsSeeded table =
      let seeded : (s : SystemRole) → IsSeeded s (seed_from uuid4 choices table) =
        λ s. seed_from-IsSeeded s choices table (inl (in-choices s)) in
      (seeded, seed_from-id choices (seed_from uuid4 choices table) seeded)

  -- After seeding, of the system roles only P6 manages memberships, only P4 requests a disposition
  -- and only P5 approves one, so that no system role can both request and approve.
  pub seeded_duties :
      (table : List Role) (r : Role) (s : SystemRole)
      → In r (seed_system_roles uuid4 table)
      → r.code ≡ code s
      → (In (value manage_memberships) r.capabilities ↔ (s ≡ p6))
        × (In (value request_disposition) r.capabilities ↔ (s ≡ p4))
        × (In (value approve_disposition) r.capabilities ↔ (s ≡ p5))
  seeded_duties table r s there coded =
      let e = ((seed_system_roles-IsSeeded table).0 s).current r there coded in
      subst
        (λ (x : Role).
          (In (value manage_memberships) x.capabilities ↔ (s ≡ p6))
          × (In (value request_disposition) x.capabilities ↔ (s ≡ p4))
          × (In (value approve_disposition) x.capabilities ↔ (s ≡ p5)))
        (sym e)
        (
          owned_iff manage_memberships p6 manage-IsOwned s r,
          owned_iff request_disposition p4 request-IsOwned s r,
          owned_iff approve_disposition p5 approve-IsOwned s r,
        )
