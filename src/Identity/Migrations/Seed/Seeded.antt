-- ===== src/Identity/Migrations/Seed/Seeded.antt =====
-- The roles that the migration and the application seed (apps/identity/migrations,
-- apps/identity/authorization.py).
use sgdy_pa_backend.Prelude.{
  inl, inr, In, All, any_of_in, map, arith, select, ◌∙◌, ap, ℕ, ◌==◌, ◌≡◌, refl, ◌∙◌, ap, Bool,
  Bool-cases, true, false, not, some, List, [], ◌∷◌, map, All, any, select, update_where, arith,
}
use sgdy_pa_backend.Prelude.Text.{text_eq, text_eq_refl}
use sgdy_pa_backend.Identity.Models.{Role, MembershipRole}
use sgdy_pa_backend.Identity.Authorization.Roles.{
  SystemRole, p1, p2, p3, p4, p5, p6, p7, code, label, value, role_capabilities, has_code,
  with_defaults, update_or_create, choices, seed_from, seed_system_roles,
}
use sgdy_pa_backend.Identity.Migrations.Seed.{
  SeedItem, seed_items, item_defaults, seed_item, seed_items_from, migrate_roles, is_seeded,
  seeded_codes, unseed_system_roles,
}

-- The item of a system role.
abbrev item_of : SystemRole → SeedItem
item_of s = record { code = code s; name = label s; capabilities = map value (role_capabilities s) }

seed_items-item_of : seed_items ≡ map item_of choices
unfolding role_capabilities
seed_items-item_of = refl

seed_item-item_of :
    (uuid4 : List Role → ℕ) (s : SystemRole) (table : List Role)
    → seed_item uuid4 (item_of s) table ≡ update_or_create uuid4 s table
unfolding seed_item item_defaults update_or_create with_defaults
seed_item-item_of uuid4 s table = refl

seed_items_from-map :
    (uuid4 : List Role → ℕ) (ss : List SystemRole) (table : List Role)
    → seed_items_from uuid4 (map item_of ss) table ≡ seed_from uuid4 ss table
unfolding seed_items_from seed_from
seed_items_from-map uuid4 [] table = refl
seed_items_from-map uuid4 (s ∷ ss) table =
    ap (seed_items_from uuid4 (map item_of ss)) (seed_item-item_of uuid4 s table)
    ∙ seed_items_from-map uuid4 ss (update_or_create uuid4 s table)

-- The migration and the application seed every table of roles alike.
pub migrate_roles_same :
    (uuid4 : List Role → ℕ) (table : List Role)
    → migrate_roles uuid4 table ≡ seed_system_roles uuid4 table
unfolding migrate_roles seed_system_roles
migrate_roles_same uuid4 table =
    ap (λ items. seed_items_from uuid4 items table) seed_items-item_of
    ∙ seed_items_from-map uuid4 choices table

in-codes : (s : SystemRole) → In (code s) seeded_codes
in-codes p1 = inl refl
in-codes p2 = inr (inl refl)
in-codes p3 = inr (inr (inl refl))
in-codes p4 = inr (inr (inr (inl refl)))
in-codes p5 = inr (inr (inr (inr (inl refl))))
in-codes p6 = inr (inr (inr (inr (inr (inl refl)))))
in-codes p7 = inr (inr (inr (inr (inr (inr (inl refl))))))

abbrev is_other : Role → Bool
is_other r = not (is_seeded r)

-- Writing rows of seeded codes leaves the others.
others-update_where :
    (p : Role → Bool) (f : Role → Role) (table : List Role)
    → ((r : Role) → p r ≡ true → is_other r ≡ false)
    → ((r : Role) → is_other (f r) ≡ is_other r)
    → select is_other (update_where p f table) ≡ select is_other table
others-update_where p f [] seeded same = refl
others-update_where p f (r ∷ table) seeded same =
    ground (arith, seeded r, same r, others-update_where p f table seeded same)

is_seeded_of_code : (s : SystemRole) (r : Role) → has_code (code s) r ≡ true → is_other r ≡ false
is_seeded_of_code s r e =
    rw (any_of_in (λ c. text_eq r.code c) seeded_codes (code s) (in-codes s) e) refl

seeded_code : (s : SystemRole) → any (λ c. text_eq (code s) c) seeded_codes ≡ true
seeded_code s =
    any_of_in (text_eq (code s)) seeded_codes (code s) (in-codes s) (text_eq_refl (code s))

others-seed_item :
    (uuid4 : List Role → ℕ) (s : SystemRole) (table : List Role)
    → select is_other (update_or_create uuid4 s table) ≡ select is_other table
unfolding update_or_create with_defaults
others-seed_item uuid4 s table = elim (Bool-cases (any (has_code (code s)) table)) [
  | inl there ↦
      rw (update_or_create, there)
        (others-update_where (has_code (code s)) (with_defaults s) table (is_seeded_of_code s)
          (λ r. refl))
  | inr absent ↦ rw (update_or_create, absent, seeded_code s) refl
]

others-seed_from :
    (uuid4 : List Role → ℕ) (ss : List SystemRole) (table : List Role)
    → select is_other (seed_from uuid4 ss table) ≡ select is_other table
unfolding seed_from
others-seed_from uuid4 [] table = refl
others-seed_from uuid4 (s ∷ ss) table =
    others-seed_from uuid4 ss (update_or_create uuid4 s table) ∙ others-seed_item uuid4 s table

select-id :
    (table : List Role) → All (λ r. is_seeded r ≡ false) table → select is_other table ≡ table
select-id [] h = refl
select-id (r ∷ table) h = rw (h.0, select-id table h.1) refl

-- Where no role of the table has a seeded code, and no seeded role is assigned, undoing the
-- migration restores the table.
pub unseed-migrate_roles :
    (uuid4 : List Role → ℕ) (links : List MembershipRole) (table : List Role)
    → All (λ r. is_seeded r ≡ false) table
    → any (λ r. any (λ a. a.role_id == r.id) links) (select is_seeded (migrate_roles uuid4 table))
      ≡ false
    → unseed_system_roles links (migrate_roles uuid4 table) ≡ some table
unfolding unseed_system_roles seed_system_roles
unseed-migrate_roles uuid4 links table others free =
    rw (unseed_system_roles, free, migrate_roles_same uuid4 table)
      (ap some (others-seed_from uuid4 choices table ∙ select-id table others))
