-- ===== src/Identity/Migrations/Merge/Paths.antt =====
-- What the merge of forked organizations (apps/identity/migrations) leaves of the table.
use sgdy_pa_backend.Prelude.{
  ◌⊎◌, ap, subst, ℕ, ◌==◌, ==_iff, ◌≡◌, refl, ◌∙◌, sym, inl, inr, Bool, Bool-cases, true, false,
  not, List, [], ◌∷◌, In, any, any-false, select, in-select, update_where, in-update_where,
  if◌then◌else◌, arith,
}
use sgdy_pa_backend.Prelude.Text.{Text, text_eq_iff, truthy}
use sgdy_pa_backend.Identity.Models.{Organization, Membership}
use sgdy_pa_backend.Identity.Authorization.{Db}
use sgdy_pa_backend.Identity.Migrations.Merge.{
  is_canonical, is_twin_of, merge_membership, merge_memberships, merge_twin, has_trail, merge_twins,
  holds_path, adopts, with_path, adopt_path, merge_canonical, merge_rows,
  merge_duplicate_group_orgs, adopts,
}

-- Two rows with the same path, but for the empty one, have the same key.
abbrev pub IsPathUnique : Db → Type 0
IsPathUnique db =
    (x y : Organization)
    → In x db.organizations
    → In y db.organizations
    → truthy x.keycloak_group_path ≡ true
    → x.keycloak_group_path ≡ y.keycloak_group_path
    → x.id ≡ y.id

abbrev pub Shrinks : Db → Db → Type 0
Shrinks db db' = (x : Organization) → In x db'.organizations → In x db.organizations

merge_membership-organizations :
    (canon : Organization) (m : Membership) (db : Db)
    → (merge_membership canon m db).organizations ≡ db.organizations
unfolding merge_membership
merge_membership-organizations canon m db = ground arith

pub merge_memberships-organizations :
    (canon : Organization) (ms : List Membership) (db : Db)
    → (merge_memberships canon ms db).organizations ≡ db.organizations
unfolding merge_memberships
merge_memberships-organizations canon [] db = refl
merge_memberships-organizations canon (m ∷ ms) db =
    merge_memberships-organizations canon ms (merge_membership canon m db)
    ∙ merge_membership-organizations canon m db

pub merge_twin-Shrinks :
    (canon twin : Organization) (db : Db) → Shrinks db (merge_twin canon twin db)
unfolding merge_twin
merge_twin-Shrinks canon twin db x m =
    (in-select (λ o. not (o.id == twin.id)) db.organizations x
      (rw
        (merge_memberships-organizations canon
          (select (λ row. row.organization_id == twin.id) db.memberships) db)
        at m)).0

pub merge_twins-Shrinks :
    (audited : List ℕ) (canon : Organization) (twins : List Organization) (adopted : Text) (db : Db)
    → Shrinks db (merge_twins audited canon twins adopted db).1
unfolding merge_twins
merge_twins-Shrinks audited canon [] adopted db x m = m
merge_twins-Shrinks audited canon (twin ∷ rest) adopted db x m =
    elim (Bool-cases (has_trail audited twin)) [
      | inl kept ↦ merge_twins-Shrinks audited canon rest adopted db x (rw kept at m)
      | inr gone ↦
          let path = if truthy adopted then adopted else twin.keycloak_group_path in
          merge_twin-Shrinks canon twin db x (
            merge_twins-Shrinks audited canon rest path (merge_twin canon twin db) x (rw gone at m))
    ]

Shrinks-IsPathUnique : (db db' : Db) → Shrinks db db' → IsPathUnique db → IsPathUnique db'
Shrinks-IsPathUnique db db' s u x y mx my = u x y (s x mx) (s y my)

-- No other row holds the path that is adopted.
not_held :
    (canon : Organization) (path : Text) (db : Db) (y : Organization)
    → any (holds_path canon path) db.organizations ≡ false
    → In y db.organizations
    → (y.id == canon.id) ≡ false
    → path ≡ y.keycloak_group_path
    → ⊥
not_held canon path db y free m other same =
    let held = any-false (holds_path canon path) db.organizations y free m in
    cc (rw (other, (text_eq_iff y.keycloak_group_path path).1 (sym same)) at held)

abbrev is_row_of : Organization → Organization → Bool
is_row_of canon o = o.id == canon.id

-- A row of the table with the adopted path, from the row that it was.
adopted-row :
    (canon : Organization) (path : Text) (db : Db) (x : Organization)
    → In x (update_where (is_row_of canon) (with_path path) db.organizations)
    → (y : Organization) × In y db.organizations
      × (x.id ≡ y.id)
      × (((y.id ≡ canon.id) × (x.keycloak_group_path ≡ path))
          ⊎ (((y.id == canon.id) ≡ false) × (x.keycloak_group_path ≡ y.keycloak_group_path)))
adopted-row canon path db x m =
    let (y, my, e) = in-update_where (is_row_of canon) (with_path path) db.organizations x m in
    elim (Bool-cases (is_row_of canon y)) [
      | inl same ↦
          let e' : x ≡ with_path path y = rw same at e in
          (
            y,
            my,
            ap (λ o. o.id) e',
            inl ((==_iff y.id canon.id).0 same, ap (λ o. o.keycloak_group_path) e'),
          )
      | inr other ↦
          let e' : x ≡ y = rw other at e in
          (y, my, ap (λ o. o.id) e', inr (other, ap (λ o. o.keycloak_group_path) e'))
    ]

adopts-free :
    (canon : Organization) (path : Text) (db : Db)
    → adopts canon path db ≡ true
    → any (holds_path canon path) db.organizations ≡ false
unfolding adopts
adopts-free canon path db h = ground arith

adopt_path-IsPathUnique :
    (canon : Organization) (path : Text) (db : Db)
    → IsPathUnique db
    → IsPathUnique (adopt_path canon path db)
unfolding adopt_path
adopt_path-IsPathUnique canon path db u = elim (Bool-cases (adopts canon path db)) [
  | inr kept ↦ rw (adopt_path, kept) u
  | inl adopted ↦
      rw (adopt_path, adopted)
        (λ x y mx my given same.
          let free = adopts-free canon path db adopted in
          let (x0, mx0, ix, cx) = adopted-row canon path db x mx in
          let (y0, my0, iy, cy) = adopted-row canon path db y my in
          elim cx [
            | inl (hx, px) ↦ elim cy [
              | inl (hy, py) ↦ ix ∙ hx ∙ sym hy ∙ sym iy
              | inr (other, py) ↦
                  absurd (not_held canon path db y0 free my0 other (sym px ∙ same ∙ py))
            ]
            | inr (other, px) ↦ elim cy [
              | inl (hy, py) ↦
                  absurd (not_held canon path db x0 free mx0 other (sym py ∙ sym same ∙ px))
              | inr (other', py) ↦
                  ix
                  ∙ u x0 y0 mx0 my0 (subst (λ p. truthy p ≡ true) px given) (sym px ∙ same ∙ py)
                  ∙ sym iy
            ]
          ])
]

merge_canonical-IsPathUnique :
    (audited : List ℕ) (canon : Organization) (db : Db)
    → IsPathUnique db
    → IsPathUnique (merge_canonical audited canon db)
unfolding merge_canonical
merge_canonical-IsPathUnique audited canon db u =
    let twins = select (is_twin_of canon) db.organizations in
    let merged = merge_twins audited canon twins [] db in
    adopt_path-IsPathUnique canon merged.0 merged.1
      (Shrinks-IsPathUnique db merged.1 (merge_twins-Shrinks audited canon twins [] db) u)

merge_rows-IsPathUnique :
    (audited : List ℕ) (rows : List Organization) (db : Db)
    → IsPathUnique db
    → IsPathUnique (merge_rows audited rows db)
unfolding merge_rows
merge_rows-IsPathUnique audited [] db u = u
merge_rows-IsPathUnique audited (canon ∷ rest) db u =
    merge_rows-IsPathUnique audited rest (merge_canonical audited canon db)
      (merge_canonical-IsPathUnique audited canon db u)

-- The migration gives no two organizations the same path, but for the empty one, if none had.
pub merge_duplicate_group_orgs-IsPathUnique :
    (in_order : List Organization → List Organization) (audited : List ℕ) (db : Db)
    → IsPathUnique db
    → IsPathUnique (merge_duplicate_group_orgs in_order audited db)
unfolding merge_duplicate_group_orgs
merge_duplicate_group_orgs-IsPathUnique in_order audited db =
    merge_rows-IsPathUnique audited (select is_canonical (in_order db.organizations)) db
