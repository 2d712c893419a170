-- ===== src/Identity/Migrations/Merge/Twins.antt =====
-- The foreign keys while the twins of one organization are merged (apps/identity/migrations).
use sgdy_pa_backend.Prelude.{
  Option, ℕ, ◌==◌, ==_iff, ◌≡◌, refl, ap, subst, inl, inr, Bool, Bool-cases, true, false, not, ◌&&◌,
  List, [], ◌∷◌, In, All, any, any-update_where, select, in-update_where, is_some, arith,
}
use sgdy_pa_backend.Prelude.Text.{Text}
use sgdy_pa_backend.Identity.Models.{Organization}
use sgdy_pa_backend.Identity.Authorization.{Db}
use sgdy_pa_backend.Identity.Migrations.Merge.{
  is_canonical, is_twin_of, merge_twin, has_trail, merge_twins, adopts, with_path, adopt_path,
}
use sgdy_pa_backend.Identity.Migrations.Merge.References.{
  HasId, IsReferenced, merge_twin-HasId, merge_twin-IsReferenced,
}

-- Of the twins, those that are deleted have another key.
abbrev pub IsSpared : (audited : List ℕ) → ℕ → List Organization → Type 0
IsSpared audited k = All (λ t. has_trail audited t ≡ false → (k == t.id) ≡ false)

pub merge_twins-HasId :
    (audited : List ℕ) (canon : Organization) (twins : List Organization) (path : Text) (k : ℕ)
    (db : Db)
    → IsSpared audited k twins
    → HasId k db
    → HasId k (merge_twins audited canon twins path db).1
unfolding merge_twins
merge_twins-HasId audited canon [] path k db s h = h
merge_twins-HasId audited canon (t ∷ rest) path k db s h = elim (Bool-cases (has_trail audited t)) [
  | inl kept ↦ rw kept (merge_twins-HasId audited canon rest path k db s.1 h)
  | inr gone ↦ rw gone (
      merge_twins-HasId audited canon rest _ k (merge_twin canon t db) s.1
        (merge_twin-HasId canon t k db (s.0 gone) h))
]

pub merge_twins-IsReferenced :
    (audited : List ℕ) (canon : Organization) (twins : List Organization) (path : Text) (db : Db)
    → IsSpared audited canon.id twins
    → HasId canon.id db
    → IsReferenced db
    → IsReferenced (merge_twins audited canon twins path db).1
unfolding merge_twins
merge_twins-IsReferenced audited canon [] path db s h r = r
merge_twins-IsReferenced audited canon (t ∷ rest) path db s h r =
    elim (Bool-cases (has_trail audited t)) [
      | inl kept ↦ rw kept (merge_twins-IsReferenced audited canon rest path db s.1 h r)
      | inr gone ↦ rw gone (
          merge_twins-IsReferenced audited canon rest _ (merge_twin canon t db) s.1
            (merge_twin-HasId canon t canon.id db (s.0 gone) h)
            (merge_twin-IsReferenced canon t db (s.0 gone) h r))
    ]

pub adopt_path-HasId :
    (canon : Organization) (path : Text) (k : ℕ) (db : Db)
    → HasId k db
    → HasId k (adopt_path canon path db)
unfolding adopt_path
adopt_path-HasId canon path k db h = elim (Bool-cases (adopts canon path db)) [
  | inr kept ↦ rw (adopt_path, kept) h
  | inl adopted ↦
      rw
        (
          adopt_path,
          adopted,
          any-update_where (λ o. o.id == k) (λ o. o.id == canon.id) (with_path path)
              db.organizations (λ o. refl),
        )
        h
]

adopt_path-memberships :
    (canon : Organization) (path : Text) (db : Db)
    → (adopt_path canon path db).memberships ≡ db.memberships
unfolding adopt_path
adopt_path-memberships canon path db = ground arith

pub adopt_path-IsReferenced :
    (canon : Organization) (path : Text) (db : Db)
    → IsReferenced db
    → IsReferenced (adopt_path canon path db)
adopt_path-IsReferenced canon path db r m there =
    adopt_path-HasId canon path m.organization_id db
      (r m (rw (adopt_path-memberships canon path db) at there))

-- There is an organization of that key, and each one is anchored by a group id.
abbrev pub IsAnchored : Db → ℕ → Type 0
IsAnchored db k =
    HasId k db
    × ((o : Organization)
        → In o db.organizations
        → (k == o.id) ≡ true
        → is_some o.keycloak_group_id ≡ true)

not_anchored :
    (group : Option Text) (rest same : Bool)
    → (not (is_some group) && rest) ≡ true
    → (same ≡ true → is_some group ≡ true)
    → same ≡ false
not_anchored group rest same t h = ground arith

pub canonical-group :
    (c : Organization) → is_canonical c ≡ true → is_some c.keycloak_group_id ≡ true
canonical-group c h = ground arith

pub twins-IsSpared :
    (audited : List ℕ) (canon : Organization) (k : ℕ) (twins : List Organization)
    → ((o : Organization) → In o twins → (k == o.id) ≡ true → is_some o.keycloak_group_id ≡ true)
    → IsSpared audited k (select (is_twin_of canon) twins)
twins-IsSpared audited canon k [] h = tt
twins-IsSpared audited canon k (o ∷ twins) h =
    let later = twins-IsSpared audited canon k twins (λ o' m. h o' (inr m)) in
    elim (Bool-cases (is_twin_of canon o)) [
      | inr other ↦ rw other later
      | inl twin ↦
          rw twin
            ((λ gone. not_anchored o.keycloak_group_id _ (k == o.id) twin (h o (inl refl))), later)
    ]

pub audited-IsSpared :
    (audited : List ℕ) (k : ℕ) (twins : List Organization)
    → any (λ i. i == k) audited ≡ true
    → IsSpared audited k twins
audited-IsSpared audited k [] a = tt
audited-IsSpared audited k (t ∷ twins) a = (
  (λ gone. elim (Bool-cases (k == t.id)) [
    | inr other ↦ other
    | inl same ↦
        absurd (cc (subst (λ j. any (λ i. i == j) audited ≡ true) ((==_iff k t.id).0 same) a, gone))
  ]),
  audited-IsSpared audited k twins a,
)

-- A row after an adoption, from the row that it was.
pub adopt_path-row :
    (canon : Organization) (path : Text) (db : Db) (x : Organization)
    → In x (adopt_path canon path db).organizations
    → (y : Organization) × In y db.organizations
      × (x.id ≡ y.id)
      × (x.keycloak_group_id ≡ y.keycloak_group_id)
unfolding adopt_path
adopt_path-row canon path db x m = elim (Bool-cases (adopts canon path db)) [
  | inr kept ↦ (x, rw (adopt_path, kept) at m, refl, refl)
  | inl adopted ↦
      let (y, my, e) =
        in-update_where (λ o. o.id == canon.id) (with_path path) db.organizations x
          (rw (adopt_path, adopted) at m) in
      elim (Bool-cases (y.id == canon.id)) [
        | inl same ↦
            let e' : x ≡ with_path path y = rw same at e in
            (y, my, ap (λ o. o.id) e', ap (λ o. o.keycloak_group_id) e')
        | inr other ↦
            let e' : x ≡ y = rw other at e in
            (y, my, ap (λ o. o.id) e', ap (λ o. o.keycloak_group_id) e')
      ]
]
