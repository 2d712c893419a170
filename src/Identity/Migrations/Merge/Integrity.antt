-- ===== src/Identity/Migrations/Merge/Integrity.antt =====
-- The foreign keys after the whole merge (apps/identity/migrations).
use sgdy_pa_backend.Prelude.{
  ℕ, ◌==◌, ==_iff, ==_refl, ◌≡◌, refl, sym, subst, inl, inr, Bool-cases, true, List, [], ◌∷◌, In,
  All, All-map, any, any_of_in, select, is_some,
}
use sgdy_pa_backend.Identity.Models.{Organization}
use sgdy_pa_backend.Identity.Authorization.{Db}
use sgdy_pa_backend.Identity.Migrations.Merge.{
  is_canonical, is_twin_of, merge_twins, merge_canonical, merge_rows, merge_duplicate_group_orgs,
}
use sgdy_pa_backend.Identity.Migrations.Merge.Paths.{
  IsPathUnique, merge_duplicate_group_orgs-IsPathUnique, merge_twins-Shrinks,
}
use sgdy_pa_backend.Identity.Migrations.Merge.References.{HasId, IsReferenced, IsKeyed}
use sgdy_pa_backend.Identity.Migrations.Merge.Twins.{
  IsSpared, IsAnchored, merge_twins-HasId, merge_twins-IsReferenced, adopt_path-HasId,
  adopt_path-IsReferenced, canonical-group, twins-IsSpared, audited-IsSpared, adopt_path-row,
}

module _ (audited : List ℕ) where
  merge_canonical-HasId :
      (canon : Organization) (k : ℕ) (db : Db)
      → IsSpared audited k (select (is_twin_of canon) db.organizations)
      → HasId k db
      → HasId k (merge_canonical audited canon db)
  unfolding merge_canonical
  merge_canonical-HasId canon k db s h =
      let twins = select (is_twin_of canon) db.organizations in
      let merged = merge_twins audited canon twins [] db in
      adopt_path-HasId canon merged.0 k merged.1 (merge_twins-HasId audited canon twins [] k db s h)

  merge_canonical-IsAnchored :
      (canon : Organization) (k : ℕ) (db : Db)
      → IsAnchored db k
      → IsAnchored (merge_canonical audited canon db) k
  unfolding merge_canonical
  merge_canonical-IsAnchored canon k db a =
      let twins = select (is_twin_of canon) db.organizations in
      let merged = merge_twins audited canon twins [] db in
      (
        merge_canonical-HasId canon k db (twins-IsSpared audited canon k db.organizations a.1) a.0,
        λ o m same.
            let (y, my, i, g) = adopt_path-row canon merged.0 merged.1 o m in
            subst (λ group. is_some group ≡ true) (sym g)
              (a.1 y (merge_twins-Shrinks audited canon twins [] db y my)
                (subst (λ j. (k == j) ≡ true) i same)),
      )

  merge_canonical-IsReferenced :
      (canon : Organization) (db : Db)
      → IsAnchored db canon.id
      → IsReferenced db
      → IsReferenced (merge_canonical audited canon db)
  unfolding merge_canonical
  merge_canonical-IsReferenced canon db a r =
      let twins = select (is_twin_of canon) db.organizations in
      let merged = merge_twins audited canon twins [] db in
      adopt_path-IsReferenced canon merged.0 merged.1 (
        merge_twins-IsReferenced audited canon twins [] db
          (twins-IsSpared audited canon canon.id db.organizations a.1) a.0 r)

  merge_rows-IsReferenced :
      (rows : List Organization) (db : Db)
      → All (λ c. IsAnchored db c.id) rows
      → IsReferenced db
      → IsReferenced (merge_rows audited rows db)
  unfolding merge_rows
  merge_rows-IsReferenced [] db a r = r
  merge_rows-IsReferenced (canon ∷ rest) db a r =
      merge_rows-IsReferenced rest (merge_canonical audited canon db)
        (All-map (λ c. IsAnchored db c.id) _ (λ c h. merge_canonical-IsAnchored canon c.id db h)
          rest a.1)
        (merge_canonical-IsReferenced canon db a.0 r)

  merge_rows-HasId :
      (rows : List Organization) (k : ℕ) (db : Db)
      → any (λ i. i == k) audited ≡ true
      → HasId k db
      → HasId k (merge_rows audited rows db)
  unfolding merge_rows
  merge_rows-HasId [] k db a h = h
  merge_rows-HasId (canon ∷ rest) k db a h =
      merge_rows-HasId rest k (merge_canonical audited canon db) a
        (merge_canonical-HasId canon k db (audited-IsSpared audited k _ a) h)

  canonical-IsAnchored :
      (db : Db) (rows : List Organization)
      → IsKeyed db
      → ((c : Organization) → In c rows → In c db.organizations)
      → All (λ c. IsAnchored db c.id) (select is_canonical rows)
  canonical-IsAnchored db [] u s = tt
  canonical-IsAnchored db (c ∷ rows) u s =
      let later = canonical-IsAnchored db rows u (λ x m. s x (inr m)) in
      elim (Bool-cases (is_canonical c)) [
        | inr other ↦ rw other later
        | inl found ↦ rw found (
          (
            any_of_in (λ o. o.id == c.id) db.organizations c (s c (inl refl)) (==_refl c.id),
            λ o m same.
                subst (λ x. is_some x.keycloak_group_id ≡ true)
                  (u c o (s c (inl refl)) m ((==_iff c.id o.id).0 same)) (canonical-group c found),
          ),
          later,
        )
      ]

  audited_kept :
      (rows : List Organization) (db : Db) (ks : List ℕ)
      → ((k : ℕ) → In k ks → any (λ i. i == k) audited ≡ true)
      → All (λ k. HasId k db) ks
      → All (λ k. HasId k (merge_rows audited rows db)) ks
  audited_kept rows db [] s h = tt
  audited_kept rows db (k ∷ ks) s h = (
    merge_rows-HasId rows k db (s k (inl refl)) h.0,
    audited_kept rows db ks (λ i m. s i (inr m)) h.1,
  )

  -- If organizations are told apart by their keys, every membership and every audit row refers to one,
  -- and no two have the same path, but for the empty one, then the migration keeps all but the first
  -- of these: no reference is left dangling, and the constraint on paths can be added. It assumes
  -- that the query in the order of the model returns rows of the table.
  pub merge_duplicate_group_orgs_lem :
      (in_order : List Organization → List Organization)
      → ((t : List Organization) (c : Organization) → In c (in_order t) → In c t)
      → (db : Db) → IsKeyed db
      → IsReferenced db
      → All (λ k. HasId k db) audited
      → IsPathUnique db
      → IsReferenced (merge_duplicate_group_orgs in_order audited db)
        × All (λ k. HasId k (merge_duplicate_group_orgs in_order audited db)) audited
        × IsPathUnique (merge_duplicate_group_orgs in_order audited db)
  unfolding merge_duplicate_group_orgs
  merge_duplicate_group_orgs_lem in_order read db u r a p =
      let rows = select is_canonical (in_order db.organizations) in
      (
        merge_rows-IsReferenced rows db
            (canonical-IsAnchored db (in_order db.organizations) u (read db.organizations)) r,
        audited_kept rows db audited (λ k m. any_of_in (λ i. i == k) audited k m (==_refl k)) a,
        merge_duplicate_group_orgs-IsPathUnique in_order audited db p,
      )
