-- ===== src/Identity/Migrations/Merge/References.antt =====
-- The foreign keys to the organizations that the merge (apps/identity/migrations) deletes or moves.
use sgdy_pa_backend.Prelude.{
  ℕ, ◌==◌, ==_refl, ◌≡◌, refl, sym, ap, subst, ◌⊎◌, inl, inr, Bool-cases, true, false, not, List,
  [], ◌∷◌, In, All, any, select, in-select, in-select_of_in, in-update_where, arith,
}
use sgdy_pa_backend.Identity.Models.{Organization, Membership}
use sgdy_pa_backend.Identity.Authorization.{Db}
use sgdy_pa_backend.Identity.Migrations.Merge.{
  clashes, merge_membership, merge_memberships, merge_twin,
}
use sgdy_pa_backend.Identity.Migrations.Merge.Paths.{merge_memberships-organizations}

-- There is an organization of that key.
abbrev pub HasId : ℕ → Db → Type 0
HasId k db = any (λ o. o.id == k) db.organizations ≡ true

-- Every membership refers to an organization.
abbrev pub IsReferenced : Db → Type 0
IsReferenced db = (m : Membership) → In m db.memberships → HasId m.organization_id db

-- Two organizations with the same key are the same row.
abbrev pub IsKeyed : Db → Type 0
IsKeyed db =
    (x y : Organization) → In x db.organizations → In y db.organizations → x.id ≡ y.id → x ≡ y

merge_membership-row :
    (canon : Organization) (m : Membership) (db : Db) (x : Membership)
    → In x (merge_membership canon m db).memberships
    → (In x db.memberships × ((x.id == m.id) ≡ false)) ⊎ (x.organization_id ≡ canon.id)
unfolding merge_membership
merge_membership-row canon m db x there = elim (Bool-cases (any (clashes canon m) db.memberships)) [
  | inl clash ↦
      let (m', h) =
        in-select (λ row. not (row.id == m.id)) db.memberships x
          (rw (merge_membership, clash) at there) in
      inl (m', ground arith)
  | inr free ↦
      let (y, my, e) =
        in-update_where (λ row. row.id == m.id) (λ row. record row { organization_id = canon.id })
          db.memberships x (rw (merge_membership, free) at there) in
      elim (Bool-cases (y.id == m.id)) [
        | inl same ↦
            let e' : x ≡ record y { organization_id = canon.id } = rw same at e in
            inr (ap (λ row. row.organization_id) e')
        | inr other ↦
            let e' : x ≡ y = rw other at e in
            inl (subst (λ z. In z db.memberships × ((z.id == m.id) ≡ false)) (sym e') (my, other))
      ]
]

-- A membership that is left by the loop was not in it, or it moved.
merge_memberships-row :
    (canon : Organization) (ms : List Membership) (db : Db) (x : Membership)
    → In x (merge_memberships canon ms db).memberships
    → (In x db.memberships × All (λ m. (x.id == m.id) ≡ false) ms) ⊎ (x.organization_id ≡ canon.id)
unfolding merge_memberships
merge_memberships-row canon [] db x there = inl (there, tt)
merge_memberships-row canon (m ∷ ms) db x there =
    elim (merge_memberships-row canon ms (merge_membership canon m db) x there) [
      | inr moved ↦ inr moved
      | inl (there', others) ↦ elim (merge_membership-row canon m db x there') [
        | inr moved ↦ inr moved
        | inl (there'', other) ↦ inl (there'', (other, others))
      ]
    ]

pub All-in {κ} : {A : Type 0} (P : A → Type κ) (xs : List A) (x : A) → All P xs → In x xs → P x
All-in P [] x h m = absurd m
All-in P (y ∷ xs) x h (inl e) = subst P (sym e) h.0
All-in P (y ∷ xs) x h (inr m) = All-in P xs x h.1 m

any-deleted :
    (k i : ℕ) (orgs : List Organization)
    → (k == i) ≡ false
    → any (λ o. o.id == k) (select (λ o. not (o.id == i)) orgs) ≡ any (λ o. o.id == k) orgs
any-deleted k i [] other = refl
any-deleted k i (o ∷ orgs) other = ground (arith, any-deleted k i orgs other)

pub merge_twin-HasId :
    (canon twin : Organization) (k : ℕ) (db : Db)
    → (k == twin.id) ≡ false
    → HasId k db
    → HasId k (merge_twin canon twin db)
unfolding merge_twin
merge_twin-HasId canon twin k db other h =
    rw
      (
        merge_memberships-organizations canon
            (select (λ m. m.organization_id == twin.id) db.memberships) db,
        any-deleted k twin.id db.organizations other,
      )
      h

pub merge_twin-IsReferenced :
    (canon twin : Organization) (db : Db)
    → (canon.id == twin.id) ≡ false
    → HasId canon.id db
    → IsReferenced db
    → IsReferenced (merge_twin canon twin db)
unfolding merge_twin
merge_twin-IsReferenced canon twin db other h r x there =
    let ms = select (λ m. m.organization_id == twin.id) db.memberships in
    elim (merge_memberships-row canon ms db x there) [
      | inr moved ↦
          subst (λ k. HasId k (merge_twin canon twin db)) (sym moved)
            (merge_twin-HasId canon twin canon.id db other h)
      | inl (there', others) ↦ elim (Bool-cases (x.organization_id == twin.id)) [
        | inr elsewhere ↦ merge_twin-HasId canon twin x.organization_id db elsewhere (r x there')
        | inl here ↦
            let m =
              in-select_of_in (λ m. m.organization_id == twin.id) db.memberships x there' here in
            absurd (cc (All-in (λ m. (x.id == m.id) ≡ false) ms x others m, ==_refl x.id))
      ]
    ]
