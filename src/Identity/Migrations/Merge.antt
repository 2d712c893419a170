-- ===== src/Identity/Migrations/Merge.antt =====
-- apps/identity/migrations/0006_organization_keycloak_group_path_unique.py: organizations that one
-- Keycloak group has forked into. The rows of the table are in the order of `created_at`, in
-- which the twins are read; other tables that refer to an organization are not followed.
pub mod Paths
pub mod References
pub mod Twins
pub mod Integrity
mod Tests
use sgdy_pa_backend.Prelude.{
  ℕ, ◌==◌, Bool, true, false, not, ◌&&◌, Option, none, some, List, [], ◌∷◌, any, select,
  update_where, is_some, if◌then◌else◌,
}
use sgdy_pa_backend.Prelude.Text.{Text, text_eq, truthy}
use sgdy_pa_backend.Identity.Models.{Organization, Membership}
use sgdy_pa_backend.Identity.Authorization.{Db}

-- `keycloak_group_id__isnull=False, keycloak_group_path=""`
abbrev pub is_canonical : Organization → Bool
is_canonical o = is_some o.keycloak_group_id && not (truthy o.keycloak_group_path)

abbrev pub is_twin_of : Organization → Organization → Bool
is_twin_of canon o =
    not (is_some o.keycloak_group_id)
    && (text_eq o.name canon.name && (not (o.id == canon.id) && truthy o.keycloak_group_path))

abbrev pub clashes : Organization → Membership → Membership → Bool
clashes canon m row =
    (row.organization_id == canon.id) && ((row.user_id == m.user_id) && not (row.id == m.id))

-- `membership.delete()`: its role assignments go with it.
abbrev pub delete_membership : Membership → Db → Db
delete_membership m db = record db {
  memberships = select (λ row. not (row.id == m.id)) db.memberships;
  membership_roles = select (λ a. not (a.membership_id == m.id)) db.membership_roles;
}

-- `membership.organization = canon`, saved.
abbrev pub repoint : Organization → Membership → Db → Db
repoint canon m db = record db {
  memberships =
      update_where (λ row. row.id == m.id) (λ row. record row { organization_id = canon.id })
        db.memberships;
}

-- A user who is a member already loses the membership of the twin.
unfoldable pub merge_membership : Organization → Membership → Db → Db
merge_membership canon m db =
    if any (clashes canon m) db.memberships then delete_membership m db else repoint canon m db

-- The loop over the memberships of a twin.
unfoldable pub merge_memberships : Organization → List Membership → Db → Db
unfolding merge_membership
merge_memberships canon [] db = db
merge_memberships canon (m ∷ rest) db = merge_memberships canon rest (merge_membership canon m db)

-- The memberships of a twin move, and it is deleted.
unfoldable pub merge_twin : Organization → Organization → Db → Db
unfolding merge_memberships
merge_twin canon twin db =
    let merged =
      merge_memberships canon (select (λ m. m.organization_id == twin.id) db.memberships) db in
    record merged { organizations = select (λ o. not (o.id == twin.id)) merged.organizations }

-- `TrailEntry.objects.filter(organization=...).exists()`, of the organizations of the audit rows.
abbrev pub has_trail : (audited : List ℕ) → Organization → Bool
has_trail audited o = any (λ i. i == o.id) audited

-- The loop over the twins: the path that is adopted, and the tables.
unfoldable pub merge_twins :
    (audited : List ℕ) → Organization → List Organization → Text → Db → Text × Db
unfolding merge_twin
merge_twins audited canon [] adopted db = (adopted, db)
merge_twins audited canon (twin ∷ rest) adopted db =
    let skipped = merge_twins audited canon rest adopted db in
    let merged =
      merge_twins audited canon rest (if truthy adopted then adopted else twin.keycloak_group_path)
        (merge_twin canon twin db) in
    if has_trail audited twin then skipped else merged

abbrev pub holds_path : Organization → Text → Organization → Bool
holds_path canon path o = text_eq o.keycloak_group_path path && not (o.id == canon.id)

-- A path that another row holds is not adopted.
unfoldable pub adopts : Organization → Text → Db → Bool
adopts canon path db =
    truthy path
    && (not (truthy canon.keycloak_group_path)
        && not (any (holds_path canon path) db.organizations))

abbrev pub with_path : Text → Organization → Organization
with_path path o = record o { keycloak_group_path = path }

unfoldable pub adopt_path : Organization → Text → Db → Db
unfolding adopts
adopt_path canon path db =
    if adopts canon path db
    then record db {
      organizations = update_where (λ o. o.id == canon.id) (with_path path) db.organizations;
    }
    else db

unfoldable pub merge_canonical : (audited : List ℕ) → Organization → Db → Db
unfolding merge_twins adopt_path
merge_canonical audited canon db =
    let (adopted, merged) =
      merge_twins audited canon (select (is_twin_of canon) db.organizations) [] db in
    adopt_path canon adopted merged

unfoldable pub merge_rows : (audited : List ℕ) → List Organization → Db → Db
unfolding merge_canonical
merge_rows audited [] db = db
merge_rows audited (canon ∷ rest) db = merge_rows audited rest (merge_canonical audited canon db)

-- `merge_duplicate_group_orgs`. `in_order` is the order of the model, by name and key.
unfoldable pub merge_duplicate_group_orgs :
    (in_order : List Organization → List Organization) → (audited : List ℕ) → Db → Db
unfolding merge_rows
merge_duplicate_group_orgs in_order audited db =
    merge_rows audited (select is_canonical (in_order db.organizations)) db
