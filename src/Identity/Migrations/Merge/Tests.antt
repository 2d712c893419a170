-- ===== src/Identity/Migrations/Merge/Tests.antt =====
-- The merge at concrete tables: a run, and the theorems applied.
use sgdy_pa_backend.Prelude.{
  ◌≡◌, refl, ◌∙◌, sym, ap, subst, inl, inr, true, none, some, [], ◌∷◌, arith, All,
}
use sgdy_pa_backend.Prelude.Text.{lit, text_eq, truthy}
use sgdy_pa_backend.Prelude.Json.{end}
use sgdy_pa_backend.Identity.Models.{Organization, Membership, active, keycloak}
use sgdy_pa_backend.Identity.Authorization.{Db}
use sgdy_pa_backend.Identity.Migrations.Merge.{merge_duplicate_group_orgs, List}
use sgdy_pa_backend.Identity.Migrations.Merge.Paths.{IsPathUnique}
use sgdy_pa_backend.Identity.Migrations.Merge.References.{HasId, IsReferenced, IsKeyed}
use sgdy_pa_backend.Identity.Migrations.Merge.Integrity.{merge_duplicate_group_orgs_lem}

abbrev canon : Organization
canon = record {
  id = 1;
  name = lit "acme";
  slug = lit "acme";
  is_active = true;
  keycloak_group_id = some (lit "g1");
  keycloak_group_path = [];
}

abbrev twin : Organization
twin = record {
  id = 2;
  name = lit "acme";
  slug = lit "acme-2";
  is_active = true;
  keycloak_group_id = none;
  keycloak_group_path = lit "/acme";
}

abbrev ana_at_twin : Membership
ana_at_twin = record {
  id = 20;
  organization_id = 2;
  user_id = 3;
  status = active;
  origin = keycloak;
  scope = end;
  expires_at = none;
}

abbrev forked : Db
forked = record {
  organizations = canon ∷ twin ∷ [];
  memberships = ana_at_twin ∷ [];
  roles = [];
  membership_roles = record { membership_id = 20; role_id = 6 } ∷ [];
}

-- The two rows have one name, and the keys are in order.
abbrev as_stored : List Organization → List Organization
as_stored t = t

merged_run : merge_duplicate_group_orgs as_stored [] forked ≡ record forked {
  organizations = record canon { keycloak_group_path = lit "/acme" } ∷ [];
  memberships = record ana_at_twin { organization_id = 1 } ∷ [];
}
unfolding merge_duplicate_group_orgs text_eq
merged_run = refl

-- A twin that has audit rows stays, with its path.
audited_run : merge_duplicate_group_orgs as_stored (2 ∷ []) forked ≡ forked
unfolding merge_duplicate_group_orgs text_eq
audited_run = refl

forked-IsPathUnique : IsPathUnique forked
forked-IsPathUnique x y (inl ex) my given same =
    absurd (cc (ap (λ o. truthy o.keycloak_group_path) ex, given))
forked-IsPathUnique x y (inr (inl ex)) (inl ey) given same =
    absurd (cc (ap (λ o. truthy o.keycloak_group_path) ey, ap truthy same, given))
forked-IsPathUnique x y (inr (inl ex)) (inr (inl ey)) given same =
    ap (λ o. o.id) ex ∙ sym (ap (λ o. o.id) ey)
forked-IsPathUnique x y (inr (inl ex)) (inr (inr m)) given same = absurd m
forked-IsPathUnique x y (inr (inr m)) my given same = absurd m

different : {x y : Organization} → x ≡ canon → y ≡ twin → x.id ≡ y.id → ⊥
different {x} {y} ex ey same =
    let ix : x.id ≡ 1 = ap (λ o. o.id) ex in let iy : y.id ≡ 2 = ap (λ o. o.id) ey in omega arith

forked-IsKeyed : IsKeyed forked
forked-IsKeyed x y (inl ex) (inl ey) same = ex ∙ sym ey
forked-IsKeyed x y (inl ex) (inr (inl ey)) same = absurd (different ex ey same)
forked-IsKeyed x y (inl ex) (inr (inr m)) same = absurd m
forked-IsKeyed x y (inr (inl ex)) (inl ey) same = absurd (different ey ex (sym same))
forked-IsKeyed x y (inr (inl ex)) (inr (inl ey)) same = ex ∙ sym ey
forked-IsKeyed x y (inr (inl ex)) (inr (inr m)) same = absurd m
forked-IsKeyed x y (inr (inr m)) my same = absurd m

forked-IsReferenced : IsReferenced forked
forked-IsReferenced m (inl e) =
    subst (λ i. HasId i forked) (sym (ap (λ row. row.organization_id) e)) refl
forked-IsReferenced m (inr m') = absurd m'

merge_duplicate_group_orgs_lem_example :
    IsReferenced (merge_duplicate_group_orgs as_stored (1 ∷ []) forked)
    × All (λ k. HasId k (merge_duplicate_group_orgs as_stored (1 ∷ []) forked)) (1 ∷ [])
    × IsPathUnique (merge_duplicate_group_orgs as_stored (1 ∷ []) forked)
merge_duplicate_group_orgs_lem_example =
    merge_duplicate_group_orgs_lem (1 ∷ []) as_stored (λ t c m. m) forked forked-IsKeyed
      forked-IsReferenced (refl, tt) forked-IsPathUnique
