-- ===== src/Identity/OrgReplication/Frozen.antt =====
-- What the matching of groups keeps of the organizations (apps/identity/org_replication.py).
use sgdy_pa_backend.Prelude.{
  ℕ, zero, suc, ◌≡◌, ◌∙◌, sym, ap, ◌⊎◌, inl, inr, refl, Bool, Bool-cases, Option-cases, true, false,
  not, ◌&&◌, ◌||◌, Option, List, [], ◌∷◌, ◌++◌, map, any, find, update_where, arith,
}
use sgdy_pa_backend.Prelude.Text.{Text, truthy, text_eq}
use sgdy_pa_backend.Identity.Models.{Organization}
use sgdy_pa_backend.Identity.OrgReplication.Claims.{GroupRef, normalize_path, or_text}
use sgdy_pa_backend.Identity.OrgReplication.Organizations.{
  text_or_empty, has_group_id, has_path, is_row, taken_id, taken_path, backfill_group_id,
  backfill_group_path, find_by_path, find_organization, slug_taken, group_taken, try_create,
  slug_for, slug_base, new_organization, resolve_or_create_organization, max_slug_attempts,
  sync_organization_from_group, synced,
}

-- The columns that a synchronisation never rewrites.
abbrev pub frozen : Organization → ℕ × Text × Bool
frozen o = (o.id, o.slug, o.is_active)

map-update_where :
    (p : Organization → Bool) (f : Organization → Organization) (t : List Organization)
    → ((o : Organization) → frozen (f o) ≡ frozen o)
    → map frozen (update_where p f t) ≡ map frozen t
map-update_where p f [] h = refl
map-update_where p f (x ∷ t) h = elim (Bool-cases (p x)) [
  | inl hit ↦ rw (hit, h x, map-update_where p f t h) refl
  | inr miss ↦ rw (miss, map-update_where p f t h) refl
]

backfill_group_id-frozen :
    (org : Organization) (i : Text) (t : List Organization)
    → map frozen (backfill_group_id org i t).1 ≡ map frozen t
unfolding backfill_group_id
backfill_group_id-frozen org i t =
    elim (Bool-cases (truthy (text_or_empty org.keycloak_group_id))) [
      | inl has ↦ rw has refl
      | inr lacks ↦ elim (Bool-cases (taken_id org i t)) [
        | inl taken ↦ rw (lacks, taken) refl
        | inr free ↦ rw (lacks, free) (map-update_where _ _ t (λ o. refl))
      ]
    ]

backfill_group_path-frozen :
    (org : Organization) (p : Text) (t : List Organization)
    → map frozen (backfill_group_path org p t).1 ≡ map frozen t
unfolding backfill_group_path
backfill_group_path-frozen org p t = elim (Bool-cases (truthy org.keycloak_group_path)) [
  | inl has ↦ rw has refl
  | inr lacks ↦ elim (Bool-cases (taken_path org p t)) [
    | inl taken ↦ rw (lacks, taken) refl
    | inr free ↦ rw (lacks, free) (map-update_where _ _ t (λ o. refl))
  ]
]

find_by_path-frozen :
    (i p : Text) (t : List Organization) → map frozen (find_by_path i p t).1 ≡ map frozen t
unfolding find_by_path
find_by_path-frozen i p t = elim (Bool-cases (truthy p)) [
  | inr empty ↦ rw empty refl
  | inl given ↦ elim (Option-cases (find (has_path p) t)) [
    | inl e ↦ rw (given, e) refl
    | inr (org, e) ↦
        elim (Bool-cases (truthy i && not (truthy (text_or_empty org.keycloak_group_id)))) [
          | inl fill ↦ rw (given, e, fill) (backfill_group_id-frozen org i t)
          | inr keep ↦ rw (given, e, keep) refl
        ]
  ]
]

pub find_organization-frozen :
    (ref : GroupRef) (t : List Organization) → map frozen (find_organization ref t).1 ≡ map frozen t
unfolding find_organization
find_organization-frozen ref t =
    let i = text_or_empty ref.keycloak_group_id in
    let p = normalize_path ref.path in
    elim (Bool-cases (truthy i)) [
      | inr empty ↦ rw (empty, find_organization) (find_by_path-frozen i p t)
      | inl given ↦ elim (Option-cases (find (has_group_id i) t)) [
        | inl e ↦ rw (given, e, find_organization) (find_by_path-frozen i p t)
        | inr (org, e) ↦ elim (Bool-cases (truthy p && not (truthy org.keycloak_group_path))) [
          | inl fill ↦ rw (given, e, fill, find_organization) (backfill_group_path-frozen org p t)
          | inr keep ↦ rw (given, e, keep, find_organization) refl
        ]
      ]
    ]

-- The frozen columns of every row are as they were, and at most one row is new, the last. Its slug
-- is the slug of no earlier row.
abbrev pub IsExtended : List Organization → List Organization → Type 0
IsExtended t t' =
    (map frozen t' ≡ map frozen t)
    ⊎ ((i : ℕ) × (slug : Text) × (map frozen t' ≡ map frozen t ++ (i, slug, true) ∷ [])
        × (slug_taken slug t ≡ false))

slug_taken-frozen :
    (s : Text) (t : List Organization) → slug_taken s t ≡ any (λ f. text_eq f.1 s) (map frozen t)
slug_taken-frozen s [] = refl
slug_taken-frozen s (x ∷ t) = rw (slug_taken-frozen s t) refl

slug_taken_same :
    (s : Text) (t t' : List Organization)
    → map frozen t' ≡ map frozen t
    → slug_taken s t' ≡ slug_taken s t
slug_taken_same s t t' e =
    slug_taken-frozen s t' ∙ ap (any (λ f. text_eq f.1 s)) e ∙ sym (slug_taken-frozen s t)

-- `IsExtended` reads the frozen columns only.
IsExtended-same :
    (t u t' : List Organization) → map frozen u ≡ map frozen t → IsExtended u t' → IsExtended t t'
IsExtended-same t u t' e (inl same) = inl (same ∙ e)
IsExtended-same t u t' e (inr (i, s, added, free)) =
    inr (i, s, added ∙ ap (λ l. l ++ (i, s, true) ∷ []) e, sym (slug_taken_same s t u e) ∙ free)

-- Rows that a save rewrites outside the frozen columns.
IsExtended-renamed :
    (t u t' : List Organization) (org : Organization) (new_name new_path : Text)
    → t'
      ≡ update_where
          (is_row org)
          (λ row. record row { name = new_name; keycloak_group_path = new_path })
          u
    → IsExtended t u
    → IsExtended t t'
IsExtended-renamed t u t' org new_name new_path e (inl same) =
    inl (rw e (map-update_where _ _ u (λ row. refl) ∙ same))
IsExtended-renamed t u t' org new_name new_path e (inr (i, s, added, free)) =
    inr (i, s, rw e (map-update_where _ _ u (λ row. refl) ∙ added), free)

map-append :
    (t : List Organization) (o : Organization)
    → map frozen (t ++ o ∷ []) ≡ map frozen t ++ frozen o ∷ []
map-append [] o = refl
map-append (x ∷ t) o = rw (map-append t o) refl

module _ (slugify : Text → Text) (uuid4 : List Organization → ℕ) where
  try_create-IsExtended :
      (left attempt : ℕ) (ref : GroupRef) (t : List Organization)
      → IsExtended t (try_create slugify uuid4 left attempt ref t).1
  unfolding try_create new_organization
  try_create-IsExtended zero attempt ref t = inl refl
  try_create-IsExtended (suc left) attempt ref t =
      let slug = slug_for (slug_base slugify uuid4 ref) attempt in
      elim (Bool-cases (
        slug_taken slug t
        || group_taken (text_or_empty ref.keycloak_group_id) (normalize_path ref.path) t)) [
          | inr free ↦
              rw (free, try_create) (inr (uuid4 t, slug, map-append t _, ground (arith, free)))
          | inl taken ↦
              let kept = find_organization-frozen ref t in
              elim (Option-cases (find_organization ref t).0) [
                | inr (org, e) ↦ rw (taken, e, try_create) (inl kept)
                | inl e ↦
                    rw (taken, e, try_create)
                      (IsExtended-same t (find_organization ref t).1 _ kept
                        (try_create-IsExtended left (suc attempt) ref (find_organization ref t).1))
              ]
        ]

  -- Resolving a group to an organization keeps every row's key, slug and active flag, and adds at
  -- most one row, at the end, whose slug no other row has.
  pub resolve_or_create_organization-IsExtended :
      (ref : GroupRef) (t : List Organization)
      → IsExtended t (resolve_or_create_organization slugify uuid4 ref t).1
  unfolding resolve_or_create_organization
  resolve_or_create_organization-IsExtended ref t =
      let kept = find_organization-frozen ref t in
      elim (Option-cases (find_organization ref t).0) [
        | inr (org, e) ↦ rw (e, resolve_or_create_organization) (inl kept)
        | inl e ↦
            rw (e, resolve_or_create_organization)
              (IsExtended-same t (find_organization ref t).1 _ kept
                (try_create-IsExtended max_slug_attempts 0 ref (find_organization ref t).1))
      ]

  -- A group event keeps every row's key, slug and active flag too, whatever its name and path
  -- become, and adds at most one row, at the end, whose slug no other row has.
  pub sync_organization_from_group-IsExtended :
      (ref : GroupRef) (t : List Organization) (o : Option Organization) (t' : List Organization)
      → sync_organization_from_group slugify uuid4 ref t ≡ synced o t'
      → IsExtended t t'
  unfolding sync_organization_from_group
  sync_organization_from_group-IsExtended ref t o t' e =
      let (resolved, u) = resolve_or_create_organization slugify uuid4 ref t in
      let ext = resolve_or_create_organization-IsExtended ref t in
      elim (Option-cases resolved) [
        | inl none_left ↦
            let same : u ≡ t' = cc (rw (none_left, sync_organization_from_group) at e) in
            rw (sym same) ext
        | inr (org, found) ↦
            elim (Bool-cases
              (taken_path org (or_text (normalize_path ref.path) org.keycloak_group_path) u)) [
                | inl taken ↦ absurd (cc (rw (found, sync_organization_from_group, taken) at e))
                | inr free ↦
                    let saved = rw (found, sync_organization_from_group, free) at e in
                    IsExtended-renamed t u t' org (or_text (text_or_empty ref.name) org.name)
                      (or_text (normalize_path ref.path) org.keycloak_group_path) (cc saved) ext
              ]
      ]
