-- ===== src/Identity/Api/Isolation.antt =====
-- What a call of the membership API (apps/identity/views.py) can change.
use sgdy_pa_backend.Prelude.{
  ℕ, ◌==◌, ==_iff, ◌≡◌, refl, ◌∙◌, sym, subst, inl, inr, Bool, Bool-cases, true, false, Option,
  none, List, ◌∷◌, In, any, ◌↔◌, ap, any-false,
}
use sgdy_pa_backend.Prelude.Text.{Text}
use sgdy_pa_backend.Prelude.Json.{Json}
use sgdy_pa_backend.Identity.Models.{User, Membership}
use sgdy_pa_backend.Identity.Authorization.{Db, user_has_capability}
use sgdy_pa_backend.Identity.Authorization.Assignment.{linked}
use sgdy_pa_backend.Identity.Authorization.Decision.{IsUnique}
use sgdy_pa_backend.Identity.Authorization.Roles.{value, manage_memberships}
use sgdy_pa_backend.Identity.Api.{returned, MembershipCall, is_member, perform}
use sgdy_pa_backend.Identity.Api.Effects.{AddsMember, ChangesRoles, perform-effect, allowed}

-- A row of another user, or of another organization, is not one of them.
not_member :
    (n m : Membership) (ms : List Membership)
    → any (is_member n.organization_id n.user_id) ms ≡ false
    → In m ms
    → m.organization_id ≡ n.organization_id
    → m.user_id ≡ n.user_id
    → ⊥
not_member n m ms free there o u =
    let miss = any-false (is_member n.organization_id n.user_id) ms m free there in
    cc (
      rw ((==_iff m.organization_id n.organization_id).1 o, (==_iff m.user_id n.user_id).1 u) at
        miss)

IsUnique-new :
    (py_eq : Json → Json → Bool) (n : Membership) (ms : List Membership)
    → any (is_member n.organization_id n.user_id) ms ≡ false
    → IsUnique py_eq ms
    → IsUnique py_eq (n ∷ ms)
IsUnique-new py_eq n ms free u x y (inl ex) (inl ey) o same = ex ∙ sym ey
IsUnique-new py_eq n ms free u x y (inr mx) (inr my) o same = u x y mx my o same
IsUnique-new py_eq n ms free u x y (inl ex) (inr my) o same = absurd (
    not_member n y ms free my (sym o ∙ ap (λ r. r.organization_id) ex)
      (sym same ∙ ap (λ r. r.user_id) ex))
IsUnique-new py_eq n ms free u x y (inr mx) (inl ey) o same =
    absurd (
      not_member n x ms free mx (o ∙ ap (λ r. r.organization_id) ey)
        (same ∙ ap (λ r. r.user_id) ey))

module _ (py_eq : Json → Json → Bool) (parse_uuid : Text → Option ℕ) (new_id : List Membership → ℕ)
    (now user organization : ℕ) where
  -- What is kept of every other organization: its memberships, and their assignments.
  abbrev pub IsIsolated : Db → Db → Type 0
  IsIsolated db db' =
      (m : Membership)
      → (m.organization_id == organization) ≡ false
      → (In m db'.memberships ↔ In m db.memberships)
        × (In m db.memberships
            → (j : ℕ) → linked m.id j db'.membership_roles ≡ linked m.id j db.membership_roles)

  elsewhere :
      (m n : Membership)
      → n.organization_id ≡ organization
      → (m.organization_id == organization) ≡ false
      → m ≡ n
      → ⊥
  elsewhere m n here other same =
      cc
        ((==_iff m.organization_id organization).1 (ap (λ x. x.organization_id) same ∙ here), other)

  AddsMember-IsIsolated : (db db' : Db) → AddsMember organization db db' → IsIsolated db db'
  AddsMember-IsIsolated db db' (n, here, free, e) = subst (IsIsolated db) (sym e) (λ m other. (
    (
      λ there. elim there [ inl same ↦ absurd (elsewhere m n here other same) | inr old ↦ old ],
      inr,
    ),
    λ there j. refl,
  ))

  ChangesRoles-IsIsolated :
      (db db' : Db)
      → ((x y : Membership) → In x db.memberships → In y db.memberships → x.id ≡ y.id → x ≡ y)
      → ChangesRoles organization db db'
      → IsIsolated db db'
  ChangesRoles-IsIsolated db db' keyed (n, table, there, here, e, effect) =
      subst (IsIsolated db) (sym e) (λ m other. (
        (λ x. x, λ x. x),
        λ there' j. elim (Bool-cases (m.id == n.id)) [
          | inr differs ↦ effect m.id j differs
          | inl same ↦
              absurd (elsewhere m n here other (keyed m n there' there ((==_iff m.id n.id).0 same)))
        ],
      ))

  perform-IsUnique :
      (call : MembershipCall) (users : List User) (db db' : Db) (s : ℕ)
      → perform py_eq parse_uuid new_id now user organization call users db ≡ returned s db'
      → IsUnique py_eq db.memberships
      → IsUnique py_eq db'.memberships
  perform-IsUnique call users db db' s e u =
      let (may, effect) =
        perform-effect py_eq parse_uuid new_id now user organization call users db db' s e in
      elim effect [
        | inr (n, table, there, here, same, f) ↦
            subst (λ d. IsUnique py_eq d.memberships) (sym same) u
        | inl (n, here, free, same) ↦
            subst (λ d. IsUnique py_eq d.memberships) (sym same)
              (IsUnique-new py_eq n db.memberships (rw here free) u)
      ]

  -- Where memberships are told apart by their keys, and no user has two of one organization, a call that
  -- succeeds is by a user who may manage the memberships of the organization. It leaves the
  -- memberships of every other organization, and their roles, as they were, and the
  -- organizations and the roles themselves; and no user then has two memberships of one.
  pub perform-IsIsolated :
      (call : MembershipCall) (users : List User) (db db' : Db) (s : ℕ)
      → ((x y : Membership) → In x db.memberships → In y db.memberships → x.id ≡ y.id → x ≡ y)
      → IsUnique py_eq db.memberships
      → perform py_eq parse_uuid new_id now user organization call users db ≡ returned s db'
      → (user_has_capability py_eq now db user organization (value manage_memberships) none ≡ true)
        × IsIsolated db db'
        × IsUnique py_eq db'.memberships
        × (db'.organizations ≡ db.organizations)
        × (db'.roles ≡ db.roles)
  perform-IsIsolated call users db db' s keyed u e =
      let (may, effect) =
        perform-effect py_eq parse_uuid new_id now user organization call users db db' s e in
      let unique = perform-IsUnique call users db db' s e u in
      let able = allowed py_eq parse_uuid new_id now user organization db may in
      elim effect [
        | inl a ↦
            let (n, here, free, same) = a in
            (
              able,
              AddsMember-IsIsolated db db' a,
              unique,
              ap (λ d. d.organizations) same,
              ap (λ d. d.roles) same,
            )
        | inr c ↦
            let (n, table, there, here, same, f) = c in
            (
              able,
              ChangesRoles-IsIsolated db db' keyed c,
              unique,
              ap (λ d. d.organizations) same,
              ap (λ d. d.roles) same,
            )
      ]
