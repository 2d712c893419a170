-- ===== src/Identity/Authorization/Decision.antt =====
-- What an access decision (apps/identity/authorization.py) means: `membership_has_capability` and
-- `user_has_capability` against a description that does not mention how they compute.
use sgdy_pa_backend.Prelude.{
  ℕ, ◌==◌, ◌≡◌, ◌≢◌, ◌↔◌, ◌⊎◌, inl, inr, refl, subst, Bool, Bool-cases, true, ◌&&◌, Option,
  Option-cases, none, some, List, In, any, any-holds, any_of_in, in-find, find_of_in, find-holds,
  arith,
}
use sgdy_pa_backend.Prelude.Text.{Text, lit, text_eq, text_eq_iff}
use sgdy_pa_backend.Prelude.Json.{Json, arr, Items, nil, cons, Fields, end, field}
use sgdy_pa_backend.Identity.Models.{Role, Membership}
use sgdy_pa_backend.Identity.Authorization.{
  Db, ok, authorization_error, is_active_in, roles_of, contains, is_third_party_read, get_or_null,
  item_in, allows_value, allows_items, scope_allows, membership_has_capability, active_membership,
  user_has_capability, require_capability,
}
use sgdy_pa_backend.Identity.Authorization.Usable.{
  IsUsable, IsAssigned, is_active_in_iff, roles_of_iff, contains_iff,
}
use sgdy_pa_backend.Identity.Authorization.Roles.{Capability, value}

is_third_party_read_iff :
    (roles : List Role) (requested : Text)
    → (is_third_party_read roles requested ≡ true)
      ↔ ((requested ≡ value Capability.read) × ((r : Role) × In r roles × (r.code ≡ lit "P7")))
unfolding is_third_party_read
is_third_party_read_iff roles requested = (to, from)
  where
    is_p7 : Role → Bool
    is_p7 r = text_eq r.code (lit "P7")

    to :
        is_third_party_read roles requested ≡ true
        → (requested ≡ value Capability.read) × ((r : Role) × In r roles × (r.code ≡ lit "P7"))
    to e =
        let (r, there, p7) = any-holds is_p7 roles (ground arith) in
        (
          (text_eq_iff requested (value Capability.read)).0 (ground arith),
          (r, there, (text_eq_iff r.code (lit "P7")).0 p7),
        )

    from :
        (requested ≡ value Capability.read) × ((r : Role) × In r roles × (r.code ≡ lit "P7"))
        → is_third_party_read roles requested ≡ true
    from (e, (r, there, p7)) =
        rw
          (
            (text_eq_iff requested (value Capability.read)).1 e,
            any_of_in is_p7 roles r there ((text_eq_iff r.code (lit "P7")).1 p7),
          )
          refl

module _ (py_eq : Json → Json → Bool) where
  -- An item of the list equals the value.
  abbrev pub HasEqual : Json → Items → Type 0
  HasEqual v nil = ⊥
  HasEqual v (cons x xs) = (py_eq x v ≡ true) ⊎ HasEqual v xs

  -- A list admits what equals one of its items, any other value what equals itself.
  abbrev pub Admits : Json → Json → Type 0
  Admits (arr items) requested = HasEqual requested items
  Admits allowed requested = py_eq allowed requested ≡ true

  -- Each key of the requested scope is admitted.
  abbrev pub Covers : Fields → Fields → Type 0
  Covers scope end = Unit
  Covers scope (field k requested rest) = Admits (get_or_null k scope) requested × Covers scope rest

  abbrev pub ScopeCovers : Fields → Option Fields → Type 0
  ScopeCovers scope none = scope ≢ end
  ScopeCovers scope (some items) = (scope ≢ end) × Covers scope items

  item_in_iff : (v : Json) (items : Items) → (item_in py_eq v items ≡ true) ↔ HasEqual v items
  unfolding item_in
  item_in_iff v nil = ground arith
  item_in_iff v (cons x xs) = ground (arith, item_in_iff v xs)

  allows_value_iff : (a v : Json) → (allows_value py_eq a v ≡ true) ↔ Admits a v
  unfolding allows_value
  allows_value_iff (arr items) v = item_in_iff v items
  allows_value_iff _ v = (λ e. e, λ e. e)

  allows_items_iff :
      (scope items : Fields) → (allows_items py_eq scope items ≡ true) ↔ Covers scope items
  unfolding allows_items
  allows_items_iff scope end = ground arith
  allows_items_iff scope (field k v rest) =
      ground (arith, allows_value_iff (get_or_null k scope) v, allows_items_iff scope rest)

  pub scope_allows_iff :
      (scope : Fields) (o : Option Fields)
      → (scope_allows py_eq scope o ≡ true) ↔ ScopeCovers scope o
  unfolding scope_allows
  scope_allows_iff end none = ground arith
  scope_allows_iff end (some items) = ground arith
  scope_allows_iff (field k v rest) none = ground arith
  scope_allows_iff (field k v rest) (some items) =
      ground (arith, allows_items_iff (field k v rest) items)

  -- Who may do what: the membership is usable, it holds a role with the capability, and a read by
  -- a holder of the role P7 (external auditor) stays within the scope of the invitation.
  pub record IsGranted (now : ℕ) (db : Db) (m : Membership) (requested : Text)
      (object_scope : Option Fields) : Type 0 where
    pub usable : IsUsable now db.organizations m
    pub role : Role
    pub assigned : IsAssigned db m role
    pub capable : In requested role.capabilities
    pub confined :
        requested ≡ value Capability.read
        → (r : Role) → IsAssigned db m r
        → r.code ≡ lit "P7"
        → ScopeCovers m.scope object_scope

  module _ (now : ℕ) (db : Db) (m : Membership) (requested : Text)
      (object_scope : Option Fields) where
    capable : Role → Bool
    capable r = contains requested r.capabilities

    IsGranted-of_true :
        membership_has_capability py_eq now db m requested object_scope ≡ true
        → IsGranted now db m requested object_scope
    unfolding membership_has_capability capable
    IsGranted-of_true e =
        let act : is_active_in now db.organizations m ≡ true = ground arith in
        let held : any capable (roles_of m db) ≡ true = ground arith in
        let (r, there, has) = any-holds capable (roles_of m db) held in
        record {
          usable = (is_active_in_iff now db.organizations m).0 act;
          role = r;
          assigned = (roles_of_iff db m r).0 there;
          capable = (contains_iff requested r.capabilities).0 has;
          confined = λ is_read p7 has_p7 coded.
              let third : is_third_party_read (roles_of m db) requested ≡ true =
                (is_third_party_read_iff (roles_of m db) requested).1
                  (is_read, (p7, (roles_of_iff db m p7).1 has_p7, coded)) in
              (scope_allows_iff m.scope object_scope).0 (ground arith);
        }

    true_of_granted :
        IsGranted now db m requested object_scope
        → membership_has_capability py_eq now db m requested object_scope ≡ true
    unfolding membership_has_capability capable
    true_of_granted g =
        let act : is_active_in now db.organizations m ≡ true =
          (is_active_in_iff now db.organizations m).1 g.usable in
        let held : any capable (roles_of m db) ≡ true =
          any_of_in capable (roles_of m db) g.role ((roles_of_iff db m g.role).1 g.assigned)
            ((contains_iff requested g.role.capabilities).1 g.capable) in
        elim (Bool-cases (is_third_party_read (roles_of m db) requested)) [
          | inl third ↦
              let (is_read, (p7, there, coded)) =
                (is_third_party_read_iff (roles_of m db) requested).0 third in
              let within : scope_allows py_eq m.scope object_scope ≡ true =
                (scope_allows_iff m.scope object_scope).1
                  (g.confined is_read p7 ((roles_of_iff db m p7).0 there) coded) in
              ground arith
          | inr other ↦ ground arith
        ]

    -- A membership has a capability exactly when it is usable, holds a role that carries it, and, if
    -- it is a read by a holder of P7, the object lies within the invitation's scope.
    pub membership_has_capability_iff :
        (membership_has_capability py_eq now db m requested object_scope ≡ true)
        ↔ IsGranted now db m requested object_scope
    membership_has_capability_iff = (IsGranted-of_true, true_of_granted)

  -- The unique constraint on organization and user.
  abbrev pub IsUnique : List Membership → Type 0
  IsUnique ms =
      (m m' : Membership)
      → In m ms
      → In m' ms
      → m.organization_id ≡ m'.organization_id
      → m.user_id ≡ m'.user_id
      → m ≡ m'

  -- The user has, in that very organization, a membership that is granted the request.
  abbrev pub Permits : (now : ℕ) → Db → (user org : ℕ) → Text → Option Fields → Type 0
  Permits now db user org requested object_scope =
      (m : Membership) × In m db.memberships
      × (m.user_id ≡ user)
      × (m.organization_id ≡ org)
      × IsGranted now db m requested object_scope

  module _ (now : ℕ) (db : Db) (user org : ℕ) (requested : Text) (object_scope : Option Fields)
      (unique : IsUnique db.memberships) where
    sought : Membership → Bool
    sought m =
        is_active_in now db.organizations m && (m.user_id == user && (m.organization_id == org))

    permitted_of_true :
        user_has_capability py_eq now db user org requested object_scope ≡ true
        → Permits now db user org requested object_scope
    unfolding user_has_capability active_membership sought
    permitted_of_true e = elim (Option-cases (active_membership now db user org)) [
      | inl missing ↦ cc (rw (missing, user_has_capability) at e)
      | inr (m, found) ↦
          let hit : sought m ≡ true = find-holds sought db.memberships found in
          (
            m,
            in-find sought db.memberships m found,
            ground arith,
            ground arith,
            (membership_has_capability_iff now db m requested object_scope).0
                (rw (found, user_has_capability) at e),
          )
    ]

    true_of_permitted :
        Permits now db user org requested object_scope
        → user_has_capability py_eq now db user org requested object_scope ≡ true
    unfolding user_has_capability active_membership sought
    true_of_permitted (m, there, same_user, same_org, granted) =
        let (m', found) =
          find_of_in sought db.memberships m there
            (rw ((is_active_in_iff now db.organizations m).1 granted.usable) (ground arith)) in
        let hit : sought m' ≡ true = find-holds sought db.memberships found in
        let same : m ≡ m' =
          unique m m' there (in-find sought db.memberships m' found) (ground arith)
            (ground arith) in
        rw (found, user_has_capability)
          ((membership_has_capability_iff now db m' requested object_scope).1
            (subst (λ x. IsGranted now db x requested object_scope) same granted))

    -- Where no two memberships share organization and user, a user has a capability in an
    -- organization exactly when a membership of that user in that organization is granted it.
    pub user_has_capability_iff :
        (user_has_capability py_eq now db user org requested object_scope ≡ true)
        ↔ Permits now db user org requested object_scope
    user_has_capability_iff = (permitted_of_true, true_of_permitted)

    -- Under the same condition `require_capability` passes a request that is permitted, and raises
    -- on any other.
    pub require_capability_cases :
        ((require_capability py_eq now db user org requested object_scope ≡ ok tt)
          × Permits now db user org requested object_scope)
        ⊎ ((require_capability py_eq now db user org requested object_scope ≡ authorization_error)
            × ¬ (Permits now db user org requested object_scope))
    unfolding require_capability
    require_capability_cases =
        elim (Bool-cases (user_has_capability py_eq now db user org requested object_scope)) [
          | inl has ↦ inl (rw has refl, permitted_of_true has)
          | inr lacks ↦ inr (rw lacks refl, λ p. cc (true_of_permitted p))
        ]
