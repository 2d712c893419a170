-- ===== src/Platform/Idempotency/Scope.antt =====
-- Keys of different organizations (apps/platform/idempotency.py).
use sgdy_pa_backend.Prelude.{
  ℕ, ◌==◌, ◌≡◌, ◌⊎◌, inl, inr, refl, sym, ap, ◌∙◌, Bool, Bool-cases, Option-cases, false, Option,
  none, some, List, [], ◌∷◌, find, select, any, arith,
}
use sgdy_pa_backend.Prelude.Text.{Text, lit, text_eq, truthy}
use sgdy_pa_backend.Platform.Http.{HttpRequest, HttpResponse, Outcome, responded, raised}
use sgdy_pa_backend.Platform.Idempotency.{
  IdempotencyRecord, Store, has_key, raw_key_of, is_same_request, run_keyed,
  require_idempotency_key,
}

-- The answer of a request, and what it leaves of the rest of the state.
abbrev pub answer_of : {W : Type 0} → Outcome (Store W) → Option (HttpResponse × W)
answer_of raised = none
answer_of (responded r st) = some (r, st.world)

-- The records after a request; an exception rolls them back.
abbrev pub records_after : {W : Type 0} → Store W → Outcome (Store W) → List IdempotencyRecord
records_after st raised = st.records
records_after st (responded r st') = st'.records

abbrev pub of_scope : ℕ → List IdempotencyRecord → List IdempotencyRecord
of_scope o = select (λ r. r.organization_id == o)

-- No two records with one organization and one key.
abbrev pub IsUnique : List IdempotencyRecord → Type 0
IsUnique [] = Unit
IsUnique (r ∷ rest) = (any (has_key r.organization_id r.key) rest ≡ false) × IsUnique rest

find-of_scope :
    (o k : ℕ) (t : List IdempotencyRecord)
    → find (has_key o k) (of_scope o t) ≡ find (has_key o k) t
find-of_scope o k [] = refl
find-of_scope o k (r ∷ t) = ground (arith, find-of_scope o k t)

find_same :
    (o k : ℕ) (t u : List IdempotencyRecord)
    → of_scope o t ≡ of_scope o u
    → find (has_key o k) t ≡ find (has_key o k) u
find_same o k t u e = sym (find-of_scope o k t) ∙ ap (find (has_key o k)) e ∙ find-of_scope o k u

any_of_find :
    (o k : ℕ) (t : List IdempotencyRecord)
    → find (has_key o k) t ≡ none
    → any (has_key o k) t ≡ false
any_of_find o k [] e = refl
any_of_find o k (r ∷ t) e = ground (arith, any_of_find o k t)

module _ (sensitive : Text → Bool) (parse_uuid : Text → Option ℕ) {W : Type 0}
    (view : HttpRequest → W → Outcome W) where
  Outcome-cases :
      (w : Outcome W) → (w ≡ raised) ⊎ ((r : HttpResponse) × (w' : W) × (w ≡ responded r w'))
  Outcome-cases raised = inl refl
  Outcome-cases (responded r w') = inr (r, w', refl)

  -- What a keyed request leaves alone, and keeps unique.
  abbrev pub IsScoped : (organization : ℕ) → Store W → Outcome (Store W) → Type 0
  IsScoped o st out =
      ((o' : ℕ) → (o == o') ≡ false → of_scope o' (records_after st out) ≡ of_scope o' st.records)
      × IsUnique (records_after st out)

  run_keyed-IsScoped :
      (o k : ℕ) (req : HttpRequest) (st : Store W)
      → IsUnique st.records
      → IsScoped o st (run_keyed sensitive parse_uuid view o k req st)
  unfolding run_keyed
  run_keyed-IsScoped o k req st u = elim (Option-cases (find (has_key o k) st.records)) [
    | inr (r, e) ↦ elim (Bool-cases (is_same_request req r)) [
      | inl same ↦ rw (e, same, run_keyed) ((λ o' other. refl), u)
      | inr differs ↦ rw (e, differs, run_keyed) ((λ o' other. refl), u)
    ]
    | inl e ↦ elim (Outcome-cases (view req st.world)) [
      | inl fails ↦ rw (e, fails, run_keyed) ((λ o' other. refl), u)
      | inr (r, w, answers) ↦
          rw (e, answers, run_keyed)
            ((λ o' other. rw other refl), (any_of_find o k st.records e, u))
    ]
  ]

  run_keyed_same :
      (o k : ℕ) (req : HttpRequest) (st st' : Store W)
      → st.world ≡ st'.world
      → of_scope o st.records ≡ of_scope o st'.records
      → answer_of (run_keyed sensitive parse_uuid view o k req st)
        ≡ answer_of (run_keyed sensitive parse_uuid view o k req st')
  unfolding run_keyed
  run_keyed_same o k req st st' ew er =
      let e = find_same o k st.records st'.records er in
      elim (Option-cases (find (has_key o k) st'.records)) [
        | inr (r, f) ↦ elim (Bool-cases (is_same_request req r)) [
          | inl same ↦ rw (run_keyed, e, f, same) (rw ew refl)
          | inr differs ↦ rw (run_keyed, e, f, differs) (rw ew refl)
        ]
        | inl f ↦ elim (Outcome-cases (view req st'.world)) [
          | inl fails ↦ rw (run_keyed, e, f, ew, fails) refl
          | inr (r, w, answers) ↦ rw (run_keyed, e, f, ew, answers) refl
        ]
      ]

  -- Where no two records share organization and key, a request under one organization leaves the
  -- records of every other as they were, and that still holds; its answer depends on the
  -- records of its own organization alone.
  pub require_idempotency_key-IsScoped :
      (o : ℕ) (req : HttpRequest) (st st' : Store W)
      → st.world ≡ st'.world
      → of_scope o st.records ≡ of_scope o st'.records
      → IsUnique st.records
      → IsScoped o st (require_idempotency_key sensitive parse_uuid view o req st)
        × (answer_of (require_idempotency_key sensitive parse_uuid view o req st)
            ≡ answer_of (require_idempotency_key sensitive parse_uuid view o req st'))
  unfolding require_idempotency_key
  require_idempotency_key-IsScoped o req st st' ew er u =
      elim (Bool-cases (text_eq req.method (lit "POST"))) [
        | inr other ↦ elim (Outcome-cases (view req st'.world)) [
          | inl fails ↦ rw (require_idempotency_key, other, ew, fails) (((λ o' _. refl), u), refl)
          | inr (r, w, answers) ↦
              rw (require_idempotency_key, other, ew, answers) (((λ o' _. refl), u), refl)
        ]
        | inl post ↦ elim (Bool-cases (truthy (raw_key_of req))) [
          | inr absent ↦
              rw (require_idempotency_key, post, absent) (((λ o' _. refl), u), rw ew refl)
          | inl given ↦ elim (Option-cases (parse_uuid (raw_key_of req))) [
            | inl bad ↦
                rw (require_idempotency_key, post, given, bad) (((λ o' _. refl), u), rw ew refl)
            | inr (k, parsed) ↦
                rw (require_idempotency_key, post, given, parsed)
                  (run_keyed-IsScoped o k req st u, run_keyed_same o k req st st' ew er)
          ]
        ]
      ]
