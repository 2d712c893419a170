-- ===== src/Identity/Authentication/Bearer.antt =====
-- Requests under the bearer middleware (apps/identity/middleware.py).
use sgdy_pa_backend.Prelude.{
  ◌≡◌, ◌⊎◌, inl, inr, refl, Bool, Bool-cases, Option-cases, true, false, some, List, [], ◌∷◌, find,
  update_where, ◌∙◌, ap,
}
use sgdy_pa_backend.Prelude.Text.{Text, lit, truthy}
use sgdy_pa_backend.Prelude.Json.{Fields}
use sgdy_pa_backend.Identity.Models.{User}
use sgdy_pa_backend.Identity.Projection.{
  ProjectionAttributes, Column, apply_projection, from_claims, save_columns,
}
use sgdy_pa_backend.Identity.Projection.Users.{
  Upserted, ok, integrity_error, has_sub, project, save_if_changed, collides, same_row,
}
use sgdy_pa_backend.Platform.Http.{HttpRequest, responded, raised}
use sgdy_pa_backend.Platform.Middleware.{Context, Handler, header_or_empty}
use sgdy_pa_backend.Identity.Authentication.{
  BearerError, bearer_error, Extracted, no_token, missing_token, token, extract_bearer_token,
  config_from_settings, OidcSettings, Accounts, Authenticated, signed_in, rejected, crashed, Login,
  valid, subject_of, validate, sync_user_organizations, resolve_user_from_claims,
  authenticate_bearer_token, challenge, bearer_middleware, none,
}

-- The save of a row fails only for a username that another row has.
save_if_changed_cases :
    (c : Bool) (u u' : User) (cs : List Column) (t : List User)
    → ((p : Upserted) × (save_if_changed c u u' cs t ≡ ok p) × (p.user ≡ u'))
      ⊎ ((save_if_changed c u u' cs t ≡ integrity_error) × (collides u' t ≡ true))
unfolding save_if_changed
save_if_changed_cases c u u' [] t =
    inl (record { user = u'; created = c; changed = []; table = t }, refl, refl)
save_if_changed_cases c u u' (x ∷ cs) t = elim (Bool-cases (collides u' t)) [
  | inl clash ↦ inr (rw clash refl, clash)
  | inr free ↦ inl (
    record {
      user = u';
      created = c;
      changed = x ∷ cs;
      table = update_where (same_row u) (save_columns u' (x ∷ cs)) t;
    },
    rw free refl,
    refl,
  )
]

project_cases :
    (a : ProjectionAttributes) (c : Bool) (u : User) (t : List User)
    → ((p : Upserted) × (project a c u t ≡ ok p) × (p.user ≡ (apply_projection u a).0))
      ⊎ ((project a c u t ≡ integrity_error) × (collides (apply_projection u a).0 t ≡ true))
unfolding project
project_cases a c u t =
    save_if_changed_cases c u (apply_projection u a).0 (apply_projection u a).1 t

Extracted-cases :
    (e : Extracted) → (e ≡ no_token) ⊎ ((e ≡ missing_token) ⊎ ((t : Text) × (e ≡ token t)))
Extracted-cases no_token = inl refl
Extracted-cases missing_token = inr (inl refl)
Extracted-cases (token t) = inr (inr (t, refl))

-- The settings are missing.
abbrev unconfigured : BearerError
unconfigured = record {
  status_code = 503;
  detail = lit "KEYCLOAK_OIDC requires ISSUER, AUDIENCE, and JWKS_URL.";
}

module _ (x : Login) where
  -- The token decodes under the settings to these claims.
  abbrev pub IsDecoded : (t : Text) → Fields → Type 0
  IsDecoded t claims =
      (config : OidcSettings) × (config_from_settings x.settings ≡ some config)
      × (x.decode config t ≡ some claims)

  -- The claims name the subject of this row.
  abbrev pub IsSubject : Accounts → Fields → User → Type 0
  IsSubject st claims row =
      (truthy (subject_of claims) ≡ true) × (find (has_sub (subject_of claims)) st.users ≡ some row)

  -- Why a token is not accepted, and with which answer.
  abbrev pub IsRejected : (t : Text) → Accounts → BearerError → Type 0
  IsRejected t st e =
      ((config_from_settings x.settings ≡ none) × (e ≡ unconfigured))
      ⊎ (((config : OidcSettings) × (config_from_settings x.settings ≡ some config)
            × (x.decode config t ≡ none)
            × (e ≡ bearer_error (lit "Invalid bearer token.")))
          ⊎ ((claims : Fields) × IsDecoded t claims
              × (((truthy (subject_of claims) ≡ false)
                    × (e ≡ bearer_error (lit "Bearer token is missing sub.")))
                  ⊎ (((truthy (subject_of claims) ≡ true)
                        × (find (has_sub (subject_of claims)) st.users ≡ none)
                        × (e
                            ≡ bearer_error
                                (lit "No local user projection exists for the token subject.")))
                      ⊎ ((row : User) × IsSubject st claims row
                          × (row.is_active ≡ false)
                          × (e ≡ bearer_error (lit "Local user projection is inactive.")))))))

  -- The token is accepted: the user is the subject's active row with the columns of the claims, the
  -- table of users is that of the projection's save, and the other tables are those that the
  -- replication of the claims leaves.
  abbrev pub IsSignedIn : (t : Text) → Accounts → User → Fields → Accounts → Type 0
  IsSignedIn t st user claims st' =
      (row : User) × (p : Upserted) × IsDecoded t claims
      × IsSubject st claims row
      × (row.is_active ≡ true)
      × (project (from_claims claims) false row st.users ≡ ok p)
      × (user ≡ (apply_projection row (from_claims claims)).0)
      × (st' ≡ record { users = p.table; db = sync_user_organizations x user claims st.db })

  -- The username of the claims is that of another row.
  abbrev pub IsCrash : (t : Text) → Accounts → Type 0
  IsCrash t st =
      (claims : Fields) × (row : User) × IsDecoded t claims
      × IsSubject st claims row
      × (row.is_active ≡ true)
      × (collides (apply_projection row (from_claims claims)).0 st.users ≡ true)

  -- What resolving the claims of a named subject gives, and when.
  resolve_cases :
      (claims : Fields) (st : Accounts)
      → truthy (subject_of claims) ≡ true
      → ((e : BearerError) × (((truthy (subject_of claims) ≡ true)
              × (find (has_sub (subject_of claims)) st.users ≡ none)
              × (e ≡ bearer_error (lit "No local user projection exists for the token subject.")))
            ⊎ ((row : User) × IsSubject st claims row
                × (row.is_active ≡ false)
                × (e ≡ bearer_error (lit "Local user projection is inactive."))))
          × (resolve_user_from_claims x claims st ≡ rejected e))
        ⊎ (((row : User) × (find (has_sub (subject_of claims)) st.users ≡ some row)
              × (row.is_active ≡ true)
              × (collides (apply_projection row (from_claims claims)).0 st.users ≡ true)
              × (resolve_user_from_claims x claims st ≡ crashed))
            ⊎ ((row : User) × (p : Upserted) × (find (has_sub (subject_of claims)) st.users
                  ≡ some row)
                × (row.is_active ≡ true)
                × (project (from_claims claims) false row st.users ≡ ok p)
                × (resolve_user_from_claims x claims st
                    ≡ signed_in (apply_projection row (from_claims claims)).0 claims (record {
                      users = p.table;
                      db =
                          sync_user_organizations x
                            (apply_projection row (from_claims claims)).0
                            claims
                            st.db;
                    }))))
  unfolding resolve_user_from_claims
  resolve_cases claims st named =
      elim (Option-cases (find (has_sub (subject_of claims)) st.users)) [
        | inl f ↦ inl (
          bearer_error (lit "No local user projection exists for the token subject."),
          inl (named, f, refl),
          rw (resolve_user_from_claims, named, f) refl,
        )
        | inr (row, f) ↦ elim (Bool-cases row.is_active) [
          | inr idle ↦ inl (
            bearer_error (lit "Local user projection is inactive."),
            inr (row, (named, f), idle, refl),
            rw (resolve_user_from_claims, named, f, idle) refl,
          )
          | inl act ↦ elim (project_cases (from_claims claims) false row st.users) [
            | inl (p, g, is_user) ↦ inr (
                inr (
                  row,
                  p,
                  f,
                  act,
                  g,
                  let signed : resolve_user_from_claims x claims st
                          ≡ signed_in p.user claims (record {
                            users = p.table;
                            db = sync_user_organizations x p.user claims st.db;
                          }) =
                        rw (resolve_user_from_claims, named, f, g, act) refl in
                      signed
                      ∙ ap
                          (λ w. signed_in w claims (record {
                            users = p.table;
                            db = sync_user_organizations x w claims st.db;
                          }))
                          is_user,
                ))
            | inr (g, clash) ↦
                inr (inl (row, f, act, clash, rw (resolve_user_from_claims, named, f, g, act) refl))
          ]
        ]
      ]

  authenticate_cases :
      (t : Text) (st : Accounts)
      → ((e : BearerError) × IsRejected t st e × (authenticate_bearer_token x t st ≡ rejected e))
        ⊎ ((IsCrash t st × (authenticate_bearer_token x t st ≡ crashed))
            ⊎ ((user : User) × (claims : Fields) × (st' : Accounts) × IsSignedIn t st user claims
                  st'
                × (authenticate_bearer_token x t st ≡ signed_in user claims st')))
  unfolding authenticate_bearer_token validate resolve_user_from_claims
  authenticate_cases t st = elim (Option-cases (config_from_settings x.settings)) [
    | inl f ↦ inl (unconfigured, inl (f, refl), rw (authenticate_bearer_token, validate, f) refl)
    | inr (config, f) ↦ elim (Option-cases (x.decode config t)) [
      | inl g ↦ inl (
        bearer_error (lit "Invalid bearer token."),
        inr (inl (config, f, g, refl)),
        rw (authenticate_bearer_token, validate, f, g) refl,
      )
      | inr (claims, g) ↦
          let decoded : IsDecoded t claims = (config, f, g) in
          elim (Bool-cases (truthy (subject_of claims))) [
            | inr empty ↦ inl (
              bearer_error (lit "Bearer token is missing sub."),
              inr (inr (claims, decoded, inl (empty, refl))),
              rw (authenticate_bearer_token, validate, f, g, empty) refl,
            )
            | inl named ↦
                let v : validate x t ≡ valid claims = rw (validate, f, g, named) refl in
                elim (resolve_cases claims st named) [
                  | inl (e, why, r) ↦ inl (
                    e,
                    inr (inr (claims, decoded, inr why)),
                    rw (authenticate_bearer_token, v, r) refl,
                  )
                  | inr (inl (row, found, act, clash, r)) ↦ inr (
                      inl (
                        (claims, row, decoded, (named, found), act, clash),
                        rw (authenticate_bearer_token, v, r) refl,
                      ))
                  | inr (inr (row, p, found, act, g, r)) ↦ inr (
                      inr (
                        (apply_projection row (from_claims claims)).0,
                        claims,
                        record {
                          users = p.table;
                          db =
                              sync_user_organizations x
                                (apply_projection row (from_claims claims)).0 claims st.db;
                        },
                        (row, p, decoded, (named, found), act, g, refl, refl),
                        rw (authenticate_bearer_token, v, r) refl,
                      ))
                ]
          ]
    ]
  ]

  -- A request without a bearer token goes on as it came, and an empty token is answered with the
  -- challenge, with status 401. A token that the settings or the decoder do not accept, or that
  -- names no active row, is answered with the challenge of that reason, with status 401, or 503 where
  -- the settings are missing, and nothing changes. A token whose claims have the username of another
  -- row raises. Any other goes on as the row of its subject with the columns of the claims, on the
  -- tables of the projection and the replication of the claims.
  pub bearer_middleware_cases :
      (get_response : Handler Accounts) (ctx : Context) (req : HttpRequest) (st : Accounts)
      → ((extract_bearer_token (header_or_empty req.authorization) ≡ no_token)
          × (bearer_middleware x get_response ctx req st ≡ get_response ctx req st))
        ⊎ (((extract_bearer_token (header_or_empty req.authorization) ≡ missing_token)
              × (bearer_middleware x get_response ctx req st
                  ≡ responded (challenge (bearer_error (lit "Bearer token is missing."))) st))
            ⊎ ((t : Text) × (extract_bearer_token (header_or_empty req.authorization) ≡ token t)
                × (((e : BearerError) × IsRejected t st e
                      × (bearer_middleware x get_response ctx req st ≡ responded (challenge e) st))
                    ⊎ ((IsCrash t st × (bearer_middleware x get_response ctx req st ≡ raised))
                        ⊎ ((user : User) × (claims : Fields) × (st' : Accounts) × IsSignedIn t st
                              user claims st'
                            × (bearer_middleware x get_response ctx req st
                                ≡ get_response
                                    (record ctx { user = some user; keycloak_claims = some claims })
                                    req
                                    st'))))))
  unfolding bearer_middleware
  bearer_middleware_cases get_response ctx req st =
      elim (Extracted-cases (extract_bearer_token (header_or_empty req.authorization))) [
        | inl e ↦ inl (e, rw (bearer_middleware, e) refl)
        | inr (inl e) ↦ inr (inl (e, rw (bearer_middleware, e) refl))
        | inr (inr (t, e)) ↦ inr (
            inr (
              t,
              e,
              elim (authenticate_cases t st) [
                | inl (bad, why, a) ↦ inl (bad, why, rw (bearer_middleware, e, a) refl)
                | inr (inl (crash, a)) ↦ inr (inl (crash, rw (bearer_middleware, e, a) refl))
                | inr (inr (user, claims, st', done, a)) ↦
                    inr (inr (user, claims, st', done, rw (bearer_middleware, e, a) refl))
              ],
            ))
      ]

  Authenticated-cases :
      (a : Authenticated)
      → ((e : BearerError) × (a ≡ rejected e))
        ⊎ ((a ≡ crashed)
            ⊎ ((user : User) × (claims : Fields) × (st : Accounts) × (a
                  ≡ signed_in user claims st)))
  Authenticated-cases (rejected e) = inl (e, refl)
  Authenticated-cases crashed = inr (inl refl)
  Authenticated-cases (signed_in user claims st) = inr (inr (user, claims, st, refl))

  -- The middleware does the same with handlers that do the same.
  pub bearer_same :
      (g h : Handler Accounts)
      → ((ctx : Context) (req : HttpRequest) (st : Accounts) → g ctx req st ≡ h ctx req st)
      → (ctx : Context) (req : HttpRequest) (st : Accounts)
      → bearer_middleware x g ctx req st ≡ bearer_middleware x h ctx req st
  unfolding bearer_middleware
  bearer_same g h same ctx req st =
      elim (Extracted-cases (extract_bearer_token (header_or_empty req.authorization))) [
        | inl e ↦ rw (bearer_middleware, e) (same ctx req st)
        | inr (inl e) ↦ rw (bearer_middleware, e) refl
        | inr (inr (t, e)) ↦ elim (Authenticated-cases (authenticate_bearer_token x t st)) [
          | inl (bad, a) ↦ rw (bearer_middleware, e, a) refl
          | inr (inl a) ↦ rw (bearer_middleware, e, a) refl
          | inr (inr (user, claims, st', a)) ↦
              rw (bearer_middleware, e, a)
                (same (record ctx { user = some user; keycloak_claims = some claims }) req st')
        ]
      ]
