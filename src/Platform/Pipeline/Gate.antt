-- ===== src/Platform/Pipeline/Gate.antt =====
-- The contexts in which a view runs behind the middleware (apps/platform/middleware.py,
-- apps/identity/middleware.py).
use sgdy_pa_backend.Prelude.{
  ℕ, ◌≡◌, ◌⊎◌, inl, inr, refl, Bool-cases, Option-cases, true, Option, none, some,
}
use sgdy_pa_backend.Prelude.Text.{Text, truthy}
use sgdy_pa_backend.Identity.Models.{User}
use sgdy_pa_backend.Platform.Http.{HttpRequest}
use sgdy_pa_backend.Platform.Tenancy.{
  has_organization_membership, principal_of, user_has_organization_membership,
}
use sgdy_pa_backend.Platform.Middleware.{
  Context, Handler, is_exempt, header_or_empty, request_id_of, request_id_middleware,
  tenant_context_middleware,
}
use sgdy_pa_backend.Identity.Authentication.{Accounts, Login}
use sgdy_pa_backend.Identity.Authentication.Bearer.{bearer_same}
use sgdy_pa_backend.Platform.Pipeline.{pipeline}

-- No user is signed in; or the path needs no organization; or the organization is the header's, and
-- the user is an active member of it.
abbrev pub IsAdmitted :
    (parse_uuid : Text → Option ℕ) → (now : ℕ) → Context → HttpRequest → Accounts → Type 0
IsAdmitted parse_uuid now ctx req st =
    (ctx.user ≡ none)
    ⊎ ((is_exempt req.path ≡ true)
        ⊎ ((user : User) × (o : ℕ) × (ctx.user ≡ some user)
            × (ctx.organization ≡ some o)
            × (parse_uuid (header_or_empty req.organization_header) ≡ some o)
            × (has_organization_membership now st.db user.id o ≡ true)))

module _ (parse_uuid : Text → Option ℕ) (x : Login) (v w : Handler Accounts)
    (agree : (ctx : Context) (req : HttpRequest) (st : Accounts)
      → IsAdmitted parse_uuid x.now ctx req st
      → v ctx req st ≡ w ctx req st) where
  tenant_same :
      (ctx : Context) (req : HttpRequest) (st : Accounts)
      → tenant_context_middleware parse_uuid (λ user s. principal_of x.now s.db user) v ctx req st
        ≡ tenant_context_middleware parse_uuid (λ user s. principal_of x.now s.db user) w ctx req st
  unfolding tenant_context_middleware user_has_organization_membership principal_of
  tenant_same ctx req st = elim (Option-cases ctx.user) [
    | inl e ↦ rw (tenant_context_middleware, e) (agree ctx req st (inl e))
    | inr (user, e) ↦ elim (Bool-cases (is_exempt req.path)) [
      | inl free ↦ rw (tenant_context_middleware, e, free) (agree ctx req st (inr (inl free)))
      | inr bound ↦ elim (Bool-cases (truthy (header_or_empty req.organization_header))) [
        | inr absent ↦ rw (tenant_context_middleware, e, bound, absent) refl
        | inl given ↦ elim (Option-cases (parse_uuid (header_or_empty req.organization_header))) [
          | inl bad ↦ rw (tenant_context_middleware, e, bound, given, bad) refl
          | inr (o, f) ↦ elim (Bool-cases (has_organization_membership x.now st.db user.id o)) [
            | inr out ↦ rw (tenant_context_middleware, e, bound, given, f, out) refl
            | inl member ↦
                rw (tenant_context_middleware, e, bound, given, f, member)
                  (agree (record ctx { organization = some o }) req st
                    (inr (inr (user, o, e, refl, f, member))))
          ]
        ]
      ]
    ]
  ]

  request_id_same :
      (fresh : Text) (g h : Handler Accounts)
      → ((ctx : Context) (req : HttpRequest) (st : Accounts) → g ctx req st ≡ h ctx req st)
      → (ctx : Context) (req : HttpRequest) (st : Accounts)
      → request_id_middleware fresh g ctx req st ≡ request_id_middleware fresh h ctx req st
  unfolding request_id_middleware
  request_id_same fresh g h same ctx req st =
      rw
        (
          request_id_middleware,
          same ctx (record req { request_id = some (request_id_of fresh req) }) st,
        )
        refl

  -- Behind the middleware, two views that agree in the admitted contexts cannot be told apart by any
  -- request: where a user is signed in and the path needs an organization, a view runs only for
  -- an active member, under the organization of the header.
  pub pipeline_same :
      (fresh : Text) (ctx : Context) (req : HttpRequest) (st : Accounts)
      → pipeline parse_uuid x fresh v ctx req st ≡ pipeline parse_uuid x fresh w ctx req st
  unfolding pipeline
  pipeline_same fresh ctx req st =
      request_id_same fresh _ _ (bearer_same x _ _ tenant_same) ctx req st
