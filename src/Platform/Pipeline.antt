-- ===== src/Platform/Pipeline.antt =====
-- The chain of middleware (config/settings/base.py) around a view: the request id, the bearer token,
-- the tenant context.
pub mod Gate
mod Tests
use sgdy_pa_backend.Prelude.{ℕ, Option}
use sgdy_pa_backend.Prelude.Text.{Text}
use sgdy_pa_backend.Platform.Tenancy.{principal_of}
use sgdy_pa_backend.Platform.Middleware.{Handler, request_id_middleware, tenant_context_middleware}
use sgdy_pa_backend.Identity.Authentication.{Accounts, Login, bearer_middleware}

-- `fresh` has the digits of the key for the request.
unfoldable pub pipeline :
    (parse_uuid : Text → Option ℕ) → Login → (fresh : Text) → Handler Accounts → Handler Accounts
unfolding request_id_middleware bearer_middleware tenant_context_middleware
pipeline parse_uuid x fresh view = request_id_middleware fresh (
    bearer_middleware x
      (tenant_context_middleware parse_uuid (λ user st. principal_of x.now st.db user) view))
