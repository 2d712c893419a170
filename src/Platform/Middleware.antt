-- ===== src/Platform/Middleware.antt =====
-- apps/platform/middleware.py: the request id and the tenant context. A handler is the rest of the
-- chain; where it raises, the framework answers, and the state that is left is not followed.
use sgdy_pa_backend.Prelude.{
  ℕ, Bool, not, ◌||◌, Option, none, some, List, [], ◌∷◌, ◌++◌, any, select, if◌then◌else◌,
}
use sgdy_pa_backend.Prelude.Text.{Text, lit, text_eq, truthy}
use sgdy_pa_backend.Prelude.Strings.{lower, starts_with}
use sgdy_pa_backend.Prelude.Json.{str, arr, obj, nil, Fields, end, field}
use sgdy_pa_backend.Identity.Models.{User}
use sgdy_pa_backend.Platform.Http.{HttpRequest, HttpResponse, Outcome, responded, raised}
use sgdy_pa_backend.Platform.Tenancy.{Principal, user_has_organization_membership}

-- What the middleware sets for the views: the authenticated user, the claims of its token, and the
-- active organization.
pub record Context : Type 0 where
  pub user : Option User
  pub keycloak_claims : Option Fields
  pub organization : Option ℕ

abbrev pub Handler : Type 0 → Type 0
Handler S = Context → HttpRequest → S → Outcome S

abbrev pub exempt_path_prefixes : List Text
exempt_path_prefixes =
    lit "/api/v1/me" ∷ lit "/api/v1/organizations" ∷ lit "/me" ∷ lit "/organizations" ∷ []

unfoldable pub is_exempt : Text → Bool
unfolding starts_with
is_exempt path =
    any (λ prefix. text_eq path prefix || starts_with path (prefix ++ b'/' ∷ []))
      exempt_path_prefixes

-- `_error_response`
unfoldable pub error_response : (code message : Text) → (status : ℕ) → HttpResponse
error_response code message status = record {
  status_code = status;
  content = obj (
      field (lit "error")
        (obj (
          field (lit "code") (str code)
            (field (lit "message") (str message) (field (lit "details") (arr nil) end))))
        end);
  headers = [];
}

-- `request.META.get("HTTP_X_REQUEST_ID") or f"req_{uuid4().hex}"`
abbrev pub request_id_of : (fresh : Text) → HttpRequest → Text
request_id_of fresh req = elim (req.request_id) [
  | none ↦ lit "req_" ++ fresh
  | some i ↦ if truthy i then i else lit "req_" ++ fresh
]

-- `response[name] = value`: names are compared without case.
unfoldable pub set_header : (name value : Text) → HttpResponse → HttpResponse
unfolding lower
set_header name value r = record r {
  headers = (name, value) ∷ select (λ h. not (text_eq (lower h.0) (lower name))) r.headers;
}

abbrev pub header_or_empty : Option Text → Text
header_or_empty none = []
header_or_empty (some h) = h

module _ {S : Type 0} where
  -- `RequestIDMiddleware`, with the digits of the fresh key.
  unfoldable pub request_id_middleware : (fresh : Text) → Handler S → Handler S
  unfolding set_header
  request_id_middleware fresh get_response ctx req st =
      let i = request_id_of fresh req in
      elim (get_response ctx (record req { request_id = some i }) st) [
        | raised ↦ raised
        | responded r st' ↦ responded (set_header (lit "X-Request-Id") i r) st'
      ]

  -- `TenantContextMiddleware`; `principal` is how a user's attributes read in the state.
  unfoldable pub tenant_context_middleware :
      (parse_uuid : Text → Option ℕ) → (principal : User → S → Principal) → Handler S → Handler S
  unfolding is_exempt error_response user_has_organization_membership
  tenant_context_middleware parse_uuid principal get_response ctx req st = elim (ctx.user) [
    | none ↦ get_response ctx req st
    | some user ↦
        let header = header_or_empty req.organization_header in
        if is_exempt req.path
        then get_response ctx req st
        else if not (truthy header)
        then responded
            (error_response (lit "organization_header_required")
              (lit "X-Organization-Id is required.") 400)
            st
        else elim (parse_uuid header) [
          | none ↦
              responded
                (error_response (lit "invalid_organization_id")
                  (lit "X-Organization-Id must be a UUID.") 400)
                st
          | some o ↦
              if not (user_has_organization_membership parse_uuid (principal user st) o)
              then responded
                  (error_response (lit "organization_membership_required")
                    (lit "User is not a member of the requested organization.") 403)
                  st
              else get_response (record ctx { organization = some o }) req st
        ]
  ]
