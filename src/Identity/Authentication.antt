-- ===== src/Identity/Authentication.antt =====
-- apps/identity/authentication.py and apps/identity/middleware.py: bearer tokens, and the users they
-- stand for.
pub mod Bearer
mod Tests
use sgdy_pa_backend.Prelude.{
  ℕ, ◌==◌, Bool, true, false, not, ◌&&◌, Option, none, some, List, [], ◌∷◌, find, if◌then◌else◌,
}
use sgdy_pa_backend.Prelude.Text.{Text, lit, text_eq, truthy}
use sgdy_pa_backend.Prelude.Strings.{lower, strip}
use sgdy_pa_backend.Prelude.Json.{Json, str, obj, Fields, end, field}
use sgdy_pa_backend.Identity.Models.{User}
use sgdy_pa_backend.Identity.Authorization.{Db, ok, authorization_error, get_or_null}
use sgdy_pa_backend.Identity.Projection.{from_claims}
use sgdy_pa_backend.Identity.Projection.Users.{has_sub, project}
use sgdy_pa_backend.Identity.Projection.Users
use sgdy_pa_backend.Identity.OrgReplication.Memberships.{Keys}
use sgdy_pa_backend.Identity.OrgReplication.Reconcile.{reconcile_from_claims}
use sgdy_pa_backend.Identity.Webhooks.Events.{text_of}
use sgdy_pa_backend.Platform.Http.{HttpRequest, HttpResponse, Outcome, responded, raised}
use sgdy_pa_backend.Platform.Middleware.{Context, Handler, header_or_empty}

-- `BearerAuthenticationError` and its subclasses.
pub record BearerError : Type 0 where
  pub status_code : ℕ
  pub detail : Text

abbrev pub bearer_error : Text → BearerError
bearer_error detail = record { status_code = 401; detail = detail }

-- The token of a header: there is none, or it is missing, which raises.
pub data Extracted : Type 0 where
  no_token missing_token : Extracted
  token : Text → Extracted

-- `s.partition(" ")`: the text before the first space, whether there is one, the text after it.
unfoldable pub partition : Text → Text × Bool × Text
partition [] = ([], false, [])
partition (c ∷ s) =
    let (before, found, after) = partition s in
    if c == b' ' then ([], true, s) else (c ∷ before, found, after)

unfoldable pub extract_bearer_token : (authorization_header : Text) → Extracted
unfolding partition lower strip
extract_bearer_token header =
    let (scheme, separator, value) = partition header in
    if not (truthy header)
    then no_token
    else if not (text_eq (lower scheme) (lit "bearer"))
    then no_token
    else if not (separator && truthy (strip value))
    then missing_token
    else token (strip value)

-- `{"detail": ...}`, with the challenge.
unfoldable pub challenge : BearerError → HttpResponse
challenge e = record {
  status_code = e.status_code;
  content = obj (field (lit "detail") (str e.detail) end);
  headers = (lit "WWW-Authenticate", lit "Bearer realm=\"api\"") ∷ [];
}

-- The settings; a text that is unset is empty.
pub record OidcSettings : Type 0 where
  pub issuer : Text
  pub audience : Text
  pub jwks_url : Text
  pub algorithms : List Text

-- `KeycloakOIDCConfig.from_settings`
unfoldable pub config_from_settings : OidcSettings → Option OidcSettings
config_from_settings s =
    if truthy s.issuer && (truthy s.audience && truthy s.jwks_url) then some s else none

-- The users and the tables of organizations.
pub record Accounts : Type 0 where
  pub users : List User
  pub db : Db

-- A user who is signed in, with the claims; an exception that is not a bearer error.
pub data Authenticated : Type 0 where
  signed_in : User → Fields → Accounts → Authenticated
  rejected : BearerError → Authenticated
  crashed : Authenticated

-- `decode` is the key lookup and `jwt.decode`, none where either raises; it checks the signature,
-- the times, the issuer and the audience of the settings.
pub record Login : Type 0 where
  pub settings : OidcSettings
  pub decode : OidcSettings → Text → Option Fields
  pub replication_enabled : Bool
  pub groups_claim : Text
  pub role_map : List (Text × Text)
  pub slugify : Text → Text
  pub keys : Keys
  pub now : ℕ

pub data Validated : Type 0 where
  valid : Fields → Validated
  invalid : BearerError → Validated

-- The text under `sub`, empty for any other value.
abbrev pub subject_of : Fields → Text
subject_of claims = text_of (get_or_null (lit "sub") claims)

module _ (x : Login) where
  -- `KeycloakTokenValidator().validate`
  unfoldable pub validate : Text → Validated
  unfolding config_from_settings
  validate t = elim (config_from_settings x.settings) [
    | none ↦ invalid (record {
      status_code = 503;
      detail = lit "KEYCLOAK_OIDC requires ISSUER, AUDIENCE, and JWKS_URL.";
    })
    | some config ↦ elim (x.decode config t) [
      | none ↦ invalid (bearer_error (lit "Invalid bearer token."))
      | some claims ↦
          if not (truthy (subject_of claims))
          then invalid (bearer_error (lit "Bearer token is missing sub."))
          else valid claims
    ]
  ]

  -- `sync_user_organizations`: an exception is swallowed, and its transaction rolled back.
  unfoldable pub sync_user_organizations : User → Fields → Db → Db
  unfolding reconcile_from_claims
  sync_user_organizations user claims db =
      if not x.replication_enabled
      then db
      else (elim (reconcile_from_claims x.slugify x.keys x.now x.groups_claim x.role_map user.id
          claims db) [ authorization_error ↦ db | ok db' ↦ db' ])

  -- `resolve_user_from_claims`, with `sync_user_projection`, whose save can break the unique
  -- constraint on the username.
  unfoldable pub resolve_user_from_claims : Fields → Accounts → Authenticated
  unfolding sync_user_organizations
  resolve_user_from_claims claims st =
      let subject = subject_of claims in
      if not (truthy subject)
      then rejected (bearer_error (lit "Bearer token is missing sub."))
      else elim (find (has_sub subject) st.users) [
        | none ↦
            rejected (bearer_error (lit "No local user projection exists for the token subject."))
        | some user ↦
            if not user.is_active
            then rejected (bearer_error (lit "Local user projection is inactive."))
            else elim (project (from_claims claims) false user st.users) [
              | Users.ok p ↦
                  signed_in p.user claims
                    (record { users = p.table; db = sync_user_organizations p.user claims st.db })
              | _ ↦ crashed
            ]
      ]

  unfoldable pub authenticate_bearer_token : Text → Accounts → Authenticated
  unfolding validate resolve_user_from_claims
  authenticate_bearer_token t st = elim (validate t) [
    | invalid e ↦ rejected e
    | valid claims ↦ resolve_user_from_claims claims st
  ]

  -- `KeycloakBearerAuthenticationMiddleware`
  unfoldable pub bearer_middleware : Handler Accounts → Handler Accounts
  unfolding extract_bearer_token authenticate_bearer_token challenge
  bearer_middleware get_response ctx req st =
      elim (extract_bearer_token (header_or_empty req.authorization)) [
        | no_token ↦ get_response ctx req st
        | missing_token ↦ responded (challenge (bearer_error (lit "Bearer token is missing."))) st
        | token t ↦ elim (authenticate_bearer_token t st) [
          | rejected e ↦ responded (challenge e) st
          | crashed ↦ raised
          | signed_in user claims st' ↦
              get_response (record ctx { user = some user; keycloak_claims = some claims }) req st'
        ]
      ]

-- `KeycloakBearerDRFAuthentication.authenticate`
unfoldable pub drf_authenticate : Context → Option (User × Fields)
drf_authenticate ctx = elim (ctx.keycloak_claims) [
  | none ↦ none
  | some claims ↦ elim (ctx.user) [ none ↦ none | some user ↦ some (user, claims) ]
]
