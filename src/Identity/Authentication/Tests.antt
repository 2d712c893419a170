-- ===== src/Identity/Authentication/Tests.antt =====
-- Bearer tokens at concrete inputs: runs of the definitions, and the theorem applied.
use sgdy_pa_backend.Identity.Projection.{from_claims}
use sgdy_pa_backend.Identity.Projection.{apply_projection}
use sgdy_pa_backend.Identity.Projection.Users.{project}
use sgdy_pa_backend.Prelude.Json.{get}
use sgdy_pa_backend.Prelude.{◌≡◌, ◌⊎◌, refl, true, none, some, [], ◌∷◌}
use sgdy_pa_backend.Prelude.Text.{Text, lit, text_eq}
use sgdy_pa_backend.Prelude.Json.{str, obj, Fields, end, field}
use sgdy_pa_backend.Identity.Models.{User}
use sgdy_pa_backend.Identity.Authentication.{
  OidcSettings, Login, Accounts, BearerError, challenge, extract_bearer_token, no_token,
  missing_token, token, bearer_middleware, false, bearer_error,
}
use sgdy_pa_backend.Identity.Authentication.Bearer.{
  IsRejected, IsCrash, IsSignedIn, bearer_middleware_cases,
}
use sgdy_pa_backend.Platform.Http.{HttpRequest, responded, raised}
use sgdy_pa_backend.Platform.Middleware.{Context, Handler}

abbrev ana : User
ana = record {
  id = 3;
  username = lit "kc-3";
  email = [];
  first_name = lit "Ana";
  last_name = [];
  display_name = lit "Ana";
  email_verified = true;
  is_active = true;
  keycloak_sub = some (lit "s3");
}

abbrev ana_claims : Fields
ana_claims = field (lit "sub") (str (lit "s3")) end

abbrev oidc : OidcSettings
oidc = record {
  issuer = lit "kc";
  audience = lit "api";
  jwks_url = lit "/certs";
  algorithms = lit "RS256" ∷ [];
}

-- Every token stands for the same claims, and replication is off.
abbrev login : Login
login = record {
  settings = oidc;
  decode = λ config t. some ana_claims;
  replication_enabled = false;
  groups_claim = lit "groups";
  role_map = [];
  slugify = λ s. s;
  keys = record { organization_key = λ t. 1; membership_key = λ t. 1; role_key = λ t. 1 };
  now = 5;
}

abbrev accounts : Accounts
accounts = record {
  users = ana ∷ [];
  db = record { organizations = []; memberships = []; roles = []; membership_roles = [] };
}

abbrev page : Handler Accounts
page ctx req st = responded (record { status_code = 200; content = obj end; headers = [] }) st

abbrev nobody : Context
nobody = record { user = none; keycloak_claims = none; organization = none }

abbrev me : HttpRequest
me = record {
  method = lit "GET";
  path = lit "/me";
  request_id = none;
  authorization = some (lit "bearer  abc ");
  organization_header = none;
  idempotency_key = none;
  body = none;
}

token_run : extract_bearer_token (lit "BEARER  abc ") ≡ token (lit "abc")
unfolding extract_bearer_token text_eq
token_run = refl

other_scheme_run : extract_bearer_token (lit "Basic abc") ≡ no_token
unfolding extract_bearer_token text_eq
other_scheme_run = refl

blank_token_run : extract_bearer_token (lit "bearer  ") ≡ missing_token
unfolding extract_bearer_token text_eq
blank_token_run = refl

signed_in_run :
    bearer_middleware login page nobody me accounts
    ≡ page (record nobody { user = some ana; keycloak_claims = some ana_claims }) me accounts
unfolding bearer_middleware text_eq get project apply_projection from_claims
signed_in_run = refl

bearer_middleware_cases_example :
    ((extract_bearer_token (lit "bearer  abc ") ≡ no_token)
      × (bearer_middleware login page nobody me accounts ≡ page nobody me accounts))
    ⊎ (((extract_bearer_token (lit "bearer  abc ") ≡ missing_token)
          × (bearer_middleware login page nobody me accounts
              ≡ responded (challenge (bearer_error (lit "Bearer token is missing."))) accounts))
        ⊎ ((t : Text) × (extract_bearer_token (lit "bearer  abc ") ≡ token t)
            × (((e : BearerError) × IsRejected login t accounts e
                  × (bearer_middleware login page nobody me accounts
                      ≡ responded (challenge e) accounts))
                ⊎ ((IsCrash login t accounts
                      × (bearer_middleware login page nobody me accounts ≡ raised))
                    ⊎ ((user : User) × (claims : Fields) × (st' : Accounts) × IsSignedIn login t
                          accounts user claims st'
                        × (bearer_middleware login page nobody me accounts
                            ≡ page
                                (record nobody { user = some user; keycloak_claims = some claims })
                                me
                                st'))))))
bearer_middleware_cases_example = bearer_middleware_cases login page nobody me accounts
