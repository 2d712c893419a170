-- ===== src/Platform/Pipeline/Tests.antt =====
-- The middleware at concrete inputs: a run, and the theorem applied.
use sgdy_pa_backend.Identity.Models.{is_active}
use sgdy_pa_backend.Identity.Authorization.{is_active_in}
use sgdy_pa_backend.Platform.Tenancy.{principal_of}
use sgdy_pa_backend.Identity.Projection.{from_claims}
use sgdy_pa_backend.Identity.Projection.{apply_projection}
use sgdy_pa_backend.Identity.Projection.Users.{project}
use sgdy_pa_backend.Prelude.{
  ℕ, ◌≡◌, inl, inr, refl, true, false, Option, none, some, [], ◌∷◌, Option-cases, Bool-cases,
  if◌then◌else◌,
}
use sgdy_pa_backend.Prelude.Text.{Text, lit, text_eq}
use sgdy_pa_backend.Prelude.Json.{str, obj, end, field, get}
use sgdy_pa_backend.Identity.Models.{User, Organization, Membership, active, manual}
use sgdy_pa_backend.Identity.Authentication.{Login, Accounts}
use sgdy_pa_backend.Platform.Http.{HttpRequest, HttpResponse, responded, raised}
use sgdy_pa_backend.Platform.Middleware.{Context, Handler, is_exempt}
use sgdy_pa_backend.Platform.Pipeline.{pipeline}
use sgdy_pa_backend.Platform.Pipeline.Gate.{IsAdmitted, pipeline_same}

abbrev ana : User
ana = record {
  id = 3;
  username = lit "kc-3";
  email = [];
  first_name = lit "Ana";
  last_name = [];
  display_name = lit "Ana";
  email_verified = true;
  is_active = true;
  keycloak_sub = some (lit "s3");
}

abbrev login : Login
login = record {
  settings = record {
    issuer = lit "kc";
    audience = lit "api";
    jwks_url = lit "/certs";
    algorithms = lit "RS256" ∷ [];
  };
  decode = λ config t. some (field (lit "sub") (str (lit "s3")) end);
  replication_enabled = false;
  groups_claim = lit "groups";
  role_map = [];
  slugify = λ s. s;
  keys = record { organization_key = λ t. 1; membership_key = λ t. 1; role_key = λ t. 1 };
  now = 5;
}

abbrev acme : Organization
acme = record {
  id = 7;
  name = lit "Acme";
  slug = lit "acme";
  is_active = true;
  keycloak_group_id = none;
  keycloak_group_path = lit "/acme";
}

abbrev ana_at_acme : Membership
ana_at_acme = record {
  id = 20;
  organization_id = 7;
  user_id = 3;
  status = active;
  origin = manual;
  scope = end;
  expires_at = none;
}

abbrev accounts : Accounts
accounts = record {
  users = ana ∷ [];
  db = record {
    organizations = acme ∷ [];
    memberships = ana_at_acme ∷ [];
    roles = [];
    membership_roles = [];
  };
}

abbrev parse_one : Text → Option ℕ
parse_one t = some 7

abbrev ok_page : HttpResponse
ok_page = record { status_code = 200; content = obj end; headers = [] }

-- A view that answers.
abbrev page : Handler Accounts
page ctx req st = responded ok_page st

-- A view that needs an organization of a signed-in user, but on the exempt paths.
abbrev tenant_page : Handler Accounts
tenant_page ctx req st = elim (ctx.user) [
  | none ↦ responded ok_page st
  | some user ↦
      if is_exempt req.path
      then responded ok_page st
      else elim (ctx.organization) [ none ↦ raised | some o ↦ responded ok_page st ]
]

abbrev nobody : Context
nobody = record { user = none; keycloak_claims = none; organization = none }

abbrev list_findings : HttpRequest
list_findings = record {
  method = lit "GET";
  path = lit "/findings";
  request_id = some (lit "r1");
  authorization = some (lit "Bearer abc");
  organization_header = some (lit "acme");
  idempotency_key = none;
  body = none;
}

pipeline_run :
    pipeline parse_one login (lit "f") tenant_page nobody list_findings accounts
    ≡ responded (record ok_page { headers = (lit "X-Request-Id", lit "r1") ∷ [] }) accounts
unfolding pipeline text_eq get project apply_projection from_claims principal_of is_active_in
    is_active
pipeline_run = refl

-- Without the header.
missing_run :
    (r : HttpResponse) × (pipeline parse_one login
        (lit "f")
        tenant_page
        nobody
        (record list_findings { organization_header = none })
        accounts
      ≡ responded r accounts)
    × (r.status_code ≡ 400)
unfolding pipeline text_eq get project apply_projection from_claims
missing_run = (_, refl, refl)

pages_agree :
    (ctx : Context) (req : HttpRequest) (st : Accounts)
    → IsAdmitted parse_one login.now ctx req st
    → tenant_page ctx req st ≡ page ctx req st
pages_agree ctx req st (inl e) = rw e refl
pages_agree ctx req st (inr (inl free)) = elim (Option-cases ctx.user) [
  | inl e ↦ rw e refl
  | inr (user, e) ↦ rw (e, free) refl
]
pages_agree ctx req st (inr (inr (user, o, e, f, g, member))) =
    elim (Bool-cases (is_exempt req.path)) [
      | inl free ↦ rw (e, free) refl
      | inr bound ↦ rw (e, bound, f) refl
    ]

pipeline_same_example :
    pipeline parse_one login (lit "f") tenant_page nobody list_findings accounts
    ≡ pipeline parse_one login (lit "f") page nobody list_findings accounts
pipeline_same_example =
    pipeline_same parse_one login tenant_page page pages_agree (lit "f") nobody list_findings
      accounts
