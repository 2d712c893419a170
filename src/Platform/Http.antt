-- ===== src/Platform/Http.antt =====
-- Requests and answers, as far as apps/platform and apps/identity read and write them.
use sgdy_pa_backend.Prelude.{ℕ, Option, List}
use sgdy_pa_backend.Prelude.Text.{Text}
use sgdy_pa_backend.Prelude.Json.{Json}

-- A header that is not sent is none, and so is a body that is not JSON; an empty body is `{}`.
pub record HttpRequest : Type 0 where
  pub method : Text
  pub path : Text
  pub request_id : Option Text
  pub authorization : Option Text
  pub organization_header : Option Text
  pub idempotency_key : Option Text
  pub body : Option Json

-- The content of a JSON answer is its value.
pub record HttpResponse : Type 0 where
  pub status_code : ℕ
  pub content : Json
  pub headers : List (Text × Text)

-- A view answers, with the state that it leaves, or raises.
pub data Outcome (S : Type 0) : Type 0 where
  responded : HttpResponse → S → Outcome S
  raised : Outcome S
