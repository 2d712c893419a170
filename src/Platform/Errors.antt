-- ===== src/Platform/Errors.antt =====
-- apps/platform/error_codes.py, exceptions.py and api_errors.py: the answers to errors.
pub mod Clean
mod Tests
use sgdy_pa_backend.Prelude.{
  ℕ, Bool, true, false, not, ◌||◌, Option, none, some, List, [], ◌∷◌, ◌++◌, if◌then◌else◌,
}
use sgdy_pa_backend.Prelude.Text.{Text, lit, text_eq, truthy}
use sgdy_pa_backend.Prelude.Strings.{lower}
use sgdy_pa_backend.Prelude.Json.{
  Json, null, boolean, num, str, arr, obj, Items, nil, cons, Fields, end, field,
}
use sgdy_pa_backend.Platform.Http.{HttpResponse}

pub data ErrorCode : Type 0 where
  scope_frozen illegal_transition legal_hold_active self_approval_forbidden validation_failed :
      ErrorCode
  stale_state idempotency_key_required idempotency_key_invalid idempotency_key_conflict : ErrorCode
  authentication_failed not_authenticated not_found method_not_allowed permission_denied : ErrorCode
  parse_error throttled unsupported_media_type internal_error : ErrorCode

abbrev pub code_value : ErrorCode → Text
code_value scope_frozen = lit "scope_frozen"
code_value illegal_transition = lit "illegal_transition"
code_value legal_hold_active = lit "legal_hold_active"
code_value self_approval_forbidden = lit "self_approval_forbidden"
code_value validation_failed = lit "validation_failed"
code_value stale_state = lit "stale_state"
code_value idempotency_key_required = lit "idempotency_key_required"
code_value idempotency_key_invalid = lit "idempotency_key_invalid"
code_value idempotency_key_conflict = lit "idempotency_key_conflict"
code_value authentication_failed = lit "authentication_failed"
code_value not_authenticated = lit "not_authenticated"
code_value not_found = lit "not_found"
code_value method_not_allowed = lit "method_not_allowed"
code_value permission_denied = lit "permission_denied"
code_value parse_error = lit "parse_error"
code_value throttled = lit "throttled"
code_value unsupported_media_type = lit "unsupported_media_type"
code_value internal_error = lit "internal_error"

-- `StableAPIException`: its details are `[]` where none are given.
pub record StableApiException : Type 0 where
  pub code : ErrorCode
  pub message : Text
  pub status_code : ℕ
  pub details : Json

-- The exceptions, by the classes that the handler tells apart; of those of the framework, the text
-- of the detail. `api_error` is an `APIException` of another class, `other_error` any exception of
-- another kind.
pub data ApiError : Type 0 where
  stable : StableApiException → ApiError
  http404 django_permission_denied other_error : ApiError
  validation_error authentication_error unauthenticated_error not_found_error method_error
        permission_error request_parse_error throttled_error media_type_error api_error :
      (detail : Text) → ApiError

-- What `rest_framework.views.exception_handler` returns.
pub record DrfResponse : Type 0 where
  pub status : ℕ
  pub body : Json
  pub headers : List (Text × Text)

unfoldable pub get_error_code : ApiError → ErrorCode
get_error_code (stable e) = e.code
get_error_code (validation_error _) = validation_failed
get_error_code (authentication_error _) = authentication_failed
get_error_code (unauthenticated_error _) = not_authenticated
get_error_code (not_found_error _) = not_found
get_error_code http404 = not_found
get_error_code (method_error _) = method_not_allowed
get_error_code (permission_error _) = permission_denied
get_error_code django_permission_denied = permission_denied
get_error_code (request_parse_error _) = parse_error
get_error_code (throttled_error _) = throttled
get_error_code (media_type_error _) = unsupported_media_type
get_error_code (api_error _) = internal_error
get_error_code other_error = internal_error

-- `CODE_DEFAULT_MESSAGES`, and the message of every other code.
abbrev pub default_message : ErrorCode → Text
default_message not_found = lit "Not found."
default_message permission_denied = lit "You do not have permission to perform this action."
default_message _ = lit "Internal server error."

abbrev pub is_validation_failed : ErrorCode → Bool
is_validation_failed validation_failed = true
is_validation_failed _ = false

-- `str(exc.detail)` of an `APIException`, none of another exception.
abbrev pub detail_of : ApiError → Option Text
detail_of (stable e) = some e.message
detail_of (validation_error d) = some d
detail_of (authentication_error d) = some d
detail_of (unauthenticated_error d) = some d
detail_of (not_found_error d) = some d
detail_of (method_error d) = some d
detail_of (permission_error d) = some d
detail_of (request_parse_error d) = some d
detail_of (throttled_error d) = some d
detail_of (media_type_error d) = some d
detail_of (api_error d) = some d
detail_of http404 = none
detail_of django_permission_denied = none
detail_of other_error = none

unfoldable pub get_error_message : ApiError → ErrorCode → Text
get_error_message (stable e) code = e.message
get_error_message exc code =
    if is_validation_failed code
    then lit "Request validation failed."
    else (elim (detail_of exc) [ some d ↦ d | none ↦ default_message code ])

unfoldable pub get_error_details : ApiError → ErrorCode → Json → Json
get_error_details (stable e) code content = e.details
get_error_details exc code content = if is_validation_failed code then content else arr nil

abbrev pub is_content_header : Text → Bool
is_content_header k =
    text_eq (lower k) (lit "content-type") || text_eq (lower k) (lit "content-length")

-- The loop over the headers of the framework's answer.
unfoldable pub kept_headers : List (Text × Text) → List (Text × Text)
unfolding lower
kept_headers [] = []
kept_headers ((k, v) ∷ rest) =
    if is_content_header k then kept_headers rest else (k, v) ∷ kept_headers rest

unfoldable pub get_request_id : Option Text → Text
get_request_id none = lit "req_unknown"
get_request_id (some i) = if truthy i then i else lit "req_unknown"

-- `sensitive` is the search for one of `SENSITIVE_PATTERNS`.
module _ (sensitive : Text → Bool) where
  unfoldable pub sanitize_text : (value fallback : Text) → Text
  sanitize_text value fallback = if sensitive value then fallback else value

  unfoldable mutual
    pub sanitize_details : Json → Json
    sanitize_details (str s) = str (sanitize_text s (lit "Internal error."))
    sanitize_details (obj d) = obj (sanitize_fields d)
    sanitize_details (arr l) = arr (sanitize_items l)
    sanitize_details v = v

    pub sanitize_items : Items → Items
    sanitize_items nil = nil
    sanitize_items (cons v l) = cons (sanitize_details v) (sanitize_items l)

    pub sanitize_fields : Fields → Fields
    sanitize_fields end = end
    sanitize_fields (field k v d) =
        let rest = sanitize_fields d in
        let value = sanitize_details v in
        if text_eq k (lit "traceback") then rest else field k value rest

  unfoldable pub build_error_payload :
      ErrorCode → (message : Text) → (details : Json) → (request_id : Option Text) → Json
  unfolding sanitize_text sanitize_details get_request_id
  build_error_payload code message details request_id = obj (
      field (lit "error")
        (obj (
          field (lit "code") (str (code_value code)) (
            field (lit "message") (str (sanitize_text message (lit "Internal server error."))) (
              field (lit "details") (sanitize_details details)
                (field (lit "request_id") (str (get_request_id request_id)) end)))))
        end)

  unfoldable pub build_error_json_response :
      ErrorCode
      → (message : Text) → (details : Json) → (status_code : ℕ) → (request_id : Option Text)
      → HttpResponse
  unfolding build_error_payload
  build_error_json_response code message details status_code request_id = record {
    status_code = status_code;
    content = build_error_payload code message details request_id;
    headers = [];
  }

  unfoldable pub build_error_response :
      ErrorCode
      → (message : Text) → (details : Json) → (status_code : ℕ) → (request_id : Option Text)
      → (headers : List (Text × Text)) → HttpResponse
  unfolding build_error_payload kept_headers
  build_error_response code message details status_code request_id headers = record {
    status_code = status_code;
    content = build_error_payload code message details request_id;
    headers = kept_headers headers;
  }

  -- `drf_exception_handler` is the framework's.
  unfoldable pub api_exception_handler :
      (drf_exception_handler : ApiError → Option DrfResponse)
      → ApiError
      → (request_id : Option Text) → HttpResponse
  unfolding build_error_response get_error_code get_error_message get_error_details
  api_exception_handler drf exc request_id = elim (drf exc) [
    | none ↦
        build_error_response internal_error (lit "Internal server error.") (arr nil) 500 request_id
          []
    | some r ↦
        build_error_response (get_error_code exc) (get_error_message exc (get_error_code exc))
          (get_error_details exc (get_error_code exc) r.body) r.status request_id r.headers
  ]

  unfoldable pub api_not_found : (request_id : Option Text) → HttpResponse
  unfolding build_error_json_response
  api_not_found = build_error_json_response not_found (lit "Not found.") (arr nil) 404

  unfoldable pub api_server_error : (request_id : Option Text) → HttpResponse
  unfolding build_error_json_response
  api_server_error =
      build_error_json_response internal_error (lit "Internal server error.") (arr nil) 500
