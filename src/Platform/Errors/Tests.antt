-- ===== src/Platform/Errors/Tests.antt =====
-- Error answers at concrete inputs: runs of the definitions, and the theorem applied.
use sgdy_pa_backend.Prelude.{◌≡◌, ◌⊎◌, refl, Bool, false, not, select, Option, none, some, [], ◌∷◌}
use sgdy_pa_backend.Prelude.Text.{Text, lit, text_eq}
use sgdy_pa_backend.Prelude.Json.{Json, str, arr, obj, num, nil, cons, end, field}
use sgdy_pa_backend.Platform.Errors.{
  ErrorCode, internal_error, ApiError, validation_error, DrfResponse, get_request_id, sanitize_text,
  sanitize_details, api_exception_handler, get_error_code, is_content_header,
}
use sgdy_pa_backend.Platform.Errors.Clean.{envelope, IsClean, api_exception_handler-IsClean}

-- A search that finds one word.
abbrev finds_db : Text → Bool
finds_db s = text_eq s (lit "db.local")

abbrev bad_request : ApiError → Option DrfResponse
bad_request exc = some (record {
  status = 400;
  body = obj (
      field (lit "host") (arr (cons (str (lit "db.local")) (cons (num 3) nil)))
        (field (lit "traceback") (str (lit "frames")) end));
  headers = (lit "Content-Type", lit "text/html") ∷ (lit "Retry-After", lit "7") ∷ [];
})

details_run :
    sanitize_details finds_db (
      obj (
        field
          (lit "host")
          (arr (cons (str (lit "db.local")) (cons (num 3) nil)))
          (field (lit "traceback") (str (lit "frames")) end)))
    ≡ obj (field (lit "host") (arr (cons (str (lit "Internal error.")) (cons (num 3) nil))) end)
unfolding sanitize_details sanitize_text text_eq
details_run = refl

headers_run :
    (api_exception_handler finds_db bad_request (validation_error []) none).headers
    ≡ (lit "Retry-After", lit "7") ∷ []
unfolding api_exception_handler text_eq
headers_run = refl

safe_detail : finds_db (lit "Internal error.") ≡ false
unfolding text_eq
safe_detail = refl

safe_message : finds_db (lit "Internal server error.") ≡ false
unfolding text_eq
safe_message = refl

api_exception_handler-IsClean_example :
    (code : ErrorCode) × (message : Text) × (details : Json) × ((api_exception_handler finds_db
        bad_request
        (validation_error [])
        none).content
      ≡ envelope code message details (get_request_id none))
    × (finds_db message ≡ false)
    × IsClean finds_db details
    × (((bad_request (validation_error []) ≡ none)
          × (code ≡ internal_error)
          × (message ≡ lit "Internal server error.")
          × (details ≡ arr nil)
          × ((api_exception_handler finds_db bad_request (validation_error []) none).headers ≡ [])
          × ((api_exception_handler finds_db bad_request (validation_error []) none).status_code
              ≡ 500))
        ⊎ ((r : DrfResponse) × (bad_request (validation_error []) ≡ some r)
            × (code ≡ get_error_code (validation_error []))
            × ((api_exception_handler finds_db bad_request (validation_error []) none).headers
                ≡ select (λ h. not (is_content_header h.0)) r.headers)
            × ((api_exception_handler finds_db bad_request (validation_error []) none).status_code
                ≡ r.status)))
api_exception_handler-IsClean_example =
    api_exception_handler-IsClean finds_db safe_detail safe_message bad_request
      (validation_error []) none
