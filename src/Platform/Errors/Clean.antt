-- ===== src/Platform/Errors/Clean.antt =====
-- What an answer to an error lets out (apps/platform/api_errors.py).
use sgdy_pa_backend.Prelude.{
  ◌≡◌, ◌⊎◌, inl, inr, refl, ap, not, select, Bool, Bool-cases, Option-cases, false, Option, none,
  some, List, [], ◌∷◌,
}
use sgdy_pa_backend.Prelude.Text.{Text, lit, text_eq}
use sgdy_pa_backend.Prelude.Json.{
  Json, null, boolean, num, str, arr, obj, Items, nil, cons, Fields, end, field,
}
use sgdy_pa_backend.Platform.Errors.{
  ErrorCode, code_value, internal_error, ApiError, DrfResponse, is_content_header, kept_headers,
  get_request_id, sanitize_text, sanitize_details, sanitize_items, sanitize_fields, get_error_code,
  get_error_message, get_error_details, build_error_payload, api_exception_handler,
}

-- The body of every answer to an error.
abbrev pub envelope : ErrorCode → (message : Text) → (details : Json) → (request_id : Text) → Json
envelope code message details request_id = obj (
    field (lit "error")
      (obj (
        field (lit "code") (str (code_value code)) (
          field (lit "message") (str message)
            (field (lit "details") details (field (lit "request_id") (str request_id) end)))))
      end)

-- The headers of the framework's answer are kept, but for those of its content.
kept_headers-select :
    (hs : List (Text × Text)) → kept_headers hs ≡ select (λ h. not (is_content_header h.0)) hs
unfolding kept_headers
kept_headers-select [] = refl
kept_headers-select ((k, v) ∷ rest) = elim (Bool-cases (is_content_header k)) [
  | inl dropped ↦ rw dropped (kept_headers-select rest)
  | inr kept ↦ rw kept (ap (λ hs. (k, v) ∷ hs) (kept_headers-select rest))
]

module _ (sensitive : Text → Bool) where
  -- No text in it is sensitive, and no key of an object is `traceback`.
  unfoldable mutual
    pub IsClean : Json → Type 0
    IsClean (str s) = sensitive s ≡ false
    IsClean (obj d) = IsCleanFields d
    IsClean (arr l) = IsCleanItems l
    IsClean v = Unit

    pub IsCleanItems : Items → Type 0
    IsCleanItems nil = Unit
    IsCleanItems (cons v l) = IsClean v × IsCleanItems l

    pub IsCleanFields : Fields → Type 0
    IsCleanFields end = Unit
    IsCleanFields (field k v d) =
        (text_eq k (lit "traceback") ≡ false) × IsClean v × IsCleanFields d

  sanitize_text_clean :
      (value fallback : Text)
      → sensitive fallback ≡ false
      → sensitive (sanitize_text sensitive value fallback) ≡ false
  unfolding sanitize_text
  sanitize_text_clean value fallback h = elim (Bool-cases (sensitive value)) [
    | inl bad ↦ rw (bad) h
    | inr good ↦ rw (good) good
  ]

  module _ (safe : sensitive (lit "Internal error.") ≡ false) where
    mutual
      unfolding sanitize_details IsClean

      pub sanitize_details-IsClean : (v : Json) → IsClean (sanitize_details sensitive v)
      sanitize_details-IsClean (str s) = sanitize_text_clean s (lit "Internal error.") safe
      sanitize_details-IsClean (obj d) = sanitize_fields-IsClean d
      sanitize_details-IsClean (arr l) = sanitize_items-IsClean l
      sanitize_details-IsClean null = tt
      sanitize_details-IsClean (boolean b) = tt
      sanitize_details-IsClean (num n) = tt

      sanitize_items-IsClean : (l : Items) → IsCleanItems (sanitize_items sensitive l)
      sanitize_items-IsClean nil = tt
      sanitize_items-IsClean (cons v l) = (sanitize_details-IsClean v, sanitize_items-IsClean l)

      sanitize_fields-IsClean : (d : Fields) → IsCleanFields (sanitize_fields sensitive d)
      sanitize_fields-IsClean end = tt
      sanitize_fields-IsClean (field k v d) = elim (Bool-cases (text_eq k (lit "traceback"))) [
        | inl hidden ↦ rw (hidden) (sanitize_fields-IsClean d)
        | inr kept ↦ rw (kept) (kept, sanitize_details-IsClean v, sanitize_fields-IsClean d)
      ]

    -- Whatever the exception, the answer is an envelope whose message is not sensitive and whose
    -- details hold no sensitive text as a value and no key `traceback`, given that the two fallback
    -- texts are not sensitive. Where the framework has no answer, the status is 500, and the code,
    -- the message and the details are the same for every exception, without headers; else the status
    -- is the framework's, the code is that of the exception, and the headers are the framework's but
    -- for those of the content. The request id, the other keys of the details and the headers are
    -- passed on as they are, sensitive or not.
    pub api_exception_handler-IsClean :
        sensitive (lit "Internal server error.") ≡ false
        → (drf : ApiError → Option DrfResponse) (exc : ApiError) (i : Option Text)
        → (code : ErrorCode) × (message : Text) × (details : Json) × ((api_exception_handler
              sensitive drf exc i).content
            ≡ envelope code message details (get_request_id i))
          × (sensitive message ≡ false)
          × IsClean details
          × (((drf exc ≡ none)
                × (code ≡ internal_error)
                × (message ≡ lit "Internal server error.")
                × (details ≡ arr nil)
                × ((api_exception_handler sensitive drf exc i).headers ≡ [])
                × ((api_exception_handler sensitive drf exc i).status_code ≡ 500))
              ⊎ ((r : DrfResponse) × (drf exc ≡ some r)
                  × (code ≡ get_error_code exc)
                  × ((api_exception_handler sensitive drf exc i).headers
                      ≡ select (λ h. not (is_content_header h.0)) r.headers)
                  × ((api_exception_handler sensitive drf exc i).status_code ≡ r.status)))
    unfolding api_exception_handler sanitize_details IsClean
    api_exception_handler-IsClean safe' drf exc i = elim (Option-cases (drf exc)) [
      | inl e ↦ (
        internal_error,
        lit "Internal server error.",
        arr nil,
        rw (api_exception_handler, e, build_error_payload, sanitize_text, safe') refl,
        safe',
        tt,
        inl (
          e,
          refl,
          refl,
          refl,
          rw (api_exception_handler, e) refl,
          rw (api_exception_handler, e) refl,
        ),
      )
      | inr (r, e) ↦ (
        get_error_code exc,
        sanitize_text sensitive (get_error_message exc (get_error_code exc))
            (lit "Internal server error."),
        sanitize_details sensitive (get_error_details exc (get_error_code exc) r.body),
        rw (api_exception_handler, e, build_error_payload) refl,
        sanitize_text_clean _ (lit "Internal server error.") safe',
        sanitize_details-IsClean _,
        inr (
          r,
          e,
          refl,
          rw (api_exception_handler, e) (kept_headers-select r.headers),
          rw (api_exception_handler, e) refl,
        ),
      )
    ]
