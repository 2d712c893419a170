-- ===== src/Platform/Idempotency.antt =====
-- apps/platform/idempotency.py: the decorator `require_idempotency_key` on the table of records and
-- the rest of the state, which the view reads and writes.
pub mod Replay
pub mod Scope
mod Tests
use sgdy_pa_backend.Prelude.{
  ℕ, ◌==◌, Bool, not, ◌&&◌, Option, none, some, List, [], ◌∷◌, find, if◌then◌else◌,
}
use sgdy_pa_backend.Prelude.Text.{Text, lit, text_eq, truthy}
use sgdy_pa_backend.Prelude.Strings.{strip}
use sgdy_pa_backend.Prelude.Json.{Json, arr, obj, nil, Fields, end, field}
use sgdy_pa_backend.Platform.Http.{HttpRequest, HttpResponse, Outcome, responded, raised}
use sgdy_pa_backend.Platform.Errors.{
  idempotency_key_required, idempotency_key_invalid, idempotency_key_conflict,
  build_error_json_response,
}

pub record IdempotencyRecord : Type 0 where
  pub organization_id : ℕ
  pub key : ℕ
  pub method : Text
  pub path : Text
  pub status_code : ℕ
  pub response_body : Fields

pub record Store (W : Type 0) : Type 0 where
  pub records : List IdempotencyRecord
  pub world : W

-- The unique constraint is on these two columns.
abbrev pub has_key : (organization key : ℕ) → IdempotencyRecord → Bool
has_key o k r = (r.organization_id == o) && (r.key == k)

-- `_json_response_body`
unfoldable pub json_response_body : HttpResponse → Fields
json_response_body r = elim (r.content) [ obj d ↦ d | v ↦ field (lit "data") v end ]

-- `request.headers.get("Idempotency-Key", "").strip()`
unfoldable pub raw_key_of : HttpRequest → Text
unfolding strip
raw_key_of req = elim (req.idempotency_key) [ none ↦ [] | some k ↦ strip k ]

abbrev pub is_same_request : HttpRequest → IdempotencyRecord → Bool
is_same_request req r = text_eq r.method req.method && text_eq r.path req.path

-- `JsonResponse(record.response_body, status=record.status_code)`
unfoldable pub stored_response : IdempotencyRecord → HttpResponse
stored_response r = record {
  status_code = r.status_code;
  content = obj r.response_body;
  headers = [];
}

-- `parse_uuid` is `uuid.UUID`, none where it raises; `sensitive` is the search of the error answers.
module _ (sensitive : Text → Bool) (parse_uuid : Text → Option ℕ) {W : Type 0} where
  -- The transaction, under a key. The record of a first request is written before the view runs,
  -- and completed after it; where the view raises, it is rolled back.
  unfoldable pub run_keyed :
      (view : HttpRequest → W → Outcome W)
      → (organization key : ℕ) → HttpRequest
      → Store W
      → Outcome (Store W)
  unfolding json_response_body stored_response
  run_keyed view o k req st = elim (find (has_key o k) st.records) [
    | some r ↦
        if not (is_same_request req r)
        then responded
            (build_error_json_response sensitive idempotency_key_conflict
              (lit "Idempotency-Key was already used for a different request.") (arr nil) 409
              req.request_id)
            st
        else responded (stored_response r) st
    | none ↦ elim (view req st.world) [
      | raised ↦ raised
      | responded response world ↦ responded response (record {
        records =
            record {
              organization_id = o;
              key = k;
              method = req.method;
              path = req.path;
              status_code = response.status_code;
              response_body = json_response_body response;
            }
            ∷ st.records;
        world = world;
      })
    ]
  ]

  unfoldable pub require_idempotency_key :
      (view : HttpRequest → W → Outcome W)
      → (organization_scope : ℕ) → HttpRequest
      → Store W
      → Outcome (Store W)
  unfolding run_keyed raw_key_of
  require_idempotency_key view o req st =
      if not (text_eq req.method (lit "POST"))
      then (elim (view req st.world) [
        | raised ↦ raised
        | responded response world ↦ responded response (record st { world = world })
      ])
      else if not (truthy (raw_key_of req))
      then responded
          (build_error_json_response sensitive idempotency_key_required
            (lit "Idempotency-Key header is required for this operation.") (arr nil) 400
            req.request_id)
          st
      else elim (parse_uuid (raw_key_of req)) [
        | none ↦
            responded
              (build_error_json_response sensitive idempotency_key_invalid
                (lit "Idempotency-Key header must be a UUID.") (arr nil) 400 req.request_id)
              st
        | some k ↦ run_keyed view o k req st
      ]
