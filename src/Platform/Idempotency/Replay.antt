-- ===== src/Platform/Idempotency/Replay.antt =====
-- Requests that carry an idempotency key (apps/platform/idempotency.py).
use sgdy_pa_backend.Prelude.{ℕ, ==_refl, ◌≡◌, refl, ◌∙◌, Bool, true, Option, none, some, ◌∷◌, find}
use sgdy_pa_backend.Prelude.Text.{Text, lit, text_eq, text_eq_refl, truthy}
use sgdy_pa_backend.Platform.Http.{HttpRequest, HttpResponse, Outcome, responded}
use sgdy_pa_backend.Platform.Idempotency.{
  IdempotencyRecord, Store, has_key, json_response_body, raw_key_of, is_same_request,
  stored_response, run_keyed, require_idempotency_key,
}

-- A POST whose key is the UUID `k`.
abbrev pub IsKeyed : (Text → Option ℕ) → HttpRequest → ℕ → Type 0
IsKeyed parse_uuid req k =
    (text_eq req.method (lit "POST") ≡ true)
    × (truthy (raw_key_of req) ≡ true)
    × (parse_uuid (raw_key_of req) ≡ some k)

-- The record of the first answer to a request.
abbrev pub first_record : (organization key : ℕ) → HttpRequest → HttpResponse → IdempotencyRecord
first_record o k req response = record {
  organization_id = o;
  key = k;
  method = req.method;
  path = req.path;
  status_code = response.status_code;
  response_body = json_response_body response;
}

has_key_refl :
    (o k : ℕ) (req : HttpRequest) (r : HttpResponse) → has_key o k (first_record o k req r) ≡ true
has_key_refl o k req r = rw (==_refl o, ==_refl k) refl

is_same_request_refl :
    (o k : ℕ) (req : HttpRequest) (r : HttpResponse)
    → is_same_request req (first_record o k req r) ≡ true
is_same_request_refl o k req r = rw (text_eq_refl req.method, text_eq_refl req.path) refl

module _ (sensitive : Text → Bool) (parse_uuid : Text → Option ℕ) {W : Type 0} where
  keyed :
      (view : HttpRequest → W → Outcome W) (o : ℕ) (req : HttpRequest) (st : Store W) (k : ℕ)
      → IsKeyed parse_uuid req k
      → require_idempotency_key sensitive parse_uuid view o req st
        ≡ run_keyed sensitive parse_uuid view o k req st
  unfolding require_idempotency_key
  keyed view o req st k (post, given, parsed) =
      rw (require_idempotency_key, post, given, parsed) refl

  -- A keyed POST that the view answers for the first time is answered by the view, and recorded.
  -- Sent again, to any view and with any state of the rest, it gets the stored answer, and
  -- changes nothing.
  pub require_idempotency_key_replay :
      (view other : HttpRequest → W → Outcome W) (o k : ℕ) (req : HttpRequest) (st : Store W)
      (response : HttpResponse) (world later : W)
      → IsKeyed parse_uuid req k
      → find (has_key o k) st.records ≡ none
      → view req st.world ≡ responded response world
      → (require_idempotency_key sensitive parse_uuid view o req st
          ≡ responded response
              (record { records = first_record o k req response ∷ st.records; world = world }))
        × (require_idempotency_key sensitive parse_uuid other o req
              (record { records = first_record o k req response ∷ st.records; world = later })
            ≡ responded
                (stored_response (first_record o k req response))
                (record { records = first_record o k req response ∷ st.records; world = later }))
  unfolding run_keyed
  require_idempotency_key_replay view other o k req st response world later h new answers = (
    keyed view o req st k h ∙ rw (run_keyed, new, answers) refl,
    keyed other o req _ k h
        ∙ rw (run_keyed, has_key_refl o k req response, is_same_request_refl o k req response) refl,
  )
