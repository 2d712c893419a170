-- ===== src/Platform/Idempotency/Tests.antt =====
-- Idempotency keys at concrete inputs: the theorems applied to the view that creates jobs.
use sgdy_pa_backend.Platform.Idempotency.{json_response_body}
use sgdy_pa_backend.Prelude.{ℕ, suc, ◌≡◌, refl, Bool, false, Option, none, some, [], ◌∷◌}
use sgdy_pa_backend.Prelude.Text.{Text, lit, text_eq}
use sgdy_pa_backend.Prelude.Json.{arr, obj, nil, end, field}
use sgdy_pa_backend.Platform.Http.{HttpRequest, HttpResponse, Outcome, responded}
use sgdy_pa_backend.Platform.Idempotency.{
  Store, raw_key_of, stored_response, require_idempotency_key,
}
use sgdy_pa_backend.Platform.Idempotency.Replay.{
  IsKeyed, first_record, require_idempotency_key_replay,
}
use sgdy_pa_backend.Platform.Idempotency.Scope.{
  IsScoped, answer_of, require_idempotency_key-IsScoped,
}

abbrev never : Text → Bool
never s = false

-- A key of one character.
abbrev parse_one : Text → Option ℕ
parse_one (c ∷ []) = some c
parse_one _ = none

-- A view that counts its runs, and answers with a list.
abbrev counting : HttpRequest → ℕ → Outcome ℕ
counting req n = responded (record { status_code = 201; content = arr nil; headers = [] }) (suc n)

abbrev post : HttpRequest
post = record {
  method = lit "POST";
  path = lit "/x";
  request_id = none;
  authorization = none;
  organization_header = none;
  idempotency_key = some (lit " k ");
  body = none;
}

abbrev fresh : Store ℕ
fresh = record { records = []; world = 0 }

abbrev first_answer : HttpResponse
first_answer = record { status_code = 201; content = arr nil; headers = [] }

post-IsKeyed : IsKeyed parse_one post b'k'
unfolding raw_key_of text_eq
post-IsKeyed = (refl, refl, refl)

-- The answer that is replayed has its list under `data`.
replay_run :
    stored_response (first_record 7 b'k' post first_answer)
    ≡ record { status_code = 201; content = obj (field (lit "data") (arr nil) end); headers = [] }
unfolding stored_response json_response_body
replay_run = refl

require_idempotency_key_replay_example :
    (require_idempotency_key never parse_one counting 7 post fresh
      ≡ responded first_answer
          (record { records = first_record 7 b'k' post first_answer ∷ []; world = 1 }))
    × (require_idempotency_key never parse_one counting 7 post
          (record { records = first_record 7 b'k' post first_answer ∷ []; world = 4 })
        ≡ responded
            (stored_response (first_record 7 b'k' post first_answer))
            (record { records = first_record 7 b'k' post first_answer ∷ []; world = 4 }))
require_idempotency_key_replay_example =
    require_idempotency_key_replay never parse_one counting counting 7 b'k' post fresh first_answer
      1 4 post-IsKeyed refl refl

abbrev other_scope : Store ℕ
other_scope = record { records = first_record 8 b'k' post first_answer ∷ []; world = 0 }

require_idempotency_key-IsScoped_example :
    IsScoped never parse_one counting 7 fresh
      (require_idempotency_key never parse_one counting 7 post fresh)
    × (answer_of (require_idempotency_key never parse_one counting 7 post fresh)
        ≡ answer_of (require_idempotency_key never parse_one counting 7 post other_scope))
require_idempotency_key-IsScoped_example =
    require_idempotency_key-IsScoped never parse_one counting 7 post fresh other_scope refl refl tt
