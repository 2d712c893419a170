-- ===== src/Identity/Webhooks/Endpoint.antt =====
-- The endpoint `keycloak_events` (apps/identity/webhooks.py) on the ledger of events and the queue of
-- tasks, both newest first.
use sgdy_pa_backend.Prelude.{
  ℕ, zero, suc, ltb, ◌&&◌, Bool, true, false, not, Option, none, some, List, [], ◌∷◌, all, any,
  if◌then◌else◌,
}
use sgdy_pa_backend.Prelude.Text.{Text, lit, text_eq, truthy}
use sgdy_pa_backend.Prelude.Strings.{strip, lower, starts_with}
use sgdy_pa_backend.Prelude.Json.{Json}
use sgdy_pa_backend.Identity.Webhooks.Events.{Parsing}
use sgdy_pa_backend.Identity.Webhooks.Ledger.{ReplicationEvent, event_ledger_entry}

-- The body is a list of bytes.
pub record Request : Type 0 where
  pub method : Text
  pub body : List ℕ
  pub signature : Text

-- The settings: an empty secret is none.
pub record Config : Type 0 where
  pub secret : Text
  pub enabled : Bool

-- `hmac.new(...).hexdigest()`, `json.loads` on bytes, and the parsing of texts.
pub record Externals : Type 0 where
  pub hmac_hex : (secret : Text) → (body : List ℕ) → Text
  pub loads_body : List ℕ → Option Json
  pub parsing : Parsing

-- The answers, with the status code that the source gives each; `type_error` is the exception of
-- `hmac.compare_digest`, which nothing catches.
pub data Response : Type 0 where
  method_not_allowed not_configured invalid_signature parse_error ignored type_error : Response
  duplicate accepted : (event_id : Text) → Response

pub record State : Type 0 where
  pub events : List ReplicationEvent
  pub queue : List Text

abbrev pub drop : ℕ → Text → Text
drop zero s = s
drop (suc n) [] = []
drop (suc n) (c ∷ s) = drop n s

-- `hmac.compare_digest`, `none` for the `TypeError` on a text that is not ASCII.
unfoldable pub compare_digest : Text → Text → Option Bool
compare_digest s t =
    if all (λ c. ltb c 128) s && all (λ c. ltb c 128) t then some (text_eq s t) else none

unfoldable pub without_prefix : Text → Text
unfolding lower starts_with
without_prefix s = if starts_with (lower s) (lit "sha256=") then drop 7 s else s

unfoldable pub verify_signature : Externals → (body : List ℕ) → (header secret : Text) → Option Bool
unfolding compare_digest without_prefix strip
verify_signature x body header secret =
    if not (truthy header)
    then some false
    else compare_digest (x.hmac_hex secret body) (without_prefix (strip header))

abbrev pub has_event_id : Text → ReplicationEvent → Bool
has_event_id i e = text_eq e.event_id i

-- `get_or_create`, and the task that is queued for a new row.
unfoldable pub record_event : ReplicationEvent → State → Response × State
record_event e st =
    if any (has_event_id e.event_id) st.events
    then (duplicate e.event_id, st)
    else (accepted e.event_id, record { events = e ∷ st.events; queue = e.event_id ∷ st.queue })

unfoldable pub handle_body : Externals → Config → List ℕ → State → Response × State
unfolding record_event event_ledger_entry
handle_body x cfg body st = elim (x.loads_body body) [
  | none ↦ (parse_error, st)
  | some payload ↦ elim (event_ledger_entry x.parsing cfg.enabled payload) [
    | none ↦ (ignored, st)
    | some e ↦ record_event e st
  ]
]

unfoldable pub keycloak_events : Externals → Config → Request → State → Response × State
unfolding verify_signature handle_body
keycloak_events x cfg req st =
    if not (text_eq req.method (lit "POST"))
    then (method_not_allowed, st)
    else if not (truthy cfg.secret)
    then (not_configured, st)
    else elim (verify_signature x req.body req.signature cfg.secret) [
      | none ↦ (type_error, st)
      | some false ↦ (invalid_signature, st)
      | some true ↦ handle_body x cfg req.body st
    ]
