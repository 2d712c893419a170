-- ===== src/Identity/Webhooks/Dedupe.antt =====
-- The requests to the endpoint of apps/identity/webhooks.py, and sequences of them.
use sgdy_pa_backend.Prelude.{
  ℕ, ◌≡◌, ◌⊎◌, inl, inr, refl, Bool-cases, Option-cases, true, false, some, List, [], ◌∷◌, map, any,
}
use sgdy_pa_backend.Prelude.Text.{lit, text_eq, truthy, text_eq_refl}
use sgdy_pa_backend.Prelude.Json.{Json}
use sgdy_pa_backend.Identity.Webhooks.Ledger.{ReplicationEvent, event_ledger_entry}
use sgdy_pa_backend.Identity.Webhooks.Endpoint.{
  Request, Config, Externals, accepted, duplicate, State, verify_signature, has_event_id,
  record_event, handle_body, keycloak_events,
}

abbrev pub with_event : ReplicationEvent → State → State
with_event e st = record { events = e ∷ st.events; queue = e.event_id ∷ st.queue }

-- The body is the text of a payload that is an event to replicate, and its id is new.
abbrev pub IsNewEvent : Externals → Config → List ℕ → State → ReplicationEvent → Type 0
IsNewEvent x cfg body st e =
    ((payload : Json) × (x.loads_body body ≡ some payload)
      × (event_ledger_entry x.parsing cfg.enabled payload ≡ some e))
    × (any (has_event_id e.event_id) st.events ≡ false)

-- A POST under a configured secret with a valid signature.
abbrev pub IsAuthentic : Externals → Config → Request → Type 0
IsAuthentic x cfg req =
    (text_eq req.method (lit "POST") ≡ true)
    × (truthy cfg.secret ≡ true)
    × (verify_signature x req.body req.signature cfg.secret ≡ some true)

-- No two rows have one event id.
abbrev pub IsDistinct : List ReplicationEvent → Type 0
IsDistinct [] = Unit
IsDistinct (e ∷ rest) = (any (has_event_id e.event_id) rest ≡ false) × IsDistinct rest

-- The queue holds the event id of each row, in the order of the rows, which have distinct ids.
abbrev pub IsQueuedOnce : State → Type 0
IsQueuedOnce st = (st.queue ≡ map (λ e. e.event_id) st.events) × IsDistinct st.events

module _ (x : Externals) (cfg : Config) where
  handle_body_cases :
      (body : List ℕ) (st : State)
      → ((handle_body x cfg body st).1 ≡ st)
        ⊎ ((e : ReplicationEvent) × IsNewEvent x cfg body st e
            × (handle_body x cfg body st ≡ (accepted e.event_id, with_event e st)))
  unfolding handle_body record_event
  handle_body_cases body st = elim (Option-cases (x.loads_body body)) [
    | inl e ↦ inl (rw (e, handle_body) refl)
    | inr (payload, e) ↦ elim (Option-cases (event_ledger_entry x.parsing cfg.enabled payload)) [
      | inl e' ↦ inl (rw (e, handle_body, e') refl)
      | inr (event, e') ↦ elim (Bool-cases (any (has_event_id event.event_id) st.events)) [
        | inl known ↦ inl (rw (e, handle_body, e', record_event, known) refl)
        | inr new ↦
            inr (event, ((payload, e, e'), new), rw (e, handle_body, e', record_event, new) refl)
      ]
    ]
  ]

  -- A request leaves the ledger and the queue as they are, or it is an authentic POST of a new
  -- event, is accepted, and adds that one row and that one task.
  pub keycloak_events_cases :
      (req : Request) (st : State)
      → ((keycloak_events x cfg req st).1 ≡ st)
        ⊎ ((e : ReplicationEvent) × IsAuthentic x cfg req
            × IsNewEvent x cfg req.body st e
            × (keycloak_events x cfg req st ≡ (accepted e.event_id, with_event e st)))
  unfolding keycloak_events
  keycloak_events_cases req st = elim (Bool-cases (text_eq req.method (lit "POST"))) [
    | inr other ↦ inl (rw (other, keycloak_events) refl)
    | inl post ↦ elim (Bool-cases (truthy cfg.secret)) [
      | inr unset ↦ inl (rw (post, unset, keycloak_events) refl)
      | inl secret ↦ elim (Option-cases (verify_signature x req.body req.signature cfg.secret)) [
        | inl e ↦ inl (rw (post, secret, e, keycloak_events) refl)
        | inr (b, e) ↦ elim (Bool-cases b) [
          | inr bad ↦ inl (rw (post, secret, e, bad, keycloak_events) refl)
          | inl good ↦ elim (handle_body_cases req.body st) [
            | inl same ↦ inl (rw (post, secret, e, good, keycloak_events) same)
            | inr (event, new, done) ↦ inr (
              event,
              (post, secret, rw good at e),
              new,
              rw (post, secret, e, good, keycloak_events) done,
            )
          ]
        ]
      ]
    ]
  ]

  -- An authentic POST of a new event is accepted, with its row and its task; delivered again, it is
  -- answered as a duplicate and changes nothing.
  pub keycloak_events_twice :
      (req : Request) (st : State) (e : ReplicationEvent)
      → IsAuthentic x cfg req
      → IsNewEvent x cfg req.body st e
      → (keycloak_events x cfg req st ≡ (accepted e.event_id, with_event e st))
        × (keycloak_events x cfg req (with_event e st) ≡ (duplicate e.event_id, with_event e st))
  unfolding keycloak_events handle_body record_event
  keycloak_events_twice req st e (post, secret, good) ((payload, l, l'), fresh) = (
    rw (keycloak_events, post, secret, good, handle_body, l, l', record_event, fresh) refl,
    rw
        (
          keycloak_events,
          post,
          secret,
          good,
          handle_body,
          l,
          l',
          record_event,
          text_eq_refl e.event_id,
        )
        refl,
  )

  -- The requests of a list, in order.
  unfoldable pub handle_all : List Request → State → State
  unfolding keycloak_events
  handle_all [] st = st
  handle_all (req ∷ rest) st = handle_all rest (keycloak_events x cfg req st).1

  -- Whatever requests arrive, each event in the ledger has been queued once and in order, and no two
  -- rows have one event id, if that was so before.
  pub handle_all-IsQueuedOnce :
      (reqs : List Request) (st : State) → IsQueuedOnce st → IsQueuedOnce (handle_all reqs st)
  unfolding handle_all
  handle_all-IsQueuedOnce [] st h = h
  handle_all-IsQueuedOnce (req ∷ rest) st h =
      handle_all-IsQueuedOnce rest (keycloak_events x cfg req st).1
        (elim (keycloak_events_cases req st) [
          | inl same ↦ rw same h
          | inr (event, _, (_, fresh), done) ↦ rw done (rw h.0 refl, (fresh, h.1))
        ])
