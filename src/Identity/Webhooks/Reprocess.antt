-- ===== src/Identity/Webhooks/Reprocess.antt =====
-- Runs of the task `process_keycloak_admin_event` (apps/identity/tasks.py) on one event.
use sgdy_pa_backend.Prelude.{
  ℕ, ◌≡◌, ◌⊎◌, inl, inr, refl, ◌∙◌, Option-cases, none, some, List, find, update_where,
  find-update_where, find-holds,
}
use sgdy_pa_backend.Prelude.Text.{Text}
use sgdy_pa_backend.Identity.Models.{User}
use sgdy_pa_backend.Identity.Authorization.{Db}
use sgdy_pa_backend.Identity.OrgReplication.Memberships.{Keys}
use sgdy_pa_backend.Identity.Webhooks.Events.{Parsing}
use sgdy_pa_backend.Identity.Webhooks.Ledger.{ReplicationEvent}
use sgdy_pa_backend.Identity.Webhooks.Endpoint.{has_event_id}
use sgdy_pa_backend.Identity.Webhooks.Task.{
  World, Applied, applied, raised, missing, already_processed, returned, retried, TaskStatus,
  with_outcome, apply_event, process_keycloak_admin_event,
}

module _ (next_id : List User → ℕ) (slugify : Text → Text) (keys : Keys) (parsing : Parsing)
    (now : ℕ) where
  Applied-cases :
      (a : Applied)
      → (a ≡ raised)
        ⊎ ((s : TaskStatus) × (error : Text) × (users : List User) × (db : Db) × (a
              ≡ applied s error users db))
  Applied-cases raised = inl refl
  Applied-cases (applied s error users db) = inr (s, error, users, db, refl)

  find-with_outcome :
      (i error : Text) (events : List ReplicationEvent) (row : ReplicationEvent)
      → find (has_event_id i) events ≡ some row
      → find (has_event_id i) (update_where (has_event_id i) (with_outcome now error) events)
        ≡ some (with_outcome now error row)
  find-with_outcome i error events row e =
      find-update_where (has_event_id i) (has_event_id i) _ events (λ x. refl)
      ∙ rw (e, find-holds (has_event_id i) events e) refl

  -- The cases of one run on the tables, each with its condition and the tables it leaves: the event
  -- is not stored; it was processed before; its work raises; or its work is done, which leaves the
  -- tables of the work and the event with the time and the error text of this run, so that a later
  -- run finds it processed.
  abbrev pub IsRun : (event_id : Text) → World → (later : ℕ) → Type 0
  IsRun i w later =
      ((find (has_event_id i) w.events ≡ none)
        × (process_keycloak_admin_event next_id slugify keys parsing now i w ≡ returned missing w))
      ⊎ ((row : ReplicationEvent) × (find (has_event_id i) w.events ≡ some row)
          × (((t : ℕ) × (row.processed_at ≡ some t)
                × (process_keycloak_admin_event next_id slugify keys parsing now i w
                    ≡ returned already_processed w))
              ⊎ (((row.processed_at ≡ none)
                    × (apply_event next_id slugify keys parsing now row w.users w.db ≡ raised)
                    × (process_keycloak_admin_event next_id slugify keys parsing now i w ≡ retried))
                  ⊎ ((s : TaskStatus) × (error : Text) × (users : List User) × (db : Db)
                      × (w' : World) × (row.processed_at ≡ none)
                      × (apply_event next_id slugify keys parsing now row w.users w.db
                          ≡ applied s error users db)
                      × (w' ≡ record {
                        users = users;
                        db = db;
                        events =
                            update_where (has_event_id i)
                              (λ r. record r { error = error; processed_at = some now }) w.events;
                      })
                      × (process_keycloak_admin_event next_id slugify keys parsing now i w
                          ≡ returned s w')
                      × (process_keycloak_admin_event next_id slugify keys parsing later i w'
                          ≡ returned already_processed w')))))

  -- A run of the task reports an event that is not stored as missing, and one that was processed
  -- before as processed, and changes nothing. On any other event it raises exactly where the work of
  -- the event raises; else it leaves the users and the organizations that the work gives, and the
  -- row of the event with the work's error text and the time, and any later run reports the event
  -- as processed and changes nothing.
  pub process_cases : (i : Text) (w : World) (later : ℕ) → IsRun i w later
  unfolding process_keycloak_admin_event
  process_cases i w later = elim (Option-cases (find (has_event_id i) w.events)) [
    | inl e ↦ inl (e, rw (process_keycloak_admin_event, e) refl)
    | inr (row, e) ↦ inr (
      row,
      e,
      elim (Option-cases row.processed_at) [
        | inr (t, done) ↦ inl (t, done, rw (process_keycloak_admin_event, e, done) refl)
        | inl fresh ↦
            elim (Applied-cases (apply_event next_id slugify keys parsing now row w.users w.db)) [
              | inl fails ↦
                  inr (inl (fresh, fails, rw (process_keycloak_admin_event, e, fresh, fails) refl))
              | inr (s, error, users, db, works) ↦ inr (
                  inr (
                    s,
                    error,
                    users,
                    db,
                    record {
                      users = users;
                      db = db;
                      events = update_where (has_event_id i) (with_outcome now error) w.events;
                    },
                    fresh,
                    works,
                    refl,
                    rw (process_keycloak_admin_event, e, fresh, works) refl,
                    rw (process_keycloak_admin_event, find-with_outcome i error w.events row e)
                        refl,
                  ))
            ]
      ],
    )
  ]
