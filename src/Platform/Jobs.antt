-- ===== src/Platform/Jobs.antt =====
-- Asynchronous jobs: `AsyncJob` (apps/platform/models.py), the task (apps/platform/tasks.py) and the
-- views (apps/platform/views.py), on the table of jobs and the queue of tasks.
pub mod Worker
mod Tests
use sgdy_pa_backend.Prelude.{
  ℕ, ◌==◌, Bool, not, ◌&&◌, Option, none, some, List, [], ◌∷◌, ◌++◌, find, update_where,
  if◌then◌else◌,
}
use sgdy_pa_backend.Prelude.Text.{Text, lit, text_eq, truthy}
use sgdy_pa_backend.Prelude.Json.{Json, null, str, obj, Fields, end, field, get}
use sgdy_pa_backend.Identity.Authorization.{get_or_null}
use sgdy_pa_backend.Identity.Webhooks.Events.{is_truthy, or_json}
use sgdy_pa_backend.Platform.Http.{HttpRequest, HttpResponse, Outcome, responded, raised}
use sgdy_pa_backend.Platform.Idempotency.{raw_key_of}

-- `AsyncJob.Status`
pub data JobStatus : Type 0 where
  pending started completed failed : JobStatus

abbrev pub status_value : JobStatus → Text
status_value pending = lit "pending"
status_value started = lit "started"
status_value completed = lit "completed"
status_value failed = lit "failed"

pub record AsyncJob : Type 0 where
  pub id : ℕ
  pub task_id : Text
  pub operation : Text
  pub status : JobStatus
  pub organization_id : ℕ
  pub idempotency_key : Text
  pub result : Fields
  pub error : Text
  pub created_at : ℕ
  pub updated_at : ℕ
  pub completed_at : Option ℕ

-- A queued `complete_async_job`, with its arguments.
pub record JobTask : Type 0 where
  pub job_id : ℕ
  pub task_key : Text
  pub task_result : Fields

pub record Jobs : Type 0 where
  pub jobs : List AsyncJob
  pub queue : List JobTask

-- The texts of a key, of a time and of an address, and `str` on a value that is no text.
pub record Rendering : Type 0 where
  pub uuid_str : ℕ → Text
  pub iso : ℕ → Text
  pub job_url : ℕ → Text
  pub py_str : Json → Text

unfoldable pub mark_started : (now : ℕ) → AsyncJob → AsyncJob
mark_started now job = record job { status = started; updated_at = now }

unfoldable pub mark_completed : (now : ℕ) → Fields → AsyncJob → AsyncJob
mark_completed now result job = record job {
  status = completed;
  result = result;
  completed_at = some now;
  updated_at = now;
}

unfoldable pub mark_failed : (now : ℕ) → Text → AsyncJob → AsyncJob
mark_failed now error job = record job {
  status = failed;
  error = error;
  completed_at = some now;
  updated_at = now;
}

abbrev pub is_job : (id : ℕ) → (key : Text) → AsyncJob → Bool
is_job i key job = (job.id == i) && text_eq job.idempotency_key key

-- `result or {"message": "job completed"}`
abbrev pub payload_of : Fields → Fields
payload_of end = field (lit "message") (str (lit "job completed")) end
payload_of (field k v d) = field k v d

-- `complete_async_job`, under `idempotent_task`; none where it raises.
unfoldable pub complete_async_job : (now : ℕ) → JobTask → List AsyncJob → Option (List AsyncJob)
unfolding mark_started mark_completed
complete_async_job now task jobs =
    if not (truthy task.task_key)
    then none
    else elim (find (is_job task.job_id task.task_key) jobs) [
      | none ↦ none
      | some _ ↦ some (
          update_where (λ job. job.id == task.job_id)
            (λ job. mark_completed now (payload_of task.task_result) (mark_started now job)) jobs)
    ]

abbrev pub is_job_of : (organization : ℕ) → (key : Text) → AsyncJob → Bool
is_job_of o key job = (job.organization_id == o) && text_eq job.idempotency_key key

-- The object of a body; any other value has no `get`.
abbrev pub object_of : Option Json → Option Fields
object_of (some (obj d)) = some d
object_of _ = none

-- The task that is queued for a new job.
abbrev pub task_for : AsyncJob → JobTask
task_for job = record {
  job_id = job.id;
  task_key = job.idempotency_key;
  task_result = field (lit "operation") (str job.operation) end;
}

module _ (x : Rendering) where
  unfoldable pub job_payload : AsyncJob → Json
  job_payload job = obj (
      field (lit "id") (str (x.uuid_str job.id)) (
        field (lit "operation") (str job.operation) (
          field (lit "status") (str (status_value job.status)) (
            field (lit "task_id") (str job.task_id) (
              field (lit "result") (obj job.result) (
                field (lit "error") (str job.error) (
                  field (lit "created_at") (str (x.iso job.created_at)) (
                    field (lit "updated_at") (str (x.iso job.updated_at)) (
                      field (lit "completed_at")
                        (elim (job.completed_at) [ none ↦ null | some t ↦ str (x.iso t) ])
                        (field (lit "url") (str (x.job_url job.id)) end))))))))))

  abbrev pub method_not_allowed_response : HttpResponse
  method_not_allowed_response = record {
    status_code = 405;
    content =
        obj
          (field (lit "error") (obj (field (lit "code") (str (lit "method_not_allowed")) end)) end);
    headers = [];
  }

  -- `str(body.get("operation") or "platform.noop")`
  unfoldable pub operation_of : Fields → Text
  operation_of body =
      elim (or_json (get_or_null (lit "operation") body) (str (lit "platform.noop"))) [
        | str s ↦ s
        | v ↦ x.py_str v
      ]

  -- The row that `get_or_create` inserts, with the task's key.
  unfoldable pub new_job :
      (id : ℕ) → (task_id : Text) → (now organization : ℕ) → (key : Text) → Fields → AsyncJob
  unfolding operation_of
  new_job id task_id now o key body = record {
    id = id;
    task_id = task_id;
    operation = operation_of body;
    status = pending;
    organization_id = o;
    idempotency_key = key;
    result = end;
    error = [];
    created_at = now;
    updated_at = now;
    completed_at = none;
  }

  -- The keys of the new job and of its task are arguments. The task is queued when the transaction
  -- of the decorator commits.
  unfoldable pub async_job_create :
      (new_id : List AsyncJob → ℕ)
      → (new_task_id : List AsyncJob → Text) → (now organization_scope : ℕ) → HttpRequest
      → Jobs
      → Outcome Jobs
  unfolding job_payload new_job raw_key_of
  async_job_create new_id new_task_id now o req w =
      if not (text_eq req.method (lit "POST"))
      then responded method_not_allowed_response w
      else elim (object_of req.body) [
        | none ↦ raised
        | some body ↦ elim (find (is_job_of o (raw_key_of req)) w.jobs) [
          | some job ↦
              responded (record { status_code = 202; content = job_payload job; headers = [] }) w
          | none ↦
              let job = new_job (new_id w.jobs) (new_task_id w.jobs) now o (raw_key_of req) body in
              responded (record { status_code = 202; content = job_payload job; headers = [] })
                (record { jobs = w.jobs ++ job ∷ []; queue = w.queue ++ task_for job ∷ [] })
        ]
      ]

  unfoldable pub async_job_detail : (job_id : ℕ) → HttpRequest → Jobs → Outcome Jobs
  unfolding job_payload
  async_job_detail i req w =
      if not (text_eq req.method (lit "GET"))
      then responded method_not_allowed_response w
      else elim (find (λ job. job.id == i) w.jobs) [
        | none ↦ raised
        | some job ↦
            responded (record { status_code = 200; content = job_payload job; headers = [] }) w
      ]
