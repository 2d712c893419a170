-- ===== src/Platform/Jobs/Worker.antt =====
-- Jobs and the tasks queued for them: creation (apps/platform/views.py) and the worker
-- (apps/platform/tasks.py).
use sgdy_pa_backend.Prelude.{
  ℕ, ◌==◌, ==_refl, ◌≡◌, ◌∙◌, ◌⊎◌, inl, inr, refl, Bool, Bool-cases, Option-cases, true, false,
  ◌&&◌, Option, none, some, List, [], ◌∷◌, ◌++◌, All, All-map, All-append, any, any-update_where,
  find, find_of_in, update_where, any-holds, arith,
}
use sgdy_pa_backend.Prelude.Text.{Text, lit, text_eq, text_eq_refl, truthy}
use sgdy_pa_backend.Platform.Http.{HttpRequest, HttpResponse, responded, raised}
use sgdy_pa_backend.Platform.Idempotency.{raw_key_of}
use sgdy_pa_backend.Platform.Jobs.{
  JobStatus, pending, completed, AsyncJob, JobTask, Jobs, Rendering, is_job, complete_async_job,
  async_job_create, is_job_of, mark_started, mark_completed, job_payload, payload_of, object_of,
  task_for, new_job, method_not_allowed_response,
}

abbrev pub is_completed : JobStatus → Bool
is_completed completed = true
is_completed _ = false

-- The task carries a key, and its job is stored.
abbrev pub IsBacked : List AsyncJob → JobTask → Type 0
IsBacked jobs task =
    (truthy task.task_key ≡ true) × (any (is_job task.job_id task.task_key) jobs ≡ true)

abbrev pub is_done : JobTask → AsyncJob → Bool
is_done task job = is_job task.job_id task.task_key job && is_completed job.status

-- Every task of the queue can run.
abbrev pub IsReady : Jobs → Type 0
IsReady w = All (IsBacked w.jobs) w.queue

abbrev finish : ℕ → JobTask → AsyncJob → AsyncJob
finish now task job = mark_completed now (payload_of task.task_result) (mark_started now job)

any-append : (p : AsyncJob → Bool) (t u : List AsyncJob) → any p t ≡ true → any p (t ++ u) ≡ true
any-append p [] u h = cc
any-append p (x ∷ t) u h = ground (arith, any-append p t u)

any-append_last :
    (p : AsyncJob → Bool) (t : List AsyncJob) (x : AsyncJob)
    → p x ≡ true
    → any p (t ++ x ∷ []) ≡ true
any-append_last p [] x h = ground arith
any-append_last p (y ∷ t) x h = ground (arith, any-append_last p t x)

find_of_any :
    (p : AsyncJob → Bool) (t : List AsyncJob)
    → any p t ≡ true
    → (x : AsyncJob) × (find p t ≡ some x)
find_of_any p t h = let (x, m, e) = any-holds p t h in find_of_in p t x m e

-- A job of a task that ends up completed.
any-done_self :
    (now : ℕ) (task : JobTask) (t : List AsyncJob)
    → any (is_job task.job_id task.task_key) t ≡ true
    → any (is_done task) (update_where (λ job. job.id == task.job_id) (finish now task) t) ≡ true
unfolding mark_started mark_completed
any-done_self now task [] h = cc
any-done_self now task (x ∷ t) h = ground (arith, any-done_self now task t)

any-done_other :
    (now : ℕ) (task other : JobTask) (t : List AsyncJob)
    → any (is_done other) t ≡ true
    → any (is_done other) (update_where (λ job. job.id == task.job_id) (finish now task) t) ≡ true
unfolding mark_started mark_completed
any-done_other now task other [] h = cc
any-done_other now task other (x ∷ t) h = ground (arith, any-done_other now task other t)

any-job_kept :
    (now : ℕ) (task other : JobTask) (t : List AsyncJob)
    → any
        (is_job other.job_id other.task_key)
        (update_where (λ job. job.id == task.job_id) (finish now task) t)
      ≡ any (is_job other.job_id other.task_key) t
unfolding mark_started mark_completed
any-job_kept now task other t = any-update_where _ _ _ t (λ x. refl)

complete-IsBacked :
    (now : ℕ) (task : JobTask) (jobs : List AsyncJob)
    → IsBacked jobs task
    → complete_async_job now task jobs
      ≡ some (update_where (λ job. job.id == task.job_id) (finish now task) jobs)
unfolding complete_async_job
complete-IsBacked now task jobs (keyed, stored) =
    let (job, e) = find_of_any (is_job task.job_id task.task_key) jobs stored in
    rw (complete_async_job, keyed, e) refl

-- The worker takes the tasks in order; none where one raises.
unfoldable pub work : (now : ℕ) → List JobTask → List AsyncJob → Option (List AsyncJob)
unfolding complete_async_job
work now [] jobs = some jobs
work now (task ∷ rest) jobs = elim (complete_async_job now task jobs) [
  | none ↦ none
  | some jobs' ↦ work now rest jobs'
]

All-IsBacked :
    (now : ℕ) (task : JobTask) (tasks : List JobTask) (t : List AsyncJob)
    → All (IsBacked t) tasks
    → All (IsBacked (update_where (λ job. job.id == task.job_id) (finish now task) t)) tasks
All-IsBacked now task tasks t h =
    All-map _ _ (λ other b. (b.0, any-job_kept now task other t ∙ b.1)) tasks h

work-done :
    (now : ℕ) (tasks : List JobTask) (done : List JobTask) (jobs : List AsyncJob)
    → All (IsBacked jobs) tasks
    → All (λ task. any (is_done task) jobs ≡ true) done
    → (jobs' : List AsyncJob) × (work now tasks jobs ≡ some jobs')
      × All (λ task. any (is_done task) jobs' ≡ true) tasks
      × All (λ task. any (is_done task) jobs' ≡ true) done
unfolding work
work-done now [] done jobs h d = (jobs, refl, tt, d)
work-done now (task ∷ rest) done jobs (b, h) d =
    let next = update_where (λ job. job.id == task.job_id) (finish now task) jobs in
    let d' =
      All-map (λ t. any (is_done t) jobs ≡ true) (λ t. any (is_done t) next ≡ true)
        (λ other e. any-done_other now task other jobs e) done d in
    let (jobs', e, r, (s, d'')) =
      work-done now rest (task ∷ done) next (All-IsBacked now task rest jobs h)
        (any-done_self now task jobs b.1, d') in
    (jobs', rw (work, complete-IsBacked now task jobs b) e, (s, r), d'')

-- If every queued task has a key and a stored job, then the worker raises on none of them, and
-- afterwards each has its job completed.
pub work-completes :
    (now : ℕ) (w : Jobs)
    → IsReady w
    → (jobs' : List AsyncJob) × (work now w.queue w.jobs ≡ some jobs')
      × All (λ task. any (is_done task) jobs' ≡ true) w.queue
work-completes now w h =
    let (jobs', e, r, d) = work-done now w.queue [] w.jobs h tt in (jobs', e, r)

IsReady-append :
    (jobs : List AsyncJob) (queue : List JobTask) (job : AsyncJob)
    → truthy job.idempotency_key ≡ true
    → All (IsBacked jobs) queue
    → All (IsBacked (jobs ++ job ∷ [])) (queue ++ task_for job ∷ [])
IsReady-append jobs queue job keyed h =
    All-append (IsBacked (jobs ++ job ∷ [])) queue (task_for job ∷ [])
      (All-map _ _ (λ task b. (b.0, any-append _ jobs (job ∷ []) b.1)) queue h)
      (
        (
          keyed,
          any-append_last _ jobs job (rw (==_refl job.id, text_eq_refl job.idempotency_key) refl),
        ),
        tt,
      )

module _ (x : Rendering) (new_id : List AsyncJob → ℕ) (new_task_id : List AsyncJob → Text)
    (now o : ℕ) where
  -- One pending job of the organization under the request's key is new, and one task for it.
  abbrev pub AddsJob : HttpRequest → Jobs → Jobs → Type 0
  AddsJob req w w' =
      (job : AsyncJob) × (find (is_job_of o (raw_key_of req)) w.jobs ≡ none)
      × (w'.jobs ≡ w.jobs ++ job ∷ [])
      × (w'.queue ≡ w.queue ++ task_for job ∷ [])
      × (job.organization_id ≡ o)
      × (job.idempotency_key ≡ raw_key_of req)
      × (job.status ≡ pending)

  -- A creation request, under a key that is not empty, keeps every queued task runnable. It raises,
  -- or changes nothing, or adds one pending job of the organization under that key, with one task
  -- for it.
  pub async_job_create-IsReady :
      (req : HttpRequest) (w : Jobs)
      → truthy (raw_key_of req) ≡ true
      → IsReady w
      → (async_job_create x new_id new_task_id now o req w ≡ raised)
        ⊎ ((r : HttpResponse) × (w' : Jobs) × (async_job_create x new_id new_task_id now o req w
              ≡ responded r w')
            × IsReady w'
            × ((w' ≡ w) ⊎ AddsJob req w w'))
  unfolding async_job_create
  async_job_create-IsReady req w keyed ready = elim (Bool-cases (text_eq req.method (lit "POST"))) [
    | inr other ↦
        inr (method_not_allowed_response x, w, rw (async_job_create, other) refl, ready, inl refl)
    | inl post ↦ elim (Option-cases (object_of req.body)) [
      | inl bad ↦ inl (rw (async_job_create, post, bad) refl)
      | inr (body, e) ↦ elim (Option-cases (find (is_job_of o (raw_key_of req)) w.jobs)) [
        | inr (job, known) ↦ inr (
          record { status_code = 202; content = job_payload x job; headers = [] },
          w,
          rw (async_job_create, post, e, known) refl,
          ready,
          inl refl,
        )
        | inl new ↦
            let job = new_job x (new_id w.jobs) (new_task_id w.jobs) now o (raw_key_of req) body in
            inr (
              record { status_code = 202; content = job_payload x job; headers = [] },
              record { jobs = w.jobs ++ job ∷ []; queue = w.queue ++ task_for job ∷ [] },
              rw (async_job_create, post, e, new) refl,
              IsReady-append w.jobs w.queue job keyed ready,
              inr (job, new, refl, refl, refl, refl, refl),
            )
      ]
    ]
  ]
