-- ===== src/Platform/Jobs/Tests.antt =====
-- Jobs at concrete inputs: runs of the definitions, and the theorems applied.
use sgdy_pa_backend.Prelude.{ℕ, ◌≡◌, ◌⊎◌, refl, true, none, some, List, [], ◌∷◌, All, any, length}
use sgdy_pa_backend.Prelude.Text.{Text, lit, text_eq, truthy}
use sgdy_pa_backend.Prelude.Json.{str, obj, end, field, get}
use sgdy_pa_backend.Platform.Http.{HttpRequest, HttpResponse, responded, raised}
use sgdy_pa_backend.Platform.Idempotency.{raw_key_of}
use sgdy_pa_backend.Platform.Jobs.{
  AsyncJob, JobTask, Jobs, Rendering, completed, pending, async_job_create,
}
use sgdy_pa_backend.Platform.Jobs.Worker.{
  IsReady, AddsJob, is_done, work, work-completes, async_job_create-IsReady,
}

abbrev plain : Rendering
plain = record {
  uuid_str = λ n. n ∷ [];
  iso = λ n. n ∷ [];
  job_url = λ n. b'/' ∷ n ∷ [];
  py_str = λ v. [];
}

abbrev next_id : List AsyncJob → ℕ
next_id jobs = length jobs

abbrev next_task_id : List AsyncJob → Text
next_task_id jobs = lit "task"

abbrev create : HttpRequest
create = record {
  method = lit "POST";
  path = lit "/platform/async-jobs";
  request_id = none;
  authorization = none;
  organization_header = none;
  idempotency_key = some (lit " k1 ");
  body = some (obj (field (lit "operation") (str (lit "export")) end));
}

abbrev no_jobs : Jobs
no_jobs = record { jobs = []; queue = [] }

abbrev export_job : AsyncJob
export_job = record {
  id = 0;
  task_id = lit "task";
  operation = lit "export";
  status = pending;
  organization_id = 7;
  idempotency_key = lit "k1";
  result = end;
  error = [];
  created_at = 5;
  updated_at = 5;
  completed_at = none;
}

abbrev export_task : JobTask
export_task = record {
  job_id = 0;
  task_key = lit "k1";
  task_result = field (lit "operation") (str (lit "export")) end;
}

abbrev one_job : Jobs
one_job = record { jobs = export_job ∷ []; queue = export_task ∷ [] }

create_run :
    (r : HttpResponse) × (async_job_create plain next_id next_task_id 5 7 create no_jobs
      ≡ responded r one_job)
unfolding async_job_create text_eq get
create_run = (_, refl)

work_run :
    work 9 one_job.queue one_job.jobs
    ≡ some (
        record export_job {
          status = completed;
          result = field (lit "operation") (str (lit "export")) end;
          updated_at = 9;
          completed_at = some 9;
        }
        ∷ [])
unfolding work text_eq
work_run = refl

one_job-IsReady : IsReady one_job
unfolding text_eq
one_job-IsReady = ((refl, refl), tt)

work-completes_example :
    (jobs' : List AsyncJob) × (work 9 one_job.queue one_job.jobs ≡ some jobs')
    × All (λ task. any (is_done task) jobs' ≡ true) one_job.queue
work-completes_example = work-completes 9 one_job one_job-IsReady

create_key : truthy (raw_key_of create) ≡ true
unfolding raw_key_of
create_key = refl

async_job_create-IsReady_example :
    (async_job_create plain next_id next_task_id 5 7 create no_jobs ≡ raised)
    ⊎ ((r : HttpResponse) × (w' : Jobs) × (async_job_create plain next_id next_task_id 5 7 create
            no_jobs
          ≡ responded r w')
        × IsReady w'
        × ((w' ≡ no_jobs) ⊎ AddsJob plain next_id next_task_id 5 7 create no_jobs w'))
async_job_create-IsReady_example =
    async_job_create-IsReady plain next_id next_task_id 5 7 create no_jobs create_key tt
