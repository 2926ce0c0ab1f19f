-- ===== src/Jobs/Rows.antt =====
-- The rows that the jobs module keeps (app/modules/jobs/infrastructure/models.py), and the methods of
-- BackgroundJobRepository that read and write single rows. The tables of other modules that it
-- counts are given by their counts.
use invora_api.Base.{
  ℕ, ◌+◌, Bool, false, ◌&&◌, Option, none, some, List, [], ◌∷◌, ◌++◌, map, find, any, if◌then◌else◌,
  ◌==◌,
}
use invora_api.Text.{Text, codes, same_text}
use invora_api.Result.{ok, err}
use invora_api.Exec.{Exec, gets, ◌>>=◌}
use invora_api.Exec.Session.{Session, committed_state, rolled_back, tick}
use invora_api.Jobs.Status.{
  JobStatus, started, finished, retrying, is_active_status, JobError, integrity_error,
}
use invora_api.Jobs.Summary.{Value}

pub record Job : Type 0 where
  pub id : ℕ
  pub rq_job_id : Text
  pub user_id : ℕ
  pub job_type : Text
  pub entity_type : Option Text
  pub entity_id : Option ℕ
  pub queue_name : Text
  pub status : JobStatus
  pub attempts : ℕ
  pub max_retries : ℕ
  pub timeout_seconds : ℕ
  pub enqueued_at : ℕ
  pub started_at : Option ℕ
  pub completed_at : Option ℕ
  pub failed_at : Option ℕ
  pub cancelled_at : Option ℕ
  pub error_code : Option Text
  pub error_message : Option Text
  pub result_summary : Option Value
  pub retry_of_job_id : Option ℕ
  pub created_at : ℕ
  pub updated_at : ℕ

-- FORECAST_RUN_STATUSES of app/modules/forecasting/domain/runs.py
pub data RunStatus : Type 0 where
  pending running completed failed cancelled : RunStatus

abbrev pub run_status_name : RunStatus → Text
run_status_name pending = codes "pending"
run_status_name running = codes "running"
run_status_name completed = codes "completed"
run_status_name failed = codes "failed"
run_status_name cancelled = codes "cancelled"

-- The columns of a forecast run that the jobs module reads or writes.
pub record ForecastRun : Type 0 where
  pub id : ℕ
  pub user_id : ℕ
  pub status : RunStatus
  pub started_at : Option ℕ
  pub failed_at : Option ℕ
  pub cancelled_at : Option ℕ
  pub failure_reason : Option Text
  pub updated_at : ℕ

pub record Db : Type 0 where
  pub jobs : List Job
  pub runs : List ForecastRun
  pub active_products : ℕ → ℕ
  pub sales_transactions : ℕ → ℕ
  pub next_id : ℕ

abbrev pub Action : Type 0 → Type 0
Action A = Exec (Session Db) JobError A

unfoldable pub utc_now : Action ℕ
utc_now s = (ok (s.clock s.reads), tick s)

unfoldable pub commit : Action Unit
commit s = (ok tt, committed_state s)

unfoldable pub rollback : Action Unit
rollback s = (ok tt, rolled_back s)

abbrev pub is_text : Option Text → Text → Bool
is_text none t = false
is_text (some s) t = same_text s t

abbrev pub is_id : Option ℕ → ℕ → Bool
is_id none n = false
is_id (some m) n = m == n

abbrev pub is_active : Job → Bool
is_active j = is_active_status j.status

-- A row that the unique index uq_background_jobs_active_forecast_run covers, under a given key.
abbrev pub holds_slot : Text → ℕ → Job → Bool
holds_slot job_type entity_id j =
    is_active j
    && is_text j.entity_type (codes "forecast_run")
    && same_text j.job_type job_type
    && is_id j.entity_id entity_id

-- `holds_slot` under the key of another row, if that row is covered itself.
abbrev pub slot_taken : Job → List Job → Bool
slot_taken j jobs = elim j.entity_id [
  | none ↦ false
  | some e ↦ holds_slot j.job_type e j && any (holds_slot j.job_type e) jobs
]

-- The insert is refused by the unique index.
unfoldable pub create_background_job : Job → Action Job
create_background_job j s =
    if slot_taken j s.current.jobs then (err integrity_error, rolled_back s) else (
      ok j,
      record s {
        current = record s.current {
          jobs = s.current.jobs ++ j ∷ [];
          next_id = s.current.next_id + 1;
        };
      },
    )

unfoldable pub get_job_for_user : ℕ → ℕ → Action (Option Job)
get_job_for_user user_id job_id =
    gets (λ s. find (λ j. j.id == job_id && j.user_id == user_id) s.current.jobs)

unfoldable pub get_job_by_id : ℕ → Action (Option Job)
get_job_by_id job_id = gets (λ s. find (λ j. j.id == job_id) s.current.jobs)

-- The newest active job of the entity. The unique index leaves at most one, so its order by
-- `created_at` is not modelled.
abbrev pub is_active_job_of : ℕ → Text → Text → ℕ → Job → Bool
is_active_job_of user_id job_type entity_type entity_id j =
    j.user_id == user_id
    && same_text j.job_type job_type
    && is_text j.entity_type entity_type
    && is_id j.entity_id entity_id
    && is_active j

unfoldable pub get_active_job_for_entity : ℕ → Text → Text → ℕ → Action (Option Job)
get_active_job_for_entity user_id job_type entity_type entity_id =
    gets (λ s. find (is_active_job_of user_id job_type entity_type entity_id) s.current.jobs)

abbrev pub replace_job : Job → Job → Job
replace_job new j = if j.id == new.id then new else j

abbrev pub other_than : ℕ → List Job → List Job
other_than i [] = []
other_than i (j ∷ js) = let rest = other_than i js in if j.id == i then rest else j ∷ rest

-- The flush of a changed row, which the unique index may refuse.
unfoldable pub save_job : Job → Action Job
save_job j s =
    if slot_taken j (other_than j.id s.current.jobs)
    then (err integrity_error, rolled_back s)
    else (
      ok j,
      record s { current = record s.current { jobs = map (replace_job j) s.current.jobs } },
    )

unfoldable pub update_rq_job_id : Job → Text → Action Job
unfolding utc_now save_job
update_rq_job_id job rq_job_id = do
  now ← utc_now
  save_job (record job { rq_job_id = rq_job_id; updated_at = now })

-- `update_job_status` without further values, as the service calls it.
unfoldable pub update_job_status : Job → JobStatus → Action Job
unfolding utc_now save_job
update_job_status job status = do
  now ← utc_now
  save_job (record job { status = status; updated_at = now })

abbrev pub started_job : Job → ℕ → Job
started_job job now = record job {
  status = started;
  started_at = some now;
  error_code = none;
  error_message = none;
  attempts = job.attempts + 1;
  updated_at = now;
}

unfoldable pub mark_job_started : Job → Action Job
unfolding utc_now save_job
mark_job_started job = do now ← utc_now; save_job (started_job job now)

abbrev pub finished_job : Job → Option Value → ℕ → Job
finished_job job result_summary now = record job {
  status = finished;
  completed_at = some now;
  failed_at = none;
  error_code = none;
  error_message = none;
  result_summary = result_summary;
  updated_at = now;
}

unfoldable pub mark_job_finished : Job → Option Value → Action Job
unfolding utc_now save_job
mark_job_finished job result_summary = do
  now ← utc_now
  save_job (finished_job job result_summary now)

abbrev pub retrying_job : Job → Text → Text → ℕ → Job
retrying_job job error_code error_message now = record job {
  status = retrying;
  error_code = some error_code;
  error_message = some error_message;
  updated_at = now;
}

unfoldable pub mark_job_retrying : Job → Text → Text → Action Job
unfolding utc_now save_job
mark_job_retrying job error_code error_message = do
  now ← utc_now
  save_job (retrying_job job error_code error_message now)

abbrev pub failed_job : Job → Text → Text → Option Value → ℕ → Job
failed_job job error_code error_message result_summary now = record job {
  status = JobStatus.failed;
  failed_at = some now;
  error_code = some error_code;
  error_message = some error_message;
  result_summary = result_summary;
  updated_at = now;
}

unfoldable pub mark_job_failed : Job → Text → Text → Option Value → Action Job
unfolding utc_now save_job
mark_job_failed job error_code error_message result_summary = do
  now ← utc_now
  save_job (failed_job job error_code error_message result_summary now)

abbrev pub cancelled_job : Job → ℕ → Job
cancelled_job job now = record job {
  status = JobStatus.cancelled;
  cancelled_at = some now;
  updated_at = now;
}

unfoldable pub mark_job_cancelled : Job → Action Job
unfolding utc_now save_job
mark_job_cancelled job = do now ← utc_now; save_job (cancelled_job job now)

unfoldable pub get_forecast_run_for_user : ℕ → ℕ → Action (Option ForecastRun)
get_forecast_run_for_user user_id run_id =
    gets (λ s. find (λ r. r.id == run_id && r.user_id == user_id) s.current.runs)

unfoldable pub count_user_active_products : ℕ → Action ℕ
count_user_active_products user_id = gets (λ s. s.current.active_products user_id)

unfoldable pub count_user_sales_transactions : ℕ → Action ℕ
count_user_sales_transactions user_id = gets (λ s. s.current.sales_transactions user_id)

abbrev pub replace_run : ForecastRun → ForecastRun → ForecastRun
replace_run new r = if r.id == new.id then new else r

-- The row with its new fields is given; `updated_at` is set here.
unfoldable pub update_forecast_run_status : ForecastRun → Action ForecastRun
unfolding utc_now
update_forecast_run_status run = do
  now ← utc_now
  let new = record run { updated_at = now }
  λ s. (
    ok new,
    record s { current = record s.current { runs = map (replace_run new) s.current.runs } },
  )
