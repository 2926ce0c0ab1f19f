-- ===== src/Jobs/Dispatcher.antt =====
-- app/modules/jobs/application/dispatchers.py: the calls of the queue. The queue itself, RQ on Redis,
-- is a parameter: what it answers to each call.
use invora_api.Base.{ℕ, ◌-◌, ltb, Option, none, some, if◌then◌else◌}
use invora_api.Text.{Text}
use invora_api.Result.{Result, ok, err}
use invora_api.Jobs.Status.{JobError, queue_unavailable, job_enqueue_failed}
use invora_api.Jobs.Rows.{Job}

-- How a call of the queue ends: with an answer, with `NoSuchJobError`, with `QueueUnavailableError` of
-- the queue factory, or with any other exception.
pub data Reply (A : Type 0) : Type 0 where
  answer : A → Reply A
  no_such_job unavailable broken : Reply A

-- The arguments of `queue.enqueue`: the job that is to run, and its retries.
pub record Enqueue : Type 0 where
  pub background_job_id : ℕ
  pub forecast_run_id : ℕ
  pub user_id : ℕ
  pub queue_name : Text
  pub job_id : Text
  pub job_timeout : ℕ
  pub result_ttl : ℕ
  pub failure_ttl : ℕ
  pub retry_max : Option ℕ
  pub retry_interval : ℕ

pub record Queue : Type 0 where
  pub enqueue : Enqueue → Reply Text
  pub fetch_status : Text → Reply Text
  pub fetch_cancel : Text → Reply Unit

-- The settings that the service reads.
pub record Settings : Type 0 where
  pub rq_forecast_queue : Text
  pub rq_max_retries : ℕ
  pub rq_job_timeout_seconds : ℕ
  pub rq_retry_interval_seconds : ℕ
  pub rq_result_ttl_seconds : ℕ
  pub rq_failure_ttl_seconds : ℕ

-- `Retry(max=max_retries - 1)`, if there is more than one attempt.
abbrev pub retry_count : ℕ → Option ℕ
retry_count max_retries = if ltb 1 max_retries then some (max_retries - 1) else none

unfoldable pub enqueue_forecast_processing : Queue → Settings → Job → ℕ → ℕ → Result JobError Text
enqueue_forecast_processing queue settings job forecast_run_id user_id =
    elim (queue.enqueue (record {
      background_job_id = job.id;
      forecast_run_id = forecast_run_id;
      user_id = user_id;
      queue_name = job.queue_name;
      job_id = job.rq_job_id;
      job_timeout = job.timeout_seconds;
      result_ttl = settings.rq_result_ttl_seconds;
      failure_ttl = settings.rq_failure_ttl_seconds;
      retry_max = retry_count job.max_retries;
      retry_interval = settings.rq_retry_interval_seconds;
    })) [ answer t ↦ ok t | unavailable ↦ err queue_unavailable | _ ↦ err job_enqueue_failed ]

unfoldable pub get_job_status : Queue → Text → Result JobError (Option Text)
get_job_status queue rq_job_id = elim (queue.fetch_status rq_job_id) [
  | answer t ↦ ok (some t)
  | no_such_job ↦ ok none
  | _ ↦ err queue_unavailable
]

unfoldable pub cancel_rq_job : Queue → Text → Result JobError Unit
cancel_rq_job queue rq_job_id = elim (queue.fetch_cancel rq_job_id) [
  | answer _ ↦ ok tt
  | no_such_job ↦ ok tt
  | _ ↦ err queue_unavailable
]
