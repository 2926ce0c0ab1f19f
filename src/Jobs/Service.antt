-- ===== src/Jobs/Service.antt =====
-- app/modules/jobs/application/services.py: the operations of BackgroundJobService on one job or one
-- forecast run. `race` is what other sessions commit between the query for an active job and the
-- insert of a new one.
use invora_api.Base.{ℕ, Bool, true, false, Option, none, some, ◌==◌, if◌then◌else◌}
use invora_api.Text.{Text, codes, same_text}
use invora_api.Result.{ok}
use invora_api.Exec.{pure, raise, lift, gets, require, try_except, raise_if, ◌>>=◌, ◌>>◌}
use invora_api.Jobs.Status.{
  queued, JobError, duplicate_active_job, queue_unavailable, job_enqueue_failed,
  forecast_run_not_found, no_active_forecast_products, insufficient_forecast_sales_data,
  integrity_error,
}
use invora_api.Jobs.Summary.{dict, entry, nil, text}
use invora_api.Jobs.Rows.{
  Job, ForecastRun, Db, Action, utc_now, commit, rollback, create_background_job, update_rq_job_id,
  mark_job_failed, get_forecast_run_for_user, count_user_active_products,
  count_user_sales_transactions,
}
use invora_api.Jobs.Dispatcher.{Queue, Settings, enqueue_forecast_processing}

abbrev pub forecast_processing : Text
forecast_processing = codes "forecast_processing"

abbrev pub forecast_run_entity : Text
forecast_run_entity = codes "forecast_run"

unfoldable pub get_forecast_run : ℕ → ℕ → Action ForecastRun
unfolding get_forecast_run_for_user
get_forecast_run user_id run_id = do
  run ← get_forecast_run_for_user user_id run_id
  require run forecast_run_not_found

-- `validate_minimum_data` of app/modules/forecasting/domain/runs.py
unfoldable pub validate_minimum_data : ℕ → ℕ → Action Unit
validate_minimum_data active_product_count sales_transaction_count = do
  raise_if (active_product_count == 0) no_active_forecast_products
  raise_if (sales_transaction_count == 0) insufficient_forecast_sales_data

unfoldable pub validate_forecast_inputs : ℕ → Action Unit
unfolding validate_minimum_data count_user_active_products count_user_sales_transactions
validate_forecast_inputs user_id = do
  products ← count_user_active_products user_id
  sales ← count_user_sales_transactions user_id
  validate_minimum_data products sales

-- `except Exception: rollback; raise`
abbrev pub rollback_any : {A : Type 0} → JobError → Action A
rollback_any e = rollback >> raise e

-- What the client is told: the job and its run.
pub record EnqueuePayload : Type 0 where
  pub job : Job
  pub forecast_run_id : ℕ

abbrev pub enqueue_payload : Job → ℕ → EnqueuePayload
enqueue_payload job forecast_run_id = record { job = job; forecast_run_id = forecast_run_id }

-- The row of a new job; `label` gives the text "forecast-processing-" with the identifier.
unfoldable pub new_job : Settings → (ℕ → Text) → ℕ → ℕ → ℕ → Option ℕ → ℕ → ℕ → ℕ → Job
new_job settings label id user_id run_id retry_of enqueued created updated = record {
  id = id;
  rq_job_id = label id;
  user_id = user_id;
  job_type = forecast_processing;
  entity_type = some forecast_run_entity;
  entity_id = some run_id;
  queue_name = settings.rq_forecast_queue;
  status = queued;
  attempts = 0;
  max_retries = settings.rq_max_retries;
  timeout_seconds = settings.rq_job_timeout_seconds;
  enqueued_at = enqueued;
  started_at = none;
  completed_at = none;
  failed_at = none;
  cancelled_at = none;
  error_code = none;
  error_message = none;
  result_summary = none;
  retry_of_job_id = retry_of;
  created_at = created;
  updated_at = updated;
}

-- `except IntegrityError: rollback; raise DuplicateActiveJobError`
abbrev pub on_integrity_error : {A : Type 0} → JobError → Action A
on_integrity_error integrity_error = rollback >> raise duplicate_active_job
on_integrity_error e = raise e

abbrev pub commit_if : Bool → Action Unit
commit_if true = commit
commit_if false = pure tt

unfoldable pub create_forecast_processing_job :
    Settings → (ℕ → Text) → ℕ → ℕ → Option ℕ → Bool → Action Job
unfolding new_job
create_forecast_processing_job settings label user_id run_id retry_of commits =
    try_except
      (do
        id ← gets (λ s. s.current.next_id)
        enqueued ← utc_now
        created ← utc_now
        updated ← utc_now
        job ←
            create_background_job
              (new_job settings label id user_id run_id retry_of enqueued created updated)
        commit_if commits
        pure job)
      on_integrity_error

unfoldable pub dispatch_job : Queue → Settings → Job → ℕ → ℕ → Action Job
dispatch_job queue settings job run_id user_id = do
  rq_job_id ← lift (enqueue_forecast_processing queue settings job run_id user_id)
  if same_text rq_job_id job.rq_job_id
      then pure job
      else (do renamed ← update_rq_job_id job rq_job_id; commit; pure renamed)

unfoldable pub mark_enqueue_failed : Job → Action Unit
mark_enqueue_failed job =
    try_except
      (do
        mark_job_failed job (codes "queue_unavailable")
            (codes "Background job queue is temporarily unavailable.")
            (some (dict (entry (codes "stage") (text (codes "enqueue")) nil)))
        commit
        pure tt)
      (λ _. rollback)

-- `except (QueueUnavailableError, JobEnqueueError)`
abbrev pub on_dispatch_error : Job → JobError → Action Job
on_dispatch_error job queue_unavailable = mark_enqueue_failed job >> raise queue_unavailable
on_dispatch_error job job_enqueue_failed = mark_enqueue_failed job >> raise job_enqueue_failed
on_dispatch_error job e = raise e

unfoldable pub dispatch_or_fail : Queue → Settings → Job → ℕ → ℕ → Action Job
unfolding dispatch_job mark_enqueue_failed
dispatch_or_fail queue settings job run_id user_id =
    try_except (dispatch_job queue settings job run_id user_id) (on_dispatch_error job)

-- What other sessions commit is seen by the statements that follow.
abbrev pub interleave : (Db → Db) → Action Unit
interleave race s = (ok tt, record s { current = race s.current; committed = race s.committed })
