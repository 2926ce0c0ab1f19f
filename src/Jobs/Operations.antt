-- ===== src/Jobs/Operations.antt =====
-- app/modules/jobs/application/services.py: enqueueing, reading, cancelling and retrying a job.
use invora_api.Base.{ℕ, Bool, true, false, Option, none, some, [], ◌∷◌, if◌then◌else◌}
use invora_api.Text.{Text, codes, same_text}
use invora_api.Result.{Result, ok, err}
use invora_api.Exec.{pure, raise, lift, require, try_except, ◌>>=◌, ◌>>◌}
use invora_api.Jobs.Status.{
  JobStatus, started, finished, failed, cancelled, status_name, JobError, background_job_not_found,
  duplicate_active_job, queue_unavailable, ensure_cancellable_status, ensure_retryable_status,
  ensure_forecast_run_processable, map_rq_status_to_job_status,
}
use invora_api.Jobs.Summary.{Value, truth, dict, entry, nil, sanitize_result_summary}
use invora_api.Jobs.Rows.{
  Job, ForecastRun, pending, run_status_name, Db, Action, is_text, utc_now, commit, rollback,
  get_job_for_user, get_active_job_for_entity, update_job_status, mark_job_finished,
  mark_job_failed, mark_job_cancelled, update_forecast_run_status,
}
use invora_api.Jobs.Rows
use invora_api.Jobs.Dispatcher.{Queue, Settings, get_job_status, cancel_rq_job}
use invora_api.Jobs.Service.{
  forecast_processing, forecast_run_entity, get_forecast_run, validate_forecast_inputs,
  rollback_any, EnqueuePayload, enqueue_payload, create_forecast_processing_job, dispatch_or_fail,
  interleave,
}

-- The job that a request has made, or else the one that it has found; `made` tells them apart.
abbrev pub Made : Type 0
Made = Job × Bool

-- `except DuplicateActiveJobError` of `enqueue_forecast_run`
abbrev pub on_duplicate : ℕ → ℕ → JobError → Action Made
on_duplicate user_id run_id duplicate_active_job = do
  active ← get_active_job_for_entity user_id forecast_processing forecast_run_entity run_id
  job ← require active duplicate_active_job
  pure (job, false)
on_duplicate user_id run_id e = raise e

abbrev pub dispatch_made : Queue → Settings → ℕ → ℕ → Made → Action EnqueuePayload
dispatch_made queue settings user_id run_id (job, false) = pure (enqueue_payload job run_id)
dispatch_made queue settings user_id run_id (job, true) = do
  dispatched ← dispatch_or_fail queue settings job run_id user_id
  pure (enqueue_payload dispatched run_id)

abbrev pub made_new : Job → Made
made_new job = (job, true)

-- The rest of `enqueue_forecast_run` where no active job was found.
unfoldable pub enqueue_new :
    Queue → Settings → (ℕ → Text) → (Db → Db) → ℕ → ForecastRun → Action EnqueuePayload
enqueue_new queue settings label race user_id run = do
  lift (ensure_forecast_run_processable (run_status_name run.status))
  validate_forecast_inputs user_id
  interleave race
  made ←
      try_except
        (do
          job ← create_forecast_processing_job settings label user_id run.id none true
          pure (made_new job))
        (on_duplicate user_id run.id)
  dispatch_made queue settings user_id run.id made

abbrev pub found_or : Option Job → ℕ → Action EnqueuePayload → Action EnqueuePayload
found_or (some job) run_id otherwise = pure (enqueue_payload job run_id)
found_or none run_id otherwise = otherwise

unfoldable pub enqueue_forecast_run :
    Queue → Settings → (ℕ → Text) → (Db → Db) → ℕ → ℕ → Action EnqueuePayload
unfolding enqueue_new
enqueue_forecast_run queue settings label race user_id run_id = do
  run ← get_forecast_run user_id run_id
  active ← get_active_job_for_entity user_id forecast_processing forecast_run_entity run.id
  found_or active run.id (enqueue_new queue settings label race user_id run)

-- `text or default`
abbrev text_or : Option Text → Text → Text
text_or none d = d
text_or (some []) d = d
text_or (some (c ∷ t)) d = c ∷ t

-- `summary or {"reconciled_from_rq": True}`; an empty `dict` is false.
abbrev summary_or : Option Value → Value
summary_or none = dict (entry (codes "reconciled_from_rq") (truth true) nil)
summary_or (some (dict nil)) = dict (entry (codes "reconciled_from_rq") (truth true) nil)
summary_or (some v) = v

-- What the service does with the status that the queue reports, where it differs from the stored one.
unfoldable pub apply_mapped : Job → JobStatus → Action Job
apply_mapped job cancelled = mark_job_cancelled job
apply_mapped job failed =
    mark_job_failed job (text_or job.error_code (codes "rq_job_failed"))
      (text_or job.error_message (codes "Background job failed in RQ.")) none
apply_mapped job finished =
    mark_job_finished job (some (sanitize_result_summary (summary_or job.result_summary)))
apply_mapped job started = update_job_status job started
apply_mapped job _ = pure job

abbrev pub reconcile_mapped : Job → Option JobStatus → Action Job
reconcile_mapped job none = pure job
reconcile_mapped job (some mapped) =
    if same_text (status_name mapped) (status_name job.status)
    then pure job
    else try_except (do updated ← apply_mapped job mapped; commit; pure updated) rollback_any

abbrev pub reconcile_reply : Job → Result JobError (Option Text) → Action Job
reconcile_reply job (ok rq_status) = reconcile_mapped job (map_rq_status_to_job_status rq_status)
reconcile_reply job (err queue_unavailable) = pure job
reconcile_reply job (err e) = raise e

-- `if job.status in {"finished", "failed", "cancelled"}: return`
abbrev pub reconcile_from : Queue → Job → JobStatus → Action Job
reconcile_from queue job finished = pure job
reconcile_from queue job failed = pure job
reconcile_from queue job cancelled = pure job
reconcile_from queue job _ = reconcile_reply job (get_job_status queue job.rq_job_id)

-- The job as it is after the call; the stored row changes with it.
unfoldable pub reconcile_job_status : Queue → Job → Action Job
unfolding apply_mapped
reconcile_job_status queue job = reconcile_from queue job job.status

unfoldable pub get_job : Queue → ℕ → ℕ → Action Job
get_job queue user_id job_id = do
  found ← get_job_for_user user_id job_id
  job ← require found background_job_not_found
  reconcile_job_status queue job

-- The run of a job that is about one.
abbrev pub run_of_entity : ℕ → Job → Option ℕ → Action (Option ForecastRun)
run_of_entity user_id job none = pure none
run_of_entity user_id job (some e) =
    if is_text job.entity_type forecast_run_entity
    then (do run ← get_forecast_run user_id e; pure (some run))
    else pure none

abbrev pub run_of : ℕ → Job → Action (Option ForecastRun)
run_of user_id job = run_of_entity user_id job job.entity_id

abbrev pub cancel_run : Option ForecastRun → Action Unit
cancel_run none = pure tt
cancel_run (some run) = do
  now ← utc_now
  update_forecast_run_status
      (record run { status = Rows.cancelled; cancelled_at = some now; failure_reason = none })
  pure tt

-- The `try` block of `cancel_job`.
unfoldable pub store_cancelled : Job → Option ForecastRun → Action Job
store_cancelled job run = do marked ← mark_job_cancelled job; cancel_run run; commit; pure marked

unfoldable pub cancel_job : Queue → ℕ → ℕ → Action Job
unfolding store_cancelled
cancel_job queue user_id job_id = do
  job ← get_job queue user_id job_id
  lift (ensure_cancellable_status (status_name job.status))
  lift (cancel_rq_job queue job.rq_job_id)
  run ← run_of user_id job
  try_except (store_cancelled job run) rollback_any

-- The `try` block of `retry_job`: the run is pending again, and a new job is queued for it.
unfoldable pub store_retry : Settings → (ℕ → Text) → ℕ → ForecastRun → Job → Action Job
store_retry settings label user_id run failed_job = do
  update_forecast_run_status
      (record run { status = pending; started_at = none; failed_at = none; failure_reason = none })
  job ← create_forecast_processing_job settings label user_id run.id (some failed_job.id) false
  commit
  pure job

-- The rest of `retry_job` for a job of a run, where no active job was found.
unfoldable pub retry_new :
    Queue → Settings → (ℕ → Text) → (Db → Db) → ℕ → ForecastRun → Job → Action EnqueuePayload
unfolding store_retry
retry_new queue settings label race user_id run failed_job = do
  lift (ensure_forecast_run_processable (run_status_name run.status))
  validate_forecast_inputs user_id
  interleave race
  job ← try_except (store_retry settings label user_id run failed_job) rollback_any
  dispatched ← dispatch_or_fail queue settings job run.id user_id
  pure (enqueue_payload dispatched run.id)

-- The identifier of the run, for a job that is about one.
abbrev pub entity_run : Job → Option ℕ
entity_run job = if is_text job.entity_type forecast_run_entity then job.entity_id else none

unfoldable pub retry_job : Queue → Settings → (ℕ → Text) → (Db → Db) → ℕ → ℕ → Action EnqueuePayload
unfolding retry_new
retry_job queue settings label race user_id job_id = do
  failed_job ← get_job queue user_id job_id
  lift (
      ensure_retryable_status (status_name failed_job.status) failed_job.attempts
        failed_job.max_retries)
  run_id ← require (entity_run failed_job) duplicate_active_job
  run ← get_forecast_run user_id run_id
  active ← get_active_job_for_entity user_id failed_job.job_type forecast_run_entity run_id
  found_or active run.id (retry_new queue settings label race user_id run failed_job)
