-- ===== src/Jobs/Worker.antt =====
-- app/modules/jobs/tasks.py: the execution of a job by a worker. The forecasting service, which the
-- job calls, is a parameter: how its call ends.
use invora_api.Base.{ℕ, Bool, true, false, ◌&&◌, not, some, ltb, take, ◌==◌, if◌then◌else◌}
use invora_api.Text.{Text, codes, same_text, split, join}
use invora_api.Exec.{pure, raise, require, try_except, raise_if, ◌>>=◌, ◌>>◌}
use invora_api.Jobs.Status.{JobStatus, cancelled, job_execution_failed, pending_rollback}
use invora_api.Jobs.Summary.{Value, Entries, dict, sanitize_result_summary}
use invora_api.Jobs.Rows.{
  Job, Action, is_text, is_id, commit, rollback, get_job_by_id, mark_job_started, mark_job_finished,
  mark_job_failed, mark_job_retrying,
}
use invora_api.Jobs.Service.{forecast_processing, forecast_run_entity, rollback_any}

-- The exceptions that the work may end with, as far as the handlers tell them apart.
pub data Failure : Type 0 where
  app_error : Text → Text → Failure
  timeout_error connection_error os_error redis_error sqlalchemy_error : Failure
  other_exception : Failure

unfoldable pub is_retryable_exception : Failure → Bool
is_retryable_exception (app_error _ _) = false
is_retryable_exception other_exception = false
is_retryable_exception _ = true

unfoldable pub sanitized_error : Failure → Text × Text
unfolding split join
sanitized_error (app_error code message) = (take 128 code, take 500 (join (split message)))
sanitized_error _ = (codes "job_execution_failed", codes "Background job execution failed.")

-- How the call of the forecasting service ends: with its result, whose fields the summary takes, or
-- with an exception.
pub data Outcome : Type 0 where
  returned : Entries → Outcome
  threw : Failure → Outcome

-- What the task returns, or `raised` where it raises the exception of the work again.
pub data Report : Type 0 where
  summary : Value → Report
  was_cancelled : Report
  failed_with : Text → Report
  raised : Failure → Report

unfoldable pub validate_job_payload : Job → ℕ → ℕ → Bool
validate_job_payload job run_id user_id =
    job.user_id == user_id
    && same_text job.job_type forecast_processing
    && is_text job.entity_type forecast_run_entity
    && is_id job.entity_id run_id

-- `_mark_non_retryable_failure`; `failure_summary` gives the text fields that are stored with it.
unfoldable pub mark_non_retryable_failure : Job → Failure → Entries → Action Unit
mark_non_retryable_failure job exc failure_summary =
    let (code, message) = sanitized_error exc in
    try_except
      (do
        mark_job_failed job code message (some (sanitize_result_summary (dict failure_summary)))
        commit
        pure tt)
      rollback_any

unfoldable pub mark_unexpected_failure : Job → Failure → Entries → Action Unit
mark_unexpected_failure job exc failure_summary =
    let (code, message) = sanitized_error exc in
    try_except
      (do
        if is_retryable_exception exc && ltb job.attempts job.max_retries
            then mark_job_retrying job code message
            else mark_job_failed job code message
                (some (sanitize_result_summary (dict failure_summary)))
        commit
        pure tt)
      rollback_any

-- The `try` block: the work is done and its summary stored, or an exception has ended it, with the job
-- object as it was then. The call of the forecasting service changes no row of a job.
pub data Attempt : Type 0 where
  done : Value → Attempt
  fell : Job → Failure → Attempt
  broke : Attempt

unfoldable pub store_result : Job → Entries → Action Attempt
store_result job fields =
    let stored = sanitize_result_summary (dict fields) in
    try_except (do mark_job_finished job (some stored); commit; pure (done stored))
      (λ _. pure broke)

abbrev pub finish_work : Job → Outcome → Action Attempt
finish_work job (returned fields) = store_result job fields
finish_work job (threw exc) = pure (fell job exc)

unfoldable pub attempt : Job → Outcome → Action Attempt
unfolding store_result
attempt job outcome =
    try_except (do begun ← mark_job_started job; commit; finish_work begun outcome)
      (λ _. pure broke)

-- After a refused flush the handler cannot write: its first query raises, and it rolls back.
abbrev pub conclude : Entries → Attempt → Action Report
conclude failure_summary (done stored) = pure (summary stored)
conclude failure_summary broke = rollback >> raise pending_rollback
conclude failure_summary (fell job (app_error code message)) = do
  mark_non_retryable_failure job (app_error code message) failure_summary
  pure (failed_with code)
conclude failure_summary (fell job exc) = do
  mark_unexpected_failure job exc failure_summary
  pure (raised exc)

abbrev pub is_cancelled : JobStatus → Bool
is_cancelled cancelled = true
is_cancelled _ = false

-- `failure_summary` holds the fields that a failure stores, the measured duration among them.
unfoldable pub execute_forecast_processing_job : ℕ → ℕ → ℕ → Outcome → Entries → Action Report
unfolding attempt mark_non_retryable_failure mark_unexpected_failure
execute_forecast_processing_job job_id run_id user_id outcome failure_summary = do
  found ← get_job_by_id job_id
  job ← require found job_execution_failed
  raise_if (not (validate_job_payload job run_id user_id)) job_execution_failed
  if is_cancelled job.status
      then pure was_cancelled
      else (do ended ← attempt job outcome; conclude failure_summary ended)
