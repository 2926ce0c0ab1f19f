-- ===== src/Jobs/History.antt =====
-- The operations of the job service and of the worker, and the unique index on active jobs.
use invora_api.Base.{ℕ, true, false, not, Option, none, some}
use invora_api.Text.{Text}
use invora_api.Result.{Result, ok, err}
use invora_api.Exec.{try_except}
use invora_api.Jobs.Status.{
  job_execution_failed, ensure_cancellable_status, status_name, JobStatus, started, finished,
  failed, cancelled, JobError, queue_unavailable, duplicate_active_job, map_rq_status_to_job_status,
}
use invora_api.Jobs.Summary.{Entries}
use invora_api.Jobs.Dispatcher.{Queue, Settings, get_job_status, cancel_rq_job}
use invora_api.Jobs.Rows.{
  Job, ForecastRun, Db, Action, get_active_job_for_entity, get_job_for_user, get_job_by_id,
}
use invora_api.Jobs.Active.{IsSingle}
use invora_api.Jobs.Keeps.{
  Keeps, bind-Keeps, try-Keeps, pure-Keeps, raise-Keeps, lift-Keeps, gets-Keeps, require-Keeps,
  if-Keeps, raise_if-Keeps, interleave-Keeps,
}
use invora_api.Jobs.Marks.{
  update_job_status-Keeps, mark_job_finished-Keeps, mark_job_failed-Keeps, mark_job_cancelled-Keeps,
}
use invora_api.Jobs.Single.{
  keeping, get_forecast_run-Keeps, validate_forecast_inputs-Keeps, dispatch_or_fail-Keeps,
  create_forecast_processing_job-Keeps,
}
use invora_api.Jobs.Service.{EnqueuePayload, enqueue_payload, rollback_any}
use invora_api.Jobs.Operations.{
  Made, made_new, on_duplicate, dispatch_made, enqueue_new, found_or, enqueue_forecast_run,
  apply_mapped, reconcile_mapped, reconcile_reply, reconcile_job_status, get_job, run_of_entity,
  reconcile_from, cancel_run, store_cancelled, cancel_job, store_retry, retry_new, entity_run,
  retry_job,
}
use invora_api.Jobs.Worker.{
  validate_job_payload, is_cancelled, was_cancelled, Outcome, returned, threw, Attempt, done, fell,
  broke, app_error, store_result, finish_work, attempt, conclude, mark_non_retryable_failure,
  mark_unexpected_failure, execute_forecast_processing_job,
}

ruleset steps = (
  keeping, get_forecast_run-Keeps, validate_forecast_inputs-Keeps, dispatch_or_fail-Keeps,
  create_forecast_processing_job-Keeps,
)

on_duplicate-Keeps : (user run : ℕ) (e : JobError) → Keeps (on_duplicate user run e)
unfolding get_active_job_for_entity
on_duplicate-Keeps user run duplicate_active_job = search steps
on_duplicate-Keeps user run e = raise-Keeps e

dispatch_made-Keeps :
    (q : Queue) (st : Settings) (user run : ℕ) (made : Made)
    → Keeps (dispatch_made q st user run made)
dispatch_made-Keeps q st user run (job, false) = pure-Keeps _
dispatch_made-Keeps q st user run (job, true) = search steps

found_or-Keeps :
    (found : Option Job) (run : ℕ) {m : Action EnqueuePayload}
    → Keeps m
    → Keeps (found_or found run m)
found_or-Keeps none run km = km
found_or-Keeps (some job) run km = pure-Keeps _

module _ (q : Queue) (st : Settings) (label : ℕ → Text) (race : Db → Db)
    (fair : (db : Db) → IsSingle db → IsSingle (race db)) (user : ℕ) where
  enqueue_new-Keeps : (run : ForecastRun) → Keeps (enqueue_new q st label race user run)
  unfolding enqueue_new
  enqueue_new-Keeps run = bind-Keeps (lift-Keeps _) (λ _.
      bind-Keeps (validate_forecast_inputs-Keeps user) (λ _.
        bind-Keeps (interleave-Keeps race fair) (λ _.
          bind-Keeps
            (try-Keeps
              (bind-Keeps (create_forecast_processing_job-Keeps st label user run.id none true)
                (λ job. pure-Keeps (made_new job)))
              (on_duplicate-Keeps user run.id))
            (dispatch_made-Keeps q st user run.id))))

  pub enqueue_forecast_run-Keeps : (run : ℕ) → Keeps (enqueue_forecast_run q st label race user run)
  unfolding enqueue_forecast_run get_active_job_for_entity
  enqueue_forecast_run-Keeps run = search (steps, found_or-Keeps, enqueue_new-Keeps)

apply_mapped-Keeps : (j : Job) (status : JobStatus) → Keeps (apply_mapped j status)
unfolding apply_mapped
apply_mapped-Keeps j cancelled = mark_job_cancelled-Keeps j
apply_mapped-Keeps j failed = mark_job_failed-Keeps j _ _ none
apply_mapped-Keeps j finished = mark_job_finished-Keeps j _
apply_mapped-Keeps j started = update_job_status-Keeps j started
apply_mapped-Keeps j status = pure-Keeps j

reconcile_mapped-Keeps : (j : Job) (mapped : Option JobStatus) → Keeps (reconcile_mapped j mapped)
reconcile_mapped-Keeps j none = pure-Keeps j
reconcile_mapped-Keeps j (some mapped) = search (steps, apply_mapped-Keeps)

reconcile_reply-Keeps : (j : Job) (r : Result JobError (Option Text)) → Keeps (reconcile_reply j r)
reconcile_reply-Keeps j (ok rq_status) =
    reconcile_mapped-Keeps j (map_rq_status_to_job_status rq_status)
reconcile_reply-Keeps j (err queue_unavailable) = pure-Keeps j
reconcile_reply-Keeps j (err e) = raise-Keeps e

run_of-Keeps : (user : ℕ) (j : Job) (entity : Option ℕ) → Keeps (run_of_entity user j entity)
run_of-Keeps user j none = pure-Keeps none
run_of-Keeps user j (some e) = search steps

cancel_run-Keeps : (run : Option ForecastRun) → Keeps (cancel_run run)
cancel_run-Keeps none = pure-Keeps tt
cancel_run-Keeps (some run) = search steps

module _ (q : Queue) where
  reconcile_from-Keeps : (j : Job) (status : JobStatus) → Keeps (reconcile_from q j status)
  reconcile_from-Keeps j finished = pure-Keeps j
  reconcile_from-Keeps j failed = pure-Keeps j
  reconcile_from-Keeps j cancelled = pure-Keeps j
  reconcile_from-Keeps j status = reconcile_reply-Keeps j (get_job_status q j.rq_job_id)

  pub get_job-Keeps : (user job : ℕ) → Keeps (get_job q user job)
  unfolding get_job get_job_for_user reconcile_job_status
  get_job-Keeps user job = search (steps, reconcile_from-Keeps)

  stored_cancelled :
      (j : Job) (run : Option ForecastRun) → Keeps (try_except (store_cancelled j run) rollback_any)
  unfolding store_cancelled
  stored_cancelled j run = search (steps, cancel_run-Keeps)

  pub cancel_job-Keeps : (user job : ℕ) → Keeps (cancel_job q user job)
  unfolding cancel_job
  cancel_job-Keeps user job = bind-Keeps (get_job-Keeps user job) (λ found.
      bind-Keeps (lift-Keeps (ensure_cancellable_status (status_name found.status))) (λ _.
        bind-Keeps (lift-Keeps (cancel_rq_job q found.rq_job_id)) (λ _.
          bind-Keeps (run_of-Keeps user found found.entity_id)
            (λ run. stored_cancelled found run))))

module _ (q : Queue) (st : Settings) (label : ℕ → Text) (race : Db → Db)
    (fair : (db : Db) → IsSingle db → IsSingle (race db)) (user : ℕ) where
  stored_retry :
      (run : ForecastRun) (j : Job)
      → Keeps (try_except (store_retry st label user run j) rollback_any)
  unfolding store_retry
  stored_retry run j = search steps

  retry_new-Keeps : (run : ForecastRun) (j : Job) → Keeps (retry_new q st label race user run j)
  unfolding retry_new
  retry_new-Keeps run j = bind-Keeps (lift-Keeps _) (λ _.
      bind-Keeps (validate_forecast_inputs-Keeps user) (λ _.
        bind-Keeps (interleave-Keeps race fair) (λ _. bind-Keeps (stored_retry run j) (λ job.
          bind-Keeps (dispatch_or_fail-Keeps q st job run.id user)
            (λ sent. pure-Keeps (enqueue_payload sent run.id))))))

  pub retry_job-Keeps : (job : ℕ) → Keeps (retry_job q st label race user job)
  unfolding retry_job get_active_job_for_entity
  retry_job-Keeps job = bind-Keeps (get_job-Keeps q user job) (λ old.
      bind-Keeps (lift-Keeps _) (λ _.
        bind-Keeps (require-Keeps (entity_run old) duplicate_active_job) (λ run_id.
          bind-Keeps (get_forecast_run-Keeps user run_id) (λ run.
            bind-Keeps (gets-Keeps _)
              (λ found. found_or-Keeps found run.id (retry_new-Keeps run old))))))

conclude-Keeps : (fields : Entries) (ended : Attempt) → Keeps (conclude fields ended)
unfolding mark_non_retryable_failure mark_unexpected_failure
conclude-Keeps fields (done stored) = pure-Keeps _
conclude-Keeps fields broke = search steps
conclude-Keeps fields (fell j (app_error code message)) = search steps
conclude-Keeps fields (fell j exc) = search steps

finish_work-Keeps : (j : Job) (outcome : Outcome) → Keeps (finish_work j outcome)
unfolding store_result
finish_work-Keeps j (returned fields) = search steps
finish_work-Keeps j (threw exc) = pure-Keeps _

attempt-Keeps : (j : Job) (outcome : Outcome) → Keeps (attempt j outcome)
unfolding attempt
attempt-Keeps j outcome = search (steps, finish_work-Keeps)

pub execute-Keeps :
    (job run user : ℕ) (outcome : Outcome) (fields : Entries)
    → Keeps (execute_forecast_processing_job job run user outcome fields)
unfolding execute_forecast_processing_job get_job_by_id
execute-Keeps job run user outcome fields = bind-Keeps (gets-Keeps _) (λ found.
    bind-Keeps (require-Keeps found job_execution_failed) (λ j.
      bind-Keeps (raise_if-Keeps (not (validate_job_payload j run user)) job_execution_failed) (λ _.
        if-Keeps (is_cancelled j.status) (pure-Keeps was_cancelled)
          (bind-Keeps (attempt-Keeps j outcome) (conclude-Keeps fields)))))
