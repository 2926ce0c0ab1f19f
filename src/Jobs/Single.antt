-- ===== src/Jobs/Single.antt =====
-- The steps of enqueueing a job (application/services.py) and the unique index on active jobs.
use invora_api.Base.{ℕ, ◌+◌, ◌≡◌, refl, Bool, true, false, Option}
use invora_api.Text.{Text}
use invora_api.Exec.{◌>>=◌, ◌>>◌, pure}
use invora_api.Exec.Session.{Session, tick}
use invora_api.Jobs.Status.{
  JobError, integrity_error, queue_unavailable, job_enqueue_failed, duplicate_active_job,
}
use invora_api.Jobs.Dispatcher.{Queue, Settings}
use invora_api.Jobs.Rows.{
  Job, Db, create_background_job, utc_now, get_forecast_run_for_user, count_user_active_products,
  count_user_sales_transactions,
}
use invora_api.Jobs.Keeps.{
  Safe, Keeps, bind-Keeps, bind-Safe, try-Keeps, pure-Keeps, raise-Keeps, lift-Keeps, gets-Keeps,
  require-Keeps, if-Keeps, raise_if-Keeps, utc_now-Keeps, commit-Keeps, rollback-Keeps,
}
use invora_api.Jobs.Marks.{
  update_rq_job_id-Keeps, update_job_status-Keeps, mark_job_started-Keeps, mark_job_finished-Keeps,
  mark_job_failed-Keeps, mark_job_retrying-Keeps, mark_job_cancelled-Keeps,
  update_forecast_run_status-Keeps, create_background_job-Keeps,
}
use invora_api.Jobs.Service.{
  get_forecast_run, validate_minimum_data, validate_forecast_inputs, new_job,
  create_forecast_processing_job, dispatch_job, mark_enqueue_failed, dispatch_or_fail,
  on_integrity_error, commit_if, on_dispatch_error,
}

-- The rules for steps that keep it.
pub ruleset keeping = (
  bind-Keeps, try-Keeps, pure-Keeps, raise-Keeps, lift-Keeps, gets-Keeps, require-Keeps, if-Keeps,
  raise_if-Keeps, utc_now-Keeps, commit-Keeps, rollback-Keeps, update_rq_job_id-Keeps,
  update_job_status-Keeps, mark_job_started-Keeps, mark_job_finished-Keeps, mark_job_failed-Keeps,
  mark_job_retrying-Keeps, mark_job_cancelled-Keeps, update_forecast_run_status-Keeps,
)

pub get_forecast_run-Keeps : (user run : ℕ) → Keeps (get_forecast_run user run)
unfolding get_forecast_run get_forecast_run_for_user
get_forecast_run-Keeps user run = search keeping

dispatch_job-Keeps :
    (q : Queue) (st : Settings) (j : Job) (run user : ℕ) → Keeps (dispatch_job q st j run user)
unfolding dispatch_job
dispatch_job-Keeps q st j run user = search keeping

mark_enqueue_failed-Keeps : (j : Job) → Keeps (mark_enqueue_failed j)
unfolding mark_enqueue_failed
mark_enqueue_failed-Keeps j = search keeping

pub validate_forecast_inputs-Keeps : (user : ℕ) → Keeps (validate_forecast_inputs user)
unfolding validate_forecast_inputs validate_minimum_data count_user_active_products
    count_user_sales_transactions
validate_forecast_inputs-Keeps user = search keeping

on_dispatch_error-Keeps : (j : Job) (e : JobError) → Keeps (on_dispatch_error j e)
on_dispatch_error-Keeps j queue_unavailable =
    bind-Keeps (mark_enqueue_failed-Keeps j) (λ u. raise-Keeps queue_unavailable)
on_dispatch_error-Keeps j job_enqueue_failed =
    bind-Keeps (mark_enqueue_failed-Keeps j) (λ u. raise-Keeps job_enqueue_failed)
on_dispatch_error-Keeps j e = raise-Keeps e

pub dispatch_or_fail-Keeps :
    (q : Queue) (st : Settings) (j : Job) (run user : ℕ) → Keeps (dispatch_or_fail q st j run user)
unfolding dispatch_or_fail
dispatch_or_fail-Keeps q st j run user =
    try-Keeps (dispatch_job-Keeps q st j run user) (on_dispatch_error-Keeps j)

commit_if-Keeps : (b : Bool) → Keeps (commit_if b)
commit_if-Keeps true = commit-Keeps
commit_if-Keeps false = pure-Keeps tt

on_integrity_error-Keeps : (e : JobError) → Keeps (on_integrity_error {A = Job} e)
on_integrity_error-Keeps integrity_error =
    bind-Keeps rollback-Keeps (λ u. raise-Keeps duplicate_active_job)
on_integrity_error-Keeps e = raise-Keeps e

created-Safe :
    (b : Bool) (j : Job) (s : Session Db)
    → j.id ≡ s.current.next_id
    → Safe s
    → Safe ((do job ← create_background_job j; commit_if b; pure job) s).1
created-Safe b j s fresh h =
    bind-Safe (create_background_job j) (λ job. do commit_if b; pure job) s
      (create_background_job-Keeps j s fresh h)
      (λ job. bind-Keeps (commit_if-Keeps b) (λ u. pure-Keeps job))

pub create_forecast_processing_job-Keeps :
    (st : Settings) (label : ℕ → Text) (user run : ℕ) (retry_of : Option ℕ) (b : Bool)
    → Keeps (create_forecast_processing_job st label user run retry_of b)
unfolding create_forecast_processing_job utc_now new_job
create_forecast_processing_job-Keeps st label user run retry_of b =
    try-Keeps
      (record {
        keeps = λ s h.
            created-Safe b
              (new_job st label s.current.next_id user run retry_of (s.clock s.reads)
                (s.clock (s.reads + 1)) (s.clock (s.reads + 1 + 1)))
              (tick (tick (tick s))) refl (record { current = h.current; committed = h.committed });
      })
      on_integrity_error-Keeps
