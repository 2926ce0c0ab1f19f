-- ===== src/Jobs/Execution.antt =====
-- What the worker makes of a job, for each way in which its work ends.
use invora_api.Base.{ℕ, ◌+◌, ◌≡◌, false, ◌&&◌, some, map, find, ltb, arith, if◌then◌else◌, ◌==◌}
use invora_api.Result.{Result, ok}
use invora_api.Exec.{◌>>=◌, ◌>>◌}
use invora_api.Exec.Session.{Session}
use invora_api.Jobs.Status.{JobStatus, finished, failed, retrying, JobError}
use invora_api.Jobs.Summary.{Entries, dict, sanitize_result_summary}
use invora_api.Jobs.Rows.{
  Job, Db, replace_job, other_than, slot_taken, started_job, failed_job, retrying_job, save_job,
}
use invora_api.Jobs.Worker.{
  Failure, app_error, is_retryable_exception, sanitized_error, Outcome, returned, threw, Report,
  summary, failed_with, raised,
}

-- A save that the unique index lets through writes the row anew.
save_ok :
    (j : Job) (s : Session Db)
    → slot_taken j (other_than j.id s.current.jobs) ≡ false
    → save_job j s ≡ (
      ok j,
      record s { current = record s.current { jobs = map (replace_job j) s.current.jobs } },
    )
unfolding save_job
save_ok j s h = ground arith

-- The status in which a run of the work leaves a job that had been started for the n-th time.
abbrev pub ending : Outcome → ℕ → ℕ → JobStatus
ending (returned _) n max_retries = finished
ending (threw (app_error _ _)) n max_retries = failed
ending (threw exc) n max_retries =
    if is_retryable_exception exc && ltb n max_retries then retrying else failed

-- What the worker's function returns.
abbrev pub report_of : Outcome → Report
report_of (returned fields) = summary (sanitize_result_summary (dict fields))
report_of (threw (app_error code _)) = failed_with code
report_of (threw exc) = raised exc

-- The rows of a session after a row has been written anew and committed.
abbrev after_save : Job → Session Db → ℕ → Session Db
after_save new s n =
    let rows = record s.current { jobs = map (replace_job new) s.current.jobs } in
    record s { current = rows; committed = rows; reads = n }

-- What `execute_forecast_processing_job` promises of the row that it has worked on.
pub record Leaves (job_id : ℕ) (j : Job) (status : JobStatus) (report : Report)
    (o : Result JobError Report × Session Db) : Type 0 where
  pub row : Job
  pub stored : find (λ (k : Job). k.id == job_id) o.1.committed.jobs ≡ some row
  pub has_status : row.status ≡ status
  pub one_more : row.attempts ≡ j.attempts + 1
  pub reports : o.0 ≡ ok report

module _ (j : Job) (s : Session Db)
    (free : slot_taken (started_job j 0) (other_than j.id s.current.jobs) ≡ false) where
  abbrev begun : Job
  begun = started_job j (s.clock s.reads)

  abbrev working : Session Db
  working = after_save begun s (s.reads + 1)

  -- The failure is stored, whatever it was: the job has failed, or waits for its next try.
  abbrev failed_row : Failure → Entries → Job
  failed_row exc fields =
      let (code, message) = sanitized_error exc in
      failed_job begun code message (some (sanitize_result_summary (dict fields)))
        (s.clock (s.reads + 1))

  abbrev retry_row : Failure → Job
  retry_row exc =
      let (code, message) = sanitized_error exc in
      retrying_job begun code message (s.clock (s.reads + 1))
