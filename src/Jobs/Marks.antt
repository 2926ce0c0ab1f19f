-- ===== src/Jobs/Marks.antt =====
-- The writes of BackgroundJobRepository and the unique index on active jobs.
use invora_api.Base.{◌≡◌, Option, inl, inr, Bool-cases}
use invora_api.Text.{Text}
use invora_api.Exec.Session.{Session}
use invora_api.Jobs.Status.{JobStatus}
use invora_api.Jobs.Summary.{Value}
use invora_api.Jobs.Rows.{
  Job, ForecastRun, Db, slot_taken, update_rq_job_id, update_job_status, mark_job_started,
  mark_job_finished, mark_job_failed, mark_job_retrying, mark_job_cancelled,
  update_forecast_run_status, started_job, finished_job, failed_job, retrying_job, cancelled_job,
  create_background_job, utc_now,
}
use invora_api.Jobs.Active.{append-IsSingle}
use invora_api.Jobs.Keeps.{Safe, Keeps, bind-Keeps, utc_now-Keeps, save_job-Keeps}

pub update_rq_job_id-Keeps : (j : Job) (t : Text) → Keeps (update_rq_job_id j t)
unfolding update_rq_job_id
update_rq_job_id-Keeps j t =
    bind-Keeps utc_now-Keeps (λ now. save_job-Keeps (record j { rq_job_id = t; updated_at = now }))

pub update_job_status-Keeps : (j : Job) (status : JobStatus) → Keeps (update_job_status j status)
unfolding update_job_status
update_job_status-Keeps j status =
    bind-Keeps utc_now-Keeps
      (λ now. save_job-Keeps (record j { status = status; updated_at = now }))

pub mark_job_started-Keeps : (j : Job) → Keeps (mark_job_started j)
unfolding mark_job_started
mark_job_started-Keeps j = bind-Keeps utc_now-Keeps (λ now. save_job-Keeps (started_job j now))

pub mark_job_finished-Keeps : (j : Job) (v : Option Value) → Keeps (mark_job_finished j v)
unfolding mark_job_finished
mark_job_finished-Keeps j v =
    bind-Keeps utc_now-Keeps (λ now. save_job-Keeps (finished_job j v now))

pub mark_job_failed-Keeps :
    (j : Job) (code message : Text) (v : Option Value) → Keeps (mark_job_failed j code message v)
unfolding mark_job_failed
mark_job_failed-Keeps j code message v =
    bind-Keeps utc_now-Keeps (λ now. save_job-Keeps (failed_job j code message v now))

pub mark_job_retrying-Keeps :
    (j : Job) (code message : Text) → Keeps (mark_job_retrying j code message)
unfolding mark_job_retrying
mark_job_retrying-Keeps j code message =
    bind-Keeps utc_now-Keeps (λ now. save_job-Keeps (retrying_job j code message now))

pub mark_job_cancelled-Keeps : (j : Job) → Keeps (mark_job_cancelled j)
unfolding mark_job_cancelled
mark_job_cancelled-Keeps j = bind-Keeps utc_now-Keeps (λ now. save_job-Keeps (cancelled_job j now))

-- A run is no job.
pub update_forecast_run_status-Keeps : (r : ForecastRun) → Keeps (update_forecast_run_status r)
unfolding update_forecast_run_status utc_now
update_forecast_run_status-Keeps r = record {
  keeps = λ s h. record {
    current = record { ids = h.current.ids; known = h.current.known; slots = h.current.slots };
    committed = h.committed;
  };
}

pub create_background_job-Keeps :
    (j : Job) (s : Session Db)
    → j.id ≡ s.current.next_id
    → Safe s
    → Safe (create_background_job j s).1
unfolding create_background_job
create_background_job-Keeps j s fresh h = elim (Bool-cases (slot_taken j s.current.jobs)) [
  | inl taken ↦ rw taken (record { current = h.committed; committed = h.committed })
  | inr free ↦ rw free (record {
    current = append-IsSingle j s.current fresh free h.current;
    committed = h.committed;
  })
]
