-- ===== src/Jobs/Tests.antt =====
-- The theorems on the background jobs at concrete jobs and statuses.
use invora_api.Base.{ℕ, arith, ◌≤◌, ◌≡◌, ◌↔◌, ◌⊎◌, true, none, some, [], ◌∷◌}
use invora_api.Text.{Text, codes}
use invora_api.Result.{ok}
use invora_api.Exec.Session.{Session}
use invora_api.Jobs.Status.{queued, started, finished, status_name, ensure_valid_status_transition}
use invora_api.Jobs.Transitions.{◌⟶◌, ensure_valid_status_transition_iff}
use invora_api.Jobs.Summary.{
  Value, dict, entry, nil, truth, text, sanitize_result_summary, sanitize_result_summary-fits,
  count_entries, entries_of, KeysFit,
}
use invora_api.Jobs.Rows.{Job, Db, pending}
use invora_api.Jobs.Dispatcher.{Queue, Settings, answer}
use invora_api.Jobs.Active.{IsSingle}
use invora_api.Jobs.Cancelled.{Cancelled}
use invora_api.Jobs.Replay.{History, idle, enqueue, work, replay, replay-IsSingle}
use invora_api.Jobs.Service.{forecast_processing, forecast_run_entity}
use invora_api.Jobs.Worker.{returned}

ensure_valid_status_transition_iff_example :
    (ensure_valid_status_transition (status_name queued) (status_name started) ≡ ok tt)
    ↔ ((queued ≡ started) ⊎ (queued ⟶ started))
ensure_valid_status_transition_iff_example = ensure_valid_status_transition_iff queued started

-- A result with a key that is hidden.
abbrev result_with_token : Value
result_with_token =
    dict (entry (codes "Token") (text (codes "abc")) (entry (codes "ok") (truth true) nil))

sanitize_result_summary-fits_example :
    (count_entries (entries_of (sanitize_result_summary result_with_token)) ≤ 20)
    × KeysFit (entries_of (sanitize_result_summary result_with_token))
sanitize_result_summary-fits_example = sanitize_result_summary-fits result_with_token

-- A job that has finished already.
abbrev finished_once : Job
finished_once = record {
  id = 5;
  rq_job_id = codes "forecast-processing-5";
  user_id = 7;
  job_type = forecast_processing;
  entity_type = some forecast_run_entity;
  entity_id = some 3;
  queue_name = codes "forecasting";
  status = finished;
  attempts = 1;
  max_retries = 3;
  timeout_seconds = 900;
  enqueued_at = 0;
  started_at = some 1;
  completed_at = some 2;
  failed_at = none;
  cancelled_at = none;
  error_code = none;
  error_message = none;
  result_summary = none;
  retry_of_job_id = none;
  created_at = 0;
  updated_at = 2;
}

abbrev one_job : Db
one_job = record {
  jobs = finished_once ∷ [];
  runs = [];
  active_products = λ u. 1;
  sales_transactions = λ u. 1;
  next_id = 6;
}

abbrev one_job_session : Session Db
one_job_session = record { current = one_job; committed = one_job; clock = λ n. n; reads = 10 }

-- A queue that takes every job under the identifier that it brings.
abbrev willing_queue : Queue
willing_queue = record {
  enqueue = λ job. answer job.job_id;
  fetch_status = λ id. answer (codes "queued");
  fetch_cancel = λ id. answer tt;
}

abbrev some_settings : Settings
some_settings = record {
  rq_forecast_queue = codes "forecasting";
  rq_max_retries = 3;
  rq_job_timeout_seconds = 900;
  rq_retry_interval_seconds = 60;
  rq_result_ttl_seconds = 86400;
  rq_failure_ttl_seconds = 86400;
}

abbrev one_label : ℕ → Text
one_label n = codes "forecast-processing-n"

-- One run that waits, and no job.
abbrev one_run : Db
one_run = record {
  jobs = [];
  runs =
      record {
        id = 3;
        user_id = 7;
        status = pending;
        started_at = none;
        failed_at = none;
        cancelled_at = none;
        failure_reason = none;
        updated_at = 0;
      }
      ∷ [];
  active_products = λ u. 1;
  sales_transactions = λ u. 1;
  next_id = 5;
}

-- Two sessions enqueue the same run, the second one between the query of the first and its insert.
abbrev two_sessions : History
two_sessions =
    enqueue (λ n. n) willing_queue (enqueue (λ n. n) willing_queue idle 7 3 idle) 7 3
      (work (λ n. n) 5 3 7 (returned nil) nil idle)

replay-IsSingle_example : IsSingle (replay some_settings one_label two_sessions one_run)
replay-IsSingle_example =
    replay-IsSingle some_settings one_label two_sessions one_run
      (record { ids = λ i. omega arith; known = tt; slots = λ t e. omega arith })

abbrev queued_once : Job
queued_once = record finished_once { status = queued; attempts = 0 }

abbrev queued_session : Session Db
queued_session =
    let db = record one_run { jobs = queued_once ∷ [] } in
    record { current = db; committed = db; clock = λ n. n; reads = 10 }
