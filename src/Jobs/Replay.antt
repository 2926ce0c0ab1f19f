-- ===== src/Jobs/Replay.antt =====
-- Histories of the job service and its workers (app/modules/jobs/application/services.py, tasks.py):
-- each operation runs in a session of its own on the rows of the last commit.
use invora_api.Base.{ℕ}
use invora_api.Text.{Text}
use invora_api.Exec.Session.{Session}
use invora_api.Jobs.Summary.{Entries}
use invora_api.Jobs.Dispatcher.{Queue, Settings}
use invora_api.Jobs.Rows.{Db, Action}
use invora_api.Jobs.Active.{IsSingle}
use invora_api.Jobs.Operations.{enqueue_forecast_run, get_job, cancel_job, retry_job}
use invora_api.Jobs.Worker.{Outcome, execute_forecast_processing_job}
use invora_api.Jobs.Keeps.{Keeps}
use invora_api.Jobs.History.{
  enqueue_forecast_run-Keeps, get_job-Keeps, cancel_job-Keeps, retry_job-Keeps, execute-Keeps,
}

-- An operation, with its clock and the answers of its queue, and what follows it. The first history
-- of `enqueue` and `retry` is what other sessions do between the query for an active job and the
-- insert of a new one.
pub data History : Type 0 where
  idle : History
  enqueue retry : (ℕ → ℕ) → Queue → History → ℕ → ℕ → History → History
  read cancel : (ℕ → ℕ) → Queue → ℕ → ℕ → History → History
  work : (ℕ → ℕ) → ℕ → ℕ → ℕ → Outcome → Entries → History → History

abbrev pub open_session : (ℕ → ℕ) → Db → Session Db
open_session clock db = record { current = db; committed = db; clock = clock; reads = 0 }

-- The rows that a history leaves.
unfoldable pub replay : Settings → (ℕ → Text) → History → Db → Db
replay st label idle db = db
replay st label (enqueue clock q others user run rest) db =
    replay st label rest
      ((enqueue_forecast_run q st label (replay st label others) user run (open_session clock db)).1
        ).committed
replay st label (retry clock q others user job rest) db =
    replay st label rest
      ((retry_job q st label (replay st label others) user job (open_session clock db)).1).committed
replay st label (read clock q user job rest) db =
    replay st label rest ((get_job q user job (open_session clock db)).1).committed
replay st label (cancel clock q user job rest) db =
    replay st label rest ((cancel_job q user job (open_session clock db)).1).committed
replay st label (work clock job run user outcome fields rest) db =
    replay st label rest
      ((execute_forecast_processing_job job run user outcome fields (open_session clock db)).1
        ).committed

committed-IsSingle :
    {A : Type 0} {m : Action A} (clock : ℕ → ℕ) (db : Db)
    → Keeps m
    → IsSingle db
    → IsSingle (((m (open_session clock db)).1).committed)
committed-IsSingle clock db k h =
    (k.keeps (open_session clock db) (record { current = h; committed = h })).committed

-- Whatever the service and its workers do, whatever the queue answers and however the forecasts end,
-- and with other sessions between a query and an insert: from rows with distinct known identifiers
-- and at most one active job of a type for each run, the committed rows are again such rows.
pub replay-IsSingle :
    (st : Settings) (label : ℕ → Text) (history : History) (db : Db)
    → IsSingle db
    → IsSingle (replay st label history db)
unfolding replay
replay-IsSingle st label idle db h = h
replay-IsSingle st label (enqueue clock q others user run rest) db h =
    replay-IsSingle st label rest _ (
      committed-IsSingle clock db
        (enqueue_forecast_run-Keeps q st label (replay st label others)
          (replay-IsSingle st label others) user run)
        h)
replay-IsSingle st label (retry clock q others user job rest) db h =
    replay-IsSingle st label rest _ (
      committed-IsSingle clock db
        (retry_job-Keeps q st label (replay st label others) (replay-IsSingle st label others) user
          job)
        h)
replay-IsSingle st label (read clock q user job rest) db h =
    replay-IsSingle st label rest _ (committed-IsSingle clock db (get_job-Keeps q user job) h)
replay-IsSingle st label (cancel clock q user job rest) db h =
    replay-IsSingle st label rest _ (committed-IsSingle clock db (cancel_job-Keeps q user job) h)
replay-IsSingle st label (work clock job run user outcome fields rest) db h =
    replay-IsSingle st label rest _
      (committed-IsSingle clock db (execute-Keeps job run user outcome fields) h)
