-- ===== src/Jobs/Cancelled.antt =====
-- What a cancellation that returns has found, and what it has committed.
use invora_api.Base.{ℕ, ◌≡◌, Bool, ◌&&◌, Option, some, find, ◌==◌}
use invora_api.Result.{ok}
use invora_api.Exec.Session.{Session}
use invora_api.Exec.Returns.{Returns}
use invora_api.Jobs.Status.{queued}
use invora_api.Jobs.Dispatcher.{Queue, cancel_rq_job}
use invora_api.Jobs.Rows.{Job, ForecastRun, Db, RunStatus, cancelled_job}
use invora_api.Jobs.Rows
use invora_api.Jobs.Operations.{get_job, entity_run}
use invora_api.Jobs.Found.{owned}

module _ (user : ℕ) where
  abbrev pub owned_run : ℕ → ForecastRun → Bool
  owned_run e r = r.id == e && r.user_id == user

  -- The user's run under an identifier is cancelled, where there is one to be cancelled.
  pub record RunCancelled (e : ℕ) (db : Db) : Type 0 where
    pub row : ForecastRun
    pub there : find (owned_run e) db.runs ≡ some row
    pub status : row.status ≡ Rows.cancelled

  -- The run that is to be cancelled with a job, as the transaction sees it.
  abbrev RunHeld : Job → Option ForecastRun → Session Db → Type 0
  RunHeld j o s =
      (e : ℕ)
      → entity_run j ≡ some e
      → (r : ForecastRun) × (o ≡ some r) × (find (owned_run e) s.current.runs ≡ some r)

-- A cancellation: the session before and after it, and the job that it returns. The job is one of the
-- user's that was found in the status queued, brought up to date with the queue, and that the queue has
-- agreed to cancel; but for its status and its times it is as it was. It is committed, and so is the
-- cancellation of the run that it is about.
pub record Cancelled (q : Queue) (user job : ℕ) (s s' : Session Db) (j : Job) : Type 0 where
  pub found : Job
  pub t : Session Db
  pub got : get_job q user job s ≡ (ok found, t)
  pub was_queued : found.status ≡ queued
  pub agreed : cancel_rq_job q found.rq_job_id ≡ ok tt
  pub moment : ℕ
  pub changed : j ≡ cancelled_job found moment
  pub stored : find (owned user job) s'.committed.jobs ≡ some j
  pub run : (e : ℕ) → entity_run j ≡ some e → RunCancelled user e s'.committed
