-- ===== src/Exec/Transaction.antt =====
-- The steps on a session that every repository has: reading the clock (app/shared/utils.py), `commit`
-- and `rollback`, and a flush that the database refuses, which ends the transaction.
use invora_api.Base.{ℕ, Bool, if◌then◌else◌}
use invora_api.Result.{ok, err}
use invora_api.Exec.{Exec, raise, ◌>>◌}
use invora_api.Exec.Session.{Session, committed_state, rolled_back, tick}

module _ {D E : Type 0} where
  unfoldable pub utc_now : Exec (Session D) E ℕ
  utc_now s = (ok (s.clock s.reads), tick s)

  unfoldable pub commit : Exec (Session D) E Unit
  commit s = (ok tt, committed_state s)

  unfoldable pub rollback : Exec (Session D) E Unit
  rollback s = (ok tt, rolled_back s)

module _ {D E A : Type 0} where
  unfoldable pub refuse : E → Exec (Session D) E A
  refuse e s = (err e, rolled_back s)

  -- `except AppError: rollback; raise`, where the test tells whether an exception is one.
  abbrev pub rollback_if : (E → Bool) → E → Exec (Session D) E A
  rollback_if is_app_error e = if is_app_error e then rollback >> raise e else raise e
