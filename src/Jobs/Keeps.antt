-- ===== src/Jobs/Keeps.antt =====
-- Actions on the rows of jobs that keep at most one active job for each run, in the open transaction
-- and in the last commit, whether they return or raise.
use invora_api.Base.{Bool, true, false, Option, none, some, inl, inr, Bool-cases, if◌then◌else◌}
use invora_api.Result.{Result, ok, err}
use invora_api.Exec.{
  pure, raise, lift, gets, require, try_except, raise_if, handled, continue, ◌>>=◌,
}
use invora_api.Exec.Session.{Session}
use invora_api.Jobs.Status.{JobError}
use invora_api.Jobs.Rows.{
  Job, Db, Action, utc_now, commit, rollback, save_job, other_than, slot_taken,
}
use invora_api.Jobs.Service.{interleave}
use invora_api.Jobs.Active.{IsSingle, replace-IsSingle}

pub record Safe (s : Session Db) : Type 0 where
  pub current : IsSingle s.current
  pub committed : IsSingle s.committed

pub record Keeps {A : Type 0} (m : Action A) : Type 0 where
  pub keeps : (s : Session Db) → Safe s → Safe (m s).1

module _ {A B : Type 0} where
  pub bind-Safe :
      (m : Action A) (f : A → Action B) (s : Session Db)
      → Safe (m s).1
      → ((a : A) → Keeps (f a))
      → Safe ((m >>= f) s).1
  bind-Safe m f s h kf = go (m s).0 (m s).1 h
    where
      go : (r : Result JobError A) (s : Session Db) → Safe s → Safe (continue r f s).1
      go (ok a) s h = (kf a).keeps s h
      go (err e) s h = h

  pub bind-Keeps :
      {m : Action A} {f : A → Action B} → Keeps m → ((a : A) → Keeps (f a)) → Keeps (m >>= f)
  bind-Keeps {m} {f} km kf = record { keeps = λ s h. bind-Safe m f s (km.keeps s h) kf }

module _ {A : Type 0} where
  pub try-Keeps :
      {m : Action A} {f : JobError → Action A}
      → Keeps m
      → ((e : JobError) → Keeps (f e))
      → Keeps (try_except m f)
  try-Keeps {m} {f} km kf = record { keeps = λ s h. go (m s).0 (m s).1 (km.keeps s h) }
    where
      go : (r : Result JobError A) (s : Session Db) → Safe s → Safe (handled r f s).1
      go (ok a) s h = h
      go (err e) s h = (kf e).keeps s h

  pub pure-Keeps : (a : A) → Keeps (pure {E = JobError} a)
  pure-Keeps a = record { keeps = λ s h. h }

  pub raise-Keeps : (e : JobError) → Keeps (raise {A = A} e)
  raise-Keeps e = record { keeps = λ s h. h }

  pub lift-Keeps : (r : Result JobError A) → Keeps (lift r)
  lift-Keeps r = record { keeps = λ s h. h }

  pub gets-Keeps : (f : Session Db → A) → Keeps (gets {E = JobError} f)
  gets-Keeps f = record { keeps = λ s h. h }

  pub require-Keeps : (o : Option A) (e : JobError) → Keeps (require o e)
  require-Keeps none e = record { keeps = λ s h. h }
  require-Keeps (some a) e = record { keeps = λ s h. h }

  pub if-Keeps : {m n : Action A} (b : Bool) → Keeps m → Keeps n → Keeps (if b then m else n)
  if-Keeps true km kn = km
  if-Keeps false km kn = kn

pub raise_if-Keeps : (b : Bool) (e : JobError) → Keeps (raise_if b e)
raise_if-Keeps true e = record { keeps = λ s h. h }
raise_if-Keeps false e = record { keeps = λ s h. h }

pub utc_now-Keeps : Keeps utc_now
unfolding utc_now
utc_now-Keeps = record { keeps = λ s h. record { current = h.current; committed = h.committed } }

pub commit-Keeps : Keeps commit
unfolding commit
commit-Keeps = record { keeps = λ s h. record { current = h.current; committed = h.current } }

pub rollback-Keeps : Keeps rollback
unfolding rollback
rollback-Keeps = record { keeps = λ s h. record { current = h.committed; committed = h.committed } }

pub interleave-Keeps :
    (race : Db → Db) → ((db : Db) → IsSingle db → IsSingle (race db)) → Keeps (interleave race)
interleave-Keeps race fair = record {
  keeps = λ s h. record {
    current = fair s.current h.current;
    committed = fair s.committed h.committed;
  };
}

pub save_job-Keeps : (j : Job) → Keeps (save_job j)
unfolding save_job
save_job-Keeps j = record {
  keeps = λ s h. elim (Bool-cases (slot_taken j (other_than j.id s.current.jobs))) [
    | inl taken ↦ rw taken (record { current = h.committed; committed = h.committed })
    | inr free ↦
        rw free (record {
          current = replace-IsSingle j s.current free h.current;
          committed = h.committed;
        })
  ];
}
