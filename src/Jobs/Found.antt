-- ===== src/Jobs/Found.antt =====
-- The job that get_job of app/modules/jobs/application/services.py returns is the user's row, brought up
-- to date with the queue.
use invora_api.Base.{
  ℕ, ◌≡◌, refl, ◌∙◌, Bool, ◌&&◌, Option, none, some, inl, inr, List, [], ◌∷◌, map, find, Bool-cases,
  arith, ◌==◌,
}
use invora_api.Text.{Text, same_text}
use invora_api.Result.{Result, ok, err}
use invora_api.Exec.{handled, require, pure, try_except, ◌>>=◌, ◌>>◌}
use invora_api.Exec.Session.{Session, tick}
use invora_api.Exec.Returns.{Returns, ok-Returns, err-Returns, bind-Returns}
use invora_api.Jobs.Status.{
  JobStatus, queued, started, finished, failed, cancelled, retrying, status_name, JobError,
  queue_unavailable, integrity_error, background_job_not_found, map_rq_status_to_job_status,
}
use invora_api.Jobs.Summary.{Value}
use invora_api.Jobs.Dispatcher.{Queue, get_job_status}
use invora_api.Jobs.Rows.{
  Job, Db, Action, save_job, replace_job, other_than, slot_taken, utc_now, rollback, commit,
  get_job_for_user, cancelled_job, finished_job, failed_job, update_job_status, mark_job_finished,
  mark_job_failed, mark_job_cancelled,
}
use invora_api.Jobs.Service.{rollback_any}
use invora_api.Jobs.Operations.{
  apply_mapped, reconcile_mapped, reconcile_reply, reconcile_from, reconcile_job_status, get_job,
}

module _ {A : Type 0} {Q : A → Session Db → Type 0} where
  pub weaken-Returns :
      {R : A → Session Db → Type 0} (o : Result JobError A × Session Db)
      → ((a : A) (t : Session Db) → Q a t → R a t)
      → Returns Q o
      → Returns R o
  weaken-Returns o f k = record { returned = λ a t h. f a t (k.returned a t h) }

  -- A handler that rolls back and raises again returns nothing.
  pub try_any-Returns :
      (m : Action A) (s : Session Db) → Returns Q (m s) → Returns Q (try_except m rollback_any s)
  unfolding rollback
  try_any-Returns m s k = record { returned = λ a t h. go (m s).0 (m s).1 refl a t h }
    where
      go :
          (r : Result JobError A) (s' : Session Db)
          → m s ≡ (r, s')
          → (a : A) (t : Session Db) → handled r rollback_any s' ≡ (ok a, t)
          → Q a t
      go (ok b) s' p a t h = k.returned a t (p ∙ h)
      go (err e) s' p a t h = cc

module _ (user job : ℕ) where
  abbrev pub owned : Job → Bool
  owned j = j.id == job && j.user_id == user

  -- The job is the user's row under its identifier, as the transaction sees it.
  pub record Held (j : Job) (t : Session Db) : Type 0 where
    pub same_id : j.id ≡ job
    pub same_user : j.user_id ≡ user
    pub there : find owned t.current.jobs ≡ some j

  find-owned :
      (jobs : List Job) (j : Job) → find owned jobs ≡ some j → (j.id ≡ job) × (j.user_id ≡ user)
  find-owned [] j h = cc
  find-owned (k ∷ jobs) j h = ground (arith, find-owned jobs j)

  find-replace_job :
      (new : Job) (jobs : List Job) (j : Job)
      → new.id ≡ job
      → new.user_id ≡ user
      → find owned jobs ≡ some j
      → find owned (map (replace_job new) jobs) ≡ some new
  find-replace_job new [] j e u h = cc
  find-replace_job new (k ∷ jobs) j e u h = elim (Bool-cases (k.id == new.id)) [
    | inl same ↦ rw same (ground arith)
    | inr other ↦ rw other (ground (arith, find-replace_job new jobs j e u))
  ]

  pub save_job-Held :
      (new j : Job) (s : Session Db)
      → new.id ≡ job
      → new.user_id ≡ user
      → find owned s.current.jobs ≡ some j
      → Returns (λ a t. (a ≡ new) × Held a t × (t.current.runs ≡ s.current.runs)) (save_job new s)
  unfolding save_job
  save_job-Held new j s e u h =
      elim (Bool-cases (slot_taken new (other_than new.id s.current.jobs))) [
        | inl taken ↦ rw taken (err-Returns integrity_error _)
        | inr free ↦ rw free (
            ok-Returns new _ (
              refl,
              record {
                same_id = e;
                same_user = u;
                there = find-replace_job new s.current.jobs j e u h;
              },
              refl,
            ))
      ]

  held :
      (new j : Job) (s : Session Db)
      → new.id ≡ job
      → new.user_id ≡ user
      → find owned s.current.jobs ≡ some j
      → Returns Held (save_job new s)
  held new j s e u h =
      weaken-Returns (save_job new s) (λ a t all_of. all_of.1) (save_job-Held new j s e u h)

  mark_job_cancelled-Held :
      (j : Job) (s : Session Db) → Held j s → Returns Held (mark_job_cancelled j s)
  unfolding mark_job_cancelled utc_now
  mark_job_cancelled-Held j s h =
      held (cancelled_job j (s.clock s.reads)) j (tick s) h.same_id h.same_user h.there

  mark_job_finished-Held :
      (j : Job) (summary : Option Value) (s : Session Db)
      → Held j s
      → Returns Held (mark_job_finished j summary s)
  unfolding mark_job_finished utc_now
  mark_job_finished-Held j summary s h =
      held (finished_job j summary (s.clock s.reads)) j (tick s) h.same_id h.same_user h.there

  mark_job_failed-Held :
      (j : Job) (code : Text) (message : Text) (summary : Option Value) (s : Session Db)
      → Held j s
      → Returns Held (mark_job_failed j code message summary s)
  unfolding mark_job_failed utc_now
  mark_job_failed-Held j code message summary s h =
      held (failed_job j code message summary (s.clock s.reads)) j (tick s) h.same_id h.same_user
        h.there

  update_job_status-Held :
      (j : Job) (status : JobStatus) (s : Session Db)
      → Held j s
      → Returns Held (update_job_status j status s)
  unfolding update_job_status utc_now
  update_job_status-Held j status s h =
      held (record j { status = status; updated_at = s.clock s.reads }) j (tick s) h.same_id
        h.same_user h.there

  apply_mapped-Held :
      (j : Job) (mapped : JobStatus) (s : Session Db)
      → Held j s
      → Returns Held (apply_mapped j mapped s)
  unfolding apply_mapped
  apply_mapped-Held j cancelled s h = mark_job_cancelled-Held j s h
  apply_mapped-Held j failed s h = mark_job_failed-Held j _ _ _ s h
  apply_mapped-Held j finished s h = mark_job_finished-Held j _ s h
  apply_mapped-Held j started s h = update_job_status-Held j started s h
  apply_mapped-Held j queued s h = ok-Returns j s h
  apply_mapped-Held j retrying s h = ok-Returns j s h

  abbrev written : Job → JobStatus → Action Job
  written j mapped = do updated ← apply_mapped j mapped; commit; pure updated

  stored :
      (j : Job) (mapped : JobStatus) (s : Session Db) → Held j s → Returns Held (written j mapped s)
  unfolding commit
  stored j mapped s h = bind-Returns (apply_mapped j mapped) _ s (λ a t done.
      let k = (apply_mapped-Held j mapped s h).returned a t done in
      ok-Returns a _ (record { same_id = k.same_id; same_user = k.same_user; there = k.there }))

  reconcile_mapped-Held :
      (j : Job) (o : Option JobStatus) (s : Session Db)
      → Held j s
      → Returns Held (reconcile_mapped j o s)
  reconcile_mapped-Held j none s h = ok-Returns j s h
  reconcile_mapped-Held j (some mapped) s h =
      elim (Bool-cases (same_text (status_name mapped) (status_name j.status))) [
        | inl same ↦ rw same (ok-Returns j s h)
        | inr other ↦ rw other (try_any-Returns (written j mapped) s (stored j mapped s h))
      ]

  reconcile_reply-Held :
      (j : Job) (r : Result JobError (Option Text)) (s : Session Db)
      → Held j s
      → Returns Held (reconcile_reply j r s)
  reconcile_reply-Held j (ok t) s h = reconcile_mapped-Held j (map_rq_status_to_job_status t) s h
  reconcile_reply-Held j (err queue_unavailable) s h = ok-Returns j s h
  reconcile_reply-Held j (err e) s h = err-Returns e s

  reconcile_from-Held :
      (q : Queue) (j : Job) (status : JobStatus) (s : Session Db)
      → Held j s
      → Returns Held (reconcile_from q j status s)
  reconcile_from-Held q j finished s h = ok-Returns j s h
  reconcile_from-Held q j failed s h = ok-Returns j s h
  reconcile_from-Held q j cancelled s h = ok-Returns j s h
  reconcile_from-Held q j _ s h = reconcile_reply-Held j (get_job_status q j.rq_job_id) s h

  pub get_job-Held : (q : Queue) (s : Session Db) → Returns Held (get_job q user job s)
  unfolding get_job get_job_for_user reconcile_job_status
  get_job-Held q s = go (find owned s.current.jobs) refl
    where
      go :
          (o : Option Job)
          → find owned s.current.jobs ≡ o
          → Returns Held ((do j ← require o background_job_not_found; reconcile_job_status q j) s)
      go none h = err-Returns background_job_not_found s
      go (some j) h =
          let (same_id, same_user) = find-owned s.current.jobs j h in
          reconcile_from-Held q j j.status s
            (record { same_id = same_id; same_user = same_user; there = h })
