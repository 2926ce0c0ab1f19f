-- ===== src/Jobs/Transitions.antt =====
-- The status machine of a background job as a relation, and the rules on texts against it.
use invora_api.Base.{false, ◌≡◌, ◌≢◌, ◌↔◌, ◌⊎◌, inl, inr, refl}
use invora_api.Result.{ok, err}
use invora_api.Jobs.Status.{
  JobStatus, is_active_status, queued, started, finished, failed, cancelled, retrying, status_name,
  job_not_cancellable, ensure_valid_status_transition, ensure_cancellable_status,
}

infix 40 ◌⟶◌
pub data ◌⟶◌ : JobStatus → JobStatus → Type 0 where
  start : queued ⟶ started
  drop : queued ⟶ failed
  withdraw : queued ⟶ cancelled
  finish : started ⟶ finished
  break : started ⟶ failed
  postpone : started ⟶ retrying
  restart : retrying ⟶ started
  give_up : retrying ⟶ failed
  abandon : retrying ⟶ cancelled

ruleset edges =
    (start, drop, withdraw, finish, break, postpone, restart, give_up, abandon, inl, inr)

accepted-⟶ :
    (a b : JobStatus)
    → ensure_valid_status_transition (status_name a) (status_name b) ≡ ok tt
    → (a ≡ b) ⊎ (a ⟶ b)
unfolding ensure_valid_status_transition
accepted-⟶ queued queued h = inl refl
accepted-⟶ started started h = inl refl
accepted-⟶ finished finished h = inl refl
accepted-⟶ failed failed h = inl refl
accepted-⟶ cancelled cancelled h = inl refl
accepted-⟶ retrying retrying h = inl refl
accepted-⟶ a b h = first_of (cc, search edges)

⟶-accepted :
    {a b : JobStatus}
    → a ⟶ b
    → ensure_valid_status_transition (status_name a) (status_name b) ≡ ok tt
unfolding ensure_valid_status_transition
⟶-accepted start = refl
⟶-accepted drop = refl
⟶-accepted withdraw = refl
⟶-accepted finish = refl
⟶-accepted break = refl
⟶-accepted postpone = refl
⟶-accepted restart = refl
⟶-accepted give_up = refl
⟶-accepted abandon = refl

same-accepted :
    (a : JobStatus) → ensure_valid_status_transition (status_name a) (status_name a) ≡ ok tt
unfolding ensure_valid_status_transition
same-accepted queued = refl
same-accepted started = refl
same-accepted finished = refl
same-accepted failed = refl
same-accepted cancelled = refl
same-accepted retrying = refl

-- For stored statuses a and b, `ensure_valid_status_transition` accepts the change from a to b exactly
-- when a is b or the diagram has an edge from a to b.
pub ensure_valid_status_transition_iff :
    (a b : JobStatus)
    → (ensure_valid_status_transition (status_name a) (status_name b) ≡ ok tt) ↔ ((a ≡ b) ⊎ (a ⟶ b))
ensure_valid_status_transition_iff a b = (accepted-⟶ a b, backward)
  where
    backward :
        (a ≡ b) ⊎ (a ⟶ b) → ensure_valid_status_transition (status_name a) (status_name b) ≡ ok tt
    backward (inl same) = rw (← same) (same-accepted a)
    backward (inr edge) = ⟶-accepted edge

-- A finished, failed or cancelled job has no edge to another status.
pub terminal-no_edge : (a b : JobStatus) → is_active_status a ≡ false → ¬ (a ⟶ b)
terminal-no_edge a b h start = cc
terminal-no_edge a b h drop = cc
terminal-no_edge a b h withdraw = cc
terminal-no_edge a b h finish = cc
terminal-no_edge a b h break = cc
terminal-no_edge a b h postpone = cc
terminal-no_edge a b h restart = cc
terminal-no_edge a b h give_up = cc
terminal-no_edge a b h abandon = cc

-- On a stored status the rule looks at that status alone.
pub cancellable : (s : JobStatus) → ensure_cancellable_status (status_name s) ≡ ok tt → s ≡ queued
unfolding ensure_cancellable_status
cancellable queued h = refl
cancellable s h = cc

pub cancellable_queued : ensure_cancellable_status (status_name queued) ≡ ok tt
unfolding ensure_cancellable_status
cancellable_queued = refl

pub not_cancellable :
    (s : JobStatus)
    → s ≢ queued
    → ensure_cancellable_status (status_name s) ≡ err job_not_cancellable
unfolding ensure_cancellable_status
not_cancellable queued h = absurd (h refl)
not_cancellable s h = refl
