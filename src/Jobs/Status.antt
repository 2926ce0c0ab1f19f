-- ===== src/Jobs/Status.antt =====
-- app/modules/jobs/domain: the enumerations, the exceptions and the rules on job statuses. A status
-- that the program stores is a member of `JobStatus`; one that a rule is given as a text is a text.
use invora_api.Base.{
  ℕ, ltb, leb, Bool, true, false, Option, none, some, List, [], ◌∷◌, if◌then◌else◌,
}
use invora_api.Result.{Result, ok, err, reject_if}
use invora_api.Text.{Text, codes, same_text, is_in, normalize}

pub data JobStatus : Type 0 where
  queued started finished failed cancelled retrying : JobStatus

-- `JobStatus.value`
abbrev pub status_name : JobStatus → Text
status_name queued = codes "queued"
status_name started = codes "started"
status_name finished = codes "finished"
status_name failed = codes "failed"
status_name cancelled = codes "cancelled"
status_name retrying = codes "retrying"

-- The status that has a text for its value.
unfoldable pub status_of : Text → Option JobStatus
status_of t =
    if same_text t (codes "queued")
    then some queued
    else if same_text t (codes "started")
    then some started
    else if same_text t (codes "finished")
    then some finished
    else if same_text t (codes "failed")
    then some failed
    else if same_text t (codes "cancelled")
    then some cancelled
    else if same_text t (codes "retrying")
    then some retrying
    else none

-- The exceptions that the jobs module raises, by class. Two are SQLAlchemy's: `integrity_error`, and
-- `pending_rollback` for a session that is used after a refused flush before it is rolled back.
pub data JobError : Type 0 where
  background_job_not_found queue_unavailable duplicate_active_job job_not_cancellable : JobError
  job_not_retryable job_retry_limit_exceeded invalid_job_status_transition : JobError
  job_enqueue_failed job_execution_failed invalid_job_filter forecast_run_not_processable : JobError
  forecast_run_not_found no_active_forecast_products insufficient_forecast_sales_data : JobError
  integrity_error pending_rollback : JobError

-- ACTIVE_JOB_STATUSES
abbrev pub is_active_status : JobStatus → Bool
is_active_status queued = true
is_active_status started = true
is_active_status retrying = true
is_active_status _ = false

abbrev pub supported_job_types : List Text
supported_job_types = codes "forecast_processing" ∷ []

abbrev pub job_sort_fields : List Text
job_sort_fields =
    codes "created_at"
    ∷ codes "updated_at"
    ∷ codes "enqueued_at"
    ∷ codes "started_at"
    ∷ codes "completed_at"
    ∷ codes "failed_at"
    ∷ codes "cancelled_at"
    ∷ codes "status"
    ∷ codes "job_type"
    ∷ codes "queue_name"
    ∷ []

-- ALLOWED_STATUS_TRANSITIONS, with the empty set for a text that is no key.
unfoldable pub allowed_transitions : Option JobStatus → List Text
allowed_transitions (some queued) = codes "started" ∷ codes "failed" ∷ codes "cancelled" ∷ []
allowed_transitions (some started) = codes "finished" ∷ codes "failed" ∷ codes "retrying" ∷ []
allowed_transitions (some retrying) = codes "started" ∷ codes "failed" ∷ codes "cancelled" ∷ []
allowed_transitions _ = []

unfoldable pub normalize_job_type : Option Text → Result JobError (Option Text)
unfolding normalize
normalize_job_type none = ok none
normalize_job_type (some value) =
    let normalized = normalize value in
    if is_in normalized supported_job_types then ok (some normalized) else err invalid_job_filter

abbrev known_status : Option JobStatus → Result JobError (Option JobStatus)
known_status none = err invalid_job_filter
known_status (some s) = ok (some s)

unfoldable pub normalize_job_status : Option Text → Result JobError (Option JobStatus)
unfolding normalize status_of
normalize_job_status none = ok none
normalize_job_status (some value) = known_status (status_of (normalize value))

-- Times are numbers.
unfoldable pub validate_job_date_range : Option ℕ → Option ℕ → Result JobError Unit
validate_job_date_range (some date_from) (some date_to) =
    reject_if (ltb date_to date_from) invalid_job_filter
validate_job_date_range (some _) none = ok tt
validate_job_date_range none _ = ok tt

unfoldable pub ensure_job_sort_field : Text → Result JobError Text
unfolding normalize
ensure_job_sort_field value =
    let normalized = normalize value in
    if is_in normalized job_sort_fields then ok normalized else err invalid_job_filter

unfoldable pub normalize_job_sort_order : Text → Result JobError Text
unfolding normalize
normalize_job_sort_order value =
    let normalized = normalize value in
    if is_in normalized (codes "asc" ∷ codes "desc" ∷ [])
    then ok normalized
    else err invalid_job_filter

unfoldable pub ensure_valid_status_transition : Text → Text → Result JobError Unit
unfolding normalize status_of allowed_transitions
ensure_valid_status_transition current_status next_status =
    let current = normalize current_status in
    let next_value = normalize next_status in
    if same_text current next_value
    then ok tt
    else if is_in next_value (allowed_transitions (status_of current))
    then ok tt
    else err invalid_job_status_transition

unfoldable pub ensure_cancellable_status : Text → Result JobError Unit
unfolding normalize
ensure_cancellable_status status =
    let normalized = normalize status in
    if same_text normalized (codes "queued") then ok tt else err job_not_cancellable

unfoldable pub ensure_retryable_status : Text → ℕ → ℕ → Result JobError Unit
unfolding normalize
ensure_retryable_status status attempts max_retries =
    if same_text (normalize status) (codes "failed")
    then reject_if (leb max_retries attempts) job_retry_limit_exceeded
    else err job_not_retryable

unfoldable pub ensure_forecast_run_processable : Text → Result JobError Unit
unfolding normalize
ensure_forecast_run_processable status =
    if is_in (normalize status) (codes "pending" ∷ codes "failed" ∷ [])
    then ok tt
    else err forecast_run_not_processable

unfoldable pub map_rq_status_to_job_status : Option Text → Option JobStatus
unfolding normalize
map_rq_status_to_job_status none = none
map_rq_status_to_job_status (some status) =
    let normalized = normalize status in
    if is_in normalized (codes "queued" ∷ codes "deferred" ∷ codes "scheduled" ∷ [])
    then some queued
    else if is_in normalized (codes "started" ∷ codes "busy" ∷ [])
    then some started
    else if same_text normalized (codes "finished")
    then some finished
    else if same_text normalized (codes "failed")
    then some failed
    else if is_in normalized (codes "canceled" ∷ codes "cancelled" ∷ codes "stopped" ∷ [])
    then some cancelled
    else none
