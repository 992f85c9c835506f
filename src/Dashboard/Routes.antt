-- ===== src/Dashboard/Routes.antt =====
-- The handlers of src/dashboard/routes.rs over the service on the memory storage. `none` is the panic
-- of its `list`; axum answers a panic of a handler itself.
pub mod Listing
use qml.Base.{
  ℕ, String, Bool, true, false, Option, none, some, List, [], ◌∷◌, filter, if◌then◌else◌, ◌==◌,
  Bytes, lowercase, same_bytes, codes,
}
use qml.Core.JobState.{JobStateKind, DateTime}
use qml.Error.{QmlError, Result, ok, err}
use qml.Storage.Memory.State.{MemoryStorage}
use qml.Dashboard.Service
use qml.Dashboard.Details.{
  JobDetails, map_some, get_recent_jobs, get_jobs_by_state, get_job_details,
}

pub record JobsQuery : Type 0 where
  pub state : Option Bytes
  pub limit : Option ℕ
  pub queue : Option String

-- `data` in the source: the name is taken.
pub record ApiResponse (T : Type 0) : Type 0 where
  pub success : Bool
  pub content : Option T
  pub error : Option String

pub data StatusCode : Type 0 where
  not_found internal_server_error : StatusCode

unfoldable pub response_success : {T : Type 0} → T → ApiResponse T
response_success content = record { success = true; content = some content; error = none }

unfoldable pub response_error : {T : Type 0} → String → ApiResponse T
response_error message = record { success = false; content = none; error = some message }

-- The arms of a `match` on a text, in order.
abbrev match_text : List (Bytes × JobStateKind) → Bytes → Option JobStateKind
match_text [] s = none
match_text ((name, kind) ∷ arms) s = if same_bytes name s then some kind else match_text arms s

abbrev arms : List (Bytes × JobStateKind)
arms =
    (codes "enqueued", JobStateKind.enqueued)
    ∷ (codes "processing", JobStateKind.processing)
    ∷ (codes "succeeded", JobStateKind.succeeded)
    ∷ (codes "failed", JobStateKind.failed)
    ∷ (codes "scheduled", JobStateKind.scheduled)
    ∷ (codes "awaiting_retry", JobStateKind.awaiting_retry)
    ∷ (codes "awaitingretry", JobStateKind.awaiting_retry)
    ∷ (codes "deleted", JobStateKind.deleted)
    ∷ []

-- `to_lowercase` of std maps letters outside ASCII too, but none of them to the letters of a name
-- here.
unfoldable pub parse_job_state : Bytes → Option JobStateKind
unfolding lowercase same_bytes
parse_job_state state_str = match_text arms (lowercase state_str)

abbrev pub Listed : Type 0
Listed = Option (Result StatusCode (ApiResponse (List JobDetails)))

abbrev pub in_queue : Option String → List JobDetails → List JobDetails
in_queue none jobs = jobs
in_queue (some queue) jobs = filter (λ (job : JobDetails). job.queue == queue) jobs

-- The jobs in the state that the query names, if it names one.
unfoldable pub list_by_state : MemoryStorage → Option String → Option JobStateKind → Listed
unfolding get_jobs_by_state response_success response_error
list_by_state s queue none = some (ok (response_error "Invalid job state"))
list_by_state s queue (some kind) =
    map_some (λ jobs. ok (response_success (in_queue queue jobs))) (get_jobs_by_state s kind)

-- What `get_jobs` and `get_queue_jobs` have in common: the jobs by state, or the recent ones, and
-- then the filter by queue.
unfoldable pub list_jobs : MemoryStorage → JobsQuery → Option String → Listed
unfolding list_by_state parse_job_state get_recent_jobs response_success
list_jobs s params queue = elim params.state [
  | some state_str ↦ list_by_state s queue (parse_job_state state_str)
  | none ↦
      map_some (λ jobs. ok (response_success (in_queue queue jobs)))
        (get_recent_jobs s params.limit)
]

unfoldable pub get_jobs : MemoryStorage → JobsQuery → Listed
unfolding list_jobs
get_jobs s params = list_jobs s params params.queue

unfoldable pub get_queue_jobs : MemoryStorage → String → JobsQuery → Listed
unfolding list_jobs
get_queue_jobs s queue_name params = list_jobs s params (some queue_name)

unfoldable pub job_details : MemoryStorage → String → Result StatusCode (ApiResponse JobDetails)
unfolding get_job_details response_success
job_details s job_id = elim (get_job_details s job_id) [
  | some job ↦ ok (response_success job)
  | none ↦ err not_found
]

-- The answer to an operation of the service that says whether it did anything.
unfoldable pub answer : String → Result QmlError Bool → Result StatusCode (ApiResponse Bool)
unfolding response_success response_error
answer message (ok true) = ok (response_success true)
answer message (ok false) = ok (response_error message)
answer message (err e) = err internal_server_error

unfoldable pub retry_job :
    MemoryStorage → DateTime → String → MemoryStorage × Result StatusCode (ApiResponse Bool)
unfolding answer Service.retry_job
retry_job s now job_id =
    let (after, r) = Service.retry_job s now job_id in
    (after, answer "Job not found or not in failed state" r)

unfoldable pub delete_job :
    MemoryStorage → String → MemoryStorage × Result StatusCode (ApiResponse Bool)
unfolding answer Service.delete_job
delete_job s job_id =
    let (after, r) = Service.delete_job s job_id in (after, answer "Job not found" r)
