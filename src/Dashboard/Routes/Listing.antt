-- ===== src/Dashboard/Routes/Listing.antt =====
-- What the listing routes of src/dashboard/routes.rs answer.
use qml.Base.{
  ℕ, ◌≡◌, refl, ap, ◌∙◌, ◌<◌, ◌^◌, String, Option, none, some, List, map, filter, take, arith, ◌==◌,
  Bytes, codes, lowercase,
}
use qml.Core.JobState.{JobStateKind, kind_name}
use qml.Error.{ok}
use qml.Storage.Memory.State.{MemoryStorage}
use qml.Storage.Memory.Jobs.Paging.{wanted}
use qml.Dashboard.Details.{JobDetails, details, unwrap_or, get_recent_jobs, get_jobs_by_state}
use qml.Dashboard.Details.Queues.{list_first}
use qml.Dashboard.Routes.{
  response_success, response_error, parse_job_state, list_by_state, list_jobs, get_queue_jobs,
}

-- The name that the code gives a state, in any case of its letters, selects the state.
pub parse_job_state-kind_name :
    (k : JobStateKind) (text : Bytes)
    → lowercase text ≡ lowercase (codes (kind_name k))
    → parse_job_state text ≡ some k
unfolding parse_job_state kind_name
parse_job_state-kind_name JobStateKind.enqueued text h = rw (h, parse_job_state) refl
parse_job_state-kind_name JobStateKind.processing text h = rw (h, parse_job_state) refl
parse_job_state-kind_name JobStateKind.succeeded text h = rw (h, parse_job_state) refl
parse_job_state-kind_name JobStateKind.failed text h = rw (h, parse_job_state) refl
parse_job_state-kind_name JobStateKind.deleted text h = rw (h, parse_job_state) refl
parse_job_state-kind_name JobStateKind.scheduled text h = rw (h, parse_job_state) refl
parse_job_state-kind_name JobStateKind.awaiting_retry text h = rw (h, parse_job_state) refl

-- The jobs of a queue among some jobs, in their details.
abbrev pub of_queue : String → List JobDetails → List JobDetails
of_queue queue jobs = filter (λ (job : JobDetails). job.queue == queue) jobs

-- The route of the jobs of a queue cuts its list before it looks at the queue: without a state it
-- answers with those of the queue among the newest jobs of all queues, as many as the limit says or
-- 50; with a state, among the 100 newest jobs in the state, whatever the limit; with a text that is
-- no state, with an error message.
pub get_queue_jobs_lem :
    (s : MemoryStorage) (queue_name : String) (limit : Option ℕ) (queue : Option String)
    → unwrap_or limit 50 < 2 ^ 64
    → (get_queue_jobs s queue_name (record { state = none; limit = limit; queue = queue })
        ≡ some (
            ok (
              response_success
                (of_queue queue_name (map details (take (unwrap_or limit 50) (wanted s none)))))))
      × ((text : Bytes) (k : JobStateKind)
          → parse_job_state text ≡ some k
          → get_queue_jobs s queue_name (record { state = some text; limit = limit; queue = queue })
            ≡ some (
                ok (
                  response_success
                    (of_queue queue_name (map details (take 100 (wanted s (some k))))))))
      × ((text : Bytes)
          → parse_job_state text ≡ none
          → get_queue_jobs s queue_name (record { state = some text; limit = limit; queue = queue })
            ≡ some (ok (response_error "Invalid job state")))
unfolding get_queue_jobs list_jobs list_by_state get_recent_jobs get_jobs_by_state
get_queue_jobs_lem s queue_name limit queue fits = (
  rw (list_first s none (unwrap_or limit 50) fits) refl,
  (λ text k e.
      ap (list_by_state s (some queue_name)) e ∙ rw (list_first s (some k) 100 (omega arith)) refl),
  (λ text e. ap (list_by_state s (some queue_name)) e),
)
