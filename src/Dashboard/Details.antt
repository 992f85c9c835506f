-- ===== src/Dashboard/Details.antt =====
-- The lists of job details and the statistics by queue of src/dashboard/service.rs, on the memory
-- storage. `none` is the panic of its `list`.
pub mod Queues
use qml.Base.{ℕ, ◌+◌, String, Option, none, some, List, [], ◌∷◌, map}
use qml.Base.Maps
use qml.Base.Maps.{Map}
use qml.Core.JobState.{JobState, JobStateKind, DateTime}
use qml.Core.Job.{Job}
use qml.Storage.Memory.State.{MemoryStorage}
use qml.Storage.Memory.Jobs
use qml.Dashboard.Service.{JobStatistics, get_job_statistics, extract_state_info}

pub record QueueStatistics : Type 0 where
  pub queue_name : String
  pub enqueued_count : ℕ
  pub processing_count : ℕ
  pub scheduled_count : ℕ

pub record JobDetails : Type 0 where
  pub id : String
  pub method_name : String
  pub queue : String
  pub state : JobState
  pub created_at : DateTime
  pub updated_at : DateTime
  pub attempts : ℕ
  pub max_attempts : ℕ
  pub error_message : Option String
  pub scheduled_at : Option DateTime
  pub duration_ms : Option ℕ

pub record ServerStatistics : Type 0 where
  pub server_count : ℕ
  pub worker_count : ℕ
  pub queues : List QueueStatistics
  pub jobs : JobStatistics
  pub recent_jobs : List JobDetails

unfoldable pub details : Job → JobDetails
unfolding extract_state_info
details job =
    let (error_message, scheduled_at, duration_ms) = extract_state_info job.state in
    record {
      id = job.id;
      method_name = job.method;
      queue = job.queue;
      state = job.state;
      created_at = job.created_at;
      updated_at = job.created_at;
      attempts = job.attempt;
      max_attempts = job.max_retries;
      error_message = error_message;
      scheduled_at = scheduled_at;
      duration_ms = duration_ms;
    }

abbrev pub map_some {ℓ κ} : {A : Type ℓ} {B : Type κ} → (A → B) → Option A → Option B
map_some f none = none
map_some f (some a) = some (f a)

abbrev pub unwrap_or : Option ℕ → ℕ → ℕ
unwrap_or none d = d
unwrap_or (some n) d = n

unfoldable pub get_recent_jobs : MemoryStorage → Option ℕ → Option (List JobDetails)
unfolding details Jobs.list
get_recent_jobs s limit = map_some (map details) (Jobs.list s none (some (unwrap_or limit 50)) none)

unfoldable pub get_jobs_by_state : MemoryStorage → JobStateKind → Option (List JobDetails)
unfolding details Jobs.list
get_jobs_by_state s kind = map_some (map details) (Jobs.list s (some kind) (some 100) none)

unfoldable pub get_job_details : MemoryStorage → String → Option JobDetails
unfolding details
get_job_details s job_id = map_some details (Maps.get job_id s.jobs)

abbrev pub no_jobs : String → QueueStatistics
no_jobs queue_name = record {
  queue_name = queue_name;
  enqueued_count = 0;
  processing_count = 0;
  scheduled_count = 0;
}

-- `entry(name).or_insert(…)`.
abbrev pub or_insert : String → Option QueueStatistics → QueueStatistics
or_insert queue_name none = no_jobs queue_name
or_insert queue_name (some q) = q

abbrev pub count_state : JobState → QueueStatistics → QueueStatistics
count_state (JobState.enqueued _ _) q = record q { enqueued_count = q.enqueued_count + 1 }
count_state (JobState.processing _ _ _) q = record q { processing_count = q.processing_count + 1 }
count_state (JobState.scheduled _ _ _) q = record q { scheduled_count = q.scheduled_count + 1 }
count_state _ q = q

-- The `for` loop over the listed jobs.
unfoldable pub tally : List Job → Map QueueStatistics → Map QueueStatistics
tally [] m = m
tally (job ∷ jobs) m =
    tally jobs
      (Maps.insert job.queue (count_state job.state (or_insert job.queue (Maps.get job.queue m))) m)

unfoldable pub get_queue_statistics : MemoryStorage → Option (List QueueStatistics)
unfolding tally Jobs.list
get_queue_statistics s =
    map_some (λ jobs. Maps.values (tally jobs [])) (Jobs.list s none (some 200) none)

abbrev and_some {ℓ κ} : {A : Type ℓ} {B : Type κ} → Option A → (A → Option B) → Option B
and_some none f = none
and_some (some a) f = f a

unfoldable pub get_server_statistics : MemoryStorage → Option ServerStatistics
unfolding get_job_statistics get_queue_statistics get_recent_jobs
get_server_statistics s = and_some (get_queue_statistics s) (λ queue_stats.
    and_some (get_recent_jobs s (some 20)) (λ recent_jobs. some (record {
      server_count = 1;
      worker_count = 1;
      queues = queue_stats;
      jobs = get_job_statistics s;
      recent_jobs = recent_jobs;
    })))
