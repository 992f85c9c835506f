-- ===== src/Dashboard/Examples.antt =====
-- Runs and instances of the dashboard service.
mod Guarding
use qml.Base.{◌≡◌, refl, pos, true, false, none, some, [], ◌∷◌, arith, length, if◌then◌else◌, ◌==◌}
use qml.Base.Maps
use qml.Core.JobState.{JobState, JobStateKind}
use qml.Core.Job.{Job}
use qml.Error.{ok}
use qml.Storage.Memory.State.{MemoryStorage, filter_jobs_by_state, len}
use qml.Storage.Memory.Jobs.{delete_expired_jobs}
use qml.Storage.Memory.Invariant.{IsValid}
use qml.Dashboard.Service.{is_failed, read_failed, write_retry, retry_job, get_job_statistics}
use qml.Dashboard.Service.Retrying.{write_retry_lem, retried_job_is_swept}
use qml.Dashboard.Service.Statistics.{field, get_job_statistics_lem}

abbrev broken : Job
broken = record {
  id = "j1";
  method = "send_email";
  payload = "null";
  created_at = pos 5;
  state = JobState.failed (pos 90) "boom" none;
  queue = "default";
  priority = pos 0;
  max_retries = 1;
  attempt = 2;
  metadata = [];
  job_type = none;
  timeout_seconds = none;
  expires_at = some (pos 150);
}

abbrev storage : MemoryStorage
storage = record {
  jobs = ("j1", broken) ∷ [];
  locks = [];
  recurring = [];
  servers = [];
  named_locks = [];
  config = record { max_jobs = none; auto_cleanup = true; cleanup_interval = none };
}

storage-IsValid : IsValid storage
unfolding Maps.get
storage-IsValid = record {
  jobs_ok = ((refl, tt), (refl, tt));
  locks_once = tt;
  recurring_once = tt;
  recurring_keyed = tt;
  servers_once = tt;
  servers_keyed = tt;
  named_once = tt;
}

-- Another operator was first, and a worker runs the job.
abbrev running : Job
running = record broken { state = JobState.processing (pos 95) "w1" "s1" }

abbrev moved_on : MemoryStorage
moved_on = record storage { jobs = ("j1", running) ∷ [] }

retried_job_is_swept_example :
    ((retry_job storage (pos 100) "j1").1 ≡ ok true)
    × (Maps.get "j1" (retry_job storage (pos 100) "j1").0.jobs
        ≡ some (record broken { state = JobState.enqueued (pos 100) "default" }))
    × (Maps.get "j1" (delete_expired_jobs (retry_job storage (pos 100) "j1").0 (pos 200)).0.jobs
        ≡ none)
unfolding Maps.get
retried_job_is_swept_example =
    retried_job_is_swept storage (pos 100) (pos 200) (pos 150) "j1" broken storage-IsValid refl refl
      refl (omega arith)
