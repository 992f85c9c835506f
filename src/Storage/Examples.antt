-- ===== src/Storage/Examples.antt =====
-- The storage on which the examples of src/storage/memory.rs run.
mod Fetching
mod Claiming
mod Rows
mod Tables
mod Keys
use qml.Base.{ℕ, ◌≡◌, refl, pos, String, Bool, true, none, some, List, [], ◌∷◌, ◌==◌}
use qml.Base.Maps
use qml.Core.JobState.{JobState}
use qml.Core.Job.{Job}
use qml.Core.Recurring.{RecurringJob}
use qml.Storage.Config.{MemoryConfig}
use qml.Storage.Memory.State.{MemoryStorage, JobLock}
use qml.Storage.Memory.Locker.{FetchClock}
use qml.Storage.Memory.Invariant.{IsValid}

abbrev job_of : String → ℕ → JobState → Job
job_of id priority state = record {
  id = id;
  method = "send_email";
  payload = "null";
  created_at = pos 5;
  state = state;
  queue = "default";
  priority = pos priority;
  max_retries = 0;
  attempt = 0;
  metadata = [];
  job_type = none;
  timeout_seconds = none;
  expires_at = none;
}

abbrev pub low : Job
low = job_of "low" 1 (JobState.enqueued (pos 5) "default")

abbrev pub high : Job
high = job_of "high" 9 (JobState.enqueued (pos 5) "default")

abbrev pub locked : Job
locked = job_of "locked" 10 (JobState.enqueued (pos 5) "default")

abbrev pub waiting : Job
waiting = job_of "waiting" 2 (JobState.scheduled (pos 5) (pos 90) "later")

abbrev pub retried : Job
retried = job_of "retried" 2 (JobState.awaiting_retry (pos 5) (pos 95) "boom")

abbrev pub lock : JobLock
lock = record { worker_id = "w0"; expires_at = pos 500 }

abbrev pub template : RecurringJob
template = record {
  id = "nightly";
  cron = "0 0 0 * * *";
  method = "sweep";
  payload = "null";
  queue = "default";
  next_run_at = pos 50;
  last_run_at = none;
  created_at = pos 1;
  updated_at = pos 1;
  enabled = true;
}

abbrev pub config : MemoryConfig
config = record { max_jobs = some 3; auto_cleanup = true; cleanup_interval = none }

abbrev pub empty : MemoryStorage
empty = record {
  jobs = [];
  locks = [];
  recurring = [];
  servers = [];
  named_locks = [];
  config = config;
}

-- Two jobs to fetch, and a third that is locked.
abbrev pub busy : MemoryStorage
busy = record empty {
  jobs = ("low", low) ∷ ("high", high) ∷ ("locked", locked) ∷ [];
  locks = ("locked", lock) ∷ [];
}

-- Two jobs that wait, and a template.
abbrev pub calm : MemoryStorage
calm = record empty {
  jobs = ("waiting", waiting) ∷ ("retried", retried) ∷ [];
  recurring = ("nightly", template) ∷ [];
}

abbrev pub clock : FetchClock
clock = record { swept_at = pos 100; seen_at = pos 100; locked_at = pos 100; started_at = pos 100 }

pub empty-IsValid : IsValid empty
empty-IsValid = record {
  jobs_ok = (tt, tt);
  locks_once = tt;
  recurring_once = tt;
  recurring_keyed = tt;
  servers_once = tt;
  servers_keyed = tt;
  named_once = tt;
}

pub busy-IsValid : IsValid busy
unfolding Maps.get
busy-IsValid = record {
  jobs_ok = ((refl, (refl, (refl, tt))), (refl, (refl, (refl, tt))));
  locks_once = (refl, tt);
  recurring_once = tt;
  recurring_keyed = tt;
  servers_once = tt;
  servers_keyed = tt;
  named_once = tt;
}

pub calm-IsValid : IsValid calm
unfolding Maps.get
calm-IsValid = record {
  jobs_ok = ((refl, (refl, tt)), (refl, (refl, tt)));
  locks_once = tt;
  recurring_once = (refl, tt);
  recurring_keyed = (refl, tt);
  servers_once = tt;
  servers_keyed = tt;
  named_once = tt;
}
