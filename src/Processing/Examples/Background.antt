-- ===== src/Processing/Examples/Background.antt =====
-- Runs and instances of the scheduler, the cleanup, the heartbeat and the poller.
use qml.Base.{true, ◌+ℤ◌, ◌≡◌, ◌≢◌, refl, pos, ◌-ℤ◌, ◌<ℤ◌, ◌≤ℤ◌, String, none, some, [], ◌∷◌, arith}
use qml.Base.Maps
use qml.Core.JobState.{JobState, DateTime, can_transition_to, new_scheduled}
use qml.Core.Job.{Job, set_state}
use qml.Core.Recurring.{RecurringJob, Cron}
use qml.Core.ServerInfo.{ServerInfo}
use qml.Processing.Poller.{Firings}
use qml.Error.{ok}
use qml.Storage.Memory.State.{MemoryStorage, NamedLock, is_at_capacity}
use qml.Storage.Memory.Jobs.{enqueue}
use qml.Storage.Memory.Jobs.Expiry.{Due}
use qml.Storage.Memory.Invariant.{IsValid}
use qml.Processing.Scheduler.{schedule_job, enqueue_scheduled, tick, schedule_job-tick}
use qml.Processing.Cleanup.{sweep_once, sweep_once_lem}
use qml.Processing.Heartbeat.{bump_and_scan, bump_and_scan_lem}
use qml.Processing.Examples.{given, storage}

abbrev at : String → DateTime
at id = pos 300

abbrev fresh : Job
fresh = record given { id = "j2"; state = JobState.enqueued (pos 90) "default" }

abbrev server : String → DateTime → ServerInfo
server id beat = record {
  server_id = id;
  server_name = "s";
  started_at = pos 1;
  last_heartbeat = beat;
  worker_count = 1;
  queues = [];
}

abbrev lock : NamedLock
lock = record { owner = "a"; expires_at = pos 80 }

-- One job whose expiry has come, one lock that has run out, and two servers, one of them silent.
abbrev full : MemoryStorage
full = record storage {
  jobs = ("j1", record given { expires_at = some (pos 70) }) ∷ [];
  servers = ("a", server "a" (pos 90)) ∷ ("b", server "b" (pos 10)) ∷ [];
  named_locks = ("leader", lock) ∷ [];
}

full-IsValid : IsValid full
unfolding Maps.get
full-IsValid = record {
  jobs_ok = ((refl, tt), (refl, tt));
  locks_once = tt;
  recurring_once = tt;
  recurring_keyed = tt;
  servers_once = (refl, (refl, tt));
  servers_keyed = (refl, (refl, tt));
  named_once = (refl, tt);
}

is_scheduled : (schedule_job full (pos 100) fresh (pos 200) "later").1 ≡ ok tt
unfolding schedule_job enqueue_scheduled set_state can_transition_to new_scheduled enqueue
    is_at_capacity
is_scheduled = refl

schedule_job-tick_example :
    Maps.get "j2"
      (tick at at 1000
        (schedule_job full (pos 100) fresh (pos 200) "later").0
        (pos 250)
        (pos 251)).jobs
    ≡ some (record fresh { state = JobState.enqueued (pos 300) "default" })
schedule_job-tick_example =
    schedule_job-tick at at 1000 full (pos 100) (pos 250) (pos 251) fresh (pos 200) "later"
      full-IsValid is_scheduled (omega arith) (omega arith)

sweep_once_lem_example :
    let swept = (sweep_once full (pos 100)).0 in
    (Due (pos 100) (some (pos 70)) → Maps.get "j1" swept.jobs ≡ none)
    × (¬ Due (pos 100) (some (pos 70))
        → Maps.get "j1" swept.jobs ≡ some (record given { expires_at = some (pos 70) }))
    × (pos 80 ≤ℤ pos 100 → Maps.get "leader" swept.named_locks ≡ none)
    × (pos 100 <ℤ pos 80 → Maps.get "leader" swept.named_locks ≡ some lock)
    × (swept.locks ≡ full.locks)
    × (swept.recurring ≡ full.recurring)
    × (swept.servers ≡ full.servers)
unfolding Maps.get
sweep_once_lem_example =
    sweep_once_lem full (pos 100) "j1" "leader" (record given { expires_at = some (pos 70) }) lock
      full-IsValid refl refl

bump_and_scan_lem_example :
    let after = (bump_and_scan at "a" (pos 60) full (pos 100)).servers in
    (◌≡◌ {A = String} "b" "a" → Maps.get "b" after ≡ some (server "b" (pos 100)))
    × (◌≢◌ {A = String} "b" "a" → pos 10 <ℤ pos 100 -ℤ pos 60 → Maps.get "b" after ≡ none)
    × (◌≢◌ {A = String} "b" "a"
        → pos 100 -ℤ pos 60 ≤ℤ pos 10
        → Maps.get "b" after ≡ some (server "b" (pos 10)))
unfolding Maps.get
bump_and_scan_lem_example =
    bump_and_scan_lem at "a" (pos 60) full (pos 100) "b" (server "b" (pos 10)) full-IsValid refl

abbrev template : RecurringJob
template = record {
  id = "nightly";
  cron = "0 0 0 * * *";
  method = "sweep";
  payload = "null";
  queue = "default";
  next_run_at = pos 50;
  last_run_at = none;
  created_at = pos 1;
  updated_at = pos 1;
  enabled = true;
}

abbrev timed : MemoryStorage
timed = record full { recurring = ("nightly", template) ∷ [] }

-- Every schedule fires a day after the instant that it is asked for.
abbrev daily : Cron
daily = record {
  Schedule = Unit {0};
  from_str = λ expr. ok tt;
  next_of = λ schedule from. some (from +ℤ pos 86_400_000);
}

abbrev firings : Firings
firings = record {
  job_id = λ id. id;
  created_at = λ id. pos 101;
  enqueued_at = λ id. pos 102;
  advanced_at = λ id. pos 103;
}
