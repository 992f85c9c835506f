-- ===== src/Storage/Redis/Indices.antt =====
-- The keys of src/storage/redis.rs with what they hold, and the indices of a job. A score of a sorted
-- set is an f64 in the source; it stands as a whole number of millionths, in which every score of the
-- code is exact.
use qml.Base.{
  ℤ, pos, negsuc, ◌+ℤ◌, ◌*ℤ◌, String, Bool, true, false, Option, none, some, List, [], ◌∷◌, at_most,
  if◌then◌else◌, ◌==◌,
}
use qml.Base.Maps
use qml.Base.Maps.{Map}
use qml.Core.JobState.{JobState, JobStateKind, DateTime, kind}
use qml.Core.Job.{Job}

-- The blobs by job, the set of each state, the set of all jobs, the sorted set of all available jobs
-- and that of each queue, and the hash of the counts.
pub record RedisState : Type 0 where
  pub blobs : Map Job
  pub state_index : Map (List String)
  pub all_jobs : List String
  pub available : Map ℤ
  pub by_queue : Map (Map ℤ)
  pub counts : Map ℤ

-- SADD and SREM.
unfoldable pub sadd : String → List String → List String
sadd x [] = x ∷ []
sadd x (y ∷ ys) = if y == x then y ∷ ys else y ∷ sadd x ys

unfoldable pub srem : String → List String → List String
srem x [] = []
srem x (y ∷ ys) = if y == x then srem x ys else y ∷ srem x ys

-- What a key holds, where a missing key is empty.
abbrev pub or_empty {ℓ} : {A : Type ℓ} → A → Option A → A
or_empty empty none = empty
or_empty empty (some a) = a

-- A change of what a key holds.
unfoldable pub change {ℓ} : {A : Type ℓ} → A → String → (A → A) → Map A → Map A
change empty key f m = Maps.insert key (f (or_empty empty (Maps.get key m))) m

unfoldable pub hincr : String → ℤ → Map ℤ → Map ℤ
unfolding change
hincr field by counts = change (pos 0) field (λ n. n +ℤ by) counts

unfoldable pub kind_to_state_name : JobStateKind → String
kind_to_state_name JobStateKind.enqueued = "enqueued"
kind_to_state_name JobStateKind.processing = "processing"
kind_to_state_name JobStateKind.succeeded = "succeeded"
kind_to_state_name JobStateKind.failed = "failed"
kind_to_state_name JobStateKind.deleted = "deleted"
kind_to_state_name JobStateKind.scheduled = "scheduled"
kind_to_state_name JobStateKind.awaiting_retry = "awaiting_retry"

unfoldable pub state_to_string : JobState → String
unfolding kind_to_state_name
state_to_string state = kind_to_state_name (kind state)

unfoldable pub is_job_available : DateTime → JobState → Bool
is_job_available now (JobState.enqueued _ _) = true
is_job_available now (JobState.scheduled _ enqueue_at _) = at_most enqueue_at now
is_job_available now (JobState.awaiting_retry _ retry_at _) = at_most retry_at now
is_job_available now _ = false

-- `priority + created_at_ms / 1_000_000`, and the `priority` alone of the claims.
unfoldable pub score : Job → ℤ
score job = job.priority *ℤ pos 1_000_000 +ℤ job.created_at

unfoldable pub promoted_score : Job → ℤ
promoted_score job = job.priority *ℤ pos 1_000_000

-- Both sorted sets get the job, or lose it.
unfoldable pub offer : String → String → ℤ → RedisState → RedisState
unfolding change
offer queue id sc s = record s {
  available = Maps.insert id sc s.available;
  by_queue = change [] queue (λ z. Maps.insert id sc z) s.by_queue;
}

unfoldable pub withdraw : String → String → RedisState → RedisState
unfolding change
withdraw queue id s = record s {
  available = Maps.remove id s.available;
  by_queue = change [] queue (λ z. Maps.remove id z) s.by_queue;
}

-- The job leaves the set and the count of one state for those of another.
unfoldable pub leave_state : String → String → RedisState → RedisState
unfolding change hincr srem
leave_state name id s = record s {
  state_index = change [] name (srem id) s.state_index;
  counts = hincr name (negsuc 0) s.counts;
}

unfoldable pub enter_state : String → String → RedisState → RedisState
unfolding change hincr sadd
enter_state name id s = record s {
  state_index = change [] name (sadd id) s.state_index;
  counts = hincr name (pos 1) s.counts;
}

unfoldable pub set_available : DateTime → String → String → Job → RedisState → RedisState
unfolding is_job_available score offer withdraw
set_available now queue id job s =
    if is_job_available now job.state then offer queue id (score job) s else withdraw queue id s

abbrev leave_old : Option JobState → String → RedisState → RedisState
leave_old none id s = s
leave_old (some old) id s = leave_state (state_to_string old) id s

unfoldable pub update_job_indices : DateTime → Job → Option JobState → RedisState → RedisState
unfolding leave_state enter_state set_available state_to_string sadd
update_job_indices now job old_state s =
    let left = leave_old old_state job.id s in
    let entered = enter_state (state_to_string job.state) job.id left in
    set_available now job.queue job.id job
      (record entered { all_jobs = sadd job.id entered.all_jobs })

unfoldable pub remove_job_indices : String → Job → RedisState → RedisState
unfolding leave_state withdraw state_to_string srem
remove_job_indices job_id job s =
    let left = leave_state (state_to_string job.state) job_id s in
    withdraw job.queue job_id (record left { all_jobs = srem job_id left.all_jobs })
