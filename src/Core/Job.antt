-- ===== src/Core/Job.antt =====
-- src/core/job.rs. The JSON payload is opaque to the code and stands as its text; a `u32` or `u64`
-- is a number, and the sums on it keep their bound written out. `Uuid::new_v4()` is an argument.
use qml.Base.{
  ℕ, ◌+◌, ◌-◌, ◌/◌, ℤ, pos, negsuc, ◌-ℤ◌, before, String, Bool, false, Option, none, some, [],
  if◌then◌else◌, ltb,
}
use qml.Base.Maps
use qml.Base.Maps.{Map}
use qml.Core.JobState.{JobState, DateTime, can_transition_to, new_enqueued}
use qml.Error.{QmlError, Result, ok, err}

pub record Job : Type 0 where
  pub id : String
  pub method : String
  pub payload : String
  pub created_at : DateTime
  pub state : JobState
  pub queue : String
  pub priority : ℤ
  pub max_retries : ℕ
  pub attempt : ℕ
  pub metadata : Map String
  pub job_type : Option String
  pub timeout_seconds : Option ℕ
  pub expires_at : Option DateTime

-- `enqueued_now` is the second reading of the clock, made inside `JobState::enqueued`.
unfoldable pub new : String → DateTime → DateTime → String → String → Job
unfolding new_enqueued
new id now enqueued_now method payload = record {
  id = id;
  method = method;
  payload = payload;
  created_at = now;
  state = new_enqueued enqueued_now "default";
  queue = "default";
  priority = pos 0;
  max_retries = 0;
  attempt = 0;
  metadata = [];
  job_type = none;
  timeout_seconds = none;
  expires_at = none;
}

unfoldable pub with_config : String → DateTime → DateTime → String → String → String → ℤ → ℕ → Job
unfolding new_enqueued
with_config id now enqueued_now method payload queue priority max_retries = record {
  id = id;
  method = method;
  payload = payload;
  created_at = now;
  state = new_enqueued enqueued_now queue;
  queue = queue;
  priority = priority;
  max_retries = max_retries;
  attempt = 0;
  metadata = [];
  job_type = none;
  timeout_seconds = none;
  expires_at = none;
}

-- A method on `&mut self` returns the job as it leaves it, with its result.
unfoldable pub set_state : Job → JobState → Job × Result QmlError (Unit {0})
set_state job new_state =
    if can_transition_to job.state new_state
    then (record job { state = new_state }, ok tt)
    else (job, err (QmlError.invalid_state_transition job.state new_state))

unfoldable pub add_metadata : Job → String → String → Job
add_metadata job key value = record job { metadata = Maps.insert key value job.metadata }

unfoldable pub set_type : Job → String → Job
set_type job job_type = record job { job_type = some job_type }

unfoldable pub set_timeout : Job → ℕ → Job
set_timeout job timeout_seconds = record job { timeout_seconds = some timeout_seconds }

-- `num_seconds` rounds towards zero.
abbrev num_seconds : ℤ → ℤ
num_seconds (pos ms) = pos (ms / 1000)
num_seconds (negsuc ms) = pos 0 -ℤ pos ((ms + 1) / 1000)

unfoldable pub age_seconds : Job → DateTime → ℤ
age_seconds job now = num_seconds (now -ℤ job.created_at)

-- `timeout as i64`: the two's complement reading of a u64.
abbrev pub as_i64 : ℕ → ℤ
as_i64 n = if ltb n 9223372036854775808 then pos n else negsuc (18446744073709551615 - n)

unfoldable pub is_timed_out : Job → DateTime → Bool
is_timed_out job now = elim job.timeout_seconds [
  | none ↦ false
  | some timeout ↦ before (as_i64 timeout) (age_seconds job now)
]

unfoldable pub clone_with_new_id : Job → String → DateTime → Job
clone_with_new_id job id now = record job {
  id = id;
  created_at = now;
  attempt = 0;
  expires_at = none;
}
