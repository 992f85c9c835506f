-- ===== src/Storage/Postgres/Row.antt =====
-- The rows of the job table (install.sql) and their conversions in src/storage/postgres.rs. The JSON
-- of a state, from which serde reads the state back, stands as the state. The columns that no query
-- reads (`updated_at`, `scheduled_at`, `locked_at`) are left out. An instant passes its TIMESTAMPTZ
-- column unchanged, as instants in whole milliseconds do.
pub mod Columns
use qml.Base.{
  ℕ, ◌-◌, ◌%◌, ◌^◌, ℤ, pos, negsuc, String, Option, none, some, [], ◌∷◌, if◌then◌else◌, ltb,
}
use qml.Base.Maps.{Map}
use qml.Core.JobState.{JobState, JobStateKind, DateTime, kind}
use qml.Core.Job.{Job}

pub record JobRow : Type 0 where
  pub id : String
  pub method_name : String
  pub arguments : String
  pub created_at : DateTime
  pub state_name : String
  pub state_data : JobState
  pub queue_name : String
  pub priority : ℤ
  pub max_retries : ℤ
  pub current_retries : ℤ
  pub metadata : Option (Map String)
  pub job_type : Option String
  pub timeout_seconds : Option ℤ
  pub expires_at : Option DateTime
  pub locked_by : Option String
  pub lock_expires_at : Option DateTime

-- `n as i32` of a u32 or a u64: the lowest 32 bits, in two's complement.
unfoldable pub as_i32 : ℕ → ℤ
as_i32 n = let low = n % 2 ^ 32 in if ltb low 2147483648 then pos low else negsuc (4294967295 - low)

-- `z as u32` and `z as u64` of an i32.
abbrev pub as_u32 : ℤ → ℕ
as_u32 (pos n) = n
as_u32 (negsuc n) = 4294967295 - n

abbrev pub as_u64 : ℤ → ℕ
as_u64 (pos n) = n
as_u64 (negsuc n) = 18446744073709551615 - n

-- `z.max(0) as u32`.
abbrev pub at_least_zero : ℤ → ℕ
at_least_zero (pos n) = n
at_least_zero (negsuc n) = 0

unfoldable pub job_state_kind_to_name : JobStateKind → String
job_state_kind_to_name JobStateKind.enqueued = "enqueued"
job_state_kind_to_name JobStateKind.processing = "processing"
job_state_kind_to_name JobStateKind.succeeded = "succeeded"
job_state_kind_to_name JobStateKind.failed = "failed"
job_state_kind_to_name JobStateKind.deleted = "deleted"
job_state_kind_to_name JobStateKind.scheduled = "scheduled"
job_state_kind_to_name JobStateKind.awaiting_retry = "awaiting_retry"

unfoldable pub job_state_to_name : JobState → String
unfolding job_state_kind_to_name
job_state_to_name state = job_state_kind_to_name (kind state)

-- The column is NULL when there is no metadata.
abbrev pub metadata_column : Map String → Option (Map String)
metadata_column [] = none
metadata_column (entry ∷ metadata) = some (entry ∷ metadata)

abbrev pub metadata_of : Option (Map String) → Map String
metadata_of none = []
metadata_of (some metadata) = metadata

abbrev pub cast_timeout {ℓ κ} : {A : Type ℓ} {B : Type κ} → (A → B) → Option A → Option B
cast_timeout f none = none
cast_timeout f (some t) = some (f t)

-- The values that an UPDATE of a row sets; it keeps the id, the creation and the lock.
unfoldable pub set_values : Job → JobRow → JobRow
unfolding job_state_to_name as_i32
set_values job row = record row {
  method_name = job.method;
  arguments = job.payload;
  state_name = job_state_to_name job.state;
  state_data = job.state;
  queue_name = job.queue;
  priority = job.priority;
  max_retries = as_i32 job.max_retries;
  current_retries = as_i32 job.attempt;
  metadata = metadata_column job.metadata;
  job_type = job.job_type;
  timeout_seconds = cast_timeout as_i32 job.timeout_seconds;
  expires_at = job.expires_at;
}

-- The values of an INSERT, under the parsed id.
unfoldable pub inserted_row : String → Job → JobRow
unfolding job_state_to_name as_i32
inserted_row job_id job = record {
  id = job_id;
  method_name = job.method;
  arguments = job.payload;
  created_at = job.created_at;
  state_name = job_state_to_name job.state;
  state_data = job.state;
  queue_name = job.queue;
  priority = job.priority;
  max_retries = as_i32 job.max_retries;
  current_retries = as_i32 job.attempt;
  metadata = metadata_column job.metadata;
  job_type = job.job_type;
  timeout_seconds = cast_timeout as_i32 job.timeout_seconds;
  expires_at = job.expires_at;
  locked_by = none;
  lock_expires_at = none;
}

unfoldable pub row_to_job : JobRow → Job
row_to_job row = record {
  id = row.id;
  method = row.method_name;
  payload = row.arguments;
  created_at = row.created_at;
  state = row.state_data;
  queue = row.queue_name;
  priority = row.priority;
  max_retries = as_u32 row.max_retries;
  attempt = at_least_zero row.current_retries;
  metadata = metadata_of row.metadata;
  job_type = row.job_type;
  timeout_seconds = cast_timeout as_u64 row.timeout_seconds;
  expires_at = row.expires_at;
}
