-- ===== src/Core/JobState.antt =====
-- src/core/job_state.rs. An instant is a count of milliseconds since the Unix epoch, a duration a
-- count of milliseconds; `Utc::now()` is an argument.
use qml.Base.{ℕ, ℤ, String, Bool, true, false, Option}

abbrev pub DateTime : Type 0
DateTime = ℤ

abbrev pub Duration : Type 0
Duration = ℤ

pub data JobStateKind : Type 0 where
  enqueued processing succeeded failed deleted scheduled awaiting_retry : JobStateKind

unfoldable pub JobStateKind-discrete : Discrete JobStateKind
JobStateKind-discrete = hlevel

unfoldable pub kind_name : JobStateKind → String
kind_name JobStateKind.enqueued = "Enqueued"
kind_name JobStateKind.processing = "Processing"
kind_name JobStateKind.succeeded = "Succeeded"
kind_name JobStateKind.failed = "Failed"
kind_name JobStateKind.deleted = "Deleted"
kind_name JobStateKind.scheduled = "Scheduled"
kind_name JobStateKind.awaiting_retry = "AwaitingRetry"

-- The fields in the source's order: `enqueued enqueued_at queue`,
-- `processing started_at worker_id server_name`, `succeeded succeeded_at total_duration result`,
-- `failed failed_at exception stack_trace`, `deleted deleted_at reason`,
-- `scheduled scheduled_at enqueue_at reason`, `awaiting_retry scheduled_at retry_at last_exception`.
pub data JobState : Type 0 where
  enqueued : DateTime → String → JobState
  processing : DateTime → String → String → JobState
  succeeded : DateTime → ℕ → Option String → JobState
  failed : DateTime → String → Option String → JobState
  deleted : DateTime → Option String → JobState
  scheduled : DateTime → DateTime → String → JobState
  awaiting_retry : DateTime → DateTime → String → JobState

abbrev pub kind : JobState → JobStateKind
kind (JobState.enqueued _ _) = JobStateKind.enqueued
kind (JobState.processing _ _ _) = JobStateKind.processing
kind (JobState.succeeded _ _ _) = JobStateKind.succeeded
kind (JobState.failed _ _ _) = JobStateKind.failed
kind (JobState.deleted _ _) = JobStateKind.deleted
kind (JobState.scheduled _ _ _) = JobStateKind.scheduled
kind (JobState.awaiting_retry _ _ _) = JobStateKind.awaiting_retry

unfoldable pub state_name : JobState → String
state_name s = kind_name (kind s)

abbrev pub is_final : JobState → Bool
is_final (JobState.succeeded _ _ _) = true
is_final (JobState.failed _ _ _) = true
is_final (JobState.deleted _ _) = true
is_final _ = false

abbrev pub is_active : JobState → Bool
is_active (JobState.enqueued _ _) = true
is_active (JobState.processing _ _ _) = true
is_active (JobState.scheduled _ _ _) = true
is_active (JobState.awaiting_retry _ _ _) = true
is_active _ = false

unfoldable pub can_transition_to : JobState → JobState → Bool
can_transition_to (JobState.enqueued _ _) (JobState.processing _ _ _) = true
can_transition_to (JobState.enqueued _ _) (JobState.deleted _ _) = true
can_transition_to (JobState.enqueued _ _) (JobState.scheduled _ _ _) = true
can_transition_to (JobState.enqueued _ _) (JobState.failed _ _ _) = true
can_transition_to (JobState.processing _ _ _) (JobState.succeeded _ _ _) = true
can_transition_to (JobState.processing _ _ _) (JobState.failed _ _ _) = true
can_transition_to (JobState.processing _ _ _) (JobState.deleted _ _) = true
can_transition_to (JobState.processing _ _ _) (JobState.awaiting_retry _ _ _) = true
can_transition_to (JobState.scheduled _ _ _) (JobState.enqueued _ _) = true
can_transition_to (JobState.scheduled _ _ _) (JobState.deleted _ _) = true
can_transition_to (JobState.failed _ _ _) (JobState.awaiting_retry _ _ _) = true
can_transition_to (JobState.failed _ _ _) (JobState.deleted _ _) = true
can_transition_to (JobState.failed _ _ _) (JobState.enqueued _ _) = true
can_transition_to (JobState.awaiting_retry _ _ _) (JobState.enqueued _ _) = true
can_transition_to (JobState.awaiting_retry _ _ _) (JobState.deleted _ _) = true
can_transition_to (JobState.succeeded _ _ _) (JobState.deleted _ _) = true
can_transition_to (JobState.deleted _ _) _ = false
can_transition_to _ _ = false

-- The constructors of the source, with `Utc::now()` as the first argument. In those of
-- `enqueued` and `scheduled` the instant is the first field.
unfoldable pub new_enqueued : DateTime → String → JobState
new_enqueued now queue = JobState.enqueued now queue

unfoldable pub new_processing : DateTime → String → String → JobState
new_processing now worker_id server_name = JobState.processing now worker_id server_name

unfoldable pub new_succeeded : DateTime → ℕ → Option String → JobState
new_succeeded now total_duration result = JobState.succeeded now total_duration result

unfoldable pub new_failed : DateTime → String → Option String → JobState
new_failed now exception stack_trace = JobState.failed now exception stack_trace

unfoldable pub new_deleted : DateTime → Option String → JobState
new_deleted now reason = JobState.deleted now reason

unfoldable pub new_scheduled : DateTime → DateTime → String → JobState
new_scheduled now enqueue_at reason = JobState.scheduled now enqueue_at reason

unfoldable pub new_awaiting_retry : DateTime → DateTime → String → JobState
new_awaiting_retry now retry_at last_exception = JobState.awaiting_retry now retry_at last_exception
