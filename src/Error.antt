-- ===== src/Error.antt =====
-- src/error.rs and src/storage/error.rs. An error holds what its message is made of. The boxed
-- `source` of a storage error is its text.
use qml.Base.{ℕ, String, Option, ◌<>◌, show}
use qml.Core.JobState.{JobState}

pub data QmlError : Type 0 where
  job_not_found : String → QmlError
  serialization_error : String → QmlError
  storage_error : String → QmlError
  -- The source keeps the `Debug` texts of the two states; the states stand for their texts.
  invalid_state_transition : JobState → JobState → QmlError
  invalid_job_data : String → QmlError
  queue_error : String → QmlError
  worker_error : String → QmlError
  configuration_error : String → QmlError
  timeout_error : String → QmlError
  migration_error : String → QmlError

pub data StorageError : Type 0 where
  connection serialization deserialization : String → Option String → StorageError
  job_not_found : String → StorageError
  timeout : ℕ → StorageError
  unavailable : String → StorageError
  configuration : String → StorageError
  operation_failed : String → Option String → StorageError
  capacity_exceeded : String → StorageError
  concurrent_modification : String → StorageError
  migration_error : String → StorageError
  invalid_job_data : String → StorageError

-- `to_string`, from the `#[error]` attributes.
unfoldable pub storage_error_to_string : StorageError → String
storage_error_to_string (StorageError.connection m _) = "Storage connection error: " <> m
storage_error_to_string (StorageError.serialization m _) = "Serialization error: " <> m
storage_error_to_string (StorageError.deserialization m _) = "Deserialization error: " <> m
storage_error_to_string (StorageError.job_not_found id) = "Job not found: " <> id
storage_error_to_string (StorageError.timeout ms) =
    "Storage operation timed out after " <> show ms <> "ms"
storage_error_to_string (StorageError.unavailable r) = "Storage is unavailable: " <> r
storage_error_to_string (StorageError.configuration m) = "Storage configuration error: " <> m
storage_error_to_string (StorageError.operation_failed m _) = "Storage operation failed: " <> m
storage_error_to_string (StorageError.capacity_exceeded m) = "Storage capacity exceeded: " <> m
storage_error_to_string (StorageError.concurrent_modification id) =
    "Concurrent modification detected for job: " <> id
storage_error_to_string (StorageError.migration_error m) = "Migration error: " <> m
storage_error_to_string (StorageError.invalid_job_data m) = "Invalid job data: " <> m

-- `impl From<StorageError> for QmlError`.
unfoldable pub from_storage_error : StorageError → QmlError
from_storage_error (StorageError.job_not_found id) = QmlError.job_not_found id
from_storage_error (StorageError.serialization m _) = QmlError.serialization_error m
from_storage_error (StorageError.deserialization m _) = QmlError.serialization_error m
from_storage_error e = QmlError.storage_error (storage_error_to_string e)

-- `Result<T, E>`.
pub data Result {ℓ κ} (E : Type ℓ) (A : Type κ) : Type (ℓ ⊔ κ) where
  ok : A → Result E A
  err : E → Result E A

abbrev pub map_err {ℓ} : {E F A : Type ℓ} → (E → F) → Result E A → Result F A
map_err f (ok a) = ok a
map_err f (err e) = err (f e)
