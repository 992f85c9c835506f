-- ===== src/Storage/Errors.antt =====
-- The constructors of `StorageError` (src/storage/error.rs). `Into<String>` is the text itself, and a
-- boxed source its text.
use qml.Base.{ℕ, String, none, some}
use qml.Error.{StorageError}

unfoldable pub connection : String → StorageError
connection message = StorageError.connection message none

unfoldable pub connection_with_source : String → String → StorageError
connection_with_source message source = StorageError.connection message (some source)

unfoldable pub serialization : String → StorageError
serialization message = StorageError.serialization message none

unfoldable pub serialization_with_source : String → String → StorageError
serialization_with_source message source = StorageError.serialization message (some source)

unfoldable pub deserialization : String → StorageError
deserialization message = StorageError.deserialization message none

unfoldable pub deserialization_with_source : String → String → StorageError
deserialization_with_source message source = StorageError.deserialization message (some source)

unfoldable pub job_not_found : String → StorageError
job_not_found job_id = StorageError.job_not_found job_id

unfoldable pub timeout : ℕ → StorageError
timeout timeout_ms = StorageError.timeout timeout_ms

unfoldable pub unavailable : String → StorageError
unavailable reason = StorageError.unavailable reason

unfoldable pub configuration : String → StorageError
configuration message = StorageError.configuration message

unfoldable pub operation_failed : String → StorageError
operation_failed message = StorageError.operation_failed message none

unfoldable pub operation_failed_with_source : String → String → StorageError
operation_failed_with_source message source = StorageError.operation_failed message (some source)

unfoldable pub capacity_exceeded : String → StorageError
capacity_exceeded message = StorageError.capacity_exceeded message

unfoldable pub concurrent_modification : String → StorageError
concurrent_modification job_id = StorageError.concurrent_modification job_id

unfoldable pub conn_err : String → String → StorageError
conn_err message source = StorageError.connection message (some source)

unfoldable pub ser_err : String → String → StorageError
ser_err message source = StorageError.serialization message (some source)

unfoldable pub de_err : String → String → StorageError
de_err message source = StorageError.deserialization message (some source)

unfoldable pub op_err : String → String → StorageError
op_err message source = StorageError.operation_failed message (some source)
