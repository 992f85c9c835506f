-- ===== src/Storage/Postgres/Leases.antt =====
-- `NamedLocks` of src/storage/postgres.rs. The clock of the database is an argument, and a `ttl` is in
-- milliseconds, which the seconds of the source as an f64 hold.
pub mod Rows
pub mod Exclusion
use qml.Base.{
  ℕ, ◌-◌, pos, ◌+ℤ◌, String, Bool, true, false, not, ◌||◌, ◌&&◌, Option, none, some, before, length,
  if◌then◌else◌, ◌==◌,
}
use qml.Base.Maps
use qml.Base.Maps.{Map}
use qml.Core.JobState.{DateTime}
use qml.Error.{StorageError, Result, ok, err}
use qml.Storage.Memory.State.{NamedLock}
use qml.Storage.Postgres.Driver.{Session, execute, op_failed, and_then}

abbrev pub LockSession : Type 0
LockSession = Session (Map NamedLock)

-- The WHERE of ON CONFLICT DO UPDATE: expired, or the caller's own.
unfoldable pub yields_to : DateTime → String → NamedLock → Bool
yields_to now owner lock = before lock.expires_at now || (lock.owner == owner)

unfoldable pub upsert_lock :
    DateTime → String → String → ℕ → Map NamedLock → Map NamedLock × Option String
unfolding yields_to
upsert_lock now resource owner ttl rows =
    let row : NamedLock = record { owner = owner; expires_at = now +ℤ pos ttl } in
    elim (Maps.get resource rows) [
      | none ↦ (Maps.insert resource row rows, some resource)
      | some lock ↦
          if yields_to now owner lock
          then (Maps.insert resource row rows, some resource)
          else (rows, none)
    ]

unfoldable pub try_acquire_lock :
    DateTime → LockSession → String → String → ℕ → LockSession × Result StorageError Bool
unfolding execute upsert_lock
try_acquire_lock now s resource owner ttl =
    and_then
      (op_failed "Failed to acquire lock"
        (execute (λ rows. ok (upsert_lock now resource owner ttl rows)) s))
      (λ s' row. (s', ok (Maps.is_some row)))

unfoldable pub delete_lock : String → String → Map NamedLock → Map NamedLock × Bool
delete_lock resource owner rows = elim (Maps.get resource rows) [
  | none ↦ (rows, false)
  | some lock ↦ if lock.owner == owner then (Maps.remove resource rows, true) else (rows, false)
]

unfoldable pub release_lock : LockSession → String → String → LockSession × Result StorageError Bool
unfolding execute delete_lock
release_lock s resource owner =
    op_failed "Failed to release lock" (execute (λ rows. ok (delete_lock resource owner rows)) s)

unfoldable pub sweep_locks : DateTime → Map NamedLock → Map NamedLock × ℕ
sweep_locks now rows =
    let kept = Maps.retain (λ lock. not (before lock.expires_at now)) rows in
    (kept, length rows - length kept)

unfoldable pub cleanup_expired_named_locks :
    LockSession → DateTime → LockSession × Result StorageError ℕ
unfolding execute sweep_locks
cleanup_expired_named_locks s now =
    op_failed "Failed to clean up expired named locks"
      (execute (λ rows. ok (sweep_locks now rows)) s)
