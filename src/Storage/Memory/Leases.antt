-- ===== src/Storage/Memory/Leases.antt =====
-- `NamedLocks` (src/storage/memory.rs). `ttl` is in milliseconds; `chrono::Duration::from_std`
-- refuses what does not fit an i64 of milliseconds.
pub mod Unrelated
pub mod Exclusion
use qml.Base.{
  ℕ, ◌-◌, pos, ◌+ℤ◌, String, Bool, true, false, not, ◌&&◌, Option, none, some, before, leb, length,
  if◌then◌else◌, ◌==◌,
}
use qml.Base.Maps
use qml.Core.JobState.{DateTime}
use qml.Error.{StorageError, Result, ok, err}
use qml.Storage.Memory.State.{MemoryStorage, NamedLock}

abbrev pub max_ttl : ℕ
max_ttl = 9_223_372_036_854_775_807

-- Held by another owner, and not yet expired.
unfoldable pub is_held_against : DateTime → String → NamedLock → Bool
is_held_against now owner l = before now l.expires_at && not (l.owner == owner)

unfoldable pub grant : MemoryStorage → DateTime → String → String → ℕ → MemoryStorage
grant s now resource owner ttl = record s {
  named_locks =
      Maps.insert resource (record { owner = owner; expires_at = now +ℤ pos ttl }) s.named_locks;
}

unfoldable pub try_acquire_lock :
    DateTime → MemoryStorage → String → String → ℕ → MemoryStorage × Result StorageError Bool
unfolding is_held_against grant
try_acquire_lock now s resource owner ttl =
    if leb ttl max_ttl
    then (elim (Maps.get resource s.named_locks) [
      | none ↦ (grant s now resource owner ttl, ok true)
      | some existing ↦
          if is_held_against now owner existing
          then (s, ok false)
          else (grant s now resource owner ttl, ok true)
    ])
    else (
      s,
      err (
          StorageError.operation_failed
            "try_acquire_lock: invalid ttl: Source duration value is out of range for the target type"
            none),
    )

unfoldable pub release_lock : MemoryStorage → String → String → MemoryStorage × Bool
release_lock s resource owner = elim (Maps.get resource s.named_locks) [
  | none ↦ (s, false)
  | some existing ↦
      if existing.owner == owner
      then (record s { named_locks = Maps.remove resource s.named_locks }, true)
      else (s, false)
]

unfoldable pub cleanup_expired_named_locks : MemoryStorage → DateTime → MemoryStorage × ℕ
cleanup_expired_named_locks s now =
    let kept = Maps.retain (λ l. before now l.expires_at) s.named_locks in
    (record s { named_locks = kept }, length s.named_locks - length kept)
