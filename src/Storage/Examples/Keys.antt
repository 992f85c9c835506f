-- ===== src/Storage/Examples/Keys.antt =====
-- An instance of the Redis backend.
use qml.Base.{
  ◌≡◌, ◌≢◌, refl, pos, ◌+ℤ◌, ◌*ℤ◌, String, true, false, none, some, [], ◌∷◌, arith, eq_iff,
}
use qml.Base.Maps
use qml.Core.JobState.{JobState}
use qml.Core.Job.{Job}
use qml.Storage.Redis.Indices.{RedisState}
use qml.Storage.Redis.Claim.{claim_due_scheduled_jobs}
use qml.Storage.Redis.Fetch.{fetch_and_lock_job}
use qml.Storage.Redis.Fetch.Order.{promoted_waits}
use qml.Storage.Redis.Writes
use qml.Storage.Examples.{low, waiting}

-- `waiting` is due at 90 and has the higher priority; `recent` is put in later, in the year 2020.
abbrev recent : Job
recent = record low { created_at = pos 1_577_836_800_000 }

abbrev delayed : RedisState
delayed = record {
  blobs = ("waiting", waiting) ∷ [];
  state_index = ("scheduled", "waiting" ∷ []) ∷ [];
  all_jobs = "waiting" ∷ [];
  available = [];
  by_queue = [];
  counts = ("scheduled", pos 1) ∷ [];
}

low_is_other : ◌≢◌ {A = String} "low" "waiting"
low_is_other e = let t : false ≡ true = (eq_iff "low" "waiting").1 e in cc

promoted_waits_example :
    let claimed = (claim_due_scheduled_jobs delayed (pos 100) 5).0 in
    let fetched =
      (fetch_and_lock_job (pos 103) (Writes.enqueue (pos 102) claimed recent).0 "w1" none).0 in
    (Maps.get "waiting" fetched.blobs
      ≡ some (record waiting { state = JobState.enqueued (pos 100) "default" }))
    × (Maps.get "waiting" fetched.available ≡ some (pos 2 *ℤ pos 1_000_000))
unfolding Maps.get ◌+ℤ◌ ◌*ℤ◌
promoted_waits_example =
    promoted_waits (pos 100) (pos 102) (pos 103) (pos 5) (pos 90) (pos 5) "later" "default" "w1" 4
      delayed waiting recent tt refl refl refl (omega arith) refl low_is_other (omega arith)
