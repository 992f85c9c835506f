-- ===== src/Storage/Redis/Fetch.antt =====
-- `fetch_and_lock_job` of src/storage/redis.rs with its script. The JSON of a job, which the script
-- decodes and encodes again, stands as the job: it is taken as kept but for the state, although
-- cjson writes an empty array of the payload as `{}` and rounds numbers to 14 digits.
pub mod Scores
pub mod Order
use Prim.Native.String.{compare}
use Prim.Native.Nat.{Ordering}
use qml.Base.{
  ℕ, zero, suc, min, ℤ, String, Bool, true, false, Option, none, some, List, [], ◌∷◌, before, map,
  if◌then◌else◌, ◌==◌,
}
use qml.Base.Maps
use qml.Base.Maps.{Map}
use qml.Core.JobState.{JobState, DateTime}
use qml.Core.Job.{Job}
use qml.Storage.Redis.Indices.{
  RedisState, or_empty, change, withdraw, leave_state, enter_state, state_to_string,
}

-- Higher score first, and the greater identifier among equal scores.
unfoldable pub beats : String × ℤ → String × ℤ → Bool
beats (id, s) (id', s') =
    if before s' s
    then true
    else if before s s'
    then false
    else elim (compare id id') [ Ordering.gt ↦ true | _ ↦ false ]

-- ZREVRANGE key 0 0 WITHSCORES.
unfoldable pub top : Map ℤ → Option (String × ℤ)
unfolding beats
top [] = none
top (entry ∷ m) = elim (top m) [
  | none ↦ some entry
  | some other ↦ some (if beats entry other then entry else other)
]

-- The loop over the candidate sets: a later one has to be better.
unfoldable pub best_of : Option (String × ℤ) → List (Map ℤ) → Option (String × ℤ)
unfolding top
best_of best [] = best
best_of best (z ∷ zs) =
    let better : Option (String × ℤ) = elim (top z) [
      | none ↦ best
      | some (id, s) ↦ elim best [
        | none ↦ some (id, s)
        | some (id', s') ↦ if before s' s then some (id, s) else some (id', s')
      ]
    ] in
    best_of better zs

unfoldable pub candidates : RedisState → Option (List String) → List (Map ℤ)
candidates s none = s.available ∷ []
candidates s (some []) = s.available ∷ []
candidates s (some (q ∷ qs)) = map (λ queue. or_empty [] (Maps.get queue s.by_queue)) (q ∷ qs)

-- A stale entry is dropped from the candidate sets and from the global one.
unfoldable pub drop_entry : Option (List String) → String → RedisState → RedisState
unfolding change
drop_entry none id s = record s { available = Maps.remove id s.available }
drop_entry (some []) id s = record s { available = Maps.remove id s.available }
drop_entry (some (q ∷ qs)) id s =
    let rest = drop_entry (some qs) id s in
    record rest { by_queue = change [] q (λ z. Maps.remove id z) rest.by_queue }

unfoldable pub is_fetchable : JobState → Bool
is_fetchable (JobState.enqueued _ _) = true
is_fetchable (JobState.awaiting_retry _ _ _) = true
is_fetchable _ = false

unfoldable pub start : DateTime → String → Job → Job
start now worker_id job = record job { state = JobState.processing now worker_id "redis-storage" }

unfoldable pub take_job : DateTime → String → String → Job → RedisState → RedisState
unfolding start withdraw leave_state enter_state state_to_string
take_job now worker_id id job s = enter_state "processing" id (
    leave_state (state_to_string job.state) id (
      withdraw job.queue id
        (record s { blobs = Maps.insert id (start now worker_id job) s.blobs })))

unfoldable pub take_best :
    DateTime
    → String
    → Option (List String)
    → Option (String × ℤ)
    → RedisState
    → RedisState × Option Job
unfolding take_job drop_entry is_fetchable
take_best now worker_id queues none s = (s, none)
take_best now worker_id queues (some (id, _)) s = elim (Maps.get id s.blobs) [
  | none ↦ (drop_entry queues id s, none)
  | some job ↦
      if is_fetchable job.state
      then (take_job now worker_id id job s, some (start now worker_id job))
      else (drop_entry queues id s, none)
]

unfoldable pub fetch_and_lock_job :
    DateTime → RedisState → String → Option (List String) → RedisState × Option Job
unfolding best_of candidates take_best
fetch_and_lock_job now s worker_id queues =
    take_best now worker_id queues (best_of none (candidates s queues)) s

abbrev pub unwrap_or : Option ℕ → ℕ → ℕ
unwrap_or none d = d
unwrap_or (some n) d = n

unfoldable pub fetch_rounds :
    ℕ → (ℕ → DateTime) → RedisState → String → Option (List String) → RedisState × List Job
unfolding fetch_and_lock_job
fetch_rounds zero clock s worker_id queues = (s, [])
fetch_rounds (suc n) clock s worker_id queues =
    let (s', found) = fetch_and_lock_job (clock n) s worker_id queues in
    elim found [
      | none ↦ (s', [])
      | some job ↦ let (s'', jobs) = fetch_rounds n clock s' worker_id queues in (s'', job ∷ jobs)
    ]

unfoldable pub fetch_available_jobs_atomic :
    (ℕ → DateTime) → RedisState → String → Option ℕ → Option (List String) → RedisState × List Job
unfolding fetch_rounds
fetch_available_jobs_atomic clock s worker_id limit queues =
    fetch_rounds (min (unwrap_or limit 10) 50) clock s worker_id queues
