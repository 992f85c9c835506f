-- ===== src/Storage/Redis/Claim.antt =====
-- `claim_due_jobs_lua` of src/storage/redis.rs with its script. The texts of two instants in the format
-- of the script are ordered as the instants are. The JSON that the script encodes again is taken as
-- kept but for the state (see Fetch).
use qml.Base.{ℕ, zero, suc, String, Bool, none, some, List, [], ◌∷◌, filter, take}
use qml.Base.Maps
use qml.Base.Maps.{Map}
use qml.Base.Sort.{sort_by}
use qml.Core.JobState.{JobState, DateTime, new_enqueued}
use qml.Core.Job.{Job}
use qml.Storage.Memory.State.{goes_first}
use qml.Storage.Memory.Jobs.{scheduled_due, retry_due}
use qml.Storage.Redis.Indices.{
  RedisState, or_empty, change, srem, promoted_score, offer, leave_state, enter_state,
}

-- The members of the state set with their jobs. A member without a blob is left out, and dropped from
-- the set.
unfoldable pub members_of : Map Job → List String → List (String × Job)
members_of blobs [] = []
members_of blobs (id ∷ ids) = elim (Maps.get id blobs) [
  | none ↦ members_of blobs ids
  | some job ↦ (id, job) ∷ members_of blobs ids
]

unfoldable pub drop_lost : String → List String → RedisState → RedisState
unfolding change srem
drop_lost name [] s = s
drop_lost name (id ∷ ids) s =
    let rest = drop_lost name ids s in
    elim (Maps.get id s.blobs) [
      | none ↦ record rest { state_index = change [] name (srem id) rest.state_index }
      | some _ ↦ rest
    ]

abbrev pub entry_first : String × Job → String × Job → Bool
entry_first a b = goes_first a.1 b.1

unfoldable pub promote : DateTime → Job → Job
unfolding new_enqueued
promote now job = record job { state = new_enqueued now job.queue }

unfoldable pub promote_entry : String → DateTime → String → Job → RedisState → RedisState
unfolding promote promoted_score offer leave_state enter_state
promote_entry from_name now id job s = enter_state "enqueued" id (
    leave_state from_name id (
      offer job.queue id (promoted_score job)
        (record s { blobs = Maps.insert id (promote now job) s.blobs })))

unfoldable pub claim_loop :
    String → DateTime → List (String × Job) → RedisState → RedisState × List Job
unfolding promote_entry
claim_loop from_name now [] s = (s, [])
claim_loop from_name now ((id, job) ∷ due) s =
    let (s', claimed) = claim_loop from_name now due (promote_entry from_name now id job s) in
    (s', promote now job ∷ claimed)

unfoldable pub claim_due_jobs :
    String → (JobState → Bool) → RedisState → DateTime → ℕ → RedisState × List Job
unfolding members_of drop_lost claim_loop
claim_due_jobs from_name due s now zero = (s, [])
claim_due_jobs from_name due s now (suc limit) =
    let ids = or_empty [] (Maps.get from_name s.state_index) in
    let found = filter (λ (e : String × Job). due e.1.state) (members_of s.blobs ids) in
    claim_loop from_name now (take (suc limit) (sort_by entry_first found))
      (drop_lost from_name ids s)

unfoldable pub claim_due_scheduled_jobs : RedisState → DateTime → ℕ → RedisState × List Job
unfolding claim_due_jobs scheduled_due
claim_due_scheduled_jobs s now limit = claim_due_jobs "scheduled" (scheduled_due now) s now limit

unfoldable pub claim_due_retry_jobs : RedisState → DateTime → ℕ → RedisState × List Job
unfolding claim_due_jobs retry_due
claim_due_retry_jobs s now limit = claim_due_jobs "awaiting_retry" (retry_due now) s now limit
