-- ===== src/Storage/Redis/Fetch/Order.antt =====
-- In which order src/storage/redis.rs gives jobs to workers.
use qml.Base.{
  ◌≡◌, ◌≢◌, ℕ, zero, suc, take, filter, ap, refl, ◌∙◌, ◌*ℤ◌, ◌+ℤ◌, pos, ◌<ℤ◌, ◌≤ℤ◌, String, true,
  none, some, [], ◌∷◌, arith, eq_iff, ◌==◌,
}
use qml.Base.Maps
use qml.Base.Maps.{Map}
use qml.Core.JobState.{JobState, DateTime, new_enqueued}
use qml.Core.Job.{Job}
use qml.Storage.Redis.Indices.{
  RedisState, or_empty, score, promoted_score, leave_state, enter_state, offer, is_job_available,
  set_available, update_job_indices,
}
use qml.Base.Sort
use qml.Base.Sort.{sort_by}
use qml.Storage.Memory.Jobs.{scheduled_due}
use qml.Storage.Memory.Ready.{at_most_iff}
use qml.Storage.Redis.Writes
use qml.Storage.Redis.Claim.{
  claim_due_scheduled_jobs, claim_due_jobs, members_of, drop_lost, claim_loop, entry_first,
  promote_entry, promote,
}
use qml.Storage.Redis.Fetch.{fetch_and_lock_job}
use qml.Storage.Redis.Fetch.Scores.{lower_waits}

take_nothing : {A : Type 0} (n : ℕ) → take {A = A} n [] ≡ []
take_nothing zero = refl
take_nothing (suc n) = refl

-- The claim of the one job that is scheduled.
claim_of_one :
    (s : RedisState) (now scheduled_at due : DateTime) (reason : String) (limit : ℕ) (job : Job)
    → Maps.get "scheduled" s.state_index ≡ some (job.id ∷ [])
    → Maps.get job.id s.blobs ≡ some job
    → job.state ≡ JobState.scheduled scheduled_at due reason
    → due ≤ℤ now
    → (claim_due_scheduled_jobs s now (suc limit)).0 ≡ promote_entry "scheduled" now job.id job s
unfolding claim_due_scheduled_jobs claim_due_jobs members_of drop_lost claim_loop sort_by
    Sort.insert
claim_of_one s now scheduled_at due reason limit job listed stored waits late =
    let ready : scheduled_due now job.state ≡ true =
      rw waits (unfold scheduled_due in (at_most_iff due now).1 late) in
    let test = λ (e : String × Job). scheduled_due now e.1.state in
    let found : take (suc limit)
          (sort_by entry_first (filter test (members_of s.blobs (job.id ∷ []))))
        ≡ (job.id, job) ∷ [] =
      rw (members_of, stored, ready, take_nothing limit) refl in
    let nothing_lost : drop_lost "scheduled" (job.id ∷ []) s ≡ s = rw (drop_lost, stored) refl in
    ap
      (λ o.
        let ids = or_empty [] o in
        (claim_loop "scheduled" now
          (take (suc limit) (sort_by entry_first (filter test (members_of s.blobs ids))))
          (drop_lost "scheduled" ids s)).0)
      listed
    ∙ ap (λ due. (claim_loop "scheduled" now due (drop_lost "scheduled" (job.id ∷ []) s)).0) found
    ∙ ap (λ t. (claim_loop "scheduled" now ((job.id, job) ∷ []) t).0) nothing_lost

-- On Redis, after a claim has promoted the one scheduled job and another job has been enqueued, a
-- fetch without a queue filter leaves the promoted job enqueued and available, if the other one's
-- creation, in units of 1000 seconds since the epoch, is more than the promoted one's lead in
-- priority: the promoted one stands at its priority, the other one at its priority and these units.
-- (No job stands twice among the available ones.)
pub promoted_waits :
    (claimed_at seen_at now scheduled_at due enqueued_at : DateTime) (reason queue w : String)
    (limit : ℕ) (s : RedisState) (promoted direct : Job)
    → Maps.Distinct s.available
    → Maps.get "scheduled" s.state_index ≡ some (promoted.id ∷ [])
    → Maps.get promoted.id s.blobs ≡ some promoted
    → promoted.state ≡ JobState.scheduled scheduled_at due reason
    → due ≤ℤ claimed_at
    → direct.state ≡ JobState.enqueued enqueued_at queue
    → direct.id ≢ promoted.id
    → promoted.priority *ℤ pos 1_000_000 <ℤ direct.priority *ℤ pos 1_000_000 +ℤ direct.created_at
    → let claimed = (claim_due_scheduled_jobs s claimed_at (suc limit)).0 in
      let fetched = (fetch_and_lock_job now (Writes.enqueue seen_at claimed direct).0 w none).0 in
      (Maps.get promoted.id fetched.blobs
        ≡ some (record promoted { state = JobState.enqueued claimed_at promoted.queue }))
      × (Maps.get promoted.id fetched.available ≡ some (promoted.priority *ℤ pos 1_000_000))
unfolding Writes.enqueue update_job_indices set_available is_job_available offer enter_state
    promote_entry promote new_enqueued leave_state score promoted_score
promoted_waits claimed_at seen_at now scheduled_at due enqueued_at reason queue w limit s promoted
      direct d listed stored waits late fresh n lt =
    let a = promoted.priority *ℤ pos 1_000_000 in
    let b = direct.priority *ℤ pos 1_000_000 +ℤ direct.created_at in
    let self : promoted.id == promoted.id ≡ true = (eq_iff promoted.id promoted.id).1 refl in
    let self' : direct.id == direct.id ≡ true = (eq_iff direct.id direct.id).1 refl in
    let moved : RedisState = promote_entry "scheduled" claimed_at promoted.id promoted s in
    let both : RedisState = (Writes.enqueue seen_at moved direct).0 in
    let sets : both.available ≡ Maps.insert direct.id b (Maps.insert promoted.id a s.available) =
      rw (set_available, fresh) refl in
    let blobs : both.blobs
        ≡ Maps.insert direct.id direct (
            Maps.insert promoted.id
              (record promoted { state = JobState.enqueued claimed_at promoted.queue }) s.blobs) =
      rw (set_available, fresh) refl in
    let low : Maps.get promoted.id both.available ≡ some a = rw sets (
      Maps.get-insert direct.id promoted.id b (Maps.insert promoted.id a s.available)
      ∙ ground (
        arith,
        eq_iff direct.id promoted.id,
        n,
        self,
        Maps.get-insert promoted.id promoted.id a s.available,
      )) in
    let high : Maps.get direct.id both.available ≡ some b = rw sets (
      Maps.get-insert direct.id direct.id b (Maps.insert promoted.id a s.available)
      ∙ rw self' refl) in
    let distinct : Maps.Distinct both.available = rw sets (
      Maps.insert-Distinct direct.id b (Maps.insert promoted.id a s.available)
        (Maps.insert-Distinct promoted.id a s.available d)) in
    let job = record promoted { state = JobState.enqueued claimed_at promoted.queue } in
    let kept : Maps.get promoted.id both.blobs ≡ some job = rw blobs (
      Maps.get-insert direct.id promoted.id direct (Maps.insert promoted.id job s.blobs)
      ∙ ground (
        arith,
        eq_iff direct.id promoted.id,
        n,
        self,
        Maps.get-insert promoted.id promoted.id job s.blobs,
      )) in
    let left = lower_waits now both w promoted.id direct.id a b distinct low high lt in
    rw (claim_of_one s claimed_at scheduled_at due reason limit promoted listed stored waits late)
      (left.0 ∙ kept, left.1 ∙ low)
