-- ===== src/Storage/Examples/Claiming.antt =====
-- Runs and instances of the claims and of the recovery of src/storage/memory.rs.
use qml.Base.{
  ◌≡◌, ◌≢◌, refl, pos, ◌+ℤ◌, ◌<ℤ◌, String, none, some, [], ◌∷◌, arith, All, length, filter,
}
use qml.Base.Maps
use qml.Core.JobState.{JobState, DateTime}
use qml.Storage.Memory.State.{MemoryStorage}
use qml.Storage.Memory.Claim.{claim_due_scheduled_jobs, claim_due_retry_jobs}
use qml.Storage.Memory.Claim.Promotes.{Claims, IsScheduled, AwaitsRetry, claimed_are_promoted}
use qml.Storage.Memory.Recurring.{fetch_due_recurring_jobs}
use qml.Storage.Memory.Recurring.Parking.{claimed_once}
use qml.Storage.Memory.Locker.{start, requeue_stranded_jobs}
use qml.Storage.Memory.Locker.Recovery.{runs_since, requeue_stranded_lem, reclaim_misses}
use qml.Storage.Memory.Servers.{reclaim_jobs_from_server}
use qml.Storage.Memory.Invariant.{IsValid}
use qml.Storage.Examples.{low, high, lock, waiting, empty, calm, clock, calm-IsValid}

abbrev at : String → DateTime
at id = pos 100

claimed_are_promoted_example :
    Claims at calm 10 "waiting" waiting
      (IsScheduled (pos 100))
      (claim_due_scheduled_jobs at calm (pos 100) 10)
    × Claims at calm 10 "waiting" waiting
        (AwaitsRetry (pos 100))
        (claim_due_retry_jobs at calm (pos 100) 10)
unfolding Maps.get
claimed_are_promoted_example =
    claimed_are_promoted at calm 10 "waiting" waiting (pos 100) calm-IsValid refl

claimed_once_example :
    All
      (λ again. All (λ r. again.id ≢ r.id) (fetch_due_recurring_jobs calm (pos 100) 5).1)
      (fetch_due_recurring_jobs (fetch_due_recurring_jobs calm (pos 100) 5).0 (pos 200) 5).1
unfolding ◌+ℤ◌
claimed_once_example = claimed_once calm (pos 100) (pos 200) 5 5 calm-IsValid (omega arith)

-- A worker of another server has started one of the jobs, and is gone.
abbrev stranded : MemoryStorage
stranded = record empty {
  jobs =
      ("low", record low { state = JobState.processing (pos 100) "w1" "memory-storage" })
      ∷ ("high", high)
      ∷ [];
  locks = ("low", lock) ∷ [];
}

stranded-IsValid : IsValid stranded
unfolding Maps.get
stranded-IsValid = record {
  jobs_ok = ((refl, (refl, tt)), (refl, (refl, tt)));
  locks_once = (refl, tt);
  recurring_once = tt;
  recurring_keyed = tt;
  servers_once = tt;
  servers_keyed = tt;
  named_once = tt;
}

requeue_stranded_lem_example :
    let r = requeue_stranded_jobs at stranded (pos 300) in
    (pos 100 <ℤ pos 300
      → (Maps.get "low" r.0.jobs
          ≡ some (record low { state = JobState.enqueued (pos 100) "default" }))
        × (Maps.get "low" r.0.locks ≡ none))
    × (¬ (pos 100 <ℤ pos 300)
        → (Maps.get "low" r.0.jobs
            ≡ some (record low { state = JobState.processing (pos 100) "w1" "memory-storage" }))
          × (Maps.get "low" r.0.locks ≡ Maps.get "low" stranded.locks))
    × (r.1 ≡ length (filter (λ j. runs_since (pos 300) j.state) (Maps.values stranded.jobs)))
unfolding Maps.get
requeue_stranded_lem_example =
    requeue_stranded_lem at stranded (pos 300) "low"
      (record low { state = JobState.processing (pos 100) "w1" "memory-storage" }) stranded-IsValid
      refl

reclaim_misses_example :
    let r = reclaim_jobs_from_server at stranded "server-1" in
    (Maps.get "low" r.0.jobs ≡ some (start clock "w1" low))
    × (Maps.get "low" r.0.locks ≡ Maps.get "low" stranded.locks)
unfolding Maps.get start
reclaim_misses_example =
    reclaim_misses clock "w1" at stranded "server-1" low "low" stranded-IsValid refl (λ e. cc)
