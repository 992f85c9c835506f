-- ===== src/Storage/Examples/Fetching.antt =====
-- Runs and instances of the fetch of src/storage/memory.rs.
use qml.Base.{
  ◌≡◌, ◌≢◌, ◌≤◌, refl, pos, ◌<ℤ◌, ◌≤ℤ◌, ◌+ℤ◌, String, none, some, List, [], ◌∷◌, ◌⊎◌, arith, length,
  before, at_most, if◌then◌else◌, ◌==◌,
}
use qml.Base.Maps
use qml.Base.Sort.{sort_by}
use qml.Core.JobState.{JobState}
use qml.Core.Job.{Job}
use qml.Storage.Memory.State.{goes_first, is_available, get_available_jobs_internal}
use qml.Storage.Memory.Locker.{
  FetchClock, fetch_and_lock_job, fetch_available_jobs_atomic, start, cleanup_expired_locks,
  fetch_loop, queue_allows, new_lock,
}
use qml.Storage.Memory.Jobs.{update, scheduled_due}
use qml.Storage.Memory.Claim.{claim_due_scheduled_jobs, claim_due, claim_loop, due_ids}
use qml.Storage.Memory.Steps.{Call, updates, fetches, claims_scheduled, run, step}
use qml.Storage.Memory.Ready.{CanRun}
use qml.Storage.Memory.Fetch.{fetch_picks_first, fetch_finds}
use qml.Storage.Memory.Fetch.Effect.{fetch_effect}
use qml.Storage.Memory.Fetch.Exclusive.{
  apart, early_fetch, fetched_once, batch_differs, AllDifferent, Quick,
}
use qml.Storage.Examples.{low, high, busy, clock, busy-IsValid}

-- The locked job has a higher priority, but is passed over.
fetches_high : (fetch_and_lock_job clock busy "w1" none).1 ≡ some (start clock "w1" high)
unfolding fetch_and_lock_job cleanup_expired_locks fetch_loop get_available_jobs_internal goes_first
    is_available queue_allows start new_lock sort_by Maps.retain Maps.values Maps.contains_key
    Maps.get Maps.insert before at_most
fetches_high = refl

fetch_picks_first_example :
    (job : Job) × (start clock "w1" high
      ≡ record job { state = JobState.processing (pos 100) "w1" "memory-storage" })
    × (Maps.get job.id busy.jobs ≡ some job)
    × (CanRun clock none busy job)
    × ((k : String) (other : Job)
        → Maps.get k busy.jobs ≡ some other
        → CanRun clock none busy other
        → (other.priority <ℤ job.priority)
          ⊎ ((job.priority ≡ other.priority) × (job.created_at ≤ℤ other.created_at)))
fetch_picks_first_example = fetch_picks_first clock busy "w1" none busy-IsValid fetches_high

fetch_finds_example : (fetch_and_lock_job clock busy "w1" none).1 ≢ none
unfolding is_available queue_allows Maps.get
fetch_finds_example = fetch_finds clock busy "w1" none busy-IsValid "low" low refl (tt, tt, tt)

fetch_effect_example :
    (Maps.get "low" (fetch_and_lock_job clock busy "w1" none).0.jobs
      ≡ (if "high" == "low" then some (start clock "w1" high) else Maps.get "low" busy.jobs))
    × (Maps.get "low" (fetch_and_lock_job clock busy "w1" none).0.locks ≡ (
        if "high" == "low"
        then some (record { worker_id = "w1"; expires_at = pos 100 +ℤ pos 1_800_000 })
        else Maps.keep_if (λ l. before (pos 100) l.expires_at) (Maps.get "low" busy.locks)))
unfolding start
fetch_effect_example =
    fetch_effect clock busy "w1" none busy-IsValid (start clock "w1" high) "low" fetches_high

abbrev later : FetchClock
later = record { swept_at = pos 200; seen_at = pos 200; locked_at = pos 200; started_at = pos 200 }

abbrev meanwhile : FetchClock
meanwhile = record {
  swept_at = pos 140;
  seen_at = pos 140;
  locked_at = pos 140;
  started_at = pos 140;
}

-- The worker has failed meanwhile, the job is back in its queue, and another worker looks for jobs.
abbrev calls : List Call
calls =
    updates high
    ∷ fetches meanwhile "w3" (some ("later" ∷ []))
    ∷ claims_scheduled (λ id. pos 150) (pos 150) 10
    ∷ []

fetches_low :
    (fetch_and_lock_job later (run (fetch_and_lock_job clock busy "w1" none).0 calls) "w2" none).1
    ≡ some (start later "w2" low)
unfolding fetch_and_lock_job cleanup_expired_locks fetch_loop get_available_jobs_internal goes_first
    is_available queue_allows start new_lock sort_by Maps.retain Maps.values Maps.contains_key
    Maps.get Maps.insert before at_most run step update claim_due_scheduled_jobs claim_due
    claim_loop due_ids scheduled_due ◌+ℤ◌
fetches_low = refl

fetched_once_example : (start later "w2" low).id ≢ (start clock "w1" high).id
unfolding ◌+ℤ◌ before
fetched_once_example =
    fetched_once clock later busy "w1" "w2" none none (start clock "w1" high) (start later "w2" low)
      calls busy-IsValid fetches_high
      (
        apart (updates high) tt,
        (
          early_fetch meanwhile "w3" (some ("later" ∷ [])) (omega arith),
          (apart (claims_scheduled (λ id. pos 150) (pos 150) 10) tt, tt),
        ),
      )
      (omega arith) fetches_low

quick : Quick (λ n. clock)
unfolding ◌+ℤ◌
quick i j = omega arith

batch_differs_example :
    AllDifferent
      (λ n. clock)
      "w1"
      none
      quick
      (fetch_available_jobs_atomic (λ n. clock) busy "w1" (some 5) none).1
    × (length (fetch_available_jobs_atomic (λ n. clock) busy "w1" (some 5) none).1 ≤ 5)
    × (length (fetch_available_jobs_atomic (λ n. clock) busy "w1" (some 5) none).1 ≤ 100)
batch_differs_example = batch_differs (λ n. clock) "w1" none quick busy (some 5) busy-IsValid
