-- ===== src/Storage/Memory/Claim/Again.antt =====
-- Two claims of due jobs one after the other (src/storage/memory.rs).
use qml.Base.{
  ℕ, zero, suc, ◌≡◌, ◌≤◌, refl, sym, ◌∙◌, String, Bool, false, inl, inr, List, [], ◌∷◌, All,
  All-map, filter, length, Bool-cases,
}
use qml.Base.Maps
use qml.Base.Maps.{Map}
use qml.Base.Sort.{sort_by}
use qml.Core.JobState.{JobState, DateTime, new_enqueued}
use qml.Storage.Memory.Jobs.{scheduled_due, retry_due}
use qml.Storage.Memory.Invariant.Jobs.{claim-IsValid}
use qml.Core.Job.{Job}
use qml.Storage.Memory.State.{MemoryStorage}
use qml.Storage.Memory.Claim.{
  due_ids, promote, claim_due, claim_due_scheduled_jobs, claim_due_retry_jobs,
}
use qml.Storage.Memory.Invariant.{IsValid, job_id}
use qml.Storage.Memory.Claim.Promotes.{claim_changes, claim_complete}

filter_nothing :
    {A : Type 0} (p : A → Bool) (xs : List A) → All (λ x. p x ≡ false) xs → filter p xs ≡ []
filter_nothing p [] h = refl
filter_nothing p (x ∷ xs) h = rw h.0 (filter_nothing p xs h.1)

nothing_due :
    (due : JobState → Bool) (now_for : String → DateTime) (s : MemoryStorage) (limit : ℕ)
    → ((t : DateTime) (q : String) → due (JobState.enqueued t q) ≡ false)
    → IsValid s
    → length s.jobs ≤ limit
    → All (λ (j : Job). due j.state ≡ false) (Maps.values (claim_due due now_for s limit).0.jobs)
unfolding promote new_enqueued
nothing_due due now_for s limit settled v room =
    let s' = (claim_due due now_for s limit).0 in
    let v' = claim-IsValid due now_for s limit v in
    All-map
      (λ j stored'. elim (Bool-cases (due j.state)) [
        | inr e ↦ e
        | inl e ↦ elim (claim_changes due now_for s limit v j.id) [
          | inl same ↦
              let promoted' =
                claim_complete due now_for s limit v j.id j room (sym same ∙ stored') e in
              let q : j ≡ promote now_for j = cc in rw q (settled (now_for j.id) j.queue)
          | inr (job, _, _, made) ↦
              let q : j ≡ promote now_for job = cc in rw q (settled (now_for job.id) job.queue)
        ]
      ])
      _ (Maps.values-get job_id s'.jobs v'.jobs_ok.0 v'.jobs_ok.1)

due_ids_nothing :
    (due : JobState → Bool) (jobs : Map Job) (limit : ℕ)
    → All (λ (j : Job). due j.state ≡ false) (Maps.values jobs)
    → due_ids due jobs limit ≡ []
unfolding due_ids sort_by
due_ids_nothing due jobs zero h = refl
due_ids_nothing due jobs (suc n) h =
    rw (filter_nothing (λ (j : Job). due j.state) (Maps.values jobs) h)

module _ (now_for now_for' : String → DateTime) (s : MemoryStorage) (now : DateTime)
    (limit limit' : ℕ) (v : IsValid s) (room : length s.jobs ≤ limit) where
  second_scheduled_claim :
      (claim_due_scheduled_jobs now_for'
        (claim_due_scheduled_jobs now_for s now limit).0
        now
        limit').1
      ≡ []
  unfolding claim_due_scheduled_jobs claim_due scheduled_due
  second_scheduled_claim = rw (
      due_ids_nothing (scheduled_due now) _ limit'
        (nothing_due (scheduled_due now) now_for s limit (λ t q. refl) v room))

  second_retry_claim :
      (claim_due_retry_jobs now_for' (claim_due_retry_jobs now_for s now limit).0 now limit').1 ≡ []
  unfolding claim_due_retry_jobs claim_due retry_due
  second_retry_claim = rw (
      due_ids_nothing (retry_due now) _ limit'
        (nothing_due (retry_due now) now_for s limit (λ t q. refl) v room))

  -- Two schedulers cannot both promote a job: if the first claim of the scheduled jobs that are due
  -- has room for all, a second one at the same instant gets none; the same holds of the jobs that are
  -- due for a retry.
  pub second_claim :
      ((claim_due_scheduled_jobs now_for'
          (claim_due_scheduled_jobs now_for s now limit).0
          now
          limit').1
        ≡ [])
      × ((claim_due_retry_jobs now_for' (claim_due_retry_jobs now_for s now limit).0 now limit').1
          ≡ [])
  second_claim = (second_scheduled_claim, second_retry_claim)
