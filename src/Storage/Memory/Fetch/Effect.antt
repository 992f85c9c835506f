-- ===== src/Storage/Memory/Fetch/Effect.antt =====
-- What `fetch_and_lock_job` does to the stored jobs and locks (src/storage/memory.rs).
use qml.Base.{
  ◌≡◌, ◌≢◌, refl, sym, ap, subst, ◌∙◌, ◌+ℤ◌, pos, ◌<ℤ◌, before, <ℤ→before, String, inl, inr, Option,
  none, some, List, arith, Option-cases, if◌then◌else◌, ◌==◌, eq_iff,
}
use qml.Base.Maps
use qml.Base.Maps.{Map}
use qml.Core.Job.{Job}
use qml.Storage.Memory.State.{MemoryStorage, JobLock}
use qml.Storage.Memory.Locker.{FetchClock, new_lock, start, fetch_and_lock_job}
use qml.Storage.Memory.Invariant.{IsValid}
use qml.Storage.Memory.Ready.{NotHeld}
use qml.Storage.Memory.Fetch.{
  taken, live, get-live, chosen, after_fetch, fetch-chosen, fetch_chooses,
}

taken_effect :
    (c : FetchClock) (w : String) (jobs : Map Job) (locks : Map JobLock) (o : Option Job)
    (job' : Job) (k : String)
    → (taken c w jobs locks o).1 ≡ some job'
    → (Maps.get k (taken c w jobs locks o).0.0
        ≡ (if job'.id == k then some job' else Maps.get k jobs))
      × (Maps.get k (taken c w jobs locks o).0.1
          ≡ (if job'.id == k then some (new_lock c w) else Maps.get k locks))
unfolding taken start
taken_effect c w jobs locks none job' k e = absurd (cc)
taken_effect c w jobs locks (some job) job' k e =
    let started : start c w job ≡ job' = cc in
    let same : job'.id ≡ job.id = rw (← started) (unfold start in refl) in
    (
      rw (same, ← started) (Maps.get-insert job.id k (start c w job) jobs),
      rw same (Maps.get-insert job.id k (new_lock c w) locks),
    )

taken-none :
    (c : FetchClock) (w : String) (jobs : Map Job) (locks : Map JobLock) (o : Option Job)
    → (taken c w jobs locks o).1 ≡ none
    → (taken c w jobs locks o).0 ≡ (jobs, locks)
unfolding taken
taken-none c w jobs locks none e = refl
taken-none c w jobs locks (some job) e = absurd (cc)

module _ (c : FetchClock) (s : MemoryStorage) (w : String) (queues : Option (List String))
    (v : IsValid s) where
  -- A fetch that gives a job stores it as given and locks it for this worker until 30 minutes after
  -- its reading of the clock; every other job stays as it was, and of the other locks exactly those
  -- that have run out are gone.
  pub fetch_effect :
      (job' : Job) (k : String)
      → (fetch_and_lock_job c s w queues).1 ≡ some job'
      → (Maps.get k (fetch_and_lock_job c s w queues).0.jobs
          ≡ (if job'.id == k then some job' else Maps.get k s.jobs))
        × (Maps.get k (fetch_and_lock_job c s w queues).0.locks ≡ (
            if job'.id == k
            then some (record { worker_id = w; expires_at = c.locked_at +ℤ pos 1_800_000 })
            else Maps.keep_if (λ l. before c.swept_at l.expires_at) (Maps.get k s.locks)))
  unfolding after_fetch new_lock
  fetch_effect job' k e =
      rw (fetch-chosen c s w queues, ← get-live c s k v)
        (taken_effect c w s.jobs (live c s) (chosen c queues s) job' k
          (rw (fetch-chosen c s w queues) at e))

  -- A fetch that gives none changes no job, and drops exactly the locks that have run out.
  pub fetch_none_effect :
      (k : String)
      → (fetch_and_lock_job c s w queues).1 ≡ none
      → ((fetch_and_lock_job c s w queues).0.jobs ≡ s.jobs)
        × (Maps.get k (fetch_and_lock_job c s w queues).0.locks
            ≡ Maps.keep_if (λ l. before c.swept_at l.expires_at) (Maps.get k s.locks))
  unfolding after_fetch
  fetch_none_effect k e =
      let n =
        taken-none c w s.jobs (live c s) (chosen c queues s)
          (rw (fetch-chosen c s w queues) at e) in
      rw (fetch-chosen c s w queues, n) (refl, get-live c s k v)

  -- A job under a lock that has not run out is not given to anyone.
  pub fetch_respects_lock :
      (k : String) (l : JobLock) (job' : Job)
      → Maps.get k s.locks ≡ some l
      → c.swept_at <ℤ l.expires_at
      → (fetch_and_lock_job c s w queues).1 ≡ some job'
      → job'.id ≢ k
  fetch_respects_lock k l job' held unexpired e same =
      let (job, started, _, can, _) = fetch_chooses c s w queues v e in
      let name : job.id ≡ k = unfold start in (ap (λ (j : Job). j.id) (sym started) ∙ same) in
      let free : NotHeld c.swept_at (some l) =
        subst (NotHeld c.swept_at) (ap (λ i. Maps.get i s.locks) name ∙ held) can.2 in
      absurd (omega arith)

  -- Such a lock stays as it is.
  pub fetch_keeps_lock :
      (k : String) (l : JobLock)
      → Maps.get k s.locks ≡ some l
      → c.swept_at <ℤ l.expires_at
      → Maps.get k (fetch_and_lock_job c s w queues).0.locks ≡ some l
  fetch_keeps_lock k l held unexpired = elim (Option-cases (fetch_and_lock_job c s w queues).1) [
    | inl n ↦ (fetch_none_effect k n).1 ∙ rw (held, <ℤ→before c.swept_at l.expires_at unexpired)
    | inr (job', e) ↦
        (fetch_effect job' k e).1
        ∙ ground (
          arith,
          eq_iff job'.id k,
          fetch_respects_lock k l job' held unexpired e,
          held,
          <ℤ→before c.swept_at l.expires_at unexpired,
        )
  ]
