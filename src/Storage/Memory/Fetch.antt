-- ===== src/Storage/Memory/Fetch.antt =====
-- What `fetch_and_lock_job` gives a worker (src/storage/memory.rs).
pub mod Effect
pub mod Exclusive
use qml.Base.{
  ℕ, ◌≡◌, ◌≢◌, refl, sym, ap, subst, ℤ, ◌≤ℤ◌, ◌<ℤ◌, before, at_most, before→<ℤ, before_false,
  <ℤ→before, String, Bool, true, false, not, ◌&&◌, ◌⊎◌, inl, inr, Option, none, some, List, [], ◌∷◌,
  arith, All, All-map, All-filter, All-unfilter, All-find, filter, find, Bool-cases, Option-cases,
  if◌then◌else◌, ◌==◌, eq_iff,
}
use qml.Base.Maps
use qml.Base.Maps.{Map}
use qml.Base.Sort.{sort_by, sort_by-IsSorted, find-least, All-sort_by, All-unsort_by}
use qml.Core.JobState.{JobState, DateTime}
use qml.Core.Job.{Job}
use qml.Storage.Memory.State.{
  MemoryStorage, JobLock, is_available, goes_first, goes_first_lem, goes_first_refl,
  goes_first_total, goes_first_trans, get_available_jobs_internal,
}
use qml.Storage.Memory.Locker.{
  FetchClock, cleanup_expired_locks, queue_allows, new_lock, start, fetch_loop, fetch_and_lock_job,
}
use qml.Storage.Memory.Ready.{NotHeld, CanRun, is_available-IsReady, queue_allows-IsServed}
use qml.Storage.Memory.Invariant.{IsValid, JobsOk, job_id}

eligible : Option (List String) → Map JobLock → Job → Bool
eligible queues locks job = queue_allows queues job.queue && not (Maps.contains_key job.id locks)

taken :
    FetchClock → String → Map Job → Map JobLock → Option Job → (Map Job × Map JobLock) × Option Job
taken c w jobs locks none = ((jobs, locks), none)
taken c w jobs locks (some job) = (
  (Maps.insert job.id (start c w job) jobs, Maps.insert job.id (new_lock c w) locks),
  some (start c w job),
)

fetch_loop-find :
    (c : FetchClock) (w : String) (queues : Option (List String)) (available : List Job)
    (jobs : Map Job) (locks : Map JobLock)
    → fetch_loop c w queues available jobs locks
      ≡ taken c w jobs locks (find (eligible queues locks) available)
unfolding fetch_loop taken eligible
fetch_loop-find c w queues [] jobs locks = refl
fetch_loop-find c w queues (job ∷ rest) jobs locks =
    elim (Bool-cases (queue_allows queues job.queue)) [
      | inr e ↦ rw e (fetch_loop-find c w queues rest jobs locks)
      | inl e ↦ elim (Bool-cases (Maps.contains_key job.id locks)) [
        | inl l ↦ rw (e, l) (fetch_loop-find c w queues rest jobs locks)
        | inr l ↦ rw (e, l)
      ]
    ]

live : FetchClock → MemoryStorage → Map JobLock
live c s = (cleanup_expired_locks s c.swept_at).locks

chosen : FetchClock → Option (List String) → MemoryStorage → Option Job
unfolding live
chosen c queues s =
    find (eligible queues (live c s)) (get_available_jobs_internal s.jobs c.seen_at none)

after_fetch : MemoryStorage → (Map Job × Map JobLock) × Option Job → MemoryStorage × Option Job
after_fetch s r = (record s { jobs = r.0.0; locks = r.0.1 }, r.1)

fetch-chosen :
    (c : FetchClock) (s : MemoryStorage) (w : String) (queues : Option (List String))
    → fetch_and_lock_job c s w queues
      ≡ after_fetch s (taken c w s.jobs (live c s) (chosen c queues s))
unfolding fetch_and_lock_job chosen live after_fetch
fetch-chosen c s w queues = ap (after_fetch s) (
    fetch_loop-find c w queues (get_available_jobs_internal s.jobs c.seen_at none) s.jobs
      (live c s))

get-live :
    (c : FetchClock) (s : MemoryStorage) (k : String)
    → IsValid s
    → Maps.get k (live c s)
      ≡ Maps.keep_if (λ l. before c.swept_at l.expires_at) (Maps.get k s.locks)
unfolding live cleanup_expired_locks
get-live c s k v = Maps.get-retain _ k s.locks v.locks_once

dropped-NotHeld :
    (t : DateTime) (o : Option JobLock)
    → Maps.is_some (Maps.keep_if (λ l. before t l.expires_at) o) ≡ false
    → NotHeld t o
dropped-NotHeld t none h = tt
dropped-NotHeld t (some l) h = ground (arith, before_false t l.expires_at)

NotHeld-dropped :
    (t : DateTime) (o : Option JobLock)
    → NotHeld t o
    → Maps.is_some (Maps.keep_if (λ l. before t l.expires_at) o) ≡ false
NotHeld-dropped t none h = refl
NotHeld-dropped t (some l) h = ground (arith, before→<ℤ t l.expires_at)

eligible-NotHeld :
    (c : FetchClock) (q : Option (List String)) (s : MemoryStorage) (job : Job)
    → IsValid s
    → eligible q (live c s) job ≡ true
    → (queue_allows q job.queue ≡ true) × NotHeld c.swept_at (Maps.get job.id s.locks)
unfolding eligible Maps.contains_key
eligible-NotHeld c q s job v h =
    let e : Maps.is_some (Maps.get job.id (live c s)) ≡ false = ground arith in
    (
      ground arith,
      dropped-NotHeld c.swept_at (Maps.get job.id s.locks) (rw (get-live c s job.id v) at e),
    )

NotHeld-eligible :
    (c : FetchClock) (q : Option (List String)) (s : MemoryStorage) (job : Job)
    → IsValid s
    → queue_allows q job.queue ≡ true
    → NotHeld c.swept_at (Maps.get job.id s.locks)
    → eligible q (live c s) job ≡ true
unfolding eligible Maps.contains_key
NotHeld-eligible c q s job v a h =
    let d = NotHeld-dropped c.swept_at (Maps.get job.id s.locks) h in
    rw (a, get-live c s job.id v, d)

available_sound :
    (c : FetchClock) (s : MemoryStorage)
    → IsValid s
    → All
        (λ job. (Maps.get job.id s.jobs ≡ some job) × (is_available c.seen_at job.state ≡ true))
        (get_available_jobs_internal s.jobs c.seen_at none)
unfolding get_available_jobs_internal
available_sound c s v = All-sort_by goes_first _ _ (
    All-filter _ (λ job. is_available c.seen_at job.state) (Maps.values s.jobs)
      (Maps.values-get job_id s.jobs v.jobs_ok.0 v.jobs_ok.1))

chosen_least :
    (c : FetchClock) (q : Option (List String)) (s : MemoryStorage) (job : Job)
    → chosen c q s ≡ some job
    → All
        (λ y.
          is_available c.seen_at y.state ≡ true
          → eligible q (live c s) y ≡ true
          → goes_first job y ≡ true)
        (Maps.values s.jobs)
unfolding chosen get_available_jobs_internal
chosen_least c q s job e =
    All-unfilter _ (λ y. is_available c.seen_at y.state) (Maps.values s.jobs)
      (All-unsort_by goes_first _ _ (
        find-least goes_first goes_first_total goes_first_trans (eligible q (live c s))
          (sort_by goes_first (filter (λ y. is_available c.seen_at y.state) (Maps.values s.jobs)))
          job goes_first_refl (sort_by-IsSorted goes_first goes_first_total goes_first_trans _) e))

find-none : {A : Type 0} (p : A → Bool) (xs : List A) → find p xs ≡ none → All (λ x. p x ≡ false) xs
find-none p [] e = tt
find-none p (x ∷ xs) e = elim (Bool-cases (p x)) [
  | inl t ↦ absurd (let k : some x ≡ none = rw t at e in cc)
  | inr t ↦ (t, find-none p xs (rw t at e))
]

chosen-none :
    (c : FetchClock) (q : Option (List String)) (s : MemoryStorage)
    → chosen c q s ≡ none
    → All
        (λ y. is_available c.seen_at y.state ≡ true → eligible q (live c s) y ≡ false)
        (Maps.values s.jobs)
unfolding chosen get_available_jobs_internal
chosen-none c q s e =
    All-unfilter _ (λ y. is_available c.seen_at y.state) (Maps.values s.jobs)
      (All-unsort_by goes_first _ _ (find-none (eligible q (live c s)) _ e))

taken-some :
    (c : FetchClock) (w : String) (jobs : Map Job) (locks : Map JobLock) (o : Option Job)
    {job' : Job}
    → (taken c w jobs locks o).1 ≡ some job'
    → (job : Job) × (o ≡ some job) × (job' ≡ start c w job)
unfolding taken
taken-some c w jobs locks none h = absurd (cc)
taken-some c w jobs locks (some job) h = (job, refl, cc)

module _ (c : FetchClock) (s : MemoryStorage) (w : String) (queues : Option (List String))
    (v : IsValid s) where
  pub fetch_chooses :
      {job' : Job}
      → (fetch_and_lock_job c s w queues).1 ≡ some job'
      → (job : Job) × (job' ≡ start c w job)
        × (Maps.get job.id s.jobs ≡ some job)
        × (CanRun c queues s job)
        × ((k : String) (other : Job)
            → Maps.get k s.jobs ≡ some other
            → CanRun c queues s other
            → (other.priority <ℤ job.priority)
              ⊎ ((job.priority ≡ other.priority) × (job.created_at ≤ℤ other.created_at)))
  unfolding after_fetch
  fetch_chooses e =
      let (job, found, started) =
        taken-some c w s.jobs (live c s) (chosen c queues s)
          (rw (fetch-chosen c s w queues) at e) in
      let (sound, fit) =
        All-find _ (eligible queues (live c s)) _ job (available_sound c s v)
          (unfold chosen in found) in
      let (allowed, free) = eligible-NotHeld c queues s job v fit in
      (
        job,
        started,
        sound.0,
        (
          (is_available-IsReady c.seen_at job.state).0 sound.1,
          (queue_allows-IsServed queues job.queue).0 allowed,
          free,
        ),
        λ k other stored can. goes_first_lem job other (
            Maps.All-values _ k other s.jobs (chosen_least c queues s job found) stored
              ((is_available-IsReady c.seen_at other.state).1 can.0)
              (NotHeld-eligible c queues s other v
                ((queue_allows-IsServed queues other.queue).1 can.1) can.2)),
      )

  -- The job that a worker gets is the stored one, in the state of a job that this worker processes
  -- since its last reading of the clock, and else as it was. It was due, in a queue of the worker and
  -- not locked, and no other such job has a higher priority, or the same priority and an earlier
  -- creation.
  pub fetch_picks_first :
      {job' : Job}
      → (fetch_and_lock_job c s w queues).1 ≡ some job'
      → (job : Job) × (job'
          ≡ record job { state = JobState.processing c.started_at w "memory-storage" })
        × (Maps.get job.id s.jobs ≡ some job)
        × (CanRun c queues s job)
        × ((k : String) (other : Job)
            → Maps.get k s.jobs ≡ some other
            → CanRun c queues s other
            → (other.priority <ℤ job.priority)
              ⊎ ((job.priority ≡ other.priority) × (job.created_at ≤ℤ other.created_at)))
  unfolding start
  fetch_picks_first e = fetch_chooses e

  -- If there is a job that this worker may take, the worker gets one.
  pub fetch_finds :
      (k : String) (job : Job)
      → Maps.get k s.jobs ≡ some job
      → CanRun c queues s job
      → (fetch_and_lock_job c s w queues).1 ≢ none
  unfolding after_fetch taken
  fetch_finds k job stored can e = elim (Option-cases (chosen c queues s)) [
    | inl n ↦
        let miss =
          Maps.All-values _ k job s.jobs (chosen-none c queues s n) stored
            ((is_available-IsReady c.seen_at job.state).1 can.0) in
        cc (
          NotHeld-eligible c queues s job v ((queue_allows-IsServed queues job.queue).1 can.1)
            can.2)
    | inr (j, p) ↦
        let q : some (start c w j) ≡ none = rw (fetch-chosen c s w queues, p, taken) at e in cc
  ]
