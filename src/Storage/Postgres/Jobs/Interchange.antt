-- ===== src/Storage/Postgres/Jobs/Interchange.antt =====
-- The backends of src/storage/memory.rs and src/storage/postgres.rs, one for the other.
use qml.Base.{
  ◌≡◌, refl, ap, subst, String, Bool, true, false, Option, none, some, ◌==◌, Option-cases,
  Bool-cases, inl, inr, if◌then◌else◌,
}
use qml.Base.Maps
use qml.Base.Maps.{Map}
use qml.Core.JobState.{JobStateKind, JobStateKind-discrete, kind}
use qml.Core.Job.{Job}
use qml.Error.{StorageError, Result, ok, err}
use qml.Storage.Memory.State.{MemoryStorage, same_kind}
use qml.Storage.Memory.Jobs
use qml.Storage.Postgres.Row.{
  JobRow, job_state_kind_to_name, job_state_to_name, set_values, inserted_row, row_to_job,
}
use qml.Storage.Postgres.Jobs.{JobSession}
use qml.Storage.Postgres.Jobs.Agreement.{
  calm, Related, Agree, Agree-insert, Agree-remove, inserted-Related, set_values-Related,
}
use qml.Storage.Postgres.Jobs.Calls.{
  Call, Answer, gets, enqueues, updates, swaps, deletes, found, flagged, on_memory, on_postgres,
  Canonical, Writable, Admissible, get-calm, delete-calm, enqueue-calm, update_calm, update_lost,
  swap_calm, swap_lost, option_job-Related, is_some-Related, unstored-Related,
}

Matches : JobStateKind → JobStateKind → Type 0
Matches a b = (job_state_kind_to_name a == job_state_kind_to_name b) ≡ same_kind a b

names_same : (a b : JobStateKind) → Matches a b
unfolding Matches job_state_kind_to_name JobStateKind-discrete
names_same JobStateKind.enqueued b = elim b as (λ k. Matches JobStateKind.enqueued k) [
  | JobStateKind.enqueued ↦ refl
  | _ ↦ refl
]
names_same JobStateKind.processing b = elim b as (λ k. Matches JobStateKind.processing k) [
  | JobStateKind.processing ↦ refl
  | _ ↦ refl
]
names_same JobStateKind.succeeded b = elim b as (λ k. Matches JobStateKind.succeeded k) [
  | JobStateKind.succeeded ↦ refl
  | _ ↦ refl
]
names_same JobStateKind.failed b = elim b as (λ k. Matches JobStateKind.failed k) [
  | JobStateKind.failed ↦ refl
  | _ ↦ refl
]
names_same JobStateKind.deleted b = elim b as (λ k. Matches JobStateKind.deleted k) [
  | JobStateKind.deleted ↦ refl
  | _ ↦ refl
]
names_same JobStateKind.scheduled b = elim b as (λ k. Matches JobStateKind.scheduled k) [
  | JobStateKind.scheduled ↦ refl
  | _ ↦ refl
]
names_same JobStateKind.awaiting_retry b = elim b as (λ k. Matches JobStateKind.awaiting_retry k) [
  | JobStateKind.awaiting_retry ↦ refl
  | _ ↦ refl
]

stored-Related :
    (id : String) (o : Option JobRow) (o' : Option Job)
    → Related id o o'
    → (job : Job) → o' ≡ some job
    → (row : JobRow) × (o ≡ some row) × Related id (some row) (some job)
stored-Related id none none r job e = absurd (cc)
stored-Related id (some row) none r job e = absurd (cc)
stored-Related id none (some j) r job e = absurd r
stored-Related id (some row) (some j) r job e = (row, refl, subst (Related id (some row)) e r)

-- The test on the name column is the test on the state.
named :
    (row : JobRow) (id : String) (job : Job) (k : JobStateKind)
    → Related id (some row) (some job)
    → (row.state_name == job_state_kind_to_name k) ≡ same_kind (kind job.state) k
unfolding job_state_to_name row_to_job Matches
named row id job k (same, _, name) =
    let state : row.state_data ≡ job.state = ap (λ j. j.state) same in
    rw (name, state) (names_same (kind job.state) k)

refused :
    (s : MemoryStorage) (job : Job) (k : JobStateKind)
    → Maps.get job.id s.jobs ≡ none
    → Jobs.update_if_state s job k ≡ (s, err (StorageError.job_not_found job.id))
unfolding Jobs.update_if_state Maps.get
refused s job k e = rw (Jobs.update_if_state, e) refl

overwritten :
    (s : MemoryStorage) (job existing : Job)
    → Maps.get job.id s.jobs ≡ some existing
    → Jobs.update s job ≡ (record s { jobs = Maps.insert job.id job s.jobs }, ok tt)
unfolding Jobs.update Maps.contains_key
overwritten s job existing e = rw e refl

swapped :
    (s : MemoryStorage) (job existing : Job) (k : JobStateKind)
    → Maps.get job.id s.jobs ≡ some existing
    → Jobs.update_if_state s job k ≡ (
        if same_kind (kind existing.state) k
        then (record s { jobs = Maps.insert job.id job s.jobs }, ok true)
        else (s, ok false))
unfolding Jobs.update_if_state Maps.get Maps.insert
swapped s job existing k e = rw (Jobs.update_if_state, e) refl

module _ (from_str : String → Result String String) where
  -- The same answer, and what is stored agrees again.
  abbrev pub Same : (JobSession × Answer) → (MemoryStorage × Answer) → Type 0
  Same p m = (p.1 ≡ m.1) × (p.0 ≡ calm p.0.rows) × Agree p.0.rows m.0.jobs

  gets-Same :
      (auto : Bool) (rows : Map JobRow) (s : MemoryStorage) (id : String)
      → Agree rows s.jobs
      → Canonical from_str id
      → Same (on_postgres from_str auto (calm rows) (gets id)) (on_memory s (gets id))
  unfolding Jobs.get
  gets-Same auto rows s id a c = rw (get-calm from_str auto rows id c) (
    ap (λ o. found (ok o)) (option_job-Related id (Maps.get id rows) (Maps.get id s.jobs) (a id)),
    refl,
    a,
  )

  deletes-Same :
      (auto : Bool) (rows : Map JobRow) (s : MemoryStorage) (id : String)
      → Agree rows s.jobs
      → Canonical from_str id
      → Same (on_postgres from_str auto (calm rows) (deletes id)) (on_memory s (deletes id))
  unfolding Jobs.delete
  deletes-Same auto rows s id a c = rw (delete-calm from_str rows id c) (
    ap (λ b. flagged (ok b)) (is_some-Related id (Maps.get id rows) (Maps.get id s.jobs) (a id)),
    refl,
    Agree-remove id rows s.jobs a,
  )

  enqueues-Same :
      (auto : Bool) (rows : Map JobRow) (s : MemoryStorage) (job : Job)
      → Agree rows s.jobs
      → Admissible from_str s (enqueues job)
      → Same (on_postgres from_str auto (calm rows) (enqueues job)) (on_memory s (enqueues job))
  unfolding Jobs.enqueue Jobs.enqueue_insert
  enqueues-Same auto rows s job a ((c, typed, fits, _), fresh, room) =
      let unstored : Maps.get job.id rows ≡ none =
        unstored-Related job.id (Maps.get job.id rows) (Maps.get job.id s.jobs) (a job.id) fresh in
      rw (enqueue-calm from_str auto rows job c unstored, room)
        (
          refl,
          refl,
          Agree-insert job.id (inserted_row job.id job) job rows s.jobs a
              (inserted-Related job typed fits),
        )

  updates-Same :
      (auto : Bool) (rows : Map JobRow) (s : MemoryStorage) (job : Job)
      → Agree rows s.jobs
      → Writable from_str s job
      → Same (on_postgres from_str auto (calm rows) (updates job)) (on_memory s (updates job))
  unfolding Jobs.update Maps.contains_key
  updates-Same auto rows s job a (c, typed, fits, created) =
      elim (Option-cases (Maps.get job.id s.jobs)) [
        | inl lost ↦
            let unstored : Maps.get job.id rows ≡ none =
              unstored-Related job.id (Maps.get job.id rows) (Maps.get job.id s.jobs) (a job.id)
                lost in
            rw (update_lost from_str rows job c unstored, lost) (refl, refl, a)
        | inr (existing, e) ↦
            let (row, h, r) =
              stored-Related job.id (Maps.get job.id rows) (Maps.get job.id s.jobs) (a job.id)
                existing e in
            rw (update_calm from_str rows job row c h, overwritten s job existing e)
              (
                refl,
                refl,
                Agree-insert job.id (set_values job row) job rows s.jobs a
                    (set_values-Related job existing row typed fits r (created existing e)),
              )
      ]

  swaps-Same :
      (auto : Bool) (rows : Map JobRow) (s : MemoryStorage) (job : Job) (k : JobStateKind)
      → Agree rows s.jobs
      → Writable from_str s job
      → Same (on_postgres from_str auto (calm rows) (swaps job k)) (on_memory s (swaps job k))
  swaps-Same auto rows s job k a (c, typed, fits, created) =
      elim (Option-cases (Maps.get job.id s.jobs)) [
        | inl lost ↦
            let unstored : Maps.get job.id rows ≡ none =
              unstored-Related job.id (Maps.get job.id rows) (Maps.get job.id s.jobs) (a job.id)
                lost in
            rw (swap_lost from_str rows job k c unstored, refused s job k lost) (refl, refl, a)
        | inr (existing, e) ↦
            let (row, h, r) =
              stored-Related job.id (Maps.get job.id rows) (Maps.get job.id s.jobs) (a job.id)
                existing e in
            let kept =
              Agree-insert job.id (set_values job row) job rows s.jobs a
                (set_values-Related job existing row typed fits r (created existing e)) in
            let test = named row job.id existing k r in
            rw (swap_calm from_str rows job k row c h, swapped s job existing k e, test)
              (elim (Bool-cases (same_kind (kind existing.state) k)) [
                | inl t ↦ rw t (refl, refl, kept)
                | inr f ↦ rw f (refl, refl, a)
              ])
      ]

  pub call-Same :
      (auto : Bool) (rows : Map JobRow) (s : MemoryStorage) (c : Call)
      → Agree rows s.jobs
      → Admissible from_str s c
      → Same (on_postgres from_str auto (calm rows) c) (on_memory s c)
  call-Same auto rows s (gets id) a h = gets-Same auto rows s id a h
  call-Same auto rows s (enqueues job) a h = enqueues-Same auto rows s job a h
  call-Same auto rows s (updates job) a h = updates-Same auto rows s job a h
  call-Same auto rows s (swaps job k) a h = swaps-Same auto rows s job k a h
  call-Same auto rows s (deletes id) a h = deletes-Same auto rows s id a h
