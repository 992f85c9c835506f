-- ===== src/Processing/Store.antt =====
-- What the processor uses of a store, `update` of the trait `MonitoringApi` of src/storage/mod.rs, and
-- what it relies on, with src/storage/memory.rs as an instance.
use qml.Base.{◌≡◌, ◌≢◌, refl, sym, ap, subst, String, true, Option, none, some, arith, eq_iff}
use qml.Base.Maps
use qml.Base.Maps.{get-insert, is_some}
use qml.Core.Job.{Job}
use qml.Error.{StorageError, Result, ok, err}
use qml.Storage.Memory.State.{MemoryStorage}
use qml.Storage.Memory.Jobs.{update}

pub record JobStore : Type 1 where
  pub S : Type 0
  pub update : S → Job → S × Result StorageError (Unit {0})

-- `stored` is what `get` finds. `update` replaces the job of that id and no other, and refuses one
-- that is not stored.
pub record StoreLaws (st : JobStore) (stored : st.S → String → Option Job) : Type 0 where
  pub update_ok : (s : st.S) (job : Job) → stored s job.id ≢ none → (st.update s job).1 ≡ ok tt
  pub update_same :
      (s : st.S) (job : Job) → stored s job.id ≢ none → stored (st.update s job).0 job.id ≡ some job
  pub update_other :
      (s : st.S) (job : Job) (id : String)
      → id ≢ job.id
      → stored (st.update s job).0 id ≡ stored s id
  pub update_missing :
      (s : st.S) (job : Job)
      → stored s job.id ≡ none
      → st.update s job ≡ (s, err (StorageError.job_not_found job.id))

abbrev pub memory_store : JobStore
memory_store = record { S = MemoryStorage; update = update }

abbrev pub lookup : MemoryStorage → String → Option Job
lookup s id = Maps.get id s.jobs

present : {A : Type 0} → (o : Option A) → o ≢ none → is_some o ≡ true
present none h = absurd (h refl)
present (some a) h = refl

update_found :
    (s : MemoryStorage) (job : Job)
    → lookup s job.id ≢ none
    → update s job ≡ (record s { jobs = Maps.insert job.id job s.jobs }, ok tt)
unfolding update Maps.contains_key
update_found s job h = rw (present (lookup s job.id) h) refl

update_lost :
    (s : MemoryStorage) (job : Job)
    → lookup s job.id ≡ none
    → update s job ≡ (s, err (StorageError.job_not_found job.id))
unfolding update Maps.contains_key
update_lost s job h = rw h refl

update_elsewhere :
    (s : MemoryStorage) (job : Job) (id : String)
    → id ≢ job.id
    → lookup (update s job).0 id ≡ lookup s id
unfolding update
update_elsewhere s job id h = ground (arith, get-insert job.id id job s.jobs, eq_iff job.id id)

-- The memory storage refines what the processing relies on: an `update` of a stored job succeeds,
-- replaces that job and no other, and an `update` of a missing one is refused and changes nothing.
pub memory_laws : StoreLaws memory_store lookup
memory_laws = record {
  update_ok = λ s job h. ap (λ r. r.1) (update_found s job h);
  update_same = λ s job h.
      subst (λ r. lookup r.0 job.id ≡ some job) (sym (update_found s job h)) (inserted s job);
  update_other = update_elsewhere;
  update_missing = update_lost;
}
  where
    inserted :
        (s : MemoryStorage) (job : Job) → Maps.get job.id (Maps.insert job.id job s.jobs) ≡ some job
    inserted s job = ground (arith, get-insert job.id job.id job s.jobs, eq_iff job.id job.id)
