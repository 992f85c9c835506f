-- ===== src/Storage/Examples/Rows.antt =====
-- Runs and instances of the operations on rows and on named locks of src/storage/memory.rs.
use qml.Base.{
  ◌≡◌, ◌≢◌, refl, pos, ◌+ℤ◌, String, true, false, none, some, List, [], ◌∷◌, arith, eq_iff,
}
use qml.Base.Maps
use qml.Core.JobState.{JobState, JobStateKind, JobStateKind-discrete}
use qml.Core.Job.{Job}
use qml.Error.{ok}
use qml.Storage.Memory.State.{MemoryStorage, with_config}
use qml.Storage.Memory.Jobs.{update_if_state}
use qml.Storage.Memory.Jobs.Swap.{swap_once}
use qml.Storage.Memory.Leases.{try_acquire_lock}
use qml.Storage.Memory.Leases.Exclusion.{other_acquires, unrelated, acquired_alone}
use qml.Storage.Memory.Steps.{Call, deletes, acquires, enqueues, run, run-with_config-IsValid}
use qml.Storage.Memory.Invariant.{IsValid}
use qml.Storage.Examples.{low, high, empty, busy, config, empty-IsValid}

abbrev succeeded : Job
succeeded = record high { state = JobState.succeeded (pos 200) 9 none }

abbrev deleted : Job
deleted = record high { state = JobState.deleted (pos 201) none }

swap_wins : (update_if_state busy succeeded JobStateKind.enqueued).1 ≡ ok true
unfolding update_if_state Maps.get JobStateKind-discrete
swap_wins = refl

swap_once_example :
    update_if_state
      (update_if_state busy succeeded JobStateKind.enqueued).0
      deleted
      JobStateKind.enqueued
    ≡ ((update_if_state busy succeeded JobStateKind.enqueued).0, ok false)
swap_once_example = swap_once busy succeeded deleted JobStateKind.enqueued refl (λ e. cc) swap_wins

abbrev expiring : Job
expiring = record high { expires_at = some (pos 50) }

abbrev aged : MemoryStorage
aged = record empty { jobs = ("high", expiring) ∷ [] }

aged-IsValid : IsValid aged
unfolding Maps.get
aged-IsValid = record {
  jobs_ok = ((refl, tt), (refl, tt));
  locks_once = tt;
  recurring_once = tt;
  recurring_keyed = tt;
  servers_once = tt;
  servers_keyed = tt;
  named_once = tt;
}

a_leads : (try_acquire_lock (pos 100) empty "leader" "a" 50).1 ≡ ok true
unfolding try_acquire_lock Maps.get
a_leads = refl

abbrev others : List Call
others = acquires (pos 110) "leader" "b" 70 ∷ enqueues low ∷ []

b_differs : ◌≢◌ {A = String} "b" "a"
b_differs e = let t : false ≡ true = (eq_iff "b" "a").1 e in cc

acquired_alone_example :
    (try_acquire_lock
      (pos 120)
      (run (try_acquire_lock (pos 100) empty "leader" "a" 50).0 others)
      "leader"
      "b"
      70).1
    ≡ ok false
unfolding ◌+ℤ◌
acquired_alone_example =
    acquired_alone empty (pos 100) (pos 120) "leader" "a" "b" 50 70 others empty-IsValid
      (omega arith) (omega arith) b_differs (omega arith) a_leads
      (other_acquires (pos 110) "b" 70 b_differs (omega arith), (unrelated (enqueues low) tt, tt))

run-with_config-IsValid_example :
    IsValid (run (with_config config) (enqueues low ∷ deletes "low" ∷ enqueues high ∷ []))
run-with_config-IsValid_example =
    run-with_config-IsValid config (enqueues low ∷ deletes "low" ∷ enqueues high ∷ [])
