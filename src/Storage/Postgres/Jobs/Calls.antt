-- ===== src/Storage/Postgres/Jobs/Calls.antt =====
-- Calls of the operations on single jobs, made of the backends of src/storage/memory.rs and of
-- src/storage/postgres.rs.
use qml.Base.{
  ◌≡◌, ◌∙◌, refl, ap, String, Bool, true, false, Option, none, some, ◌==◌, Bool-cases, inl, inr,
  if◌then◌else◌,
}
use qml.Base.Maps
use qml.Base.Maps.{Map}
use qml.Core.JobState.{JobStateKind}
use qml.Core.Job.{Job}
use qml.Error.{StorageError, Result, ok, err}
use qml.Storage.Memory.State.{MemoryStorage, is_at_capacity}
use qml.Storage.Memory.Jobs
use qml.Storage.Postgres.Driver.{and_then, execute, handle_schema_error}
use qml.Storage.Postgres.Row.{JobRow, job_state_kind_to_name, set_values, inserted_row}
use qml.Storage.Postgres.Row.Columns.{Typed, Fits}
use qml.Storage.Postgres.Jobs.{
  JobSession, get, update, swap, explain, update_if_state, delete, enqueue, update_where,
  insert_row, option_job, conclude,
}
use qml.Storage.Postgres.Jobs.Agreement.{calm, Related}

pub data Call : Type 0 where
  gets : String → Call
  enqueues : Job → Call
  updates : Job → Call
  swaps : Job → JobStateKind → Call
  deletes : String → Call

pub data Answer : Type 0 where
  found : Result StorageError (Option Job) → Answer
  done : Result StorageError (Unit {0}) → Answer
  flagged : Result StorageError Bool → Answer

abbrev answer_of {ℓ} : {S A : Type ℓ} {B : Type 0} → (A → B) → S × A → S × B
answer_of f (s, a) = (s, f a)

abbrev pub on_memory : MemoryStorage → Call → MemoryStorage × Answer
on_memory s (gets id) = (s, found (Jobs.get s id))
on_memory s (enqueues job) = answer_of done (Jobs.enqueue s job)
on_memory s (updates job) = answer_of done (Jobs.update s job)
on_memory s (swaps job k) = answer_of flagged (Jobs.update_if_state s job k)
on_memory s (deletes id) = answer_of flagged (Jobs.delete s id)

pub option_job-Related :
    (id : String) (o : Option JobRow) (o' : Option Job) → Related id o o' → option_job o ≡ o'
option_job-Related id none none r = refl
option_job-Related id (some row) (some job) r = ap some r.0
option_job-Related id none (some job) r = absurd r
option_job-Related id (some row) none r = absurd r

pub is_some-Related :
    (id : String) (o : Option JobRow) (o' : Option Job)
    → Related id o o'
    → Maps.is_some o ≡ Maps.is_some o'
is_some-Related id none none r = refl
is_some-Related id (some row) (some job) r = refl
is_some-Related id none (some job) r = absurd r
is_some-Related id (some row) none r = absurd r

pub unstored-Related :
    (id : String) (o : Option JobRow) (o' : Option Job) → Related id o o' → o' ≡ none → o ≡ none
unstored-Related id none o' r e = refl
unstored-Related id (some row) none r e = absurd r
unstored-Related id (some row) (some job) r e = absurd (cc)

module _ (from_str : String → Result String String) where
  abbrev pub on_postgres : Bool → JobSession → Call → JobSession × Answer
  on_postgres auto s (gets id) = answer_of found (get from_str auto s id)
  on_postgres auto s (enqueues job) = answer_of done (enqueue from_str auto s job)
  on_postgres auto s (updates job) = answer_of done (update from_str s job)
  on_postgres auto s (swaps job k) = answer_of flagged (update_if_state from_str s job k)
  on_postgres auto s (deletes id) = answer_of flagged (delete from_str s id)

  -- The identifier is printed as it is parsed.
  abbrev pub Canonical : String → Type 0
  Canonical id = from_str id ≡ ok id

  -- A job to write that the columns hold, and that keeps the creation of the stored one.
  abbrev pub Writable : MemoryStorage → Job → Type 0
  Writable s job =
      Canonical job.id
      × Typed job
      × Fits job
      × ((existing : Job)
          → Maps.get job.id s.jobs ≡ some existing
          → job.created_at ≡ existing.created_at)

  -- What a call may ask of both backends: a new job is not stored yet, and there is room for it.
  abbrev pub Admissible : MemoryStorage → Call → Type 0
  Admissible s (gets id) = Canonical id
  Admissible s (enqueues job) =
      Writable s job × (Maps.get job.id s.jobs ≡ none) × (is_at_capacity s ≡ false)
  Admissible s (updates job) = Writable s job
  Admissible s (swaps job k) = Writable s job
  Admissible s (deletes id) = Canonical id

  pub get-calm :
      (auto : Bool) (rows : Map JobRow) (id : String)
      → Canonical id
      → get from_str auto (calm rows) id ≡ (calm rows, ok (option_job (Maps.get id rows)))
  unfolding get execute handle_schema_error
  get-calm auto rows id c = rw (get, c) refl

  pub delete-calm :
      (rows : Map JobRow) (id : String)
      → Canonical id
      → delete from_str (calm rows) id
        ≡ (calm (Maps.remove id rows), ok (Maps.is_some (Maps.get id rows)))
  unfolding delete execute
  delete-calm rows id c = rw (delete, c) refl

  insert_fresh :
      (row : JobRow) (rows : Map JobRow)
      → Maps.get row.id rows ≡ none
      → insert_row row rows ≡ ok (Maps.insert row.id row rows, tt)
  unfolding insert_row Maps.contains_key
  insert_fresh row rows fresh = rw fresh refl

  execute_insert :
      (row : JobRow) (rows : Map JobRow)
      → Maps.get row.id rows ≡ none
      → execute (insert_row row) (calm rows) ≡ (calm (Maps.insert row.id row rows), ok tt)
  unfolding execute
  execute_insert row rows fresh = rw (execute, insert_fresh row rows fresh) refl

  handle_ok :
      (auto : Bool) (rows : Map JobRow) (row : JobRow)
      → Maps.get row.id rows ≡ none
      → handle_schema_error auto (execute (insert_row row)) "enqueue" (calm rows)
        ≡ (calm (Maps.insert row.id row rows), ok tt)
  unfolding handle_schema_error
  handle_ok auto rows row fresh = rw (handle_schema_error, execute_insert row rows fresh) refl

  pub enqueue-calm :
      (auto : Bool) (rows : Map JobRow) (job : Job)
      → Canonical job.id
      → Maps.get job.id rows ≡ none
      → enqueue from_str auto (calm rows) job
        ≡ (calm (Maps.insert job.id (inserted_row job.id job) rows), ok tt)
  unfolding enqueue execute handle_schema_error
  enqueue-calm auto rows job c fresh =
      rw (enqueue, c) (handle_ok auto rows (inserted_row job.id job) fresh)

  pub update_calm :
      (rows : Map JobRow) (job : Job) (row : JobRow)
      → Canonical job.id
      → Maps.get job.id rows ≡ some row
      → update from_str (calm rows) job
        ≡ (calm (Maps.insert job.id (set_values job row) rows), ok tt)
  unfolding update execute update_where Maps.get Maps.insert
  update_calm rows job row c e = rw (update, c, e) refl

  pub update_lost :
      (rows : Map JobRow) (job : Job)
      → Canonical job.id
      → Maps.get job.id rows ≡ none
      → update from_str (calm rows) job ≡ (calm rows, err (StorageError.job_not_found job.id))
  unfolding update execute update_where Maps.get
  update_lost rows job c e = rw (update, c, e) refl

  swap_hit :
      (rows : Map JobRow) (job : Job) (expected : JobStateKind) (row : JobRow)
      → Maps.get job.id rows ≡ some row
      → (row.state_name == job_state_kind_to_name expected) ≡ true
      → swap from_str (calm rows) job.id job expected
        ≡ (calm (Maps.insert job.id (set_values job row) rows), ok 1)
  unfolding swap execute update_where Maps.get Maps.insert
  swap_hit rows job expected row e h = rw (swap, e, h) refl

  swap_miss :
      (rows : Map JobRow) (job : Job) (expected : JobStateKind) (row : JobRow)
      → Maps.get job.id rows ≡ some row
      → (row.state_name == job_state_kind_to_name expected) ≡ false
      → swap from_str (calm rows) job.id job expected ≡ (calm rows, ok 0)
  unfolding swap execute update_where Maps.get Maps.insert
  swap_miss rows job expected row e h = rw (swap, e, h) refl

  swap-none :
      (rows : Map JobRow) (job : Job) (expected : JobStateKind)
      → Maps.get job.id rows ≡ none
      → swap from_str (calm rows) job.id job expected ≡ (calm rows, ok 0)
  unfolding swap execute update_where Maps.get
  swap-none rows job expected e = rw (swap, e) refl

  explain-some :
      (rows : Map JobRow) (job : Job) (row : JobRow)
      → Maps.get job.id rows ≡ some row
      → explain from_str (calm rows) job.id job ≡ (calm rows, ok false)
  unfolding explain execute Maps.get
  explain-some rows job row e = rw (explain, e) refl

  explain-none :
      (rows : Map JobRow) (job : Job)
      → Maps.get job.id rows ≡ none
      → explain from_str (calm rows) job.id job
        ≡ (calm rows, err (StorageError.job_not_found job.id))
  unfolding explain execute Maps.get
  explain-none rows job e = rw (explain, e) refl

  pub swap_calm :
      (rows : Map JobRow) (job : Job) (expected : JobStateKind) (row : JobRow)
      → Canonical job.id
      → Maps.get job.id rows ≡ some row
      → update_if_state from_str (calm rows) job expected ≡ (
          if row.state_name == job_state_kind_to_name expected
          then (calm (Maps.insert job.id (set_values job row) rows), ok true)
          else (calm rows, ok false))
  unfolding update_if_state conclude
  swap_calm rows job expected row c e =
      elim (Bool-cases (row.state_name == job_state_kind_to_name expected)) [
        | inl h ↦
            rw (update_if_state, c, h)
              (ap (λ p. and_then p (conclude from_str job.id job))
                (swap_hit rows job expected row e h))
        | inr h ↦
            rw (update_if_state, c, h)
              (ap (λ p. and_then p (conclude from_str job.id job))
                  (swap_miss rows job expected row e h)
                ∙ explain-some rows job row e)
      ]

  pub swap_lost :
      (rows : Map JobRow) (job : Job) (expected : JobStateKind)
      → Canonical job.id
      → Maps.get job.id rows ≡ none
      → update_if_state from_str (calm rows) job expected
        ≡ (calm rows, err (StorageError.job_not_found job.id))
  unfolding update_if_state conclude
  swap_lost rows job expected c e =
      rw (update_if_state, c)
        (ap (λ p. and_then p (conclude from_str job.id job)) (swap-none rows job expected e)
          ∙ explain-none rows job e)
