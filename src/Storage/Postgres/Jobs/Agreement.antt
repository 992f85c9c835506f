-- ===== src/Storage/Postgres/Jobs/Agreement.antt =====
-- The job operations of src/storage/postgres.rs beside those of src/storage/memory.rs.
use qml.Base.{
  ◌≡◌, ◌∙◌, refl, sym, ap, subst, String, Option, none, some, [], eq_iff, ◌==◌, Bool-cases, inl,
  inr,
}
use qml.Base.Maps
use qml.Base.Maps.{Map, get-insert, get-remove}
use qml.Core.Job.{Job}
use qml.Storage.Postgres.Row.{JobRow, job_state_to_name, set_values, inserted_row, row_to_job}
use qml.Storage.Postgres.Row.Columns.{Typed, Fits, row_to_job-inserted_row}
use qml.Storage.Postgres.Jobs.{JobSession}

abbrev pub calm : Map JobRow → JobSession
calm rows = record { rows = rows; faults = [] }

-- A row that is the job, whose name column says what its data says.
abbrev pub Related : String → Option JobRow → Option Job → Type 0
Related id none none = Unit
Related id (some row) (some job) =
    (row_to_job row ≡ job) × (row.id ≡ id) × (row.state_name ≡ job_state_to_name row.state_data)
Related id _ _ = ⊥

abbrev pub Agree : Map JobRow → Map Job → Type 0
Agree rows jobs = (id : String) → Related id (Maps.get id rows) (Maps.get id jobs)

pub Agree-insert :
    (id : String) (row : JobRow) (job : Job) (rows : Map JobRow) (jobs : Map Job)
    → Agree rows jobs
    → Related id (some row) (some job)
    → Agree (Maps.insert id row rows) (Maps.insert id job jobs)
Agree-insert id row job rows jobs a r j = elim (Bool-cases (id == j)) [
  | inl e ↦
      rw (get-insert id j row rows, get-insert id j job jobs, e)
        (subst (λ k. Related k (some row) (some job)) ((eq_iff id j).0 e) r)
  | inr e ↦ rw (get-insert id j row rows, get-insert id j job jobs, e) (a j)
]

pub Agree-remove :
    (id : String) (rows : Map JobRow) (jobs : Map Job)
    → Agree rows jobs
    → Agree (Maps.remove id rows) (Maps.remove id jobs)
Agree-remove id rows jobs a j = elim (Bool-cases (id == j)) [
  | inl e ↦ rw (get-remove id j rows, get-remove id j jobs, e) tt
  | inr e ↦ rw (get-remove id j rows, get-remove id j jobs, e) (a j)
]

pub inserted-Related :
    (job : Job) → Typed job → Fits job → Related job.id (some (inserted_row job.id job)) (some job)
unfolding inserted_row
inserted-Related job typed fits = ((row_to_job-inserted_row job.id job typed).1 fits, refl, refl)

pub set_values-Related :
    (job existing : Job) (row : JobRow)
    → Typed job
    → Fits job
    → Related job.id (some row) (some existing)
    → job.created_at ≡ existing.created_at
    → Related job.id (some (set_values job row)) (some job)
unfolding set_values row_to_job inserted_row
set_values-Related job existing row typed fits (same, keyed, _) created =
    let read : row_to_job (inserted_row job.id job) ≡ job =
      (row_to_job-inserted_row job.id job typed).1 fits in
    let made : row.created_at ≡ job.created_at = ap (λ j. j.created_at) same ∙ sym created in
    (rw (keyed, made) read, keyed, refl)
