-- ===== src/Storage/Postgres/Locker/Taking.antt =====
-- Which row a fetch of src/storage/postgres.rs takes, and what becomes of the rows.
use qml.Base.{
  ◌≡◌, ◌≢◌, ◌↔◌, ◌<ℤ◌, ◌≤ℤ◌, arith, ap, pos_part, neg_part, All-filter, ◌∙◌, ◌⊎◌, inl, inr, refl,
  sym, subst, String, Bool, true, false, Option, none, some, List, [], ◌∷◌, filter, ◌==◌, eq_iff,
  Bool-cases, All, All-unfilter,
}
use qml.Base.Maps
use qml.Base.Maps.{Map, get-insert}
use qml.Base.Sort.{sort_by, sort_by-IsSorted, All-sort_by, All-unsort_by, IsSorted}
use qml.Core.JobState.{JobState, DateTime}
use qml.Core.Job.{Job}
use qml.Error.{StorageError, Result, ok}
use qml.Storage.Memory.Locker as Memory
use qml.Storage.Memory.Ready.{IsServed, queue_allows-IsServed}
use qml.Storage.Memory.State.{goes_first_lem, goes_first_refl, goes_first_total, goes_first_trans}
use qml.Storage.Postgres.Driver.{execute}
use qml.Storage.Postgres.Row.{JobRow, row_to_job, job_state_to_name}
use qml.Storage.Postgres.Jobs.{JobSession, option_job}
use qml.Storage.Postgres.Jobs.Agreement.{calm}
use qml.Storage.Postgres.Listing.{ranks_first}
use qml.Storage.Postgres.Locker.{
  contains, is_candidate, queue_filter, mark, take_first, fetch_query, fetch_and_lock_job,
}

abbrev in_order : (String → Bool) → Option (List String) → Map JobRow → List JobRow
in_order held queues rows =
    sort_by ranks_first (filter (is_candidate held queues) (Maps.values rows))

-- The row at the head: a candidate, and no candidate ranks before it.
head_is_first :
    (held : String → Bool) (queues : Option (List String)) (rows : Map JobRow) (row : JobRow)
    (rest : List JobRow)
    → sort_by ranks_first (filter (is_candidate held queues) (Maps.values rows)) ≡ row ∷ rest
    → All (λ r. is_candidate held queues r ≡ true → ranks_first row r ≡ true) (Maps.values rows)
unfolding ranks_first
head_is_first held queues rows row rest e =
    let sorted : IsSorted ranks_first
        (sort_by ranks_first (filter (is_candidate held queues) (Maps.values rows))) =
      sort_by-IsSorted ranks_first (λ a b. goes_first_total (row_to_job a) (row_to_job b))
        (λ a b c. goes_first_trans (row_to_job a) (row_to_job b) (row_to_job c))
        (filter (is_candidate held queues) (Maps.values rows)) in
    let s : IsSorted ranks_first (row ∷ rest) = rw e at sorted in
    let firsts : All (λ r. ranks_first row r ≡ true) (row ∷ rest) =
      (goes_first_refl (row_to_job row), s.0) in
    All-unfilter (λ r. ranks_first row r ≡ true) (is_candidate held queues) (Maps.values rows)
      (All-unsort_by ranks_first (λ r. ranks_first row r ≡ true)
        (filter (is_candidate held queues) (Maps.values rows))
        (subst (All (λ r. ranks_first row r ≡ true)) (sym e) firsts))

fetch_calm :
    (now : DateTime) (held : String → Bool) (rows : Map JobRow) (w : String)
    (queues : Option (List String))
    → fetch_and_lock_job now held (calm rows) w queues ≡ (
      calm
          (take_first
            (JobState.processing now w "postgres-storage")
            rows
            (in_order held queues rows)).0,
      ok (
          option_job
            (take_first
              (JobState.processing now w "postgres-storage")
              rows
              (in_order held queues rows)).1),
    )
unfolding fetch_and_lock_job execute fetch_query
fetch_calm now held rows w queues = refl

-- What a fetch may take: a row in one of two states, in one of the worker's queues, that no other
-- transaction has locked.
abbrev pub MayTake : (String → Bool) → Option (List String) → JobRow → Type 0
MayTake held queues row =
    ((row.state_name ≡ "enqueued") ⊎ (row.state_name ≡ "awaiting_retry"))
    × IsServed queues row.queue_name
    × (held row.id ≡ false)

contains_alike : (q : String) (xs : List String) → contains xs q ≡ Memory.contains xs q
contains_alike q [] = refl
contains_alike q (x ∷ xs) = rw (contains_alike q xs) refl

filter_alike :
    (queues : Option (List String)) (row : JobRow)
    → queue_filter queues row ≡ Memory.queue_allows queues row.queue_name
unfolding queue_filter Memory.queue_allows
filter_alike none row = refl
filter_alike (some []) row = refl
filter_alike (some (x ∷ xs)) row = contains_alike row.queue_name (x ∷ xs)

is_candidate-MayTake :
    (held : String → Bool) (queues : Option (List String)) (row : JobRow)
    → (is_candidate held queues row ≡ true) ↔ MayTake held queues row
unfolding is_candidate
is_candidate-MayTake held queues row =
    let served = queue_allows-IsServed queues row.queue_name in
    (
      (λ h. (
        elim (Bool-cases (row.state_name == "enqueued")) [
          | inl e ↦ inl ((eq_iff row.state_name "enqueued").0 e)
          | inr e ↦ inr (ground (arith, eq_iff row.state_name "awaiting_retry"))
        ],
        served.0 (ground (arith, filter_alike queues row)),
        ground arith,
      )),
      (λ (state, allowed, free).
          let passes : queue_filter queues row ≡ true =
            filter_alike queues row ∙ served.1 allowed in
          elim state [
            | inl n ↦ ground (arith, eq_iff row.state_name "enqueued", n, passes, free)
            | inr n ↦ ground (arith, eq_iff row.state_name "awaiting_retry", n, passes, free)
          ]),
    )

-- What a fetch leaves and gives: nothing, and then no row may be taken and none is changed; or the
-- job of a stored row that may be taken and before which no other such row comes, by a higher
-- priority or at the same one by age. It is processed by this worker from now on, and every other
-- row is as it was.
abbrev pub Outcome :
    DateTime
    → (String → Bool)
    → Map JobRow
    → String
    → Option (List String)
    → JobSession × Result StorageError (Option Job)
    → Type 0
Outcome now held rows w queues r =
    ((r.1 ≡ ok none)
      × (r.0 ≡ calm rows)
      × ((k : String) (row : JobRow) → Maps.get k rows ≡ some row → ¬ MayTake held queues row))
    ⊎ ((row : JobRow) × (Maps.get row.id rows ≡ some row)
        × MayTake held queues row
        × ((k : String) (other : JobRow)
            → Maps.get k rows ≡ some other
            → MayTake held queues other
            → (other.priority <ℤ row.priority)
              ⊎ ((row.priority ≡ other.priority) × (row.created_at ≤ℤ other.created_at)))
        × (r.1
            ≡ ok (
                some (record (row_to_job row) {
                  state = JobState.processing now w "postgres-storage";
                })))
        × (Maps.get row.id r.0.rows
            ≡ some (record row {
              state_name = "processing";
              state_data = JobState.processing now w "postgres-storage";
            }))
        × ((k : String) → k ≢ row.id → Maps.get k r.0.rows ≡ Maps.get k rows))

abbrev of_list : JobState → Map JobRow → List JobRow → JobSession × Result StorageError (Option Job)
of_list state rows found =
    (calm (take_first state rows found).0, ok (option_job (take_first state rows found).1))

not_true : (b : Bool) → (b ≡ true → ⊥) → b ≡ false
not_true true h = absurd (h refl)
not_true false h = refl

module _ (now : DateTime) (held : String → Bool) (rows : Map JobRow) (w : String)
    (queues : Option (List String)) (distinct : Maps.Distinct rows)
    (keyed : Maps.Keyed (λ (row : JobRow). row.id) rows) where
  take_first-Outcome :
      (found : List JobRow)
      → in_order held queues rows ≡ found
      → Outcome now held rows w queues
          (of_list (JobState.processing now w "postgres-storage") rows found)
  unfolding mark job_state_to_name row_to_job ranks_first
  take_first-Outcome [] e =
      let none_left : All (λ r. ⊥) (in_order held queues rows) = rw e tt in
      let none_may =
        All-unfilter (λ r. ⊥) (is_candidate held queues) (Maps.values rows)
          (All-unsort_by ranks_first (λ r. ⊥) (filter (is_candidate held queues) (Maps.values rows))
            none_left) in
      inl (
        refl,
        refl,
        λ k row stored may.
            Maps.All-values _ k row rows none_may stored
              ((is_candidate-MayTake held queues row).1 may),
      )
  take_first-Outcome (row ∷ rest) e =
      let keep = is_candidate held queues in
      let candidates : All (λ r. (Maps.get r.id rows ≡ some r) × (keep r ≡ true))
          (in_order held queues rows) =
        All-sort_by ranks_first _ (filter keep (Maps.values rows)) (
          All-filter _ keep (Maps.values rows)
            (Maps.values-get (λ (r : JobRow). r.id) rows distinct keyed)) in
      let here : All (λ r. (Maps.get r.id rows ≡ some r) × (keep r ≡ true)) (row ∷ rest) =
        rw e at candidates in
      inr (
        row,
        here.0.0,
        (is_candidate-MayTake held queues row).0 here.0.1,
        (λ k other stored may. goes_first_lem (row_to_job row) (row_to_job other) (
            Maps.All-values _ k other rows (head_is_first held queues rows row rest e) stored
              ((is_candidate-MayTake held queues other).1 may))),
        refl,
        get-insert row.id row.id _ rows ∙ rw ((eq_iff row.id row.id).1 refl) refl,
        (λ k n. get-insert row.id k _ rows ∙ ground (arith, eq_iff row.id k, n)),
      )

  -- While no query fails, on rows that stand once and under their own identifiers, a fetch finds
  -- nothing only if there is no row that it may take, and then it changes nothing. Else it takes one:
  -- an enqueued row or one that awaits a retry, of a queue that the worker serves, not locked by
  -- another transaction, before which no other such row comes by a higher priority or, at the same
  -- one, by age. It gives and stores it as processed by this worker, and leaves every other row as
  -- it was.
  pub fetch_takes :
      Outcome now held rows w queues (fetch_and_lock_job now held (calm rows) w queues)
  fetch_takes =
      subst (Outcome now held rows w queues) (sym (fetch_calm now held rows w queues))
        (take_first-Outcome (in_order held queues rows) refl)

  -- While no query fails, a job that waits for a retry is taken whenever its queue is served, it is
  -- not locked, and every other row that may be taken has a lower priority, however far the instant
  -- of its retry lies ahead of the clock.
  pub retry_taken_early :
      (scheduled_at retry_at : DateTime) (last_exception : String) (row : JobRow)
      → Maps.get row.id rows ≡ some row
      → row.state_name ≡ "awaiting_retry"
      → row.state_data ≡ JobState.awaiting_retry scheduled_at retry_at last_exception
      → IsServed queues row.queue_name
      → held row.id ≡ false
      → ((k : String) (other : JobRow)
          → Maps.get k rows ≡ some other
          → k ≢ row.id
          → MayTake held queues other
          → other.priority <ℤ row.priority)
      → let r = fetch_and_lock_job now held (calm rows) w queues in
        (r.1
          ≡ ok (
              some
                (record (row_to_job row) { state = JobState.processing now w "postgres-storage" })))
        × (Maps.get row.id r.0.rows
            ≡ some (record row {
              state_name = "processing";
              state_data = JobState.processing now w "postgres-storage";
            }))
  retry_taken_early scheduled_at retry_at last_exception row stored name waiting served free lower =
      let may : MayTake held queues row = (inr name, served, free) in
      elim fetch_takes [
        | inl (_, _, nothing) ↦ absurd (nothing row.id row stored may)
        | inr (taken, found, may', first, given, kept, _) ↦ elim (Bool-cases (taken.id == row.id)) [
          | inl t ↦
              let same : taken.id ≡ row.id = (eq_iff taken.id row.id).0 t in
              let q : taken ≡ row =
                (let s : some taken ≡ some row =
                    sym found ∙ ap (λ i. Maps.get i rows) same ∙ stored in
                  cc) in
              subst Given q (given, kept)
          | inr t ↦
              let below =
                lower taken.id taken found (λ e. cc ((eq_iff taken.id row.id).1 e)) may' in
              elim (first row.id row stored may) [
                | inl above ↦ absurd (omega arith)
                | inr (level, _) ↦ absurd (omega (arith, ap pos_part level, ap neg_part level))
              ]
        ]
      ]
    where
      Given : JobRow → Type 0
      Given x =
          let r = fetch_and_lock_job now held (calm rows) w queues in
          (r.1
            ≡ ok (
                some
                  (record (row_to_job x) { state = JobState.processing now w "postgres-storage" })))
          × (Maps.get x.id r.0.rows
              ≡ some (record x {
                state_name = "processing";
                state_data = JobState.processing now w "postgres-storage";
              }))
