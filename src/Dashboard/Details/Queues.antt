-- ===== src/Dashboard/Details/Queues.antt =====
-- What the statistics by queue of src/dashboard/service.rs count.
use qml.Base.{
  ◌∙◌, ◌<◌, ◌^◌, inl, inr, take, Option-cases, ℕ, ◌+◌, ◌≡◌, refl, String, Bool, true, false, ◌&&◌,
  Option, none, some, List, [], ◌∷◌, arith, length, filter, if◌then◌else◌, ◌==◌, eq_iff,
}
use qml.Base.Maps
use qml.Base.Maps.{Map}
use qml.Core.JobState.{JobState, JobStateKind, JobStateKind-discrete, kind}
use qml.Core.Job.{Job}
use qml.Storage.Memory.State.{MemoryStorage, same_kind}
use qml.Storage.Memory.Jobs.{list, page}
use qml.Storage.Memory.Jobs.Paging.{wanted, list_page}
use qml.Dashboard.Details.{QueueStatistics, or_insert, count_state, tally, get_queue_statistics}

-- The counter of a kind; the others have none.
abbrev pub counter : JobStateKind → Option QueueStatistics → ℕ
counter k none = 0
counter JobStateKind.enqueued (some q) = q.enqueued_count
counter JobStateKind.processing (some q) = q.processing_count
counter JobStateKind.scheduled (some q) = q.scheduled_count
counter _ (some q) = 0

abbrev pub is_counted : JobStateKind → Bool
is_counted JobStateKind.enqueued = true
is_counted JobStateKind.processing = true
is_counted JobStateKind.scheduled = true
is_counted _ = false

abbrev pub belongs : String → JobStateKind → Job → Bool
belongs q k job = job.queue == q && same_kind (kind job.state) k

counted_state :
    (k : JobStateKind) (s : JobState) (name : String) (o : Option QueueStatistics)
    → is_counted k ≡ true
    → counter k (some (count_state s (or_insert name o)))
      ≡ counter k o + (if same_kind (kind s) k then 1 else 0)
unfolding JobStateKind-discrete
counted_state k s name o h = ground arith

-- In the table that the loop over the listed jobs makes, the counters of a queue for the jobs that
-- are enqueued, processing and scheduled are what they were before and the number of listed jobs
-- of the queue in that state.
tally-counter :
    (q : String) (k : JobStateKind) (jobs : List Job) (m : Map QueueStatistics)
    → is_counted k ≡ true
    → counter k (Maps.get q (tally jobs m))
      ≡ counter k (Maps.get q m) + length (filter (belongs q k) jobs)
unfolding tally
tally-counter q k [] m h = omega arith
tally-counter q k (job ∷ jobs) m h =
    let stats = count_state job.state (or_insert job.queue (Maps.get job.queue m)) in
    ground (
      arith,
      tally-counter q k jobs (Maps.insert job.queue stats m) h,
      Maps.get-insert job.queue q stats m,
      eq_iff job.queue q,
      counted_state k job.state job.queue (Maps.get job.queue m) h,
    )

-- Every entry of the table names its queue, and no queue stands twice.
abbrev IsTable : Map QueueStatistics → Type 0
IsTable m = Maps.Distinct m × Maps.Keyed (λ (q : QueueStatistics). q.queue_name) m

counted-name : (s : JobState) (q : QueueStatistics) → (count_state s q).queue_name ≡ q.queue_name
counted-name s q = ground arith

inserted-name :
    (name : String) (m : Map QueueStatistics)
    → IsTable m
    → (or_insert name (Maps.get name m)).queue_name ≡ name
inserted-name name m t = elim (Option-cases (Maps.get name m)) [
  | inl e ↦ rw e refl
  | inr (q, e) ↦ rw e (Maps.AllEntries-get _ name q m t.1 e)
]

tally-IsTable : (jobs : List Job) (m : Map QueueStatistics) → IsTable m → IsTable (tally jobs m)
unfolding tally
tally-IsTable [] m t = t
tally-IsTable (job ∷ jobs) m t =
    let old = or_insert job.queue (Maps.get job.queue m) in
    let stats = count_state job.state old in
    tally-IsTable jobs (Maps.insert job.queue stats m) (
      Maps.insert-Distinct job.queue stats m t.0,
      Maps.AllEntries-insert _ job.queue stats m
          (counted-name job.state old ∙ inserted-name job.queue m t) t.1,
    )

-- A page from the start.
pub list_first :
    (s : MemoryStorage) (filter : Option JobStateKind) (limit : ℕ)
    → limit < 2 ^ 64
    → list s filter (some limit) none ≡ some (take limit (wanted s filter))
unfolding list page
list_first s filter limit fits = list_page s filter 0 limit (omega arith)

-- The statistics by queue have one row for a queue at most, under its name, and its counts are the
-- numbers of the jobs of the queue that are enqueued, processing and scheduled among the 200 newest
-- jobs of all queues; a queue without a row has no such job among them.
pub get_queue_statistics_lem :
    (s : MemoryStorage)
    → (t : Map QueueStatistics) × (get_queue_statistics s ≡ some (Maps.values t))
      × Maps.Distinct t
      × (Maps.Keyed (λ (q : QueueStatistics). q.queue_name) t)
      × ((q : String) (k : JobStateKind)
          → is_counted k ≡ true
          → counter k (Maps.get q t) ≡ length (filter (belongs q k) (take 200 (wanted s none))))
unfolding get_queue_statistics Maps.get
get_queue_statistics_lem s =
    let jobs = take 200 (wanted s none) in
    let table = tally-IsTable jobs [] (tt, tt) in
    (
      tally jobs [],
      rw (list_first s none 200 (omega arith)) refl,
      table.0,
      table.1,
      λ q k h. let n = tally-counter q k jobs [] h in omega (arith, n),
    )
