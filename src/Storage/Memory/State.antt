-- ===== src/Storage/Memory/State.antt =====
-- The state of `MemoryStorage`, and the tests and the order on jobs that its operations share
-- (src/storage/memory.rs). A map is its entries in iteration order.
use Prim.Native.Nat.{compare, Ordering}
use qml.Base.{
  ℕ, ◌+◌, ◌≡◌, ℤ, pos_part, neg_part, at_most, String, Bool, true, false, Option, none, some, List,
  [], ◌∷◌, leb, length, filter, take, ite, arith, ◌⊎◌, ◌<ℤ◌, ◌≤ℤ◌, eq_of_parts,
}
use qml.Base.Maps
use qml.Base.Maps.{Map}
use qml.Base.Sort.{sort_by}
use qml.Core.JobState.{JobState, JobStateKind, JobStateKind-discrete, DateTime, kind}
use qml.Core.Job.{Job}
use qml.Core.Recurring.{RecurringJob}
use qml.Core.ServerInfo.{ServerInfo}
use qml.Storage.Config
use qml.Storage.Config.{MemoryConfig}

pub record JobLock : Type 0 where
  pub worker_id : String
  pub expires_at : DateTime

pub record NamedLock : Type 0 where
  pub owner : String
  pub expires_at : DateTime

pub record MemoryStorage : Type 0 where
  pub jobs : Map Job
  pub locks : Map JobLock
  pub recurring : Map RecurringJob
  pub servers : Map ServerInfo
  pub named_locks : Map NamedLock
  pub config : MemoryConfig

unfoldable pub with_config : MemoryConfig → MemoryStorage
with_config config = record {
  jobs = [];
  locks = [];
  recurring = [];
  servers = [];
  named_locks = [];
  config = config;
}

unfoldable pub new : MemoryStorage
unfolding with_config Config.default
new = with_config Config.default

unfoldable pub len : MemoryStorage → ℕ
len s = length s.jobs

abbrev is_nil : Map Job → Bool
is_nil [] = true
is_nil (_ ∷ _) = false

unfoldable pub is_empty : MemoryStorage → Bool
is_empty s = is_nil s.jobs

unfoldable pub clear : MemoryStorage → MemoryStorage
clear s = record s { jobs = [] }

unfoldable pub is_at_capacity : MemoryStorage → Bool
unfolding len
is_at_capacity s = elim s.config.max_jobs [ none ↦ false | some max_jobs ↦ leb max_jobs (len s) ]

-- `==` on kinds.
abbrev pub same_kind : JobStateKind → JobStateKind → Bool
same_kind k l = ite (JobStateKind-discrete k l) true false

unfoldable pub filter_jobs_by_state : Map Job → JobStateKind → List Job
filter_jobs_by_state jobs k = filter (λ job. same_kind (kind job.state) k) (Maps.values jobs)

-- Ready at `now`: enqueued, or scheduled or awaiting a retry whose instant has come.
unfoldable pub is_available : DateTime → JobState → Bool
is_available now (JobState.enqueued _ _) = true
is_available now (JobState.scheduled _ enqueue_at _) = at_most enqueue_at now
is_available now (JobState.awaiting_retry _ retry_at _) = at_most retry_at now
is_available now _ = false

abbrev cmp : ℤ → ℤ → Ordering
cmp a b = compare (pos_part a + neg_part b) (pos_part b + neg_part a)

abbrev then_with : Ordering → Ordering → Ordering
then_with Ordering.lt o = Ordering.lt
then_with Ordering.eq o = o
then_with Ordering.gt o = Ordering.gt

abbrev is_le : Ordering → Bool
is_le Ordering.gt = false
is_le _ = true

-- The comparator of the sorts: higher priority first, then older first.
unfoldable pub goes_first : Job → Job → Bool
goes_first a b = is_le (then_with (cmp b.priority a.priority) (cmp a.created_at b.created_at))

pub goes_first_refl : (a : Job) → goes_first a a ≡ true
unfolding goes_first
goes_first_refl a = ground arith

pub goes_first_total : (a b : Job) → goes_first a b ≡ false → goes_first b a ≡ true
unfolding goes_first
goes_first_total a b h = ground arith

pub goes_first_trans :
    (a b c : Job) → goes_first a b ≡ true → goes_first b c ≡ true → goes_first a c ≡ true
unfolding goes_first
goes_first_trans a b c h k = ground arith

-- The order in words.
pub goes_first_lem :
    (a b : Job)
    → goes_first a b ≡ true
    → (b.priority <ℤ a.priority) ⊎ ((a.priority ≡ b.priority) × (a.created_at ≤ℤ b.created_at))
unfolding goes_first
goes_first_lem a b h = ground (arith, eq_of_parts a.priority b.priority)

abbrev pub truncate : Option ℕ → List Job → List Job
truncate none js = js
truncate (some limit) js = take limit js

unfoldable pub get_available_jobs_internal : Map Job → DateTime → Option ℕ → List Job
get_available_jobs_internal jobs now limit =
    truncate limit
      (sort_by goes_first (filter (λ job. is_available now job.state) (Maps.values jobs)))
