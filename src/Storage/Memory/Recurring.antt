-- ===== src/Storage/Memory/Recurring.antt =====
-- `RecurringStore` (src/storage/memory.rs).
pub mod Parking
use Prim.Native.String.{compare}
use Prim.Native.Nat.{Ordering}
use qml.Base.{
  ℕ, pos, ◌+ℤ◌, String, Bool, true, false, ◌&&◌, Option, none, some, List, [], ◌∷◌, at_most, filter,
  take,
}
use qml.Base.Maps
use qml.Base.Maps.{Map}
use qml.Base.Sort.{sort_by}
use qml.Core.JobState.{DateTime}
use qml.Core.Recurring.{RecurringJob}
use qml.Storage.Memory.State.{MemoryStorage}

unfoldable pub upsert_recurring_job : MemoryStorage → RecurringJob → MemoryStorage
upsert_recurring_job s job = record s { recurring = Maps.insert job.id job s.recurring }

unfoldable pub remove_recurring_job : MemoryStorage → String → MemoryStorage × Bool
remove_recurring_job s id =
    (record s { recurring = Maps.remove id s.recurring }, Maps.is_some (Maps.get id s.recurring))

abbrev pub id_order : RecurringJob → RecurringJob → Bool
id_order a b = elim (compare a.id b.id) [ Ordering.gt ↦ false | _ ↦ true ]

unfoldable pub list_recurring_jobs : MemoryStorage → List RecurringJob
list_recurring_jobs s = sort_by id_order (Maps.values s.recurring)

unfoldable pub is_due : DateTime → RecurringJob → Bool
is_due now r = r.enabled && at_most r.next_run_at now

abbrev pub due_order : RecurringJob → RecurringJob → Bool
due_order a b = at_most a.next_run_at b.next_run_at

unfoldable pub due_recurring : MemoryStorage → DateTime → ℕ → List RecurringJob
unfolding is_due
due_recurring s now limit =
    take limit (sort_by due_order (filter (is_due now) (Maps.values s.recurring)))

-- 3650 days, in milliseconds.
unfoldable pub parked_until : DateTime → DateTime
parked_until now = now +ℤ pos 315_360_000_000

unfoldable pub park : DateTime → List RecurringJob → Map RecurringJob → Map RecurringJob
unfolding parked_until
park now [] map = map
park now (r ∷ due) map = park now due (elim (Maps.get r.id map) [
  | none ↦ map
  | some stored ↦ Maps.insert r.id (record stored { next_run_at = parked_until now }) map
])

unfoldable pub fetch_due_recurring_jobs :
    MemoryStorage → DateTime → ℕ → MemoryStorage × List RecurringJob
unfolding due_recurring park
fetch_due_recurring_jobs s now limit =
    let due = due_recurring s now limit in (record s { recurring = park now due s.recurring }, due)
