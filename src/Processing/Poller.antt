-- ===== src/Processing/Poller.antt =====
-- src/processing/recurring.rs on the memory storage.
use qml.Base.{ℕ, filter, ◌≡◌, refl, pos, String, false, none, some, List, [], ◌∷◌, length}
use qml.Base.Sort.{sort_by}
use qml.Base.Maps
use qml.Core.JobState.{JobState, DateTime}
use qml.Core.Job
use qml.Core.Job.{Job}
use qml.Core.Recurring.{RecurringJob, Cron, next_after, advance}
use qml.Error.{QmlError, Result, ok, err}
use qml.Storage.Memory.State.{MemoryStorage, is_at_capacity}
use qml.Storage.Memory.Jobs.{enqueue, enqueue_insert}
use qml.Storage.Memory.Recurring.{upsert_recurring_job, is_due, due_order, fetch_due_recurring_jobs}

-- What a turn reads for each template, by its identifier: the new job's identifier, the two readings
-- of the clock at its creation, and the one in `advance`.
pub record Firings : Type 0 where
  pub job_id : String → String
  pub created_at : String → DateTime
  pub enqueued_at : String → DateTime
  pub advanced_at : String → DateTime

unfoldable pub firing : Firings → RecurringJob → Job
unfolding Job.with_config
firing f r =
    Job.with_config (f.job_id r.id) (f.created_at r.id) (f.enqueued_at r.id) r.method r.payload
      r.queue (pos 0) 0

module _ (c : Cron) (f : Firings) (now : DateTime) where
  -- A template that has no next occurrence is disabled.
  abbrev settle : RecurringJob × Result QmlError (Unit {0}) → RecurringJob
  settle (r, ok _) = r
  settle (r, err _) = record r { enabled = false }

  unfoldable pub advanced : RecurringJob → RecurringJob
  unfolding advance
  advanced r = settle (advance c (record r { last_run_at = some now }) now (f.advanced_at r.id))

  -- A failure of `enqueue` is logged, and the template advances all the same.
  unfoldable pub fire : List RecurringJob → MemoryStorage → MemoryStorage
  unfolding enqueue firing advanced upsert_recurring_job
  fire [] s = s
  fire (r ∷ due) s = fire due (upsert_recurring_job (enqueue s (firing f r)).0 (advanced r))

  unfoldable pub tick_once : ℕ → MemoryStorage → MemoryStorage × ℕ
  unfolding fire fetch_due_recurring_jobs
  tick_once batch_size s =
      let (claimed, due) = fetch_due_recurring_jobs s now batch_size in
      (fire due claimed, length due)

  -- The template after its turn.
  abbrev pub Fired : RecurringJob → RecurringJob
  Fired r = elim (next_after c r.cron now) [
    | ok next_run_at ↦ record r {
      last_run_at = some now;
      next_run_at = next_run_at;
      updated_at = f.advanced_at r.id;
    }
    | err _ ↦ record r { last_run_at = some now; enabled = false }
  ]

  -- Fresh identifiers: two templates never get one.
  abbrev pub AreFresh : Type 0
  AreFresh = (i k : String) → f.job_id i ≡ f.job_id k → i ≡ k

  enqueued :
      (s : MemoryStorage) (job : Job)
      → s.config.max_jobs ≡ none
      → (enqueue s job).0.jobs ≡ Maps.insert job.id job s.jobs
  unfolding enqueue enqueue_insert is_at_capacity
  enqueued s job open_ended = rw open_ended refl

  -- The job that a template asks for.
  abbrev pub made_from : RecurringJob → Job
  made_from t = record {
    id = f.job_id t.id;
    method = t.method;
    payload = t.payload;
    created_at = f.created_at t.id;
    state = JobState.enqueued (f.enqueued_at t.id) t.queue;
    queue = t.queue;
    priority = pos 0;
    max_retries = 0;
    attempt = 0;
    metadata = [];
    job_type = none;
    timeout_seconds = none;
    expires_at = none;
  }

  abbrev in_turn : MemoryStorage → List RecurringJob
  in_turn s = sort_by due_order (filter (is_due now) (Maps.values s.recurring))
