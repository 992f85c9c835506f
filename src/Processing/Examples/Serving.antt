-- ===== src/Processing/Examples/Serving.antt =====
-- Runs and instances of the server, its worker loop and the metrics.
use qml.Base.{
  ℕ, ◌+◌, ◌*◌, ◌/◌, ◌%◌, ◌≡◌, refl, pos, Bool, true, false, ◌&&◌, ◌||◌, arith, eqb, if◌then◌else◌,
}
use qml.Base.{String, ◌≢◌, ℤ, List, [], ◌∷◌, ◌++◌, none, some, inl, inr, All, ◌==◌}
use qml.Base.Maps
use qml.Core.JobState.{JobState}
use qml.Core.Job.{Job}
use qml.Error.{QmlError, ok, err}
use qml.Processing.Handlers.{World}
use qml.Processing.Store.{memory_store, lookup}
use qml.Processing.Examples.{floats, texts, policy, processor, readings, given, storage}
use qml.Processing.Server.Config.{ServerConfig}
use qml.Processing.Server.Backend.{Tokens, TokenLaws, memory_backend}
use qml.Processing.Server.Loop.{Turn, queue_filter, turn, worker_loop, running}
use qml.Processing.Server.Loop.Settles.{final, turn_settles}
use qml.Processing.Server.Loop.Isolation.{Holds, worker_loop-Holds}
use qml.Processing.Server.Loop.Shutdown.{ended, worker_loop-cancelled}
use qml.Processing.Server.Spawning
use qml.Processing.Server.Lifecycle.{Host, StartReadings, start, stop, spawn, after_register}
use qml.Processing.Server.Lifecycle.Wiring.{Call, starts, calls, created, token_of}
use qml.Processing.Server.Lifecycle.Stopping.{stop_cancels_tasks}
use qml.Processing.Server.Lifecycle.Starting.{Started, Unchanged, start_brings_up}
use qml.Processing.Server.Lifecycle.Registration.{row, start-stop_lem}
use qml.Processing.Metrics.{Execution, call_all}
use qml.Processing.Metrics.Balance.{AddsUp, call_all-AddsUp}
use qml.Storage.Memory.State.{MemoryStorage}
use qml.Storage.Memory.Ready.{CanRun}
use qml.Storage.Memory.Invariant.{IsValid}

-- Tokens in which a child has the number 2p + 1 and any other token an even one.
record Cancelled : Type 0 where
  next : ℕ
  marked : ℕ → Bool

abbrev mark : ℕ → Bool → (ℕ → Bool) → ℕ → Bool
mark k b f u = if eqb u k then b else f u

abbrev by_number : Tokens
by_number = record {
  T = Cancelled;
  new_token =
      λ s. (record s { next = s.next + 1; marked = mark (2 * s.next) false s.marked }, 2 * s.next);
  child_token = λ s p. (record s { marked = mark (2 * p + 1) false s.marked }, 2 * p + 1);
  cancel = λ s t. record s { marked = mark t true s.marked };
  is_cancelled = λ s u. s.marked u || (eqb (u % 2) 1 && s.marked (u / 2));
}

by_number_laws : TokenLaws by_number
by_number_laws = record {
  ChildOf = λ u t. u ≡ 2 * t + 1;
  new_live = λ s. ground arith;
  new_keeps = λ s t h. ground arith;
  child_live = λ s p h. ground (arith, half p);
  child_keeps = λ s p t h. ground arith;
  child_under = λ s p. refl;
  cancel_self = λ s t. ground arith;
  cancel_under = λ s t u h. rw h (ground (arith, half t));
}
  where
    half : (p : ℕ) → (2 * p + 1) / 2 ≡ p
    half p = omega arith

abbrev server_config : ServerConfig
server_config = record {
  server_name = "s1";
  worker_count = 2;
  polling_interval = pos 1000;
  job_timeout = pos 300_000;
  queues = "default" ∷ [];
  auto_start = true;
  fetch_batch_size = 10;
  enable_scheduler = true;
  scheduler_poll_interval = pos 30_000;
  shutdown_timeout = pos 30_000;
  stale_processing_after = pos 300_000;
  enable_recurring = true;
  recurring_poll_interval = pos 5000;
  enable_cleanup = true;
  cleanup_interval = pos 60_000;
  succeeded_ttl = pos 1000;
  failed_ttl = pos 2000;
  enable_heartbeat = true;
  heartbeat_interval = pos 10_000;
  dead_server_timeout = pos 60_000;
}

-- A job that waits in the served queue, and one in another.
abbrev queued : Job
queued = record given { state = JobState.enqueued (pos 5) "default" }

abbrev foreign : Job
foreign = record given { id = "j2"; queue = "mail"; state = JobState.enqueued (pos 4) "mail" }

abbrev filled : MemoryStorage
filled = record storage { jobs = ("j1", queued) ∷ ("j2", foreign) ∷ [] }

abbrev filled_world : World floats texts memory_store
filled_world = record { store = filled; hook_calls = [] }

filled-IsValid : IsValid filled
unfolding Maps.get
filled-IsValid = record {
  jobs_ok = ((refl, (refl, tt)), (refl, (refl, tt)));
  locks_once = tt;
  recurring_once = tt;
  recurring_keyed = tt;
  servers_once = tt;
  servers_keyed = tt;
  named_once = tt;
}

abbrev at_work : Turn floats texts memory_backend
at_work = record {
  cancelled = false;
  fetch_times = record {
    swept_at = pos 88;
    seen_at = pos 89;
    locked_at = pos 90;
    started_at = pos 91;
  };
  readings = readings;
  nap_cancelled = false;
}

abbrev shut_down : Turn floats texts memory_backend
shut_down = record at_work { cancelled = true }

turn_settles_example :
    let r = turn floats texts memory_backend processor server_config at_work filled_world in
    (found : Job) × (lookup filled found.id ≡ some found)
    × (CanRun at_work.fetch_times (queue_filter server_config.queues) filled found)
    × (r.1 ≡ running)
    × (lookup r.0.store found.id ≡ some (final floats texts processor at_work found))
    × ((id : String) → id ≢ found.id → lookup r.0.store id ≡ lookup filled id)
unfolding Maps.get queue_filter
turn_settles_example =
    turn_settles floats texts processor server_config at_work filled_world "j1" queued
      filled-IsValid refl refl refl (tt, inl refl, tt)

worker_loop-Holds_example :
    Holds "j2" foreign
      (worker_loop floats texts memory_backend processor server_config
        (at_work ∷ at_work ∷ shut_down ∷ [])
        filled_world).0.store
unfolding Maps.get queue_filter
worker_loop-Holds_example =
    worker_loop-Holds "j2" foreign floats texts processor server_config
      (at_work ∷ at_work ∷ shut_down ∷ []) filled_world (λ h. elim h [ inl e ↦ cc | inr n ↦ n ])
      (filled-IsValid, refl)

worker_loop-cancelled_example :
    worker_loop floats texts memory_backend processor server_config
      ((at_work ∷ []) ++ shut_down ∷ at_work ∷ [])
      filled_world
    ≡ (let r =
          worker_loop floats texts memory_backend processor server_config
            (at_work ∷ [])
            filled_world in
        (r.0, ended floats texts memory_backend r.1))
worker_loop-cancelled_example =
    worker_loop-cancelled floats texts memory_backend processor server_config (at_work ∷ [])
      shut_down (at_work ∷ []) filled_world refl

abbrev fresh_tokens : Cancelled
fresh_tokens = record { next = 1; marked = λ u. false }

abbrev start_readings : StartReadings memory_backend
start_readings = record {
  swept_at = pos 50;
  sweep_times = λ id. pos 51;
  registered_at = pos 52;
  uuid = "u1";
}

abbrev started_once : List (Call ℤ memory_backend by_number by_number_laws)
started_once = starts start_readings ∷ []

abbrev host : Host ℤ memory_backend by_number
host =
    created ℤ memory_backend by_number by_number_laws 0 policy server_config [] filled fresh_tokens

stop_cancels_tasks_example :
    let h = calls ℤ memory_backend by_number by_number_laws host started_once in
    let (after, aborted) = stop ℤ memory_backend by_number false h in
    All
      (λ t.
        by_number.is_cancelled after.tokens (token_of ℤ memory_backend by_number by_number_laws t)
        ≡ true)
      h.server.worker_handles
    × (aborted ≡ h.server.worker_handles)
    × (after.server ≡ record h.server { is_running = false; server_id = none; worker_handles = [] })
    × ((again : Bool) → stop ℤ memory_backend by_number again after ≡ (after, []))
unfolding calls start spawn after_register Spawning.new
stop_cancels_tasks_example =
    stop_cancels_tasks ℤ memory_backend by_number by_number_laws 0 policy server_config [] filled
      fresh_tokens started_once false refl

start_brings_up_example :
    let out = start ℤ memory_backend by_number start_readings host in
    (out.1 ≡ ok tt → Started ℤ memory_backend by_number by_number_laws start_readings host out.0)
    × ((e : QmlError)
        → out.1 ≡ err e
        → Unchanged ℤ memory_backend by_number by_number_laws host out.0)
unfolding calls
start_brings_up_example =
    start_brings_up ℤ memory_backend by_number by_number_laws 0 policy server_config [] filled
      fresh_tokens [] start_readings

start-stop_lem_example :
    let up = (start ℤ memory_backend by_number start_readings host).0 in
    let down = (stop ℤ memory_backend by_number true up).0 in
    (Maps.get "s1#u1" up.store.servers ≡ (
      if "s1#u1" == "s1#u1"
      then some (row ℤ by_number start_readings host)
      else Maps.get "s1#u1" filled.servers))
    × (Maps.get "s1#u1" down.store.servers
        ≡ (if "s1#u1" == "s1#u1" then none else Maps.get "s1#u1" filled.servers))
unfolding Spawning.new
start-stop_lem_example = start-stop_lem ℤ by_number start_readings host true "s1#u1" refl refl

-- One execution that ends, and one that its timeout drops.
abbrev executions : List (Execution ℕ)
executions =
    record { job = queued; elapsed = 5; result = some (err (QmlError.worker_error "boom")) }
    ∷ record { job = queued; elapsed = 9; result = none }
    ∷ []

call_all-AddsUp_example : AddsUp "s1" (call_all "s1" executions) executions
call_all-AddsUp_example = call_all-AddsUp "s1" executions
