-- ===== src/Lib.antt =====
-- qml, a background job processor in Rust: its core as functions, with the theorems that hold of it.
--
-- A job is enqueued into a storage, fetched from it by a worker under a lock, run through a stack of
-- middleware under a timeout, and written back as succeeded, failed or waiting for a retry. Beside
-- the workers, schedulers promote jobs that are due, and a cleanup deletes what has expired. All of
-- them meet in the storage only. A server owns these loops: it spawns them at its start and cancels
-- them at its stop. The dashboard reads the storage for a browser, behind an authentication and a
-- check of the origin of each request.
--
-- What is modelled where:
-- - Core/JobState, Core/Job, Core/Recurring, Core/ServerInfo: src/core/*.rs. The states with their
--   transition table, the job with its constructors and mutators, recurring templates over a
--   parameter for the cron crate, and server rows. Core/Graph draws the diagram of the states as a
--   relation, and Core/Transitions is about sequences of `Job::set_state`.
-- - Error: src/error.rs and src/storage/error.rs.
-- - Storage/Config: `MemoryConfig` of src/storage/config.rs, with the configurations of Redis and its
--   URL in Config/Redis and of Postgres in Config/Postgres.
-- - Storage/Memory: `MemoryStorage` of src/storage/memory.rs. State holds the record, the filters and
--   the order of the ready jobs; Jobs the operations on rows; Claim the claims of due jobs; Locker
--   the fetch, the job locks and the recovery; Recurring, Servers and Leases the templates, the
--   server registry and the named locks. A method keeps its name; `&self` is the first argument of
--   the type MemoryStorage, and the new state is the first component of the result. Invariant and
--   Steps hold the invariant and the runs of operations, Fetch what a fetch picks and leaves.
-- - Storage/Postgres: `PostgresStorage` of src/storage/postgres.rs with the functions of install.sql.
--   Driver holds the answers of the driver and `handle_schema_error`, Schema the checks of the
--   catalog and the migrations, Row the columns of a job, Jobs the operations on single jobs,
--   Listing the reads, Claim the claims of due jobs and the job locks, Locker the fetch and the
--   recovery, Registry the servers and the templates, Leases the named locks. Jobs/Interchange and
--   Jobs/Runs compare it with the memory storage.
-- - Storage/Redis: `RedisStorage` of src/storage/redis.rs as far as jobs are written, claimed and
--   fetched, with its Lua scripts, each as one step on the keys.
-- - Storage/Errors: the constructors of src/storage/error.rs.
-- - Processing/Retry, Processing/Worker, Processing/Middleware: src/processing/retry.rs, worker.rs
--   with the registry of mod.rs, and middleware.rs.
-- - Processing/Store: what the processing uses of a store, as an interface that the memory storage
--   fills.
-- - Processing/Handlers, Processing/Processor: `JobProcessor` of src/processing/processor.rs, over that
--   interface; the handlers that settle a job, and `process_job` with its `match` arms by name.
-- - Processing/Scheduler, Processing/Cleanup, Processing/Heartbeat, Processing/Poller: one turn of the
--   loops of src/processing/scheduler.rs, cleanup.rs, heartbeat.rs and recurring.rs, on the memory
--   storage.
-- - Processing/Builder: the constructors and setters of `JobProcessor`.
-- - Processing/Server: src/processing/server.rs. Config is `ServerConfig`; Backend what a server
--   needs of its storage and of the cancellation tokens, as interfaces; Loop a worker's loop as its
--   turns, with the way out of each; Spawning the tasks that a start spawns, and Lifecycle the
--   server with its start, its stop and its constructors. A task is a name with its token.
-- - Processing/Metrics: src/processing/metrics.rs, each function as its calls of the families of
--   the prometheus crate.
-- - Dashboard/Auth, Dashboard/Csrf: src/dashboard/auth.rs, on texts as bytes (Base/Strings).
-- - Dashboard/Details, Dashboard/Routes: the detail structures of src/dashboard/service.rs, and the
--   answers of src/dashboard/routes.rs without their JSON.
-- - Dashboard/Service: `DashboardService` of src/dashboard/service.rs, on the memory storage; `retry_job`
--   is cut into its read and its write, between which other callers may come.
--
-- How the code is read:
-- - An instant is a count of milliseconds since the epoch and a duration a count of milliseconds.
--   Each reading of the clock is an argument, so theorems hold for clocks that jump. Overflow of
--   chrono's range is not modelled.
-- - A `HashMap` is an association list in its iteration order, which theorems do not fix. Rust's
--   stable sort is an insertion sort that keeps the order of equal elements.
-- - The JSON payload of a job is its text. Random identifiers are arguments.
-- - A method of the memory storage that holds its guards over the whole body is one step, and a run
--   is any sequence of steps by any callers. `enqueue`, which checks and inserts under two guards,
--   has a step for its second half. `fetch_and_lock_job` sweeps the locks under a guard of its own
--   first; the sweep and the fetch are taken as one step with two readings of the clock.
-- - Loops over lists are recursions on the list. The batch of fetches counts down the number of
--   rounds, which the source bounds by 100, on Redis by 50. No other fuel is used, except for the
--   decimal text of a number, which has one unit for each digit and more.
-- - A `u32` or `u64` is a number; where the source adds, the bound is written out: `saturating_add`
--   for attempts, the wrap of a release build for the paging.
-- - The f64 arithmetic of the exponential backoff is a record of operations, with the laws that the
--   bound needs. A worker, a middleware and the timer of tokio are functions or arguments: the
--   theorems hold for all of them.
-- - The hook of the processor is the list of its calls.
-- - The cancellation tokens of tokio, the decoding of base64, the comparison of the crate subtle and
--   the metrics of the crate prometheus are parameters, with the laws that are used of them. The
--   tasks of a server run beside each other; a theorem on a loop takes its turns one by one.
-- - A query in SQL is a function on the rows of its table, which runs as one step. Each query may be
--   refused, with the rows as they were, or be run although the connection is lost before its
--   answer: a session carries these faults to come. Rows that other transactions have locked are a
--   test on identifiers, the clock of the database an argument. The JSON of a state stands as the
--   state.
-- - The JSON of a job that a script of Redis decodes and encodes again is taken as kept but for what
--   the script sets, although cjson writes an empty array as an object and rounds long numbers.
--
-- Not modelled: of the Redis backend the reads, the sweeps, the locks, the templates and the servers;
-- the creation of a Postgres database; the HTTP server and the websocket of the dashboard; settings;
-- the registration of the metric families; serialization by serde; logging.
pub mod Base
pub mod Core
pub mod Error
pub mod Storage
pub mod Processing
pub mod Dashboard
