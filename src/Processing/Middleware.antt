-- ===== src/Processing/Middleware.antt =====
-- src/processing/middleware.rs. A middleware is the function that its `call` computes, with the rest
-- of the stack as an argument; spans of the tracing library leave no trace in the result.
use qml.Base.{◌≡◌, refl, sym, ap, ◌∙◌, List, [], ◌∷◌, ◌++◌}
use qml.Core.Job.{Job}
use qml.Error.{QmlError, Result}
use qml.Processing.Worker.{WorkerContext, WorkerResult, Worker}

abbrev pub Execution : Type 0
Execution = Job → WorkerContext → Result QmlError WorkerResult

pub record JobMiddleware : Type 0 where
  pub call : Job → WorkerContext → Execution → Result QmlError WorkerResult

pub record Next : Type 0 where
  pub remaining : List JobMiddleware
  pub worker : Worker

-- `Next::run` calls the first middleware with a `Next` for the rest, down to the worker.
unfoldable pub run_next : List JobMiddleware → Worker → Execution
run_next [] worker = worker.execute
run_next (first ∷ rest) worker = λ job ctx. first.call job ctx (run_next rest worker)

abbrev pub next_run : Next → Execution
next_run next = run_next next.remaining next.worker

unfoldable pub run_stack :
    List JobMiddleware → Worker → Job → WorkerContext → Result QmlError WorkerResult
unfolding run_next
run_stack middleware worker job ctx =
    next_run (record { remaining = middleware; worker = worker }) job ctx

unfoldable pub tracing_middleware : JobMiddleware
tracing_middleware = record { call = λ job ctx next. next job ctx }

-- The worker that a part of the stack makes of a worker.
abbrev pub wrapped : List JobMiddleware → Worker → Worker
wrapped middleware worker = record worker { execute = run_next middleware worker }

run_next-append :
    (xs ys : List JobMiddleware) (worker : Worker)
    → run_next (xs ++ ys) worker ≡ run_next xs (wrapped ys worker)
unfolding run_next
run_next-append [] ys worker = refl
run_next-append (x ∷ xs) ys worker =
    ap (λ next. λ job ctx. x.call job ctx next) (run_next-append xs ys worker)

-- A stack runs its layers from the outside in: a stack of two parts is the first part around the
-- worker that the second part makes of the worker, and a tracing layer between the parts, first, last
-- or anywhere, changes no result.
pub run_stack-append :
    (xs ys : List JobMiddleware) (worker : Worker) (job : Job) (ctx : WorkerContext)
    → (run_stack (xs ++ ys) worker job ctx ≡ run_stack xs (wrapped ys worker) job ctx)
      × (run_stack (xs ++ tracing_middleware ∷ ys) worker job ctx
          ≡ run_stack (xs ++ ys) worker job ctx)
unfolding run_stack tracing_middleware run_next
run_stack-append xs ys worker job ctx =
    let plain = run_next-append xs ys worker in
    let traced = run_next-append xs (tracing_middleware ∷ ys) worker in
    (ap (λ f. f job ctx) plain, ap (λ f. f job ctx) (traced ∙ sym plain))
