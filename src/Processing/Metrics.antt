-- ===== src/Processing/Metrics.antt =====
-- `PrometheusMiddleware` and `record_enqueued` of src/processing/metrics.rs, as the calls that they make
-- of the prometheus crate. `F` is the type of f64.
pub mod Balance
use qml.Base.{String, Option, none, some, List, [], ◌∷◌, ◌++◌}
use qml.Core.Job.{Job}
use qml.Error.{QmlError, Result, ok, err}
use qml.Processing.Worker.{WorkerResult, success, retry, failure}

-- The four families: a counter by queue, a counter by queue and state, a histogram by method, and a
-- gauge by server.
pub data MetricCall (F : Type 0) : Type 0 where
  inc_enqueued : String → MetricCall F
  inc_processed : String → String → MetricCall F
  observe_duration : String → F → MetricCall F
  inc_active dec_active : String → MetricCall F

unfoldable pub state_label : Result QmlError WorkerResult → String
state_label (ok (success _ _ _)) = "succeeded"
state_label (ok (retry _ _ _ _)) = "retry"
state_label (ok (failure _ _ _)) = "failed"
state_label (err _) = "error"

-- One execution: the job, what the clock says has elapsed, and what the rest of the stack returns.
-- `none`: the timeout fires first, and the call is dropped where it waits for the rest.
pub record Execution (F : Type 0) : Type 0 where
  pub job : Job
  pub elapsed : F
  pub result : Option (Result QmlError WorkerResult)

module _ {F : Type 0} where
  unfoldable pub record_enqueued : String → List (MetricCall F)
  record_enqueued queue = inc_enqueued queue ∷ []

  unfoldable pub after_next : String → Execution F → List (MetricCall F)
  unfolding state_label
  after_next server x = elim x.result [
    | none ↦ []
    | some result ↦
        observe_duration x.job.method x.elapsed
        ∷ inc_processed x.job.queue (state_label result)
        ∷ dec_active server
        ∷ []
  ]

  unfoldable pub call : String → Execution F → List (MetricCall F)
  unfolding after_next
  call server x = inc_active server ∷ after_next server x

  -- The calls that a sequence of executions on one server makes.
  unfoldable pub call_all : String → List (Execution F) → List (MetricCall F)
  unfolding call
  call_all server [] = []
  call_all server (x ∷ xs) = call server x ++ call_all server xs
