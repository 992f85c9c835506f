-- ===== src/Processing/Server/Loop.antt =====
-- `worker_loop` of src/processing/server.rs. A turn of the loop has what tokio decides in it as a
-- record; the loop is run over the turns that have been made so far.
pub mod Isolation
pub mod Settles
pub mod Shutdown
use qml.Base.{
  ◌≡◌, refl, ◌⊎◌, inl, inr, ℕ, String, Bool, true, false, Option, none, some, List, [], ◌∷◌,
  if◌then◌else◌,
}
use qml.Core.Job.{Job}
use qml.Error.{QmlError, StorageError, Result, ok, err}
use qml.Processing.Retry.{Floats}
use qml.Processing.Handlers.{JobProcessor, Readings, Texts, World}
use qml.Processing.Processor
use qml.Processing.Builder.{get_worker_id}
use qml.Processing.Server.Config.{ServerConfig}
use qml.Processing.Server.Backend.{ServerStore, job_store}

pub data LoopStatus : Type 0 where
  running stopped panicked : LoopStatus

pub LoopStatus-cases : (s : LoopStatus) → (s ≡ running) ⊎ (s ≡ stopped) ⊎ (s ≡ panicked)
LoopStatus-cases running = inl refl
LoopStatus-cases stopped = inr (inl refl)
LoopStatus-cases panicked = inr (inr refl)

unfoldable pub queue_filter : List String → Option (List String)
queue_filter [] = none
queue_filter (q ∷ qs) = some (q ∷ qs)

module _ (fl : Floats) (texts : Texts) (b : ServerStore) where
  abbrev pub LoopWorld : Type 0
  LoopWorld = World fl texts (job_store b)

  -- `cancelled`: the token is cancelled when the loop waits for its tick. `nap_cancelled`: it is
  -- cancelled during the pause after a failed fetch.
  pub record Turn : Type 0 where
    pub cancelled : Bool
    pub fetch_times : b.FetchTimes
    pub readings : Readings fl.F
    pub nap_cancelled : Bool

  -- An error of `process_job` is logged, and a panic ends the task.
  abbrev pub after_job : LoopWorld × Option (Result QmlError (Unit {0})) → LoopWorld × LoopStatus
  after_job (w, none) = (w, panicked)
  after_job (w, some r) = (w, running)

  unfoldable pub handle_fetched :
      JobProcessor fl.F
      → Turn
      → LoopWorld
      → Result StorageError (Option Job)
      → LoopWorld × LoopStatus
  handle_fetched p t w (ok (some job)) =
      after_job (Processor.process_job fl texts (job_store b) p t.readings w job)
  handle_fetched p t w (ok none) = (w, running)
  handle_fetched p t w (err e) = (w, if t.nap_cancelled then stopped else running)

  unfoldable pub turn : JobProcessor fl.F → ServerConfig → Turn → LoopWorld → LoopWorld × LoopStatus
  unfolding handle_fetched queue_filter get_worker_id
  turn p config t w =
      if t.cancelled
      then (w, stopped)
      else (let (store, fetched) =
            b.fetch_and_lock_job t.fetch_times w.store (get_worker_id p)
              (queue_filter config.queues) in
          handle_fetched p t (record w { store = store }) fetched)

  unfoldable pub worker_loop :
      JobProcessor fl.F → ServerConfig → List Turn → LoopWorld → LoopWorld × LoopStatus
  unfolding turn
  worker_loop p config [] w = (w, running)
  worker_loop p config (t ∷ ts) w =
      let (after, status) = turn p config t w in
      elim status [
        | running ↦ worker_loop p config ts after
        | stopped ↦ (after, stopped)
        | panicked ↦ (after, panicked)
      ]
