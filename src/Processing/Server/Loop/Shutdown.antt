-- ===== src/Processing/Server/Loop/Shutdown.antt =====
-- How `worker_loop` of src/processing/server.rs ends.
use qml.Base.{◌≡◌, refl, true, inl, inr, List, [], ◌∷◌, ◌++◌}
use qml.Processing.Retry.{Floats}
use qml.Processing.Handlers.{JobProcessor, Texts, World}
use qml.Processing.Server.Config.{ServerConfig}
use qml.Processing.Server.Backend.{ServerStore, job_store}
use qml.Processing.Server.Loop.{
  LoopStatus, LoopStatus-cases, Turn, turn, worker_loop, running, stopped, panicked,
}

module _ (fl : Floats) (texts : Texts) (b : ServerStore) where
  -- Where the loop stops in a turn that finds its token cancelled.
  abbrev pub ended : LoopStatus → LoopStatus
  ended running = stopped
  ended stopped = stopped
  ended panicked = panicked

  -- A loop whose token is cancelled after some turns ends in the turn after them, whatever would
  -- have come later: the job of the last of them is run to its end, and no more is fetched.
  pub worker_loop-cancelled :
      (p : JobProcessor fl.F) (config : ServerConfig) (before : List (Turn fl texts b))
      (t : Turn fl texts b) (later : List (Turn fl texts b)) (w : World fl texts (job_store b))
      → t.cancelled ≡ true
      → worker_loop fl texts b p config (before ++ t ∷ later) w
        ≡ (let r = worker_loop fl texts b p config before w in (r.0, ended r.1))
  unfolding worker_loop turn
  worker_loop-cancelled p config [] t later w h = rw h refl
  worker_loop-cancelled p config (u ∷ before) t later w h =
      let r = turn fl texts b p config u w in
      elim (LoopStatus-cases r.1) [
        | inl e ↦ rw (e, worker_loop) (worker_loop-cancelled p config before t later r.0 h)
        | inr (inl e) ↦ rw (e, worker_loop) refl
        | inr (inr e) ↦ rw (e, worker_loop) refl
      ]
