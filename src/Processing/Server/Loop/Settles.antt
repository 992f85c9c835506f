-- ===== src/Processing/Server/Loop/Settles.antt =====
-- One turn of `worker_loop` (src/processing/server.rs) on the memory storage: the fetch and the run of
-- the processor together.
use qml.Base.{
  ◌≡◌, ◌≢◌, refl, sym, ap, ◌∙◌, String, true, false, inl, inr, Option, none, some, arith,
  Option-cases, eq_iff,
}
use qml.Core.Job.{Job}
use qml.Error.{QmlError, Result, ok}
use qml.Processing.Retry.{Floats}
use qml.Processing.Worker.{get_worker}
use qml.Processing.Handlers.{JobProcessor, Texts, World}
use qml.Processing.Builder.{get_worker_id}
use qml.Processing.Processor
use qml.Processing.Processor.Verdicts.{attempted, decided, written, process_job_settles}
use qml.Processing.Store.{memory_store, lookup, memory_laws}
use qml.Processing.Server.Config.{ServerConfig}
use qml.Processing.Server.Backend.{memory_backend}
use qml.Processing.Server.Loop
use qml.Processing.Server.Loop.{Turn, queue_filter, handle_fetched, turn, running}
use qml.Storage.Memory.Locker.{start, fetch_and_lock_job}
use qml.Storage.Memory.Ready.{CanRun}
use qml.Storage.Memory.Fetch.{fetch_chooses, fetch_finds}
use qml.Storage.Memory.Fetch.Effect.{fetch_effect}
use qml.Storage.Memory.Invariant.{IsValid}

module _ (fl : Floats) (texts : Texts) where
  abbrev W : Type 0
  W = World fl texts memory_store

  -- The job as the run leaves it that starts with it as fetched.
  abbrev pub final : JobProcessor fl.F → Turn fl texts memory_backend → Job → Job
  final p t found =
      let job =
        attempted fl texts memory_store lookup memory_laws
          (start t.fetch_times (get_worker_id p) found) in
      written fl texts memory_store p t.readings job (
        decided fl texts memory_store lookup memory_laws p t.readings job
          (get_worker p.worker_registry job.method))

  started_runs :
      (p : JobProcessor fl.F) (t : Turn fl texts memory_backend) (found : Job)
      → (Processor.is_processing (start t.fetch_times (get_worker_id p) found).state ≡ true)
        × ((start t.fetch_times (get_worker_id p) found).id ≡ found.id)
  unfolding start
  started_runs p t found = (refl, refl)

  after_job-ran :
      (r : W × Option (Result QmlError (Unit {0})))
      → r.1 ≡ some (ok tt)
      → Loop.after_job fl texts memory_backend r ≡ (r.0, running)
  after_job-ran (w, none) e = absurd (cc)
  after_job-ran (w, some _) e = refl

  -- A turn that fetched a job.
  fetched_settles :
      (p : JobProcessor fl.F) (t : Turn fl texts memory_backend) (w : W) (found : Job)
      → let given = start t.fetch_times (get_worker_id p) found in
        Processor.is_negative p.worker_config.job_timeout ≡ false
        → lookup w.store found.id ≡ some given
        → let r = handle_fetched fl texts memory_backend p t w (ok (some given)) in
          (r.1 ≡ running)
          × (lookup r.0.store found.id ≡ some (final p t found))
          × ((id : String) → id ≢ found.id → lookup r.0.store id ≡ lookup w.store id)
  unfolding handle_fetched
  fetched_settles p t w found time there =
      let given = start t.fetch_times (get_worker_id p) found in
      let (runs, name) = started_runs p t found in
      let (done, same, settled) =
        process_job_settles fl texts memory_store lookup memory_laws p t.readings w given runs time
          (λ n. cc (ap (lookup w.store) name)) in
      rw (after_job-ran (Processor.process_job fl texts memory_store p t.readings w given) done) (
        refl,
        ap (lookup (Processor.process_job fl texts memory_store p t.readings w given).0.store)
              (sym (same ∙ name))
            ∙ settled.is_stored,
        λ id other. settled.keeps_others id (λ e. other (e ∙ same ∙ name)),
      )

  -- While its token is not cancelled, a worker whose timeout is not negative runs a job in each turn
  -- in which there is one that it may take: one of those that it may take is fetched, the loop goes
  -- on, that job is left as the verdict on its run says, and every other job as it was.
  pub turn_settles :
      (p : JobProcessor fl.F) (config : ServerConfig) (t : Turn fl texts memory_backend) (w : W)
      (k : String) (waiting : Job)
      → IsValid w.store
      → t.cancelled ≡ false
      → Processor.is_negative p.worker_config.job_timeout ≡ false
      → lookup w.store k ≡ some waiting
      → CanRun t.fetch_times (queue_filter config.queues) w.store waiting
      → let r = turn fl texts memory_backend p config t w in
        (found : Job) × (lookup w.store found.id ≡ some found)
        × (CanRun t.fetch_times (queue_filter config.queues) w.store found)
        × (r.1 ≡ running)
        × (lookup r.0.store found.id ≡ some (final p t found))
        × ((id : String) → id ≢ found.id → lookup r.0.store id ≡ lookup w.store id)
  unfolding turn
  turn_settles p config t w k waiting v live time there can =
      let c = t.fetch_times in
      let wid = get_worker_id p in
      let q = queue_filter config.queues in
      elim (Option-cases (fetch_and_lock_job c w.store wid q).1) [
        | inl n ↦ absurd (fetch_finds c w.store wid q v k waiting there can n)
        | inr (given, e) ↦
            let (found, started, stored, may, _) = fetch_chooses c w.store wid q v e in
            let name = (started_runs p t found).1 in
            let e' : (fetch_and_lock_job c w.store wid q).1 ≡ some (start c wid found) =
              e ∙ ap some started in
            let effect =
              λ (id : String). (fetch_effect c w.store wid q v (start c wid found) id e').0 in
            let (goes, left, others) =
              fetched_settles p t (record w { store = (fetch_and_lock_job c w.store wid q).0 })
                found time
                (effect found.id ∙ ground (arith, eq_iff (start c wid found).id found.id, name)) in
            rw (live, e')
              (
                found,
                stored,
                may,
                goes,
                left,
                λ id other.
                    others id other
                    ∙ effect id
                    ∙ ground (arith, eq_iff (start c wid found).id id, name, other),
              )
      ]
