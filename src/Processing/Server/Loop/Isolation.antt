-- ===== src/Processing/Server/Loop/Isolation.antt =====
-- What a whole run of `worker_loop` (src/processing/server.rs) leaves alone on the memory storage.
use qml.Base.{
  ◌≡◌, ◌≢◌, refl, sym, ap, subst, ◌∙◌, String, inl, inr, Option, none, some, List, [], ◌∷◌, arith,
  Bool-cases, Option-cases, eq_iff,
}
use qml.Base.Maps
use qml.Core.Job.{Job}
use qml.Error.{QmlError, StorageError, Result, ok, err}
use qml.Processing.Retry.{Floats}
use qml.Processing.Handlers.{JobProcessor, Texts, World}
use qml.Processing.Processor
use qml.Processing.Processor.Writes.{process_job-keeps}
use qml.Processing.Store.{memory_store}
use qml.Processing.Builder.{get_worker_id}
use qml.Processing.Server.Config.{ServerConfig}
use qml.Processing.Server.Backend.{memory_backend}
use qml.Processing.Server.Loop
use qml.Processing.Server.Loop.{
  LoopStatus, LoopStatus-cases, Turn, queue_filter, handle_fetched, turn, worker_loop, running,
  stopped, panicked,
}
use qml.Storage.Memory.State.{MemoryStorage}
use qml.Storage.Memory.Jobs.{update}
use qml.Storage.Memory.Locker.{FetchClock, start, fetch_and_lock_job}
use qml.Storage.Memory.Ready.{IsServed}
use qml.Storage.Memory.Fetch.{fetch_chooses}
use qml.Storage.Memory.Fetch.Effect.{fetch_effect, fetch_none_effect}
use qml.Storage.Memory.Invariant.{IsValid}
use qml.Storage.Memory.Invariant.Jobs.{update-IsValid}
use qml.Storage.Memory.Invariant.Locks.{fetch-IsValid}

module _ (k : String) (job : Job) where
  -- The storage is well-formed and holds this job.
  abbrev pub Holds : MemoryStorage → Type 0
  Holds s = IsValid s × (Maps.get k s.jobs ≡ some job)

  update_Holds :
      (id : String)
      → id ≢ k
      → (s : MemoryStorage) (other : Job) → other.id ≡ id
      → Holds s
      → Holds (update s other).0
  unfolding update
  update_Holds id differs s other e (v, stored) = (
    update-IsValid s other v,
    ground (arith, Maps.get-insert other.id k other s.jobs, eq_iff other.id k, stored, e, differs),
  )

  started-id : (c : FetchClock) (w : String) (j : Job) → (start c w j).id ≡ j.id
  unfolding start
  started-id c w j = refl

  -- The job that a fetch gives is another one, if this one is in no queue of the filter.
  given_differs :
      (c : FetchClock) (s : MemoryStorage) (w : String) (queues : Option (List String))
      (given : Job)
      → ¬ IsServed queues job.queue
      → Holds s
      → (fetch_and_lock_job c s w queues).1 ≡ some given
      → given.id ≢ k
  given_differs c s w queues given foreign (v, stored) e same =
      let (j, started, there, can, _) = fetch_chooses c s w queues v e in
      let name : j.id ≡ k = sym (started-id c w j) ∙ ap (λ (i : Job). i.id) (sym started) ∙ same in
      let found : some j ≡ some job = sym there ∙ ap (λ i. Maps.get i s.jobs) name ∙ stored in
      let is : j ≡ job = cc in foreign (subst (λ (i : Job). IsServed queues i.queue) is can.1)

  fetch_Holds :
      (c : FetchClock) (s : MemoryStorage) (w : String) (queues : Option (List String))
      → ¬ IsServed queues job.queue
      → Holds s
      → Holds (fetch_and_lock_job c s w queues).0
  fetch_Holds c s w queues foreign (v, stored) = (
    fetch-IsValid c s w queues v,
    elim (Option-cases (fetch_and_lock_job c s w queues).1) [
      | inl n ↦ ap (Maps.get k) (fetch_none_effect c s w queues v k n).0 ∙ stored
      | inr (given, e) ↦
          (fetch_effect c s w queues v given k e).0
          ∙ ground (
            arith,
            eq_iff given.id k,
            given_differs c s w queues given foreign (v, stored) e,
            stored,
          )
    ],
  )

  module _ (fl : Floats) (texts : Texts) where
    abbrev W : Type 0
    W = World fl texts memory_store

    handle_Holds :
        (p : JobProcessor fl.F) (t : Turn fl texts memory_backend) (w : W)
        (r : Result StorageError (Option Job))
        → ((given : Job) → r ≡ ok (some given) → given.id ≢ k)
        → Holds w.store
        → Holds (handle_fetched fl texts memory_backend p t w r).0.store
    unfolding handle_fetched
    handle_Holds p t w (err e) other h = h
    handle_Holds p t w (ok none) other h = h
    handle_Holds p t w (ok (some given)) other h =
        after (Processor.process_job fl texts memory_store p t.readings w given) (
          process_job-keeps fl texts memory_store Holds given.id
            (update_Holds given.id (other given refl)) p t.readings w given refl h)
      where
        after :
            (r : W × Option (Result QmlError (Unit {0})))
            → Holds r.0.store
            → Holds (Loop.after_job fl texts memory_backend r).0.store
        after (w, none) h = h
        after (w, some _) h = h

    turn-Holds :
        (p : JobProcessor fl.F) (config : ServerConfig) (t : Turn fl texts memory_backend) (w : W)
        → ¬ IsServed (queue_filter config.queues) job.queue
        → Holds w.store
        → Holds (turn fl texts memory_backend p config t w).0.store
    unfolding turn
    turn-Holds p config t w foreign h = elim (Bool-cases t.cancelled) [
      | inl e ↦ rw e h
      | inr e ↦
          let worker_id = get_worker_id p in
          let queues = queue_filter config.queues in
          let r = fetch_and_lock_job t.fetch_times w.store worker_id queues in
          rw e (
            handle_Holds p t (record w { store = r.0 }) (ok r.1)
              (λ given q. given_differs t.fetch_times w.store worker_id queues given foreign h (cc))
              (fetch_Holds t.fetch_times w.store worker_id queues foreign h))
    ]

    -- A worker of a server that serves certain queues leaves a job of any other queue alone: however
    -- many turns its loop makes, and whatever becomes of the jobs that it runs, the job is stored as
    -- it was, and the storage stays well-formed.
    pub worker_loop-Holds :
        (p : JobProcessor fl.F) (config : ServerConfig) (ts : List (Turn fl texts memory_backend))
        (w : W)
        → ¬ IsServed (queue_filter config.queues) job.queue
        → Holds w.store
        → Holds (worker_loop fl texts memory_backend p config ts w).0.store
    unfolding worker_loop
    worker_loop-Holds p config [] w foreign h = h
    worker_loop-Holds p config (t ∷ ts) w foreign h =
        let r = turn fl texts memory_backend p config t w in
        let h' = turn-Holds p config t w foreign h in
        elim (LoopStatus-cases r.1) [
          | inl e ↦ rw (e, worker_loop) (worker_loop-Holds p config ts r.0 foreign h')
          | inr (inl e) ↦ rw (e, worker_loop) h'
          | inr (inr e) ↦ rw (e, worker_loop) h'
        ]
