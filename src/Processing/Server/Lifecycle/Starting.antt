-- ===== src/Processing/Server/Lifecycle/Starting.antt =====
-- What `start` of src/processing/server.rs spawns.
use qml.Base.{
  ℕ, zero, suc, ◌+◌, ◌≡◌, refl, sym, ap, subst, ◌∙◌, String, true, false, inl, inr, Option, none,
  some, List, [], ◌∷◌, ◌++◌, All, All-append, Bool-cases, ◌<>◌, show, arith,
}
use qml.Error.{QmlError, Result, ok, err}
use qml.Processing.Worker
use qml.Processing.Retry.{RetryPolicy}
use qml.Processing.Worker.{WorkerConfig, WorkerRegistry, CancellationToken, config_new}
use qml.Processing.Builder
use qml.Processing.Server.Config.{ServerConfig}
use qml.Processing.Server.Backend.{ServerStore, Tokens, TokenLaws}
use qml.Processing.Server.Spawning.{
  Task, scheduler, recurring_poller, cleanup_worker, heartbeat_worker, worker, BackgroundJobServer,
  background_tasks, worker_config, make_processor,
}
use qml.Processing.Server.Lifecycle.{Host, StartReadings, stamped_name, start_workers, spawn, start}
use qml.Processing.Server.Lifecycle.Outcomes.{
  refused, unregistered, spawned, renewed, identity, start-Outcome,
}
use qml.Processing.Server.Lifecycle.Wiring.{
  Call, calls, created, reached-IsWired, token_of, IsWired, background-All, workers_live,
}

-- The configurations of the workers among the tasks.
abbrev pub workers_of : {F : Type 0} → List (Task F) → List WorkerConfig
workers_of [] = []
workers_of (worker p _ _ ∷ ts) = p.worker_config ∷ workers_of ts
workers_of (scheduler _ _ ∷ ts) = workers_of ts
workers_of (recurring_poller _ _ ∷ ts) = workers_of ts
workers_of (cleanup_worker _ _ ∷ ts) = workers_of ts
workers_of (heartbeat_worker _ _ _ _ ∷ ts) = workers_of ts

-- What a server promises of its workers, those with the numbers from `i` on: each is named for the
-- server and its number, stamps the identity, and has the queues and times of the server.
abbrev pub promise : ServerConfig → String → ℕ → WorkerConfig
promise c stamped i = record {
  worker_id = c.server_name <> ":worker:" <> show i;
  server_name = stamped;
  queues = c.queues;
  job_timeout = c.job_timeout;
  polling_interval = c.polling_interval;
}

abbrev pub promised : ServerConfig → String → ℕ → ℕ → List WorkerConfig
promised c stamped zero i = []
promised c stamped (suc n) i = promise c stamped i ∷ promised c stamped n (i + 1)

workers_of-append :
    {F : Type 0} (xs ys : List (Task F)) → workers_of (xs ++ ys) ≡ workers_of xs ++ workers_of ys
workers_of-append [] ys = refl
workers_of-append (worker p _ _ ∷ ts) ys = ap (◌∷◌ p.worker_config) (workers_of-append ts ys)
workers_of-append (scheduler _ _ ∷ ts) ys = workers_of-append ts ys
workers_of-append (recurring_poller _ _ ∷ ts) ys = workers_of-append ts ys
workers_of-append (cleanup_worker _ _ ∷ ts) ys = workers_of-append ts ys
workers_of-append (heartbeat_worker _ _ _ _ ∷ ts) ys = workers_of-append ts ys

no_workers :
    (F : Type 0) (c : ServerConfig) (token : CancellationToken) (id : Option String)
    (ts : List (Task F))
    → workers_of (background_tasks {F = F} c token id ++ ts) ≡ workers_of ts
unfolding background_tasks
no_workers F c token none ts = ground arith
no_workers F c token (some id) ts = ground arith

module _ (F : Type 0) (b : ServerStore) (tk : Tokens) where
  made_promise :
      (sv : BackgroundJobServer F) (fresh cancel : CancellationToken) (stamped : String) (i : ℕ)
      → (make_processor sv fresh cancel stamped i).worker_config ≡ promise sv.config stamped i
  unfolding make_processor worker_config config_new Worker.server_name Worker.queues
      Worker.job_timeout Worker.polling_interval Builder.with_retry_policy Builder.with_cancellation
      Builder.with_ttls Builder.with_middleware Builder.with_state_change_hook
  made_promise sv fresh cancel stamped i = elim (Bool-cases sv.on_state_change) [
    | inl e ↦ rw e refl
    | inr e ↦ rw e refl
  ]

  workers_promised :
      (sv : BackgroundJobServer F) (token : CancellationToken) (stamped : String) (rounds i : ℕ)
      (tokens : tk.T)
      → workers_of (start_workers F b tk sv token stamped rounds i tokens).1
        ≡ promised sv.config stamped rounds i
  unfolding start_workers
  workers_promised sv token stamped zero i tokens = refl
  workers_promised sv token stamped (suc rounds) i tokens =
      let born = (tk.new_token tokens).0 in
      let made = tk.child_token born token in
      let rest = start_workers F b tk sv token stamped rounds (i + 1) made.0 in
      ap (λ w. w ∷ workers_of rest.1) (made_promise sv (tk.new_token tokens).1 made.1 stamped i)
      ∙ ap (◌∷◌ (promise sv.config stamped i))
          (workers_promised sv token stamped rounds (i + 1) made.0)

  module _ (laws : TokenLaws tk) where
    open laws use {new_live, new_keeps}

    -- What a start that reports success leaves.
    pub record Started (r : StartReadings b) (h after : Host F b tk) : Type 0 where
      pub is_up : after.server.is_running ≡ true
      pub registers : after.server.server_id ≡ identity F b tk r h
      pub lives :
          All
            (λ t. tk.is_cancelled after.tokens (token_of F b tk laws t) ≡ false)
            after.server.worker_handles
      pub workers :
          workers_of after.server.worker_handles
          ≡ promised h.server.config
              (stamped_name h.server.config (identity F b tk r h))
              h.server.config.worker_count
              0

    spawn-Started :
        (r : StartReadings b) (h : Host F b tk) (store : b.S)
        → h.server.worker_handles ≡ []
        → Started r h
            (spawn F b tk (renewed F b tk h) (identity F b tk r h) store (tk.new_token h.tokens).0)
    unfolding spawn
    spawn-Started r h store idle =
        let token = (tk.new_token h.tokens).1 in
        let born = (tk.new_token h.tokens).0 in
        let c = h.server.config in
        let id = identity F b tk r h in
        let stamped = stamped_name c id in
        let live = new_live h.tokens in
        let ran =
          workers_live F b tk laws (renewed F b tk h) token stamped c.worker_count 0 born token live
            live in
        let ws = start_workers F b tk (renewed F b tk h) token stamped c.worker_count 0 born in
        record {
          is_up = refl;
          registers = refl;
          lives = rw idle (
              All-append (λ t. tk.is_cancelled ws.0 (token_of F b tk laws t) ≡ false) _ _
                (background-All F b tk laws
                  (λ t. tk.is_cancelled ws.0 (token_of F b tk laws t) ≡ false) c token id
                  (λ t e. subst (λ u. tk.is_cancelled ws.0 u ≡ false) (sym e) ran.0))
                ran.1);
          workers =
              ap (λ hs. workers_of (hs ++ (background_tasks c token id ++ ws.1))) idle
              ∙ no_workers F c token id ws.1
              ∙ workers_promised (renewed F b tk h) token stamped c.worker_count 0 born;
        }

    -- A start that reports an error spawns nothing.
    abbrev pub Unchanged : Host F b tk → Host F b tk → Type 0
    Unchanged h after =
        (after.server.worker_handles ≡ h.server.worker_handles)
        × (after.server.is_running ≡ h.server.is_running)
        × (after.server.server_id ≡ h.server.server_id)

    abbrev Ends : StartReadings b → Host F b tk → Host F b tk × Result QmlError (Unit {0}) → Type 0
    Ends r h o = (o.1 ≡ ok tt → Started r h o.0) × ((e : QmlError) → o.1 ≡ err e → Unchanged h o.0)

    start-Ends :
        (r : StartReadings b) (h : Host F b tk)
        → IsWired F b tk laws h
        → Ends r h (start F b tk r h)
    start-Ends r h v = elim (start-Outcome F b tk r h) [
      | refused e up out ↦
          subst (Ends r h) (sym out) ((λ q. absurd (cc)), (λ _ _. (refl, refl, refl)))
      | unregistered e store down out ↦
          subst (Ends r h) (sym out) ((λ q. absurd (cc)), (λ _ _. (refl, refl, refl)))
      | spawned store down out ↦
          subst (Ends r h) (sym out)
            ((λ _. spawn-Started r h store (v.idle down).0), (λ e q. absurd (cc)))
    ]

    -- However often a server has been started and stopped before: a start that reports success leaves
    -- it running under its identity, with as many workers as configured, named and numbered as
    -- promised, and no token of any task is cancelled, so that a restart is not born stopped; a start
    -- that reports an error has spawned nothing and leaves the server running or not as it was.
    pub start_brings_up :
        (fresh : CancellationToken) (policy : RetryPolicy F) (config : ServerConfig)
        (registry : WorkerRegistry) (store : b.S) (tokens : tk.T) (cs : List (Call F b tk laws))
        (r : StartReadings b)
        → let h =
            calls F b tk laws (created F b tk laws fresh policy config registry store tokens) cs in
          let out = start F b tk r h in
          (out.1 ≡ ok tt → Started r h out.0) × ((e : QmlError) → out.1 ≡ err e → Unchanged h out.0)
    start_brings_up fresh policy config registry store tokens cs r =
        start-Ends r _ (reached-IsWired F b tk laws fresh policy config registry store tokens cs)
