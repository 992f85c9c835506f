-- ===== src/Processing/Server/Lifecycle/Wiring.antt =====
-- The cancellation of the tasks of a server over any history of `start` and `stop`
-- (src/processing/server.rs).
use qml.Base.{
  ℕ, zero, suc, ◌+◌, ◌≡◌, refl, sym, subst, String, Bool, false, ◌⊎◌, inl, inr, Option, none, some,
  List, [], ◌∷◌, All, All-map, All-append, All-optional, Bool-cases, if_true, if_false,
}
use qml.Processing.Worker.{WorkerRegistry, CancellationToken}
use qml.Processing.Retry.{RetryPolicy}
use qml.Processing.Server.Config.{ServerConfig}
use qml.Processing.Server.Backend.{ServerStore, Tokens, TokenLaws}
use qml.Processing.Server.Spawning.{
  Task, scheduler, recurring_poller, cleanup_worker, heartbeat_worker, worker, BackgroundJobServer,
  new, background_tasks,
}
use qml.Processing.Server.Lifecycle.Outcomes.{refused, unregistered, spawned, start-Outcome}
use qml.Processing.Server.Lifecycle.{
  Host, StartReadings, stamped_name, start_workers, spawn, start, stop,
}

module _ (F : Type 0) (b : ServerStore) (tk : Tokens) (laws : TokenLaws tk) where
  open laws use {
    ChildOf, new_live, new_keeps, child_live, child_keeps, child_under, cancel_self, cancel_under,
  }

  abbrev H : Type 0
  H = Host F b tk

  abbrev pub token_of : Task F → CancellationToken
  token_of (scheduler _ t) = t
  token_of (recurring_poller _ t) = t
  token_of (cleanup_worker _ t) = t
  token_of (heartbeat_worker _ _ _ t) = t
  token_of (worker _ _ t) = t

  -- The task ends with this token.
  abbrev pub Hears : CancellationToken → Task F → Type 0
  Hears token t = (token_of t ≡ token) ⊎ ChildOf (token_of t) token

  -- Every task hears the shutdown token, and a server that does not run has no tasks and no
  -- registered identity.
  pub record IsWired (h : H) : Type 0 where
    pub hears : All (Hears h.server.shutdown_token) h.server.worker_handles
    pub idle :
        h.server.is_running ≡ false → (h.server.worker_handles ≡ []) × (h.server.server_id ≡ none)

  -- What holds of every task with a token holds of all background tasks with it.
  pub background-All :
      (P : Task F → Type 0) (c : ServerConfig) (token : CancellationToken) (id : Option String)
      → ((t : Task F) → token_of t ≡ token → P t)
      → All P (background_tasks c token id)
  unfolding background_tasks
  background-All P c token id h =
      All-append P _ _ (All-optional P c.enable_scheduler _ (h _ refl)) (
        All-append P _ _ (All-optional P c.enable_recurring _ (h _ refl))
          (All-append P _ _ (All-optional P c.enable_cleanup _ (h _ refl)) (last id)))
    where
      last :
          (id : Option String)
          → All P (elim id [
            | none ↦ []
            | some i ↦ heartbeat_worker i c.heartbeat_interval c.dead_server_timeout token ∷ []
          ])
      last none = tt
      last (some i) = (h _ refl, tt)

  workers_under :
      (sv : BackgroundJobServer F) (token : CancellationToken) (stamped : String) (rounds i : ℕ)
      (tokens : tk.T)
      → All
          (λ t. ChildOf (token_of t) token)
          (start_workers F b tk sv token stamped rounds i tokens).1
  unfolding start_workers
  workers_under sv token stamped zero i tokens = tt
  workers_under sv token stamped (suc rounds) i tokens =
      let born = (tk.new_token tokens).0 in
      (
        child_under born token,
        workers_under sv token stamped rounds (i + 1) (tk.child_token born token).0,
      )

  -- The workers live on their child tokens, and no token that was alive is cancelled.
  pub workers_live :
      (sv : BackgroundJobServer F) (token : CancellationToken) (stamped : String) (rounds i : ℕ)
      (tokens : tk.T) (u : CancellationToken)
      → tk.is_cancelled tokens token ≡ false
      → tk.is_cancelled tokens u ≡ false
      → let r = start_workers F b tk sv token stamped rounds i tokens in
        (tk.is_cancelled r.0 u ≡ false) × All (λ t. tk.is_cancelled r.0 (token_of t) ≡ false) r.1
  unfolding start_workers
  workers_live sv token stamped zero i tokens u p q = (q, tt)
  workers_live sv token stamped (suc rounds) i tokens u p q =
      let born = (tk.new_token tokens).0 in
      let made = (tk.child_token born token).0 in
      let cancel = (tk.child_token born token).1 in
      let p' = child_keeps born token token (new_keeps tokens token p) in
      let live = child_live born token (new_keeps tokens token p) in
      (
        (workers_live sv token stamped rounds (i + 1) made u p'
            (child_keeps born token u (new_keeps tokens u q))).0,
        workers_live sv token stamped rounds (i + 1) made cancel p' live,
      )

  spawn-IsWired :
      (sv : BackgroundJobServer F) (id : Option String) (store : b.S) (tokens : tk.T)
      → sv.worker_handles ≡ []
      → IsWired (spawn F b tk sv id store tokens)
  unfolding spawn
  spawn-IsWired sv id store tokens none_left = record {
    hears = rw none_left (
        All-append (Hears token) _ _
          (background-All (Hears token) sv.config token id (λ t e. inl e))
          (All-map (λ t h. inr h) _
            (workers_under sv token (stamped_name sv.config id) sv.config.worker_count 0 tokens)));
    idle = λ h. absurd (cc);
  }
    where
      token : CancellationToken
      token = sv.shutdown_token

  start-IsWired : (r : StartReadings b) (h : H) → IsWired h → IsWired (start F b tk r h).0
  start-IsWired r h v = elim (start-Outcome F b tk r h) [
    | refused e up out ↦ subst (λ o. IsWired o.0) (sym out) v
    | unregistered e store down out ↦
        subst (λ o. IsWired o.0) (sym out) (record { hears = rw (v.idle down).0 tt; idle = v.idle })
    | spawned store down out ↦
        subst (λ o. IsWired o.0) (sym out) (spawn-IsWired _ _ store _ (v.idle down).0)
  ]

  stop-IsWired : (joined : Bool) (h : H) → IsWired h → IsWired (stop F b tk joined h).0
  unfolding stop
  stop-IsWired joined h v = elim (Bool-cases h.server.is_running) [
    | inl e ↦
        subst (λ (o : H × List (Task F)). IsWired o.0) (sym (if_true _ _ _ e))
          (record { hears = tt; idle = λ _. (refl, refl) })
    | inr e ↦ subst (λ (o : H × List (Task F)). IsWired o.0) (sym (if_false _ _ _ e)) v
  ]

  -- One call of the server's owner.
  pub data Call : Type 0 where
    starts : StartReadings b → Call
    stops : Bool → Call

  unfoldable pub call : H → Call → H
  call h (starts r) = (start F b tk r h).0
  call h (stops joined) = (stop F b tk joined h).0

  unfoldable pub calls : H → List Call → H
  unfolding call
  calls h [] = h
  calls h (c ∷ cs) = calls (call h c) cs

  call-IsWired : (h : H) (c : Call) → IsWired h → IsWired (call h c)
  unfolding call
  call-IsWired h (starts r) v = start-IsWired r h v
  call-IsWired h (stops joined) v = stop-IsWired joined h v

  calls-IsWired : (h : H) (cs : List Call) → IsWired h → IsWired (calls h cs)
  unfolding calls
  calls-IsWired h [] v = v
  calls-IsWired h (c ∷ cs) v = calls-IsWired (call h c) cs (call-IsWired h c v)

  -- A server as it is created.
  abbrev pub created :
      CancellationToken → RetryPolicy F → ServerConfig → WorkerRegistry → b.S → tk.T → H
  created fresh policy config registry store tokens = record {
    server = new fresh policy config registry;
    store = store;
    tokens = tokens;
  }

  new-IsWired :
      (fresh : CancellationToken) (policy : RetryPolicy F) (config : ServerConfig)
      (registry : WorkerRegistry) (store : b.S) (tokens : tk.T)
      → IsWired (created fresh policy config registry store tokens)
  unfolding new
  new-IsWired fresh policy config registry store tokens = record {
    hears = tt;
    idle = λ _. (refl, refl);
  }

  pub reached-IsWired :
      (fresh : CancellationToken) (policy : RetryPolicy F) (config : ServerConfig)
      (registry : WorkerRegistry) (store : b.S) (tokens : tk.T) (cs : List Call)
      → IsWired (calls (created fresh policy config registry store tokens) cs)
  reached-IsWired fresh policy config registry store tokens cs =
      calls-IsWired _ cs (new-IsWired fresh policy config registry store tokens)
