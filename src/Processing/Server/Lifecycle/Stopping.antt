-- ===== src/Processing/Server/Lifecycle/Stopping.antt =====
-- What `stop` of src/processing/server.rs reaches.
use qml.Base.{
  ◌≡◌, refl, sym, subst, Bool, true, false, inl, inr, none, List, [], All, All-map, if◌then◌else◌,
  if_true,
}
use qml.Processing.Retry.{RetryPolicy}
use qml.Processing.Worker.{WorkerRegistry, CancellationToken}
use qml.Processing.Server.Config.{ServerConfig}
use qml.Processing.Server.Backend.{ServerStore, Tokens, TokenLaws}
use qml.Processing.Server.Spawning.{Task}
use qml.Processing.Server.Lifecycle.{Host, stop}
use qml.Processing.Server.Lifecycle.Wiring

module _ (F : Type 0) (b : ServerStore) (tk : Tokens) (laws : TokenLaws tk) where
  open laws use {cancel_self, cancel_under}

  abbrev H : Type 0
  H = Host F b tk

  cancel-Hears :
      (s : tk.T) (token : CancellationToken) (t : Task F)
      → Wiring.Hears F b tk laws token t
      → tk.is_cancelled (tk.cancel s token) (Wiring.token_of F b tk laws t) ≡ true
  cancel-Hears s token t (inl e) =
      subst (λ u. tk.is_cancelled (tk.cancel s token) u ≡ true) (sym e) (cancel_self s token)
  cancel-Hears s token t (inr c) = cancel_under s token _ c

  stop_running :
      (joined : Bool) (h : H)
      → Wiring.IsWired F b tk laws h
      → h.server.is_running ≡ true
      → let (after, aborted) = stop F b tk joined h in
        All
          (λ t. tk.is_cancelled after.tokens (Wiring.token_of F b tk laws t) ≡ true)
          h.server.worker_handles
        × (aborted ≡ (if joined then [] else h.server.worker_handles))
        × (after.server
            ≡ record h.server { is_running = false; server_id = none; worker_handles = [] })
        × ((again : Bool) → stop F b tk again after ≡ (after, []))
  unfolding stop
  stop_running joined h v up =
      subst
        (λ (o : H × List (Task F)).
          All (λ t. tk.is_cancelled o.0.tokens (Wiring.token_of F b tk laws t) ≡ true)
            h.server.worker_handles
          × (o.1 ≡ (if joined then [] else h.server.worker_handles))
          × (o.0.server
              ≡ record h.server { is_running = false; server_id = none; worker_handles = [] })
          × ((again : Bool) → stop F b tk again o.0 ≡ (o.0, [])))
        (sym (if_true _ _ _ up))
        (
          All-map (cancel-Hears h.tokens h.server.shutdown_token) _ v.hears,
          refl,
          refl,
          λ again. refl,
        )

  -- However often a server has been started and stopped before, a stop of it while it runs cancels
  -- the token of every task that it has, the loops and all workers; the tasks that do not end in time
  -- are aborted, all of them; the server is stopped, with no tasks and no identity, and otherwise as
  -- it was, and a second stop changes nothing.
  pub stop_cancels_tasks :
      (fresh : CancellationToken) (policy : RetryPolicy F) (config : ServerConfig)
      (registry : WorkerRegistry) (store : b.S) (tokens : tk.T)
      (cs : List (Wiring.Call F b tk laws)) (joined : Bool)
      → let h =
          Wiring.calls F b tk laws
            (Wiring.created F b tk laws fresh policy config registry store tokens)
            cs in
        h.server.is_running ≡ true
        → let (after, aborted) = stop F b tk joined h in
          All
            (λ t. tk.is_cancelled after.tokens (Wiring.token_of F b tk laws t) ≡ true)
            h.server.worker_handles
          × (aborted ≡ (if joined then [] else h.server.worker_handles))
          × (after.server
              ≡ record h.server { is_running = false; server_id = none; worker_handles = [] })
          × ((again : Bool) → stop F b tk again after ≡ (after, []))
  stop_cancels_tasks fresh policy config registry store tokens cs joined up =
      stop_running joined _
        (Wiring.reached-IsWired F b tk laws fresh policy config registry store tokens cs) up
