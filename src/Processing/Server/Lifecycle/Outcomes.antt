-- ===== src/Processing/Server/Lifecycle/Outcomes.antt =====
-- What one `start` of src/processing/server.rs comes to.
use qml.Base.{
  ◌≡◌, refl, sym, ap, subst, ◌-ℤ◌, String, true, false, inl, inr, Option, none, some, Bool-cases,
  if◌then◌else◌, if_true, if_false,
}
use qml.Error.{StorageError, QmlError, Result, ok, err}
use qml.Processing.Server.Backend.{ServerStore, Tokens}
use qml.Processing.Server.Spawning.{BackgroundJobServer}
use qml.Processing.Server.Lifecycle.{Host, StartReadings, spawn, after_register, start, identity_of}

module _ (F : Type 0) (b : ServerStore) (tk : Tokens) where
  abbrev H : Type 0
  H = Host F b tk

  -- The server with the token of this start.
  abbrev pub renewed : H → BackgroundJobServer F
  renewed h = record h.server { shutdown_token = (tk.new_token h.tokens).1 }

  abbrev pub identity : StartReadings b → H → Option String
  identity r h =
      if h.server.config.enable_heartbeat then some (identity_of h.server.config r) else none

  -- What a start comes to: it is refused, it fails to register, or it spawns the tasks.
  pub data Outcome (r : StartReadings b) (h : H) (out : H × Result QmlError (Unit {0}))
      : Type 0 where
    refused : (e : QmlError) → h.server.is_running ≡ true → out ≡ (h, err e) → Outcome r h out
    unregistered :
        (e : QmlError) (store : b.S)
        → h.server.is_running ≡ false
        → out ≡ (
          record { server = renewed h; store = store; tokens = (tk.new_token h.tokens).0 },
          err e,
        )
        → Outcome r h out
    spawned :
        (store : b.S)
        → h.server.is_running ≡ false
        → out ≡ (spawn F b tk (renewed h) (identity r h) store (tk.new_token h.tokens).0, ok tt)
        → Outcome r h out

  registered_Outcome :
      (r : StartReadings b) (h : H) (q : b.S × Result StorageError (Unit {0}))
      → h.server.is_running ≡ false
      → h.server.config.enable_heartbeat ≡ true
      → Outcome r h (
          after_register F b tk
            (renewed h)
            (identity_of h.server.config r)
            (tk.new_token h.tokens).0
            q)
  unfolding after_register
  registered_Outcome r h (store, ok _) stopped on = spawned store stopped (rw on refl)
  registered_Outcome r h (store, err e) stopped on = unregistered _ store stopped refl

  pub start-Outcome : (r : StartReadings b) (h : H) → Outcome r h (start F b tk r h)
  unfolding start
  start-Outcome r h =
      let swept =
        (b.requeue_stranded_jobs r.sweep_times h.store
          (r.swept_at -ℤ h.server.config.stale_processing_after)).0 in
      elim (Bool-cases h.server.is_running) [
        | inl e ↦ refused _ e (if_true _ _ _ e)
        | inr e ↦
            subst (Outcome r h) (sym (if_false _ _ _ e))
              (elim (Bool-cases h.server.config.enable_heartbeat) [
                | inl on ↦
                    subst (Outcome r h) (sym (if_true _ _ _ on)) (registered_Outcome r h _ e on)
                | inr off ↦ subst (Outcome r h) (sym (if_false _ _ _ off)) (
                    spawned swept e (
                      ap (λ i. (spawn F b tk (renewed h) i swept (tk.new_token h.tokens).0, ok tt))
                        (sym (if_false _ _ _ off))))
              ])
      ]
