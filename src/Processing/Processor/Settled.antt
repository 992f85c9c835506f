-- ===== src/Processing/Processor/Settled.antt =====
-- What the handlers of src/processing/processor.rs leave behind for a job that is in processing.
use qml.Base.{
  ℕ, ◌+ℤ◌, ◌≡◌, ◌≢◌, refl, sym, ap, subst, ◌∙◌, String, Bool, true, false, Option, none, some, [],
  ◌∷◌, ◌++◌, inl, inr, Bool-cases, arith, if◌then◌else◌,
}
use qml.Base.Maps.{Map}
use qml.Core.JobState.{
  JobState, DateTime, is_final, can_transition_to, new_succeeded, new_failed, new_awaiting_retry,
}
use qml.Core.Job.{Job, set_state, add_metadata}
use qml.Error.{QmlError, Result, ok, map_err, from_storage_error}
use qml.Processing.Retry.{Floats}
use qml.Processing.Store.{JobStore, StoreLaws}
use qml.Processing.Processor

set_state_ok :
    (job : Job) (s : JobState)
    → can_transition_to job.state s ≡ true
    → set_state job s ≡ (record job { state = s }, ok tt)
unfolding set_state
set_state_ok job s h = rw h refl

not_final : (s : JobState) → Processor.is_processing s ≡ true → is_final s ≡ false
not_final (JobState.processing _ _ _) h = refl
not_final (JobState.enqueued _ _) h = absurd (cc)
not_final (JobState.succeeded _ _ _) h = absurd (cc)
not_final (JobState.failed _ _ _) h = absurd (cc)
not_final (JobState.deleted _ _) h = absurd (cc)
not_final (JobState.scheduled _ _ _) h = absurd (cc)
not_final (JobState.awaiting_retry _ _ _) h = absurd (cc)

-- The states that a run ends in.
abbrev pub ends_run : JobState → Bool
ends_run (JobState.succeeded _ _ _) = true
ends_run (JobState.failed _ _ _) = true
ends_run (JobState.awaiting_retry _ _ _) = true
ends_run _ = false

ends_succeeded :
    (at : DateTime) (d : ℕ) (r : Option String) → ends_run (new_succeeded at d r) ≡ true
unfolding new_succeeded
ends_succeeded at d r = refl

ends_failed : (at : DateTime) (e : String) (r : Option String) → ends_run (new_failed at e r) ≡ true
unfolding new_failed
ends_failed at e r = refl

ends_retry : (at time : DateTime) (e : String) → ends_run (new_awaiting_retry at time e) ≡ true
unfolding new_awaiting_retry
ends_retry at time e = refl

ends :
    (s e : JobState)
    → Processor.is_processing s ≡ true
    → ends_run e ≡ true
    → can_transition_to s e ≡ true
unfolding can_transition_to
ends (JobState.processing _ _ _) (JobState.succeeded _ _ _) h k = refl
ends (JobState.processing _ _ _) (JobState.failed _ _ _) h k = refl
ends (JobState.processing _ _ _) (JobState.awaiting_retry _ _ _) h k = refl
ends s e h k = ground arith

pub add_exec_metadata-id :
    (job : Job) (m : Map String) → (Processor.add_exec_metadata job m).id ≡ job.id
unfolding Processor.add_exec_metadata add_metadata
add_exec_metadata-id job [] = refl
add_exec_metadata-id job ((key, value) ∷ rest) =
    add_exec_metadata-id (add_metadata job _ value) rest

and_then_ok {ℓ} :
    {W : Type ℓ} (r : W × Job × Result QmlError (Unit {0})) (w : W) (job : Job)
    (rest : W → Job → W × Result QmlError (Unit {0}))
    → r ≡ (w, job, ok tt)
    → Processor.and_then r rest ≡ rest w job
unfolding Processor.and_then
and_then_ok r w job rest e = ap (λ r. Processor.and_then r rest) e

module _ (fl : Floats) (texts : Processor.Texts) (st : JobStore) where
  abbrev World : Type 0
  World = Processor.World fl texts st

  abbrev P : Type 0
  P = Processor.JobProcessor fl.F

  abbrev T : Type 0
  T = Processor.Readings fl.F

  apply_lem :
      (p : P) (w : World) (job : Job) (s : JobState)
      → Processor.is_processing job.state ≡ true
      → ends_run s ≡ true
      → Processor.apply_state_change fl texts st p w job s ≡ (
          let seen = record job { state = s } in
          (Processor.fire_state_change_hook fl texts st p w seen job.state, seen, ok tt))
  unfolding Processor.apply_state_change Processor.announce
  apply_lem p w job s h k =
      ap (λ r. Processor.announce fl texts st p w job.state r)
        (set_state_ok job s (ends job.state s h k))

  pub complete_lem :
      (p : P) (t : T) (w : World) (job : Job) (result : Option String) (d : ℕ) (m : Map String)
      → Processor.is_processing job.state ≡ true
      → Processor.complete_job_successfully fl texts st p t w job result d m ≡ (
          let seen = record job { state = new_succeeded t.settled_at d result } in
          Processor.save fl texts st
            (Processor.fire_state_change_hook fl texts st p w seen job.state)
            (Processor.add_exec_metadata
              (record seen { expires_at = some (t.expiry_now +ℤ p.succeeded_ttl) })
              m))
  unfolding Processor.complete_job_successfully
  complete_lem p t w job result d m h =
      let s = new_succeeded t.settled_at d result in
      rw (not_final job.state h)
        (and_then_ok _ _ _ _ (apply_lem p w job s h (ends_succeeded t.settled_at d result)))

  pub fail_lem :
      (p : P) (t : T) (w : World) (job : Job) (error : String) (trace : Option String)
      → Processor.is_processing job.state ≡ true
      → Processor.fail_job_permanently fl texts st p t w job error trace ≡ (
          let seen = record job { state = new_failed t.settled_at error trace } in
          Processor.save fl texts st
            (Processor.fire_state_change_hook fl texts st p w seen job.state)
            (record seen { expires_at = some (t.expiry_now +ℤ p.failed_ttl) }))
  unfolding Processor.fail_job_permanently
  fail_lem p t w job error trace h =
      let s = new_failed t.settled_at error trace in
      rw (not_final job.state h)
        (and_then_ok _ _ _ _ (apply_lem p w job s h (ends_failed t.settled_at error trace)))

  pub retry_lem :
      (p : P) (t : T) (w : World) (job : Job) (error : String) (at : Option DateTime)
      → Processor.is_processing job.state ≡ true
      → Processor.should_retry_attempt fl texts st p job none ≡ true
      → Processor.handle_job_retry fl texts st p t w job error at ≡ (
          let seen = record job {
            state =
                new_awaiting_retry t.settled_at (Processor.retry_time fl texts st p t job at) error;
          } in
          Processor.save fl texts st
            (Processor.fire_state_change_hook fl texts st p w seen job.state)
            seen)
  unfolding Processor.handle_job_retry
  retry_lem p t w job error at h may =
      let s = new_awaiting_retry t.settled_at (Processor.retry_time fl texts st p t job at) error in
      rw (not_final job.state h, may)
        (and_then_ok _ _ _ _ (
          ap (λ r. (w, r.0, r.1))
            (set_state_ok job s (ends job.state s h (ends_retry t.settled_at _ error)))))

  pub no_retry_lem :
      (p : P) (t : T) (w : World) (job : Job) (error : String) (at : Option DateTime)
      → Processor.is_processing job.state ≡ true
      → Processor.should_retry_attempt fl texts st p job none ≡ false
      → Processor.handle_job_retry fl texts st p t w job error at
        ≡ Processor.fail_job_permanently fl texts st p t w job error none
  unfolding Processor.handle_job_retry
  no_retry_lem p t w job error at h may = rw (not_final job.state h, may) refl

  module _ (stored : st.S → String → Option Job) (laws : StoreLaws st stored) where
    -- A world in which the job of `seen` was changed and written: `final` is stored under its id and
    -- every other job is as it was, and a hook, when there is one, was called once, with the job as it
    -- was when its state changed, the state before and the state after.
    pub record Settled (p : P) (before : World) (prev : JobState) (seen final : Job) (after : World)
        : Type 0 where
      pub is_stored : stored after.store final.id ≡ some final
      pub keeps_others :
          (id : String) → id ≢ final.id → stored after.store id ≡ stored before.store id
      pub calls_hook : after.hook_calls ≡ (
          if p.on_state_change
          then before.hook_calls ++ record { job = seen; prev = prev; now = seen.state } ∷ []
          else before.hook_calls)

    fired_store :
        (p : P) (w : World) (job : Job) (prev : JobState)
        → (Processor.fire_state_change_hook fl texts st p w job prev).store ≡ w.store
    unfolding Processor.fire_state_change_hook
    fired_store p w job prev = elim (Bool-cases p.on_state_change) [
      | inl e ↦ rw e refl
      | inr e ↦ rw e refl
    ]

    fired_calls :
        (p : P) (w : World) (job : Job) (prev : JobState)
        → (Processor.fire_state_change_hook fl texts st p w job prev).hook_calls ≡ (
            if p.on_state_change
            then w.hook_calls ++ record { job = job; prev = prev; now = job.state } ∷ []
            else w.hook_calls)
    unfolding Processor.fire_state_change_hook
    fired_calls p w job prev = elim (Bool-cases p.on_state_change) [
      | inl e ↦ rw e refl
      | inr e ↦ rw e refl
    ]

    pub saved :
        (p : P) (w : World) (prev : JobState) (seen final : Job)
        → stored w.store final.id ≢ none
        → let r =
            Processor.save fl texts st
              (Processor.fire_state_change_hook fl texts st p w seen prev)
              final in
          (r.1 ≡ ok tt) × Settled p w prev seen final r.0
    unfolding Processor.save
    saved p w prev seen final there =
        let same = fired_store p w seen prev in
        let found : stored (Processor.fire_state_change_hook fl texts st p w seen prev).store
              final.id
            ≢ none =
          subst (λ s. stored s final.id ≢ none) (sym same) there in
        (
          ap (map_err from_storage_error) (laws.update_ok _ final found),
          record {
            is_stored = laws.update_same _ final found;
            keeps_others = λ id ne. laws.update_other _ final id ne ∙ ap (λ s. stored s id) same;
            calls_hook = fired_calls p w seen prev;
          },
        )
