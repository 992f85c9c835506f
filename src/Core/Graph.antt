-- ===== src/Core/Graph.antt =====
-- The diagram of job states that src/core/job_state.rs allows, as a relation between kinds.
use qml.Base.{◌≡◌, refl, ◌∙◌, ◌↔◌, Bool, true, false, not, arith}
use qml.Core.JobState.{JobState, JobStateKind, kind, is_final, is_active, can_transition_to}

pub data Edge : JobStateKind → JobStateKind → Type 0 where
  claim : Edge JobStateKind.enqueued JobStateKind.processing
  cancel : Edge JobStateKind.enqueued JobStateKind.deleted
  delay : Edge JobStateKind.enqueued JobStateKind.scheduled
  reject : Edge JobStateKind.enqueued JobStateKind.failed
  succeed : Edge JobStateKind.processing JobStateKind.succeeded
  fail : Edge JobStateKind.processing JobStateKind.failed
  abandon : Edge JobStateKind.processing JobStateKind.deleted
  postpone : Edge JobStateKind.processing JobStateKind.awaiting_retry
  promote : Edge JobStateKind.scheduled JobStateKind.enqueued
  unschedule : Edge JobStateKind.scheduled JobStateKind.deleted
  reconsider : Edge JobStateKind.failed JobStateKind.awaiting_retry
  discard : Edge JobStateKind.failed JobStateKind.deleted
  revive : Edge JobStateKind.failed JobStateKind.enqueued
  retry : Edge JobStateKind.awaiting_retry JobStateKind.enqueued
  give_up : Edge JobStateKind.awaiting_retry JobStateKind.deleted
  archive : Edge JobStateKind.succeeded JobStateKind.deleted

pub ruleset edges = (
  claim, cancel, delay, reject, succeed, fail, abandon, postpone, promote, unschedule, reconsider,
  discard, revive, retry, give_up, archive,
)

allowed : JobStateKind → JobStateKind → Bool
allowed JobStateKind.enqueued JobStateKind.processing = true
allowed JobStateKind.enqueued JobStateKind.deleted = true
allowed JobStateKind.enqueued JobStateKind.scheduled = true
allowed JobStateKind.enqueued JobStateKind.failed = true
allowed JobStateKind.processing JobStateKind.succeeded = true
allowed JobStateKind.processing JobStateKind.failed = true
allowed JobStateKind.processing JobStateKind.deleted = true
allowed JobStateKind.processing JobStateKind.awaiting_retry = true
allowed JobStateKind.scheduled JobStateKind.enqueued = true
allowed JobStateKind.scheduled JobStateKind.deleted = true
allowed JobStateKind.failed JobStateKind.awaiting_retry = true
allowed JobStateKind.failed JobStateKind.deleted = true
allowed JobStateKind.failed JobStateKind.enqueued = true
allowed JobStateKind.awaiting_retry JobStateKind.enqueued = true
allowed JobStateKind.awaiting_retry JobStateKind.deleted = true
allowed JobStateKind.succeeded JobStateKind.deleted = true
allowed _ _ = false

Edge-allowed : {k l : JobStateKind} → Edge k l → allowed k l ≡ true
unfolding allowed
Edge-allowed claim = refl
Edge-allowed _ = refl

can_transition_to-allowed : (s t : JobState) → can_transition_to s t ≡ allowed (kind s) (kind t)
unfolding can_transition_to allowed
can_transition_to-allowed (JobState.enqueued _ _) t = ground arith
can_transition_to-allowed s t = ground arith

allowed-Edge : (k l : JobStateKind) → allowed k l ≡ true → Edge k l
unfolding allowed
allowed-Edge k l h = grind (arith, edges)

-- A state may pass to another exactly when the diagram has an edge between their kinds, whatever
-- the instants, names and messages in the two states are.
pub can_transition_to_iff :
    (s t : JobState) → (can_transition_to s t ≡ true) ↔ Edge (kind s) (kind t)
can_transition_to_iff s t = (
  (λ h. allowed-Edge (kind s) (kind t) (cc (can_transition_to-allowed s t))),
  (λ e. can_transition_to-allowed s t ∙ Edge-allowed e),
)

-- Every state is either final or active, and none is both.
pub is_final-is_active : (s : JobState) → is_final s ≡ not (is_active s)
is_final-is_active (JobState.enqueued _ _) = refl
is_final-is_active _ = refl
