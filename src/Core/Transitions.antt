-- ===== src/Core/Transitions.antt =====
-- What any sequence of `Job::set_state` calls can do to a job (src/core/job.rs).
use qml.Base.{
  ◌≡◌, ◌≢◌, refl, sym, subst, ◌↔◌, ◌⊎◌, inl, inr, Bool, true, false, List, [], ◌∷◌, Bool-cases,
}
use qml.Core.JobState.{JobState, JobStateKind, kind, can_transition_to}
use qml.Error.{QmlError, ok, err}
use qml.Core.Job.{Job, set_state}
use qml.Core.Graph.{Edge, can_transition_to_iff}

-- The requests in turn; a refused one leaves the job as it is.
unfoldable pub set_states : Job → List JobState → Job
set_states job [] = job
set_states job (s ∷ ss) = set_states (set_state job s).0 ss

set_state_cases :
    (job : Job) (s : JobState)
    → (¬ Edge (kind job.state) (kind s) × ((set_state job s).0 ≡ job))
      ⊎ ((Edge (kind job.state) (kind s)) × ((set_state job s).0 ≡ record job { state = s }))
unfolding set_state
set_state_cases job s = elim (Bool-cases (can_transition_to job.state s)) [
  | inl e ↦ inr ((can_transition_to_iff job.state s).0 e, rw e)
  | inr e ↦ inl ((λ g. cc ((can_transition_to_iff job.state s).1 g)), rw e)
]

-- The way of a job through some requests, each of which moves it along an edge of the diagram and
-- changes nothing but its state, or is refused for want of an edge.
pub data Walk : Job → List JobState → Job → Type 0 where
  ends : {job : Job} → Walk job [] job
  moves :
      {job j : Job} {s : JobState} {ss : List JobState}
      → Edge (kind job.state) (kind s)
      → Walk (record job { state = s }) ss j
      → Walk job (s ∷ ss) j
  stays :
      {job j : Job} {s : JobState} {ss : List JobState}
      → ¬ Edge (kind job.state) (kind s)
      → Walk job ss j
      → Walk job (s ∷ ss) j

-- `set_state` succeeds exactly along an edge of the diagram. It then installs the new state and
-- nothing else; refused, it leaves the job alone and reports the two states.
pub set_state_lem :
    (job : Job) (s : JobState)
    → (((set_state job s).1 ≡ ok tt) ↔ Edge (kind job.state) (kind s))
      × (((set_state job s).1 ≡ ok tt) → (set_state job s).0 ≡ record job { state = s })
      × (((set_state job s).1 ≢ ok tt)
          → set_state job s ≡ (job, err (QmlError.invalid_state_transition job.state s)))
unfolding set_state
set_state_lem job s = elim (Bool-cases (can_transition_to job.state s)) [
  | inl e ↦ rw e (
    ((λ _. (can_transition_to_iff job.state s).0 e), (λ _. refl)),
    (λ _. refl),
    (λ n. absurd (n refl)),
  )
  | inr e ↦ rw e (
    ((λ h. cc), (λ g. absurd (cc ((can_transition_to_iff job.state s).1 g)))),
    (λ h. cc),
    (λ n. refl),
  )
]

no_Edge_deleted : {k l : JobStateKind} → Edge k l → k ≢ JobStateKind.deleted
no_Edge_deleted Edge.claim h = cc
no_Edge_deleted e h = cc

deleted_stays :
    (job : Job) (ss : List JobState)
    → kind job.state ≡ JobStateKind.deleted
    → kind (set_states job ss).state ≡ JobStateKind.deleted
unfolding set_states
deleted_stays job [] h = h
deleted_stays job (s ∷ ss) h = elim (set_state_cases job s) [
  | inl (_, e) ↦
      subst (λ j. kind (set_states j ss).state ≡ JobStateKind.deleted) (sym e)
        (deleted_stays job ss h)
  | inr (g, e) ↦ absurd (no_Edge_deleted g h)
]

-- Succeeded and deleted jobs are done.
abbrev pub is_done : JobStateKind → Bool
is_done JobStateKind.succeeded = true
is_done JobStateKind.deleted = true
is_done _ = false

Edge_done : {k l : JobStateKind} → Edge k l → is_done k ≡ true → l ≡ JobStateKind.deleted
Edge_done Edge.archive h = refl
Edge_done Edge.claim h = cc
Edge_done e h = cc

-- No sequence of requests brings a succeeded or deleted job back: it stays exactly as it is, or it
-- ends up deleted.
pub set_states_done :
    (job : Job) (ss : List JobState)
    → is_done (kind job.state) ≡ true
    → (set_states job ss ≡ job) ⊎ (kind (set_states job ss).state ≡ JobStateKind.deleted)
unfolding set_states
set_states_done job [] h = inl refl
set_states_done job (s ∷ ss) h = elim (set_state_cases job s) [
  | inl (_, e) ↦ subst Goal (sym e) (set_states_done job ss h)
  | inr (g, e) ↦
      subst Goal (sym e) (inr (deleted_stays (record job { state = s }) ss (Edge_done g h)))
]
  where
    Goal : Job → Type 0
    Goal j = (set_states j ss ≡ job) ⊎ (kind (set_states j ss).state ≡ JobStateKind.deleted)
