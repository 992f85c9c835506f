-- ===== src/Storage/Memory/Ready.antt =====
-- In words, what the tests of src/storage/memory.rs on a job let through to a worker.
use qml.Base.{
  ◌≡◌, refl, ◌↔◌, ◌⊎◌, inl, inr, ◌≤ℤ◌, at_most, at_most→≤ℤ, at_most_false, String, true, Option,
  none, some, List, [], ◌∷◌, arith, ◌==◌, eq_iff, Bool-cases,
}
use qml.Base.Maps
use qml.Core.JobState.{JobState, DateTime}
use qml.Core.Job.{Job}
use qml.Storage.Memory.State.{MemoryStorage, JobLock, is_available}
use qml.Storage.Memory.Locker.{FetchClock, contains, queue_allows}

-- Enqueued, or put off until an instant that has come.
abbrev pub IsReady : DateTime → JobState → Type 0
IsReady now (JobState.enqueued _ _) = Unit
IsReady now (JobState.scheduled _ enqueue_at _) = enqueue_at ≤ℤ now
IsReady now (JobState.awaiting_retry _ retry_at _) = retry_at ≤ℤ now
IsReady now _ = ⊥

abbrev pub IsNamed : String → List String → Type 0
IsNamed q [] = ⊥
IsNamed q (x ∷ xs) = (x ≡ q) ⊎ IsNamed q xs

-- A worker without queues, or with an empty list of them, serves every queue.
abbrev pub IsServed : Option (List String) → String → Type 0
IsServed none q = Unit
IsServed (some []) q = Unit
IsServed (some (x ∷ xs)) q = IsNamed q (x ∷ xs)

-- No lock, or one that has run out.
abbrev pub NotHeld : DateTime → Option JobLock → Type 0
NotHeld t none = Unit
NotHeld t (some l) = l.expires_at ≤ℤ t

-- What a worker may take: a job that is due, in one of the worker's queues, and not locked.
abbrev pub CanRun : FetchClock → Option (List String) → MemoryStorage → Job → Type 0
CanRun c queues s job =
    IsReady c.seen_at job.state
    × IsServed queues job.queue
    × NotHeld c.swept_at (Maps.get job.id s.locks)

pub at_most_iff : (a b : DateTime) → (at_most a b ≡ true) ↔ (a ≤ℤ b)
at_most_iff a b = (
  at_most→≤ℤ a b,
  (λ h. elim (Bool-cases (at_most a b)) [
    | inl e ↦ e
    | inr e ↦ absurd (let k = at_most_false a b e in omega arith)
  ]),
)

pub is_available-IsReady :
    (now : DateTime) (s : JobState) → (is_available now s ≡ true) ↔ IsReady now s
unfolding is_available
is_available-IsReady now (JobState.enqueued _ _) = ((λ h. tt), (λ h. refl))
is_available-IsReady now (JobState.scheduled _ at _) = at_most_iff at now
is_available-IsReady now (JobState.awaiting_retry _ at _) = at_most_iff at now
is_available-IsReady now (JobState.processing _ _ _) = ((λ h. absurd (cc)), (λ h. absurd h))
is_available-IsReady now (JobState.succeeded _ _ _) = ((λ h. absurd (cc)), (λ h. absurd h))
is_available-IsReady now (JobState.failed _ _ _) = ((λ h. absurd (cc)), (λ h. absurd h))
is_available-IsReady now (JobState.deleted _ _) = ((λ h. absurd (cc)), (λ h. absurd h))

contains-IsNamed : (q : String) (xs : List String) → (contains xs q ≡ true) ↔ IsNamed q xs
contains-IsNamed q [] = ((λ h. absurd (cc)), (λ h. absurd h))
contains-IsNamed q (x ∷ xs) =
    let ih = contains-IsNamed q xs in
    elim (Bool-cases (x == q)) [
      | inl e ↦ rw e ((λ h. inl ((eq_iff x q).0 e)), (λ h. refl))
      | inr e ↦ rw e (
        (λ h. inr (ih.0 h)),
        (λ h. elim h [ inl p ↦ absurd (let b = (eq_iff x q).1 p in cc) | inr l ↦ ih.1 l ]),
      )
    ]

pub queue_allows-IsServed :
    (queues : Option (List String)) (q : String)
    → (queue_allows queues q ≡ true) ↔ IsServed queues q
unfolding queue_allows
queue_allows-IsServed none q = ((λ h. tt), (λ h. refl))
queue_allows-IsServed (some []) q = ((λ h. tt), (λ h. refl))
queue_allows-IsServed (some (x ∷ xs)) q = contains-IsNamed q (x ∷ xs)
