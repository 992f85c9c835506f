-- ===== src/Storage/Memory/Jobs/Expiry.antt =====
-- `delete_expired_jobs` of src/storage/memory.rs.
use qml.Base.{
  ◌+◌, ◌≡◌, refl, ◌∙◌, String, ◌≤ℤ◌, before, before_false, before→<ℤ, Bool-cases, inl, inr, Bool,
  true, false, not, Option, none, some, [], ◌∷◌, arith, length, filter,
}
use qml.Base.Maps
use qml.Base.Maps.{Map}
use qml.Core.JobState.{DateTime}
use qml.Core.Job.{Job}
use qml.Storage.Memory.State.{MemoryStorage}
use qml.Storage.Memory.Jobs.{unexpired, delete_expired_jobs}
use qml.Storage.Memory.Invariant.{IsValid}

length-retain :
    (p : Job → Bool) (m : Map Job)
    → length (Maps.retain p m) + length (filter (λ job. not (p job)) (Maps.values m)) ≡ length m
unfolding Maps.retain Maps.values
length-retain p [] = refl
length-retain p ((k, job) ∷ m) = ground (arith, length-retain p m)

-- Past its expiry at `now`.
abbrev pub Due : DateTime → Option DateTime → Type 0
Due now none = ⊥
Due now (some ts) = ts ≤ℤ now

expired :
    (now : DateTime) (o : Option DateTime)
    → Due now o
    → (elim o [ none ↦ true | some ts ↦ before now ts ]) ≡ false
expired now none h = absurd h
expired now (some ts) h = ground (arith, before→<ℤ now ts)

lasting :
    (now : DateTime) (o : Option DateTime)
    → ¬ Due now o
    → (elim o [ none ↦ true | some ts ↦ before now ts ]) ≡ true
lasting now none h = refl
lasting now (some ts) h = elim (Bool-cases (before now ts)) [
  | inl e ↦ e
  | inr e ↦ absurd (h (before_false now ts e))
]

-- The sweep deletes a stored job exactly if it has an expiry that has come, whatever state the job
-- is in; it changes no other job, and it returns the number of jobs that it deleted.
pub delete_expired_lem :
    (s : MemoryStorage) (now : DateTime) (k : String) (job : Job)
    → IsValid s
    → Maps.get k s.jobs ≡ some job
    → (Due now job.expires_at → Maps.get k (delete_expired_jobs s now).0.jobs ≡ none)
      × (¬ Due now job.expires_at → Maps.get k (delete_expired_jobs s now).0.jobs ≡ some job)
      × ((delete_expired_jobs s now).1
          ≡ length (filter (λ j. not (unexpired now j)) (Maps.values s.jobs)))
unfolding delete_expired_jobs
delete_expired_lem s now k job v stored = (
  (λ h. Maps.get-retain _ k s.jobs v.jobs_ok.0 ∙ rw (stored, expired now job.expires_at h)),
  (λ h. Maps.get-retain _ k s.jobs v.jobs_ok.0 ∙ rw (stored, lasting now job.expires_at h)),
  omega (arith, length-retain (unexpired now) s.jobs),
)
