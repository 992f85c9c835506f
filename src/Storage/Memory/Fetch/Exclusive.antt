-- ===== src/Storage/Memory/Fetch/Exclusive.antt =====
-- Two fetches, with other operations between them, and batches of fetches (src/storage/memory.rs).
use qml.Base.{
  ℕ, zero, suc, min, ◌≡◌, ◌≢◌, ◌≤◌, refl, ap, ◌∙◌, ◌+ℤ◌, ◌<ℤ◌, ◌*ℤ◌, before, <ℤ→before, Bool-cases,
  ◌==◌, pos, String, inl, inr, Option, some, List, [], ◌∷◌, arith, All, length, Option-cases,
  eq_iff,
}
use qml.Base.Maps
use qml.Core.Job.{Job, as_i64}
use qml.Storage.Memory.State.{MemoryStorage, clear}
use qml.Core.JobState.{DateTime}
use qml.Storage.Memory.Jobs
use qml.Storage.Memory.Claim.{claim_due, claim_due_scheduled_jobs, claim_due_retry_jobs}
use qml.Storage.Memory.Locker.{
  FetchClock, fetch_and_lock_job, fetch_rounds, fetch_available_jobs_atomic, unwrap_or,
  try_acquire_job_lock, release_job_lock, cleanup_expired_locks,
}
use qml.Storage.Memory.Recurring
use qml.Storage.Memory.Servers
use qml.Storage.Memory.Leases
use qml.Storage.Memory.Invariant.{IsValid}
use qml.Storage.Memory.Steps.{
  Call, updates, swaps, enqueues, requeues, fetches, locks_job, unlocks_job, heartbeats, reclaims,
  acquires, releases, step, run, step-IsValid, run-IsValid,
}
use qml.Storage.Memory.Fetch.Effect.{fetch_effect, fetch_keeps_lock, fetch_respects_lock}

fetched_lock :
    (c : FetchClock) (s : MemoryStorage) (w : String) (q : Option (List String)) (job : Job)
    → IsValid s
    → (fetch_and_lock_job c s w q).1 ≡ some job
    → Maps.get job.id (fetch_and_lock_job c s w q).0.locks
      ≡ some (record { worker_id = w; expires_at = c.locked_at +ℤ pos 1_800_000 })
fetched_lock c s w q job v e =
    (fetch_effect c s w q v job job.id e).1 ∙ rw ((eq_iff job.id job.id).1 refl)

-- The operations that the processor, the schedulers and the dashboard make between two fetches: all
-- that do not touch the job locks.
abbrev pub LeavesLocks : Call → Type 0
LeavesLocks (fetches _ _ _) = ⊥
LeavesLocks (locks_job _ _ _ _ _) = ⊥
LeavesLocks (unlocks_job _ _) = ⊥
LeavesLocks (requeues _ _) = ⊥
LeavesLocks (reclaims _ _) = ⊥
LeavesLocks _ = Unit

step-locks : (s : MemoryStorage) (c : Call) → LeavesLocks c → (step s c).locks ≡ s.locks
unfolding step Jobs.update Jobs.update_if_state Jobs.delete Jobs.enqueue Jobs.enqueue_insert clear
    claim_due_scheduled_jobs claim_due_retry_jobs claim_due Jobs.delete_expired_jobs
    Recurring.upsert_recurring_job Recurring.remove_recurring_job Recurring.fetch_due_recurring_jobs
    Servers.register_server Servers.heartbeat_server Servers.deregister_server
    Leases.try_acquire_lock Leases.release_lock Leases.cleanup_expired_named_locks
step-locks s (updates job) h = ground arith
step-locks s (swaps job k) h = ground arith
step-locks s (enqueues job) h = ground arith
step-locks s (heartbeats id now) h = ground arith
step-locks s (acquires now resource owner ttl) h = ground arith
step-locks s (releases resource owner) h = ground arith
step-locks s (fetches _ _ _) h = absurd h
step-locks s (locks_job _ _ _ _ _) h = absurd h
step-locks s (unlocks_job _ _) h = absurd h
step-locks s (requeues _ _) h = absurd h
step-locks s (reclaims _ _) h = absurd h
step-locks s c h = refl

-- What may happen while the job `id` is locked for the worker `w` until `until`: fetches, by this
-- worker and any other, and requests for the lock, as long as their sweeps are made before `until`;
-- releases of other locks, or by other workers; and all that does not touch the job locks. Only the
-- two recoveries of jobs whose worker is gone are not among them.
pub data KeepsLock (id w : String) (until : DateTime) : Call → Type 0 where
  early_fetch :
      (c : FetchClock) (worker : String) (queues : Option (List String))
      → c.swept_at <ℤ until
      → KeepsLock id w until (fetches c worker queues)
  early_request :
      (swept now : DateTime) (other worker : String) (secs : ℕ)
      → swept <ℤ until
      → KeepsLock id w until (locks_job swept now other worker secs)
  elsewhere_unlocks :
      (other worker : String) → other ≢ id → KeepsLock id w until (unlocks_job other worker)
  other_unlocks : (worker : String) → w ≢ worker → KeepsLock id w until (unlocks_job id worker)
  apart : (c : Call) → LeavesLocks c → KeepsLock id w until c

module _ (id w : String) (until : DateTime) where
  abbrev pub IsLocked : MemoryStorage → Type 0
  IsLocked s = Maps.get id s.locks ≡ some (record { worker_id = w; expires_at = until })

  KeepsLock-step :
      (s : MemoryStorage) {call : Call}
      → IsValid s
      → KeepsLock id w until call
      → IsLocked s
      → IsLocked (step s call)
  unfolding step Maps.contains_key try_acquire_job_lock release_job_lock cleanup_expired_locks
  KeepsLock-step s v (early_fetch c worker queues early) held =
      fetch_keeps_lock c s worker queues v id _ held early
  KeepsLock-step s v (early_request swept now other worker secs early) held =
      let live = Maps.retain (λ lock. before swept lock.expires_at) s.locks in
      let kept : Maps.get id live ≡ some (record { worker_id = w; expires_at = until }) =
        Maps.get-retain _ id s.locks v.locks_once ∙ rw (held, <ℤ→before swept until early) refl in
      elim (Bool-cases (other == id)) [
        | inl t ↦ ground (arith, eq_iff other id, kept)
        | inr t ↦ ground (
          arith,
          t,
          kept,
          Maps.get-insert other id
              (record { worker_id = worker; expires_at = now +ℤ as_i64 secs *ℤ pos 1000 }) live,
        )
      ]
  KeepsLock-step s v (elsewhere_unlocks other worker n) held =
      ground (arith, eq_iff other id, n, held, Maps.get-remove other id s.locks)
  KeepsLock-step s v (other_unlocks worker n) held = ground (arith, eq_iff w worker, n, held)
  KeepsLock-step s v (apart c h) held = ap (Maps.get id) (step-locks s c h) ∙ held

  KeepsLock-run :
      (s : MemoryStorage) (calls : List Call)
      → IsValid s
      → All (KeepsLock id w until) calls
      → IsLocked s
      → IsLocked (run s calls)
  unfolding run
  KeepsLock-run s [] v h held = held
  KeepsLock-run s (c ∷ calls) v h held =
      KeepsLock-run (step s c) calls (step-IsValid s c v) h.1 (KeepsLock-step s v h.0 held)

-- Once a worker has been given a job, no other fetch gives that job out before 30 minutes are over,
-- whatever is done in between: other fetches by any workers, requests for locks and all else, but for
-- a release of the job's lock by this worker and a recovery of the jobs whose worker is gone. So two
-- workers never hold one job; and a job that has failed and whose retry is due stays unavailable
-- for that time.
pub fetched_once :
    (c d : FetchClock) (s : MemoryStorage) (w w' : String) (q q' : Option (List String)) (a b : Job)
    (calls : List Call)
    → IsValid s
    → (fetch_and_lock_job c s w q).1 ≡ some a
    → All (KeepsLock a.id w (c.locked_at +ℤ pos 1_800_000)) calls
    → d.swept_at <ℤ c.locked_at +ℤ pos 1_800_000
    → (fetch_and_lock_job d (run (fetch_and_lock_job c s w q).0 calls) w' q').1 ≡ some b
    → b.id ≢ a.id
unfolding step
fetched_once c d s w w' q q' a b calls v ea kept early eb =
    let v' : IsValid (fetch_and_lock_job c s w q).0 = step-IsValid s (fetches c w q) v in
    fetch_respects_lock d (run (fetch_and_lock_job c s w q).0 calls) w' q' (run-IsValid _ calls v')
      a.id (record { worker_id = w; expires_at = c.locked_at +ℤ pos 1_800_000 }) b
      (KeepsLock-run a.id w (c.locked_at +ℤ pos 1_800_000) _ calls v' kept
        (fetched_lock c s w q a v ea))
      early eb

-- All locks that a batch takes outlast all its sweeps.
abbrev pub Quick : (ℕ → FetchClock) → Type 0
Quick clock = (i j : ℕ) → (clock i).swept_at <ℤ (clock j).locked_at +ℤ pos 1_800_000

module _ (clock : ℕ → FetchClock) (w : String) (q : Option (List String))
    (quick : Quick clock) where
  rounds_respect :
      (n m : ℕ) (s : MemoryStorage) (k worker : String)
      → IsValid s
      → Maps.get k s.locks
        ≡ some (record { worker_id = worker; expires_at = (clock m).locked_at +ℤ pos 1_800_000 })
      → All (λ job. job.id ≢ k) (fetch_rounds n clock s w q).1
  unfolding fetch_rounds step
  rounds_respect zero m s k worker v held = tt
  rounds_respect (suc n) m s k worker v held =
      elim (Option-cases (fetch_and_lock_job (clock n) s w q).1) [
        | inl e ↦ rw (e, fetch_rounds) tt
        | inr (job, e) ↦
            rw (e, fetch_rounds)
              (
                fetch_respects_lock (clock n) s w q v k _ job held (quick n m) e,
                rounds_respect n m (fetch_and_lock_job (clock n) s w q).0 k worker
                    (step-IsValid s (fetches (clock n) w q) v)
                    (fetch_keeps_lock (clock n) s w q v k _ held (quick n m)),
              )
      ]

  -- Each job of the batch has another identifier than those behind it.
  abbrev pub AllDifferent : List Job → Type 0
  AllDifferent [] = Unit
  AllDifferent (job ∷ jobs) = All (λ other. other.id ≢ job.id) jobs × AllDifferent jobs

  rounds_differ :
      (n : ℕ) (s : MemoryStorage)
      → IsValid s
      → AllDifferent (fetch_rounds n clock s w q).1 × (length (fetch_rounds n clock s w q).1 ≤ n)
  unfolding fetch_rounds step
  rounds_differ zero s v = (tt, omega arith)
  rounds_differ (suc n) s v = elim (Option-cases (fetch_and_lock_job (clock n) s w q).1) [
    | inl e ↦ rw (e, fetch_rounds) (tt, omega arith)
    | inr (job, e) ↦
        let s' = (fetch_and_lock_job (clock n) s w q).0 in
        let v' : IsValid s' = step-IsValid s (fetches (clock n) w q) v in
        let rest = rounds_differ n s' v' in
        rw (e, fetch_rounds)
          (
            (rounds_respect n n s' job.id w v' (fetched_lock (clock n) s w q job v e), rest.0),
            omega (arith, rest.1),
          )
  ]

  -- A batch has at most the jobs asked for (10 by default) and at most 100, all different, if its
  -- rounds are made within 30 minutes.
  pub batch_differs :
      (s : MemoryStorage) (limit : Option ℕ)
      → IsValid s
      → AllDifferent (fetch_available_jobs_atomic clock s w limit q).1
        × (length (fetch_available_jobs_atomic clock s w limit q).1 ≤ unwrap_or limit 10)
        × (length (fetch_available_jobs_atomic clock s w limit q).1 ≤ 100)
  unfolding fetch_available_jobs_atomic
  batch_differs s limit v =
      let r = rounds_differ (min (unwrap_or limit 10) 100) s v in (r.0, omega arith, omega arith)
