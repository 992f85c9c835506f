-- ===== src/Storage/Postgres/Leases/Exclusion.antt =====
-- Who keeps a named lock of src/storage/postgres.rs, whichever queries fail.
use qml.Base.{
  ℕ, ◌≡◌, ◌≢◌, ◌∙◌, refl, sym, ap, subst, pos, ◌+ℤ◌, ◌≤ℤ◌, before, String, Bool, true, false, ◌⊎◌,
  inl, inr, Option, none, List, [], ◌∷◌, All, ◌==◌, eq_iff, Bool-cases,
}
use qml.Base.Maps
use qml.Base.Maps.{Map}
use qml.Core.JobState.{DateTime}
use qml.Error.{StorageError, Result, ok, err}
use qml.Storage.Memory.State.{NamedLock}
use qml.Storage.Postgres.Driver.{SqlxError, execute, op_failed, and_then}
use qml.Storage.Postgres.Driver.Repair.{Effect, execute-Effect}
use qml.Storage.Postgres.Leases.{
  LockSession, upsert_lock, delete_lock, sweep_locks, try_acquire_lock, release_lock,
  cleanup_expired_named_locks,
}
use qml.Storage.Postgres.Leases.Rows.{
  Holds, refused, upsert_lock-elsewhere, delete_lock-other, sweep_locks-early,
  delete_lock-elsewhere, upsert_lock-Distinct, delete_lock-Distinct, sweep_locks-Distinct,
  upsert_lock-won,
}

-- What the function on the rows keeps stays, whether the query is made, fails, or is lost.
module _ {A : Type 0} (f : Map NamedLock → Map NamedLock × A) (P : Map NamedLock → Type 0)
    (s : LockSession) where
  kept_by :
      (p : LockSession × Result SqlxError A)
      → Effect {T = Map NamedLock} {A = A} (λ rows. ok (f rows)) s.rows p
      → P s.rows
      → P (f s.rows).0
      → P p.0.rows
  kept_by (s', ok a) e before after =
      let same : f s.rows ≡ (s'.rows, a) = cc in subst P (ap (λ q. q.0) same) after
  kept_by (s', err e) (inl h) before after = subst P (sym h) before
  kept_by (s', err e) (inr (a, e')) before after =
      let same : f s.rows ≡ (s'.rows, a) = cc in subst P (ap (λ q. q.0) same) after

  execute-keeps : P s.rows → P (f s.rows).0 → P (execute (λ rows. ok (f rows)) s).0.rows
  execute-keeps before after =
      kept_by (execute (λ rows. ok (f rows)) s) (execute-Effect (λ rows. ok (f rows)) s).0 before
        after

pub data LockCall : Type 0 where
  acquires : DateTime → String → String → ℕ → LockCall
  releases : String → String → LockCall
  sweeps : DateTime → LockCall

unfoldable pub lock_step : LockSession → LockCall → LockSession
unfolding try_acquire_lock release_lock cleanup_expired_named_locks
lock_step s (acquires now resource owner ttl) = (try_acquire_lock now s resource owner ttl).0
lock_step s (releases resource owner) = (release_lock s resource owner).0
lock_step s (sweeps now) = (cleanup_expired_named_locks s now).0

unfoldable pub lock_run : LockSession → List LockCall → LockSession
unfolding lock_step
lock_run s [] = s
lock_run s (c ∷ cs) = lock_run (lock_step s c) cs

-- What others do while `owner` holds `resource` until `until`: anything about other locks, and on
-- this one they ask for it until then, release it in their own name, and sweep until then.
abbrev pub Foreign : String → String → DateTime → LockCall → Type 0
Foreign resource owner until (acquires now r o ttl) =
    (r ≢ resource) ⊎ ((o ≢ owner) × (now ≤ℤ until))
Foreign resource owner until (releases r o) = (r ≢ resource) ⊎ (o ≢ owner)
Foreign resource owner until (sweeps now) = now ≤ℤ until

op_failed-rows :
    {A : Type 0} (m : String) (p : LockSession × Result SqlxError A) → (op_failed m p).0 ≡ p.0
op_failed-rows m (s, ok a) = refl
op_failed-rows m (s, err e) = refl

and_then-rows :
    {A B : Type 0} (p : LockSession × Result StorageError A) (f : A → B)
    → (and_then p (λ s a. (s, ok (f a)))).0 ≡ p.0
and_then-rows (s, ok a) f = refl
and_then-rows (s, err e) f = refl

-- No key twice, and the lock as it is held.
abbrev pub Kept : String → String → DateTime → Map NamedLock → Type 0
Kept resource owner until rows = Maps.Distinct rows × Holds rows resource owner until

step-Kept :
    (s : LockSession) (resource owner : String) (until : DateTime) (c : LockCall)
    → Foreign resource owner until c
    → Kept resource owner until s.rows
    → Kept resource owner until (lock_step s c).rows
unfolding lock_step try_acquire_lock release_lock cleanup_expired_named_locks
step-Kept s resource owner until (acquires now r o ttl) foreign k =
    let P = Kept resource owner until in
    let f : Map NamedLock → Map NamedLock × Option String = upsert_lock now r o ttl in
    let answer = execute (λ rows. ok (f rows)) s in
    let same =
      and_then-rows (op_failed "Failed to acquire lock" answer) Maps.is_some
      ∙ op_failed-rows "Failed to acquire lock" answer in
    subst (λ (t : LockSession). P t.rows) (sym same)
      (execute-keeps f P s k (
        upsert_lock-Distinct s.rows now r o ttl k.0,
        elim foreign [
          | inl apart ↦ upsert_lock-elsewhere s.rows now until resource r owner o ttl k.1 apart
          | inr (differ, early) ↦ elim (Bool-cases (r == resource)) [
            | inl e ↦
                let q : r ≡ resource = (eq_iff r resource).0 e in
                subst (λ x. Holds (upsert_lock now x o ttl s.rows).0 resource owner until) (sym q)
                  (subst (λ t. Holds t.0 resource owner until)
                    (sym (refused s.rows now until resource owner o ttl k.1 differ early)) k.1)
            | inr e ↦
                upsert_lock-elsewhere s.rows now until resource r owner o ttl k.1
                  (λ q. absurd (let t = (eq_iff r resource).1 q in cc))
          ]
        ],
      ))
step-Kept s resource owner until (releases r o) foreign k =
    let P = Kept resource owner until in
    let f : Map NamedLock → Map NamedLock × Bool = delete_lock r o in
    let answer = execute (λ rows. ok (f rows)) s in
    subst (λ (t : LockSession). P t.rows) (sym (op_failed-rows "Failed to release lock" answer))
      (execute-keeps f P s k (
        delete_lock-Distinct s.rows r o k.0,
        elim (Bool-cases (r == resource)) [
          | inr e ↦
              delete_lock-elsewhere s.rows until resource r owner o k.1
                (λ q. absurd (let t = (eq_iff r resource).1 q in cc))
          | inl e ↦
              let q : r ≡ resource = (eq_iff r resource).0 e in
              elim foreign [
                | inl apart ↦ absurd (apart q)
                | inr differ ↦
                    subst (λ x. Holds (delete_lock x o s.rows).0 resource owner until) (sym q)
                      (delete_lock-other s.rows until resource owner o k.1 differ)
              ]
        ],
      ))
step-Kept s resource owner until (sweeps now) early k =
    let P = Kept resource owner until in
    let f : Map NamedLock → Map NamedLock × ℕ = sweep_locks now in
    let answer = execute (λ rows. ok (f rows)) s in
    subst (λ (t : LockSession). P t.rows)
      (sym (op_failed-rows "Failed to clean up expired named locks" answer))
      (execute-keeps f P s k (
        sweep_locks-Distinct s.rows now k.0,
        sweep_locks-early s.rows now until resource owner k.0 k.1 early,
      ))

run-Kept :
    (s : LockSession) (resource owner : String) (until : DateTime) (cs : List LockCall)
    → All (Foreign resource owner until) cs
    → Kept resource owner until s.rows
    → Kept resource owner until (lock_run s cs).rows
unfolding lock_run
run-Kept s resource owner until [] f k = k
run-Kept s resource owner until (c ∷ cs) f k =
    run-Kept (lock_step s c) resource owner until cs f.1 (step-Kept s resource owner until c f.0 k)

abbrev answered :
    LockSession × Result SqlxError (Option String) → LockSession × Result StorageError Bool
answered p = and_then (op_failed "Failed to acquire lock" p) (λ s row. (s, ok (Maps.is_some row)))

module _ (s : LockSession) (now : DateTime) (resource owner : String) (ttl : ℕ) where
  answered-won :
      (p : LockSession × Result SqlxError (Option String))
      → Effect {T = Map NamedLock} {A = Option String}
          (λ rows. ok (upsert_lock now resource owner ttl rows))
          s.rows
          p
      → (answered p).1 ≡ ok true
      → Holds (answered p).0.rows resource owner (now +ℤ pos ttl)
  answered-won (s', ok a) e won =
      let same : upsert_lock now resource owner ttl s.rows ≡ (s'.rows, a) = cc in
      let some_row : Maps.is_some a ≡ true = cc in
      subst (λ q. Holds q.0 resource owner (now +ℤ pos ttl)) same
        (upsert_lock-won s.rows now resource owner ttl
          (subst (λ q. Maps.is_some q.1 ≡ true) (sym same) some_row))
  answered-won (s', err x) e won = absurd (cc)

  answered-refused :
      (p : LockSession × Result SqlxError (Option String))
      → Effect {T = Map NamedLock} {A = Option String}
          (λ rows. ok (upsert_lock now resource owner ttl rows))
          s.rows
          p
      → upsert_lock now resource owner ttl s.rows ≡ (s.rows, none)
      → (answered p).1 ≢ ok true
  answered-refused (s', ok a) e r won =
      let same : upsert_lock now resource owner ttl s.rows ≡ (s'.rows, a) = cc in
      let lost : a ≡ none = ap (λ q. q.1) (sym same ∙ r) in
      let some_row : Maps.is_some a ≡ true = cc in
      let never : false ≡ true = rw lost at some_row in absurd (cc)
  answered-refused (s', err x) e r won = absurd (cc)

-- Mutual exclusion on Postgres: after an owner has taken a named lock, and whatever others then do
-- up to its expiry, any other owner that asks for it until then does not get it, whichever queries
-- fail on the way. No named lock has two rows.
pub lock_taken_alone :
    (s : LockSession) (now later : DateTime) (resource owner other : String) (ttl ttl' : ℕ)
    (cs : List LockCall)
    → Maps.Distinct s.rows
    → other ≢ owner
    → later ≤ℤ now +ℤ pos ttl
    → (try_acquire_lock now s resource owner ttl).1 ≡ ok true
    → All (Foreign resource owner (now +ℤ pos ttl)) cs
    → (try_acquire_lock later
        (lock_run (try_acquire_lock now s resource owner ttl).0 cs)
        resource
        other
        ttl').1
      ≢ ok true
unfolding try_acquire_lock
lock_taken_alone s now later resource owner other ttl ttl' cs d differ early won foreign =
    let s' = (try_acquire_lock now s resource owner ttl).0 in
    let held : Holds s'.rows resource owner (now +ℤ pos ttl) =
      answered-won s now resource owner ttl
        (execute (λ rows. ok (upsert_lock now resource owner ttl rows)) s)
        (execute-Effect (λ rows. ok (upsert_lock now resource owner ttl rows)) s).0 won in
    let distinct : Maps.Distinct s'.rows =
      subst (λ (t : LockSession). Maps.Distinct t.rows)
        (sym (
          and_then-rows
            (op_failed "Failed to acquire lock"
              (execute (λ rows. ok (upsert_lock now resource owner ttl rows)) s))
            Maps.is_some
          ∙ op_failed-rows "Failed to acquire lock"
              (execute (λ rows. ok (upsert_lock now resource owner ttl rows)) s)))
        (execute-keeps (upsert_lock now resource owner ttl) Maps.Distinct s d
          (upsert_lock-Distinct s.rows now resource owner ttl d)) in
    let t = lock_run s' cs in
    let kept = run-Kept s' resource owner (now +ℤ pos ttl) cs foreign (distinct, held) in
    answered-refused t later resource other ttl'
      (execute (λ rows. ok (upsert_lock later resource other ttl' rows)) t)
      (execute-Effect (λ rows. ok (upsert_lock later resource other ttl' rows)) t).0
      (refused t.rows later (now +ℤ pos ttl) resource owner other ttl' kept.1 differ early)
