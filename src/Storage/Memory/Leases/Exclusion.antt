-- ===== src/Storage/Memory/Leases/Exclusion.antt =====
-- Who gets a named lock, and who keeps it (src/storage/memory.rs).
use qml.Base.{
  ℕ, ◌≡◌, ◌≢◌, ◌≤◌, refl, sym, ◌∙◌, pos, ◌+ℤ◌, ◌<ℤ◌, ◌≤ℤ◌, before, <ℤ→before, before_false,
  before→<ℤ, String, true, false, ◌⊎◌, inl, inr, Option, none, some, List, [], ◌∷◌, arith, All, leb,
  ◌==◌, eq_iff, Bool-cases, Option-cases,
}
use qml.Base.Maps
use qml.Core.JobState.{DateTime}
use qml.Error.{ok}
use qml.Storage.Memory.State.{MemoryStorage, NamedLock}
use qml.Storage.Memory.Leases.{
  max_ttl, is_held_against, grant, try_acquire_lock, release_lock, cleanup_expired_named_locks,
}
use qml.Storage.Memory.Invariant.{IsValid}
use qml.Storage.Memory.Leases.Unrelated.{LeavesNamed, step-named}
use qml.Storage.Memory.Steps.{Call, acquires, releases, sweeps, step, step-IsValid, run}

-- `owner` holds the resource until `until`.
abbrev pub Holds : MemoryStorage → String → String → DateTime → Type 0
Holds s resource owner until =
    Maps.get resource s.named_locks ≡ some (record { owner = owner; expires_at = until })

-- Free for `owner` at `now`: no lock, an expired one, or the owner's own.
abbrev pub IsFreeFor : DateTime → String → Option NamedLock → Type 0
IsFreeFor now owner none = Unit
IsFreeFor now owner (some l) = (l.expires_at ≤ℤ now) ⊎ (l.owner ≡ owner)

free_not_held :
    (now : DateTime) (owner : String) (l : NamedLock)
    → IsFreeFor now owner (some l)
    → is_held_against now owner l ≡ false
unfolding is_held_against
free_not_held now owner l (inl h) = ground (arith, before→<ℤ now l.expires_at)
free_not_held now owner l (inr h) = ground (arith, eq_iff l.owner owner)

held_not_free :
    (now : DateTime) (owner : String) (l : NamedLock)
    → ¬ IsFreeFor now owner (some l)
    → is_held_against now owner l ≡ true
unfolding is_held_against
held_not_free now owner l n = elim (Bool-cases (before now l.expires_at)) [
  | inr e ↦ absurd (n (inl (before_false now l.expires_at e)))
  | inl e ↦ elim (Bool-cases (l.owner == owner)) [
    | inl t ↦ absurd (n (inr ((eq_iff l.owner owner).0 t)))
    | inr t ↦ rw (e, t)
  ]
]

acquire_free :
    (s : MemoryStorage) (now : DateTime) (resource owner : String) (ttl : ℕ)
    → ttl ≤ max_ttl
    → IsFreeFor now owner (Maps.get resource s.named_locks)
    → try_acquire_lock now s resource owner ttl ≡ (grant s now resource owner ttl, ok true)
unfolding try_acquire_lock
acquire_free s now resource owner ttl fits free =
    let room : leb ttl max_ttl ≡ true = ground arith in
    elim (Option-cases (Maps.get resource s.named_locks)) [
      | inl e ↦ rw (room, e, try_acquire_lock)
      | inr (l, e) ↦
          let h = free_not_held now owner l (rw e at free) in rw (room, e, h, try_acquire_lock)
    ]

acquire_held :
    (s : MemoryStorage) (now : DateTime) (resource owner : String) (ttl : ℕ) (l : NamedLock)
    → ttl ≤ max_ttl
    → Maps.get resource s.named_locks ≡ some l
    → ¬ IsFreeFor now owner (some l)
    → try_acquire_lock now s resource owner ttl ≡ (s, ok false)
unfolding try_acquire_lock
acquire_held s now resource owner ttl l fits e held =
    let room : leb ttl max_ttl ≡ true = ground arith in
    rw (room, e, held_not_free now owner l held, try_acquire_lock)

-- `try_acquire_lock` succeeds on a resource that is free for the owner, who then holds it for the
-- whole `ttl` from now; on any other it is refused and changes nothing. (A `ttl` that does not fit
-- chrono's duration is left out.)
pub try_acquire_lem :
    (s : MemoryStorage) (now : DateTime) (resource owner : String) (ttl : ℕ)
    → ttl ≤ max_ttl
    → (IsFreeFor now owner (Maps.get resource s.named_locks)
        → ((try_acquire_lock now s resource owner ttl).1 ≡ ok true)
          × Holds (try_acquire_lock now s resource owner ttl).0 resource owner (now +ℤ pos ttl))
      × (¬ IsFreeFor now owner (Maps.get resource s.named_locks)
          → try_acquire_lock now s resource owner ttl ≡ (s, ok false))
unfolding grant
try_acquire_lem s now resource owner ttl fits = (
  (λ free. rw (acquire_free s now resource owner ttl fits free) (
    refl,
    Maps.get-insert resource resource _ s.named_locks ∙ rw ((eq_iff resource resource).1 refl),
  )),
  (λ held. elim (Option-cases (Maps.get resource s.named_locks)) [
    | inl e ↦ absurd (held (rw e tt))
    | inr (l, e) ↦ acquire_held s now resource owner ttl l fits e (λ f. held (rw e f))
  ]),
)

won-Holds :
    (s : MemoryStorage) (now : DateTime) (resource owner : String) (ttl : ℕ)
    → ttl ≤ max_ttl
    → (try_acquire_lock now s resource owner ttl).1 ≡ ok true
    → Holds (try_acquire_lock now s resource owner ttl).0 resource owner (now +ℤ pos ttl)
unfolding try_acquire_lock grant is_held_against
won-Holds s now resource owner ttl fits won = ground (
  arith,
  won,
  eq_iff resource resource,
  Maps.get-insert resource resource (record { owner = owner; expires_at = now +ℤ pos ttl })
      s.named_locks,
)

-- What others may do while `owner` holds `resource` until `until`: they may ask for the resource and
-- release it in their own name, sweep expired locks before `until`, and do anything that is not about
-- this named lock.
pub data Foreign (resource owner : String) (until : DateTime) : Call → Type 0 where
  other_acquires :
      (now : DateTime) (other : String) (ttl : ℕ)
      → other ≢ owner
      → now <ℤ until
      → Foreign resource owner until (acquires now resource other ttl)
  other_releases :
      (other : String) → other ≢ owner → Foreign resource owner until (releases resource other)
  elsewhere_acquires :
      (now : DateTime) (elsewhere other : String) (ttl : ℕ)
      → elsewhere ≢ resource
      → Foreign resource owner until (acquires now elsewhere other ttl)
  elsewhere_releases :
      (elsewhere other : String)
      → elsewhere ≢ resource
      → Foreign resource owner until (releases elsewhere other)
  early_sweep : (now : DateTime) → now <ℤ until → Foreign resource owner until (sweeps now)
  unrelated : (c : Call) → LeavesNamed c → Foreign resource owner until c

Foreign-step :
    (s : MemoryStorage) (resource owner : String) (until : DateTime) {c : Call}
    → IsValid s
    → Foreign resource owner until c
    → Holds s resource owner until
    → Holds (step s c) resource owner until
unfolding step try_acquire_lock release_lock cleanup_expired_named_locks grant
Foreign-step s resource owner until v (other_acquires now other ttl n early) h =
    ground (arith, eq_iff owner other, <ℤ→before now until early)
Foreign-step s resource owner until v (other_releases other n) h =
    ground (arith, eq_iff owner other)
Foreign-step s resource owner until v (elsewhere_acquires now elsewhere other ttl n) h = ground (
  arith,
  h,
  Maps.get-insert elsewhere resource (record { owner = other; expires_at = now +ℤ pos ttl })
      s.named_locks,
  eq_iff elsewhere resource,
)
Foreign-step s resource owner until v (elsewhere_releases elsewhere other n) h =
    ground (arith, h, Maps.get-remove elsewhere resource s.named_locks, eq_iff elsewhere resource)
Foreign-step s resource owner until v (early_sweep now early) h =
    Maps.get-retain _ resource s.named_locks v.named_once ∙ rw (h, <ℤ→before now until early)
Foreign-step s resource owner until v (unrelated c leaves) h = rw (step-named s c leaves) h

held_through :
    (s : MemoryStorage) (resource owner : String) (until : DateTime) (cs : List Call)
    → IsValid s
    → All (Foreign resource owner until) cs
    → Holds s resource owner until
    → Holds (run s cs) resource owner until
unfolding run
held_through s resource owner until [] v f h = h
held_through s resource owner until (c ∷ cs) v f h =
    held_through (step s c) resource owner until cs (step-IsValid s c v) f.1
      (Foreign-step s resource owner until v f.0 h)

-- Mutual exclusion: after an owner has taken a resource, and whatever others then do, any other
-- owner that asks for it before the `ttl` has passed is refused.
pub acquired_alone :
    (s : MemoryStorage) (now later : DateTime) (resource owner other : String) (ttl ttl' : ℕ)
    (cs : List Call)
    → IsValid s
    → ttl ≤ max_ttl
    → ttl' ≤ max_ttl
    → other ≢ owner
    → later <ℤ now +ℤ pos ttl
    → (try_acquire_lock now s resource owner ttl).1 ≡ ok true
    → All (Foreign resource owner (now +ℤ pos ttl)) cs
    → (try_acquire_lock later
        (run (try_acquire_lock now s resource owner ttl).0 cs)
        resource
        other
        ttl').1
      ≡ ok false
unfolding step
acquired_alone s now later resource owner other ttl ttl' cs v fits fits' differ early won foreign =
    let s' = (try_acquire_lock now s resource owner ttl).0 in
    let v' : IsValid s' = step-IsValid s (acquires now resource owner ttl) v in
    let held =
      held_through s' resource owner (now +ℤ pos ttl) cs v' foreign
        (won-Holds s now resource owner ttl fits won) in
    rw (
      acquire_held (run s' cs) later resource other ttl' _ fits' held (λ free. elim free [
        | inl expired ↦ absurd (omega arith)
        | inr mine ↦ absurd (differ (sym mine))
      ]))
