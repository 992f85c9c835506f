-- ===== src/Storage/Postgres/Leases/Rows.antt =====
-- What the queries of src/storage/postgres.rs on named locks do to the rows.
use qml.Base.{
  ℕ, ◌≡◌, ◌≢◌, ◌∙◌, refl, pos, ◌+ℤ◌, ◌≤ℤ◌, before, before→<ℤ, String, true, false, inl, inr, none,
  some, arith, ◌==◌, eq_iff, Bool-cases,
}
use qml.Base.Maps
use qml.Base.Maps.{Map}
use qml.Core.JobState.{DateTime}
use qml.Storage.Memory.State.{NamedLock}
use qml.Storage.Postgres.Leases.{yields_to, upsert_lock, delete_lock, sweep_locks}

abbrev pub Holds : Map NamedLock → String → String → DateTime → Type 0
Holds rows resource owner until =
    Maps.get resource rows ≡ some (record { owner = owner; expires_at = until })

pub not_yet : (now until : DateTime) → now ≤ℤ until → before until now ≡ false
not_yet now until h = elim (Bool-cases (before until now)) [
  | inl e ↦ absurd (let k = before→<ℤ until now e in omega (arith, k, h))
  | inr e ↦ e
]

pub refused :
    (rows : Map NamedLock) (now until : DateTime) (resource owner other : String) (ttl : ℕ)
    → Holds rows resource owner until
    → other ≢ owner
    → now ≤ℤ until
    → upsert_lock now resource other ttl rows ≡ (rows, none)
unfolding upsert_lock yields_to Maps.get Maps.insert
refused rows now until resource owner other ttl h differ early =
    let own : (owner == other) ≡ false = ground (arith, eq_iff owner other) in
    rw (upsert_lock, h, not_yet now until early, own) refl

pub upsert_lock-elsewhere :
    (rows : Map NamedLock) (now until : DateTime) (resource elsewhere owner other : String)
    (ttl : ℕ)
    → Holds rows resource owner until
    → elsewhere ≢ resource
    → Holds (upsert_lock now elsewhere other ttl rows).0 resource owner until
unfolding upsert_lock
upsert_lock-elsewhere rows now until resource elsewhere owner other ttl h apart = ground (
  arith,
  h,
  Maps.get-insert elsewhere resource (record { owner = other; expires_at = now +ℤ pos ttl }) rows,
  eq_iff elsewhere resource,
)

pub delete_lock-other :
    (rows : Map NamedLock) (until : DateTime) (resource owner other : String)
    → Holds rows resource owner until
    → other ≢ owner
    → Holds (delete_lock resource other rows).0 resource owner until
unfolding delete_lock
delete_lock-other rows until resource owner other h differ = ground (arith, h, eq_iff owner other)

pub sweep_locks-early :
    (rows : Map NamedLock) (now until : DateTime) (resource owner : String)
    → Maps.Distinct rows
    → Holds rows resource owner until
    → now ≤ℤ until
    → Holds (sweep_locks now rows).0 resource owner until
unfolding sweep_locks
sweep_locks-early rows now until resource owner d h early =
    Maps.get-retain _ resource rows d ∙ rw (h, not_yet now until early) refl

pub delete_lock-elsewhere :
    (rows : Map NamedLock) (until : DateTime) (resource elsewhere owner other : String)
    → Holds rows resource owner until
    → elsewhere ≢ resource
    → Holds (delete_lock elsewhere other rows).0 resource owner until
unfolding delete_lock
delete_lock-elsewhere rows until resource elsewhere owner other h apart =
    ground (arith, h, Maps.get-remove elsewhere resource rows, eq_iff elsewhere resource)

pub upsert_lock-Distinct :
    (rows : Map NamedLock) (now : DateTime) (resource owner : String) (ttl : ℕ)
    → Maps.Distinct rows
    → Maps.Distinct (upsert_lock now resource owner ttl rows).0
unfolding upsert_lock
upsert_lock-Distinct rows now resource owner ttl d = ground (
  arith,
  d,
  Maps.insert-Distinct resource (record { owner = owner; expires_at = now +ℤ pos ttl }) rows d,
)

pub delete_lock-Distinct :
    (rows : Map NamedLock) (resource owner : String)
    → Maps.Distinct rows
    → Maps.Distinct (delete_lock resource owner rows).0
unfolding delete_lock
delete_lock-Distinct rows resource owner d = ground (arith, d, Maps.remove-Distinct resource rows d)

pub sweep_locks-Distinct :
    (rows : Map NamedLock) (now : DateTime)
    → Maps.Distinct rows
    → Maps.Distinct (sweep_locks now rows).0
unfolding sweep_locks
sweep_locks-Distinct rows now d = Maps.retain-Distinct _ rows d

pub upsert_lock-won :
    (rows : Map NamedLock) (now : DateTime) (resource owner : String) (ttl : ℕ)
    → Maps.is_some (upsert_lock now resource owner ttl rows).1 ≡ true
    → Holds (upsert_lock now resource owner ttl rows).0 resource owner (now +ℤ pos ttl)
unfolding upsert_lock
upsert_lock-won rows now resource owner ttl won = ground (
  arith,
  won,
  eq_iff resource resource,
  Maps.get-insert resource resource (record { owner = owner; expires_at = now +ℤ pos ttl }) rows,
)
