-- ===== src/Storage/Memory/Invariant/Registry.antt =====
-- The invariant under the operations on templates, servers and named locks (src/storage/memory.rs).
use qml.Base.{ℕ, refl, String, inl, inr, List, [], ◌∷◌, arith, before, Option-cases, pos, ◌+ℤ◌}
use qml.Base.Maps
use qml.Base.Maps.{Map}
use qml.Core.JobState.{DateTime}
use qml.Core.Recurring.{RecurringJob}
use qml.Core.ServerInfo.{ServerInfo}
use qml.Storage.Memory.State.{MemoryStorage, NamedLock}
use qml.Storage.Memory.Recurring
use qml.Storage.Memory.Servers
use qml.Storage.Memory.Leases
use qml.Storage.Memory.Invariant.{IsValid, recurring_id, server_key}

with_recurring :
    (s : MemoryStorage) (m : Map RecurringJob)
    → IsValid s
    → Maps.Distinct m
    → Maps.Keyed recurring_id m
    → IsValid (record s { recurring = m })
with_recurring s m v d h = ground arith

with_servers :
    (s : MemoryStorage) (m : Map ServerInfo)
    → IsValid s
    → Maps.Distinct m
    → Maps.Keyed server_key m
    → IsValid (record s { servers = m })
with_servers s m v d h = ground arith

pub upsert-IsValid :
    (s : MemoryStorage) (r : RecurringJob)
    → IsValid s
    → IsValid (Recurring.upsert_recurring_job s r)
unfolding Recurring.upsert_recurring_job
upsert-IsValid s r v =
    with_recurring s _ v (Maps.insert-Distinct r.id r s.recurring v.recurring_once)
      (Maps.AllEntries-insert _ r.id r s.recurring refl v.recurring_keyed)

pub remove-IsValid :
    (s : MemoryStorage) (id : String) → IsValid s → IsValid (Recurring.remove_recurring_job s id).0
unfolding Recurring.remove_recurring_job
remove-IsValid s id v =
    with_recurring s _ v (Maps.remove-Distinct id s.recurring v.recurring_once)
      (Maps.AllEntries-remove _ id s.recurring v.recurring_keyed)

park_ok :
    (now : DateTime) (due : List RecurringJob) (m : Map RecurringJob)
    → Maps.Distinct m × Maps.Keyed recurring_id m
    → Maps.Distinct (Recurring.park now due m) × Maps.Keyed recurring_id (Recurring.park now due m)
unfolding Recurring.park
park_ok now [] m h = h
park_ok now (r ∷ due) m h = elim (Option-cases (Maps.get r.id m)) [
  | inl e ↦ rw (e, Recurring.park) (park_ok now due m h)
  | inr (stored, e) ↦
      rw (e, Recurring.park)
        (park_ok now due _ (
          Maps.insert-Distinct r.id _ m h.0,
          Maps.AllEntries-insert _ r.id _ m (Maps.AllEntries-get _ r.id stored m h.1 e) h.1,
        ))
]

pub fetch_recurring-IsValid :
    (s : MemoryStorage) (now : DateTime) (limit : ℕ)
    → IsValid s
    → IsValid (Recurring.fetch_due_recurring_jobs s now limit).0
unfolding Recurring.fetch_due_recurring_jobs
fetch_recurring-IsValid s now limit v =
    let h =
      park_ok now (Recurring.due_recurring s now limit) s.recurring
        (v.recurring_once, v.recurring_keyed) in
    with_recurring s _ v h.0 h.1

pub register-IsValid :
    (s : MemoryStorage) (i : ServerInfo) → IsValid s → IsValid (Servers.register_server s i)
unfolding Servers.register_server
register-IsValid s i v =
    with_servers s _ v (Maps.insert-Distinct i.server_id i s.servers v.servers_once)
      (Maps.AllEntries-insert _ i.server_id i s.servers refl v.servers_keyed)

pub heartbeat-IsValid :
    (s : MemoryStorage) (id : String) (now : DateTime)
    → IsValid s
    → IsValid (Servers.heartbeat_server s id now).0
unfolding Servers.heartbeat_server
heartbeat-IsValid s id now v = elim (Option-cases (Maps.get id s.servers)) [
  | inl e ↦ rw (e, Servers.heartbeat_server) v
  | inr (i, e) ↦
      rw (e, Servers.heartbeat_server)
        (with_servers s _ v (Maps.insert-Distinct id _ s.servers v.servers_once) (
          Maps.AllEntries-insert _ id _ s.servers
            (Maps.AllEntries-get _ id i s.servers v.servers_keyed e) v.servers_keyed))
]

pub deregister-IsValid :
    (s : MemoryStorage) (id : String) → IsValid s → IsValid (Servers.deregister_server s id).0
unfolding Servers.deregister_server
deregister-IsValid s id v =
    with_servers s _ v (Maps.remove-Distinct id s.servers v.servers_once)
      (Maps.AllEntries-remove _ id s.servers v.servers_keyed)

pub acquire-IsValid :
    (now : DateTime) (s : MemoryStorage) (resource owner : String) (ttl : ℕ)
    → IsValid s
    → IsValid (Leases.try_acquire_lock now s resource owner ttl).0
unfolding Leases.try_acquire_lock
acquire-IsValid now s resource owner ttl v = ground (
  arith,
  Maps.insert-Distinct resource (record { owner = owner; expires_at = now +ℤ pos ttl })
      s.named_locks v.named_once,
)

pub release-IsValid :
    (s : MemoryStorage) (resource owner : String)
    → IsValid s
    → IsValid (Leases.release_lock s resource owner).0
unfolding Leases.release_lock
release-IsValid s resource owner v =
    ground (arith, Maps.remove-Distinct resource s.named_locks v.named_once)

pub sweep-IsValid :
    (s : MemoryStorage) (now : DateTime)
    → IsValid s
    → IsValid (Leases.cleanup_expired_named_locks s now).0
unfolding Leases.cleanup_expired_named_locks
sweep-IsValid s now v = ground (
  arith,
  Maps.retain-Distinct (λ (l : NamedLock). before now l.expires_at) s.named_locks v.named_once,
)
