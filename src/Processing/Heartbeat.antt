-- ===== src/Processing/Heartbeat.antt =====
-- src/processing/heartbeat.rs on the memory storage, whose operations cannot fail.
use qml.Base.{
  ◌≡◌, ◌≢◌, refl, sym, subst, ◌∙◌, ◌-ℤ◌, ◌<ℤ◌, ◌≤ℤ◌, before, before→<ℤ, <ℤ→before, String, Bool,
  true, false, inl, inr, none, some, List, [], ◌∷◌, filter, arith, Bool-cases, Option-cases,
  if◌then◌else◌, ◌==◌, eq_iff,
}
use qml.Base.Maps
use qml.Base.Maps.{Map}
use qml.Core.JobState.{DateTime, Duration}
use qml.Core.ServerInfo.{ServerInfo}
use qml.Storage.Memory.State.{MemoryStorage}
use qml.Storage.Memory.Servers.{
  heartbeat_server, deregister_server, list_dead_servers, reclaim_jobs_from_server,
}
use qml.Storage.Memory.Invariant.{IsValid, server_key}
use qml.Storage.Memory.Invariant.Registry.{heartbeat-IsValid}

-- The loop over the dead peers; the own row is skipped.
unfoldable pub scan : (String → DateTime) → String → List ServerInfo → MemoryStorage → MemoryStorage
unfolding reclaim_jobs_from_server deregister_server
scan now_for server_id [] s = s
scan now_for server_id (peer ∷ dead) s =
    if peer.server_id == server_id
    then scan now_for server_id dead s
    else scan now_for server_id dead
        (deregister_server (reclaim_jobs_from_server now_for s peer.server_id).0 peer.server_id).0

unfoldable pub bump_and_scan :
    (String → DateTime) → String → Duration → MemoryStorage → DateTime → MemoryStorage
unfolding scan heartbeat_server list_dead_servers
bump_and_scan now_for server_id dead_server_timeout s now =
    let bumped = (heartbeat_server s server_id now).0 in
    scan now_for server_id (list_dead_servers bumped (now -ℤ dead_server_timeout)) bumped

-- A server of the list, other than the own one, has this identifier.
abbrev pub is_dropped : String → List ServerInfo → String → Bool
is_dropped server_id [] k = false
is_dropped server_id (peer ∷ dead) k =
    if peer.server_id == server_id
    then is_dropped server_id dead k
    else if peer.server_id == k
    then true
    else is_dropped server_id dead k

get-scan :
    (now_for : String → DateTime) (server_id : String) (dead : List ServerInfo) (s : MemoryStorage)
    (k : String)
    → Maps.get k (scan now_for server_id dead s).servers
      ≡ (if is_dropped server_id dead k then none else Maps.get k s.servers)
unfolding scan deregister_server reclaim_jobs_from_server
get-scan now_for server_id [] s k = refl
get-scan now_for server_id (peer ∷ dead) s k = elim (Bool-cases (peer.server_id == server_id)) [
  | inl own ↦ rw own (get-scan now_for server_id dead s k)
  | inr other ↦
      let s' =
        (deregister_server (reclaim_jobs_from_server now_for s peer.server_id).0
          peer.server_id).0 in
      rw other (
        get-scan now_for server_id dead s' k
        ∙ ground (arith, Maps.get-remove peer.server_id k s.servers))
]

own_kept :
    (server_id : String) (dead : List ServerInfo) → is_dropped server_id dead server_id ≡ false
own_kept server_id [] = refl
own_kept server_id (peer ∷ dead) = ground (arith, own_kept server_id dead)

dropped_dead :
    (server_id : String) (stale : DateTime) (m : Map ServerInfo) (k : String)
    → Maps.Distinct m
    → Maps.Keyed server_key m
    → k ≢ server_id
    → is_dropped server_id (filter (λ i. before i.last_heartbeat stale) (Maps.values m)) k
      ≡ (elim (Maps.get k m) [ none ↦ false | some i ↦ before i.last_heartbeat stale ])
unfolding Maps.values Maps.get
dropped_dead server_id stale [] k d h other = refl
dropped_dead server_id stale ((i, info) ∷ m) k d h other =
    let name : info.server_id ≡ i = h.0 in
    let ih = dropped_dead server_id stale m k d.1 h.1 other in
    elim (Bool-cases (i == k)) [
      | inl e ↦
          let same : i ≡ k = (eq_iff i k).0 e in
          let absent : Maps.get k m ≡ none = subst (λ j. Maps.get j m ≡ none) same d.0 in
          let ours : info.server_id == k ≡ true = (eq_iff info.server_id k).1 (name ∙ same) in
          let foreign : info.server_id == server_id ≡ false =
            elim (Bool-cases (info.server_id == server_id)) [
              | inl t ↦ absurd (other (sym (name ∙ same) ∙ (eq_iff info.server_id server_id).0 t))
              | inr f ↦ f
            ] in
          elim (Bool-cases (before info.last_heartbeat stale)) [
            | inl stopped ↦ rw (e, stopped, foreign, ours) refl
            | inr alive ↦ rw (e, alive) (ih ∙ rw absent refl)
          ]
      | inr e ↦ ground (arith, ih, e, name, eq_iff info.server_id k, eq_iff i k)
    ]

not_before : (a b : DateTime) → b ≤ℤ a → before a b ≡ false
not_before a b h = elim (Bool-cases (before a b)) [
  | inl e ↦ absurd (let k = before→<ℤ a b e in omega arith)
  | inr e ↦ e
]

bumped_self :
    (s : MemoryStorage) (server_id : String) (now : DateTime) (info : ServerInfo)
    → Maps.get server_id s.servers ≡ some info
    → Maps.get server_id (heartbeat_server s server_id now).0.servers
      ≡ some (record info { last_heartbeat = now })
unfolding heartbeat_server
bumped_self s server_id now info stored =
    rw (stored, heartbeat_server)
      (ground (
        arith,
        Maps.get-insert server_id server_id (record info { last_heartbeat = now }) s.servers,
        eq_iff server_id server_id,
      ))

bumped_other :
    (s : MemoryStorage) (server_id : String) (now : DateTime) (k : String)
    → k ≢ server_id
    → Maps.get k (heartbeat_server s server_id now).0.servers ≡ Maps.get k s.servers
unfolding heartbeat_server
bumped_other s server_id now k other = elim (Option-cases (Maps.get server_id s.servers)) [
  | inl e ↦ rw (e, heartbeat_server) refl
  | inr (i, e) ↦
      rw (e, heartbeat_server)
        (ground (
          arith,
          Maps.get-insert server_id k (record i { last_heartbeat = now }) s.servers,
          eq_iff server_id k,
        ))
]

-- One turn of a heartbeat worker, for a registered server: the own row stays and carries the new
-- instant, whatever the clock says; the row of any other server is removed exactly if its last
-- heartbeat is further back than the timeout, and is otherwise left as it is.
pub bump_and_scan_lem :
    (now_for : String → DateTime) (server_id : String) (timeout : Duration) (s : MemoryStorage)
    (now : DateTime) (k : String) (info : ServerInfo)
    → IsValid s
    → Maps.get k s.servers ≡ some info
    → let after = (bump_and_scan now_for server_id timeout s now).servers in
      (k ≡ server_id → Maps.get k after ≡ some (record info { last_heartbeat = now }))
      × (k ≢ server_id → info.last_heartbeat <ℤ now -ℤ timeout → Maps.get k after ≡ none)
      × (k ≢ server_id → now -ℤ timeout ≤ℤ info.last_heartbeat → Maps.get k after ≡ some info)
unfolding bump_and_scan list_dead_servers
bump_and_scan_lem now_for server_id timeout s now k info v stored =
    let bumped = (heartbeat_server s server_id now).0 in
    let w = heartbeat-IsValid s server_id now v in
    let stale = now -ℤ timeout in
    let dead = list_dead_servers bumped stale in
    let left = get-scan now_for server_id dead bumped k in
    (
      (λ own.
          get-scan now_for server_id dead bumped k
          ∙ subst
              (λ i.
                (if is_dropped server_id dead i then none else Maps.get i bumped.servers)
                ≡ some (record info { last_heartbeat = now }))
              (sym own)
              (rw (own_kept server_id dead) (
                bumped_self s server_id now info
                  (subst (λ i. Maps.get i s.servers ≡ some info) own stored)))),
      (λ other stopped.
          left ∙ rw (dropped other w, <ℤ→before info.last_heartbeat stale stopped) refl),
      (λ other alive.
          left
          ∙ rw (dropped other w, not_before info.last_heartbeat stale alive)
              (bumped_other s server_id now k other ∙ stored)),
    )
  where
    dropped :
        k ≢ server_id
        → IsValid (heartbeat_server s server_id now).0
        → is_dropped server_id
            (list_dead_servers (heartbeat_server s server_id now).0 (now -ℤ timeout))
            k
          ≡ before info.last_heartbeat (now -ℤ timeout)
    dropped other w =
        dropped_dead server_id (now -ℤ timeout) (heartbeat_server s server_id now).0.servers k
          w.servers_once w.servers_keyed other
        ∙ rw (bumped_other s server_id now k other, stored) refl
