-- ===== src/Storage/Redis/Fetch/Scores.antt =====
-- What the scores of the available jobs decide in a fetch of src/storage/redis.rs.
use qml.Base.{
  ◌≡◌, ◌≢◌, refl, sym, subst, ℤ, ◌<ℤ◌, ◌≤ℤ◌, before, String, true, false, none, some, [], ◌∷◌, inl,
  inr, Bool-cases, Option-cases, arith, eq_iff, ◌==◌,
}
use qml.Base.Maps
use qml.Base.Maps.{Map}
use qml.Core.JobState.{DateTime}
use qml.Core.Job.{Job}
use qml.Storage.Redis.Indices.{RedisState, withdraw, leave_state, enter_state}
use qml.Storage.Redis.Fetch.{
  beats, top, best_of, candidates, drop_entry, is_fetchable, start, take_job, take_best,
  fetch_and_lock_job,
}

-- The entry that wins has no lower score.
beats-scores : (a b : String × ℤ) → beats a b ≡ true → b.1 ≤ℤ a.1
unfolding beats before
beats-scores a b h = ground arith

beats_not : (a b : String × ℤ) → beats a b ≡ false → a.1 ≤ℤ b.1
unfolding beats before
beats_not a b h = ground arith

≤ℤ-trans : (a b c : ℤ) → a ≤ℤ b → b ≤ℤ c → a ≤ℤ c
≤ℤ-trans a b c h k = omega (arith, h, k)

top_is_greatest :
    (m : Map ℤ) (id : String) (s : ℤ)
    → Maps.get id m ≡ some s
    → (entry : String × ℤ) × (top m ≡ some entry) × (s ≤ℤ entry.1)
unfolding top Maps.get
top_is_greatest [] id s e = absurd (cc)
top_is_greatest ((k, v) ∷ m) id s e = elim (Bool-cases (k == id)) [
  | inl t ↦
      let here : some v ≡ some s = rw t at e in
      let q : v ≡ s = cc in
      let le : s ≤ℤ v = subst (λ x. x ≤ℤ v) q (omega arith) in
      elim (Option-cases (top m)) [
        | inl n ↦ ((k, v), rw n refl, le)
        | inr (other, o) ↦ elim (Bool-cases (beats (k, v) other)) [
          | inl w ↦ ((k, v), rw (o, w) refl, le)
          | inr l ↦ (other, rw (o, l) refl, ≤ℤ-trans s v other.1 le (beats_not (k, v) other l))
        ]
      ]
  | inr f ↦
      let there : Maps.get id m ≡ some s = rw f at e in
      let (other, o, le) = top_is_greatest m id s there in
      elim (Bool-cases (beats (k, v) other)) [
        | inl w ↦ ((k, v), rw (o, w) refl, ≤ℤ-trans s other.1 v le (beats-scores (k, v) other w))
        | inr l ↦ (other, rw (o, l) refl, le)
      ]
]

at_head : (k : String) (v : ℤ) (m : Map ℤ) → Maps.get k ((k, v) ∷ m) ≡ some v
unfolding Maps.get
at_head k v m = rw ((eq_iff k k).1 refl) refl

behind :
    (k : String) (v : ℤ) (m : Map ℤ) (id : String) (s : ℤ)
    → Maps.get k m ≡ none
    → Maps.get id m ≡ some s
    → Maps.get id ((k, v) ∷ m) ≡ some s
unfolding Maps.get
behind k v m id s n e = elim (Bool-cases (k == id)) [
  | inr f ↦ rw f e
  | inl t ↦
      let q : k ≡ id = (eq_iff k id).0 t in
      let lost : Maps.get id m ≡ none = subst (λ x. Maps.get x m ≡ none) q n in absurd (cc)
]

top-get :
    (m : Map ℤ) (entry : String × ℤ)
    → Maps.Distinct m
    → top m ≡ some entry
    → Maps.get entry.0 m ≡ some entry.1
unfolding top
top-get [] entry d e = absurd (cc)
top-get ((k, v) ∷ m) entry d e = elim (Option-cases (top m)) [
  | inl n ↦
      let same : some (k, v) ≡ some entry = rw n at e in
      let q : (k, v) ≡ entry = cc in
      subst (λ x. Maps.get x.0 ((k, v) ∷ m) ≡ some x.1) q (at_head k v m)
  | inr (other, o) ↦ elim (Bool-cases (beats (k, v) other)) [
    | inl w ↦
        let same : some (k, v) ≡ some entry = rw (o, w) at e in
        let q : (k, v) ≡ entry = cc in
        subst (λ x. Maps.get x.0 ((k, v) ∷ m) ≡ some x.1) q (at_head k v m)
    | inr l ↦
        let same : some other ≡ some entry = rw (o, l) at e in
        let q : other ≡ entry = cc in
        subst (λ x. Maps.get x.0 ((k, v) ∷ m) ≡ some x.1) q
          (behind k v m other.0 other.1 d.0 (top-get m other d.1 o))
  ]
]

-- The fetch looks at another job than one of a lower score.
other_first :
    (m : Map ℤ) (low high : String) (a b : ℤ)
    → Maps.Distinct m
    → Maps.get low m ≡ some a
    → Maps.get high m ≡ some b
    → a <ℤ b
    → (entry : String × ℤ) × (top m ≡ some entry) × (entry.0 ≢ low)
other_first m low high a b d el eh lt =
    let (entry, t, le) = top_is_greatest m high b eh in
    (
      entry,
      t,
      λ q.
          let found : Maps.get low m ≡ some entry.1 =
            subst (λ x. Maps.get x m ≡ some entry.1) q (top-get m entry d t) in
          let same : entry.1 ≡ a = cc in
          absurd (let bad : b ≤ℤ a = subst (λ x. b ≤ℤ x) same le in omega (arith, bad, lt)),
    )

removed_elsewhere :
    (id other : String) (m : Map ℤ) → other ≢ id → Maps.get id (Maps.remove other m) ≡ Maps.get id m
removed_elsewhere id other m n = ground (arith, Maps.get-remove other id m, eq_iff other id)

inserted_elsewhere :
    (id other : String) (job : Job) (m : Map Job)
    → other ≢ id
    → Maps.get id (Maps.insert other job m) ≡ Maps.get id m
inserted_elsewhere id other job m n =
    ground (arith, Maps.get-insert other id job m, eq_iff other id)

-- What is stored of a job, and where it stands among the available ones.
abbrev pub Untouched : String → RedisState → RedisState → Type 0
Untouched id s s' =
    (Maps.get id s'.blobs ≡ Maps.get id s.blobs)
    × (Maps.get id s'.available ≡ Maps.get id s.available)

take_best-Untouched :
    (now : DateTime) (w : String) (entry : String × ℤ) (s : RedisState) (id : String)
    → entry.0 ≢ id
    → Untouched id s (take_best now w none (some entry) s).0
unfolding take_best drop_entry take_job withdraw leave_state enter_state
take_best-Untouched now w (k, v) s id n = elim (Option-cases (Maps.get k s.blobs)) [
  | inl e ↦ rw (take_best, e) (refl, removed_elsewhere id k s.available n)
  | inr (job, e) ↦ elim (Bool-cases (is_fetchable job.state)) [
    | inl f ↦
        rw (take_best, e, f)
          (
            inserted_elsewhere id k (start now w job) s.blobs n,
            removed_elsewhere id k s.available n,
          )
    | inr f ↦ rw (take_best, e, f) (refl, removed_elsewhere id k s.available n)
  ]
]

best_of_one :
    (m : Map ℤ) (entry : String × ℤ) → top m ≡ some entry → best_of none (m ∷ []) ≡ some entry
unfolding best_of
best_of_one m entry t = rw (best_of, t) refl

-- A job is left where it is by a fetch while another one of a higher score is available.
pub lower_waits :
    (now : DateTime) (s : RedisState) (w low high : String) (a b : ℤ)
    → Maps.Distinct s.available
    → Maps.get low s.available ≡ some a
    → Maps.get high s.available ≡ some b
    → a <ℤ b
    → Untouched low s (fetch_and_lock_job now s w none).0
unfolding fetch_and_lock_job candidates
lower_waits now s w low high a b d el eh lt =
    let (entry, t, n) = other_first s.available low high a b d el eh lt in
    subst (λ b. Untouched low s (take_best now w none b s).0)
      (sym (best_of_one s.available entry t)) (take_best-Untouched now w entry s low n)
