-- ===== src/Storage/Memory/Recurring/Parking.antt =====
-- The claim of recurring templates, which parks them (src/storage/memory.rs).
use qml.Base.{
  ℕ, ◌≡◌, ◌≢◌, refl, sym, ap, ◌∙◌, pos, ◌+ℤ◌, pos_part, neg_part, ◌<ℤ◌, ◌≤ℤ◌, at_most→≤ℤ, String,
  Bool, true, false, inl, inr, Option, none, some, List, [], ◌∷◌, arith, All, All-map, All-filter,
  All-take, take_all, All-unfilter, filter, length, length-filter-le, ◌≤◌, ≤ℤ→at_most, Bool-cases,
  Option-cases, if◌then◌else◌, ◌==◌, eq_iff,
}
use qml.Base.Maps
use qml.Base.Maps.{Map}
use qml.Base.Sort.{sort_by, length-sort_by, All-sort_by, All-unsort_by}
use qml.Core.JobState.{DateTime}
use qml.Core.Recurring.{RecurringJob}
use qml.Storage.Memory.State.{MemoryStorage}
use qml.Storage.Memory.Recurring.{
  is_due, due_order, due_recurring, parked_until, park, fetch_due_recurring_jobs,
}
use qml.Storage.Memory.Invariant.{IsValid, recurring_id}
use qml.Storage.Memory.Invariant.Registry.{fetch_recurring-IsValid}

-- Is a template of the list under this identifier?
abbrev pub names : String → List RecurringJob → Bool
names k [] = false
names k (r ∷ rs) = if r.id == k then true else names k rs

abbrev pub park_one : DateTime → Option RecurringJob → Option RecurringJob
park_one now none = none
park_one now (some r) = some (record r { next_run_at = parked_until now })

get-park :
    (now : DateTime) (k : String) (due : List RecurringJob) (m : Map RecurringJob)
    → Maps.get k (park now due m)
      ≡ (if names k due then park_one now (Maps.get k m) else Maps.get k m)
unfolding park
get-park now k [] m = refl
get-park now k (r ∷ due) m = elim (Option-cases (Maps.get r.id m)) [
  | inl e ↦ rw (e, park) (ground (arith, get-park now k due m, eq_iff r.id k, e))
  | inr (stored, e) ↦
      rw (e, park)
        (ground (
          arith,
          get-park now k due
              (Maps.insert r.id (record stored { next_run_at = parked_until now }) m),
          Maps.get-insert r.id k (record stored { next_run_at = parked_until now }) m,
          eq_iff r.id k,
          e,
        ))
]

-- Each returned template is a stored one that is enabled and due, as it was before the claim.
due_sound :
    (s : MemoryStorage) (now : DateTime) (limit : ℕ)
    → IsValid s
    → All
        (λ r. (Maps.get r.id s.recurring ≡ some r) × (is_due now r ≡ true))
        (due_recurring s now limit)
unfolding due_recurring
due_sound s now limit v = All-take _ limit _ (
    All-sort_by due_order _ _ (
      All-filter _ (is_due now) (Maps.values s.recurring)
        (Maps.values-get recurring_id s.recurring v.recurring_once v.recurring_keyed)))

pub names_self : (rs : List RecurringJob) → All (λ r. names r.id rs ≡ true) rs
names_self [] = tt
names_self (r ∷ rs) =
    (ground (arith, eq_iff r.id r.id), All-map (λ x h. ground (arith, h)) rs (names_self rs))

pub All-both {ℓ κ} :
    {A : Type 0} (P : A → Type ℓ) (Q : A → Type κ) (xs : List A)
    → All P xs
    → All Q xs
    → All (λ x. P x × Q x) xs
All-both P Q [] h k = tt
All-both P Q (x ∷ xs) h k = ((h.0, k.0), All-both P Q xs h.1 k.1)

-- The claim returns stored templates that are enabled and due, as they were, and parks each of them
-- 3650 days ahead. Nothing else changes in a parked template.
pub claimed_are_parked :
    (s : MemoryStorage) (now : DateTime) (limit : ℕ)
    → IsValid s
    → All
        (λ r.
          (Maps.get r.id s.recurring ≡ some r)
          × (r.enabled ≡ true)
          × (r.next_run_at ≤ℤ now)
          × (Maps.get r.id (fetch_due_recurring_jobs s now limit).0.recurring
              ≡ some (record r { next_run_at = now +ℤ pos 315_360_000_000 })))
        (fetch_due_recurring_jobs s now limit).1
unfolding fetch_due_recurring_jobs is_due parked_until
claimed_are_parked s now limit v =
    All-map
      (λ r h.
        let (stored, ready) = h.0 in
        (
          stored,
          ground arith,
          ground (arith, at_most→≤ℤ r.next_run_at now),
          get-park now r.id (due_recurring s now limit) s.recurring ∙ rw (h.1, stored),
        ))
      _ (All-both _ _ _ (due_sound s now limit v) (names_self (due_recurring s now limit)))

names_none : (k : String) (rs : List RecurringJob) → names k rs ≡ false → All (λ r. r.id ≢ k) rs
names_none k [] e = tt
names_none k (r ∷ rs) e = elim (Bool-cases (r.id == k)) [
  | inl t ↦ absurd (let q : true ≡ false = rw t at e in cc)
  | inr t ↦ ((λ same. cc ((eq_iff r.id k).1 same)), names_none k rs (rw t at e))
]

-- With room for all, the claim returns every enabled and due template.
pub due_complete :
    (s : MemoryStorage) (now : DateTime) (limit : ℕ) (r : RecurringJob)
    → length s.recurring ≤ limit
    → Maps.get r.id s.recurring ≡ some r
    → r.enabled ≡ true
    → r.next_run_at ≤ℤ now
    → names r.id (fetch_due_recurring_jobs s now limit).1 ≡ true
unfolding fetch_due_recurring_jobs due_recurring is_due
due_complete s now limit r room stored enabled late =
    let found = filter (is_due now) (Maps.values s.recurring) in
    elim (Bool-cases (names r.id (due_recurring s now limit))) [
      | inl e ↦ e
      | inr e ↦
          let fits : length (sort_by due_order found) ≤ limit = omega (
            arith,
            length-sort_by due_order found,
            length-filter-le (is_due now) (Maps.values s.recurring),
            Maps.length-values s.recurring,
          ) in
          let missing : names r.id (sort_by due_order found) ≡ false =
            ap (names r.id) (sym (take_all limit _ fits)) ∙ e in
          let none_named =
            All-unfilter _ (is_due now) (Maps.values s.recurring)
              (All-unsort_by due_order _ found (names_none r.id _ missing)) in
          let ready : is_due now r ≡ true =
            ground (arith, enabled, ≤ℤ→at_most r.next_run_at now late) in
          absurd (Maps.All-values _ r.id r s.recurring none_named stored ready refl)
    ]

-- Until the templates of the first claim are written back, a later claim within the 3650 days does
-- not return any of them again: a tick does not fire twice.
pub claimed_once :
    (s : MemoryStorage) (now later : DateTime) (limit limit' : ℕ)
    → IsValid s
    → later <ℤ now +ℤ pos 315_360_000_000
    → All
        (λ again. All (λ r. again.id ≢ r.id) (fetch_due_recurring_jobs s now limit).1)
        (fetch_due_recurring_jobs (fetch_due_recurring_jobs s now limit).0 later limit').1
claimed_once s now later limit limit' v early =
    All-map
      (λ again h.
        All-map
          (λ r p same.
            let q : some again ≡ some (record r { next_run_at = now +ℤ pos 315_360_000_000 }) =
              sym h.0
              ∙ ap (λ i. Maps.get i (fetch_due_recurring_jobs s now limit).0.recurring) same
              ∙ p.3 in
            let at : again.next_run_at ≡ now +ℤ pos 315_360_000_000 = cc in
            let due : again.next_run_at ≤ℤ later = h.2 in
            absurd (omega (arith, ap pos_part at, ap neg_part at)))
          _ (claimed_are_parked s now limit v))
      _
      (claimed_are_parked (fetch_due_recurring_jobs s now limit).0 later limit'
        (fetch_recurring-IsValid s now limit v))
