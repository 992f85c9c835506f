-- ===== src/Storage/Memory/Claim/Selection.antt =====
-- Which jobs a claim selects, and what its loop does to the map (src/storage/memory.rs).
use qml.Base.{
  ℕ, suc, ◌≡◌, ◌≢◌, ◌≤◌, refl, sym, ap, subst, ◌∙◌, String, Bool, true, false, inl, inr, Option,
  none, some, List, [], ◌∷◌, map, arith, All, All-map, All-filter, All-unfilter, All-take, take_all,
  filter, length, length-filter-le, Bool-cases, Option-cases, if◌then◌else◌, ◌==◌, eq_iff,
}
use qml.Base.Maps
use qml.Base.Maps.{Map}
use qml.Base.Sort.{sort_by, length-sort_by, All-sort_by, All-unsort_by}
use qml.Core.JobState.{JobState, DateTime}
use qml.Core.Job.{Job}
use qml.Storage.Memory.Locker.{contains}
use qml.Storage.Memory.Claim.{goes_first_by_id, due_ids, promote, claim_loop}
use qml.Storage.Memory.Invariant.{JobsOk, job_id}

abbrev pub promoted : (String → DateTime) → Option Job → Option Job
promoted now_for none = none
promoted now_for (some job) = some (promote now_for job)

pub promote_twice :
    (now_for : String → DateTime) (job : Job)
    → promote now_for (promote now_for job) ≡ promote now_for job
unfolding promote
promote_twice now_for job = refl

-- The loop promotes the listed jobs and no other.
pub get-claim_loop :
    (now_for : String → DateTime) (k : String) (ids : List String) (jobs : Map Job)
    → Maps.get k (claim_loop now_for ids jobs).0
      ≡ (if contains ids k then promoted now_for (Maps.get k jobs) else Maps.get k jobs)
unfolding claim_loop
get-claim_loop now_for k [] jobs = refl
get-claim_loop now_for k (id ∷ ids) jobs = elim (Option-cases (Maps.get id jobs)) [
  | inl e ↦ rw (e, claim_loop) (ground (arith, get-claim_loop now_for k ids jobs, eq_iff id k, e))
  | inr (job, e) ↦
      rw (e, claim_loop)
        (ground (
          arith,
          get-claim_loop now_for k ids (Maps.insert id (promote now_for job) jobs),
          Maps.get-insert id k (promote now_for job) jobs,
          promote_twice now_for job,
          eq_iff id k,
          e,
        ))
]

All-ids {ℓ} :
    (P : String → Type ℓ) (js : List Job)
    → All (λ (j : Job). P j.id) js
    → All P (map (λ (j : Job). j.id) js)
All-ids P [] h = tt
All-ids P (j ∷ js) h = (h.0, All-ids P js h.1)

All-unids {ℓ} :
    (P : String → Type ℓ) (js : List Job)
    → All P (map (λ (j : Job). j.id) js)
    → All (λ (j : Job). P j.id) js
All-unids P [] h = tt
All-unids P (j ∷ js) h = (h.0, All-unids P js h.1)

pub All-contains {ℓ} :
    (P : String → Type ℓ) (k : String) (xs : List String) → All P xs → contains xs k ≡ true → P k
All-contains P k [] h e = absurd (cc)
All-contains P k (x ∷ xs) h e = elim (Bool-cases (x == k)) [
  | inl t ↦ subst P ((eq_iff x k).0 t) h.0
  | inr t ↦ All-contains P k xs h.1 (rw t at e)
]

contains-false : (k : String) (xs : List String) → contains xs k ≡ false → All (λ x. x ≢ k) xs
contains-false k [] e = tt
contains-false k (x ∷ xs) e = elim (Bool-cases (x == k)) [
  | inl t ↦ absurd (let q : true ≡ false = rw t at e in cc)
  | inr t ↦ ((λ s. cc ((eq_iff x k).1 s)), contains-false k xs (rw t at e))
]

-- Every selected identifier is that of a due job.
pub due_ids_sound :
    (due : JobState → Bool) (jobs : Map Job) (limit : ℕ)
    → JobsOk jobs
    → All
        (λ k. (job : Job) × (Maps.get k jobs ≡ some job) × (due job.state ≡ true))
        (due_ids due jobs limit)
unfolding due_ids
due_ids_sound due jobs limit h = All-take _ limit _ (
    All-sort_by (goes_first_by_id jobs) _ _ (
      All-ids _ _ (
        All-map (λ job p. (job, p.0, p.1)) _
          (All-filter _ (λ job. due job.state) (Maps.values jobs)
            (Maps.values-get job_id jobs h.0 h.1)))))

length-ids : (js : List Job) → length (map (λ (j : Job). j.id) js) ≡ length js
length-ids [] = refl
length-ids (j ∷ js) = ap suc (length-ids js)

-- With a large enough limit every due job is selected.
pub due_ids_complete :
    (due : JobState → Bool) (jobs : Map Job) (limit : ℕ) (k : String) (job : Job)
    → JobsOk jobs
    → length jobs ≤ limit
    → Maps.get k jobs ≡ some job
    → due job.state ≡ true
    → contains (due_ids due jobs limit) k ≡ true
unfolding due_ids
due_ids_complete due jobs limit k job h room stored is_due =
    elim (Bool-cases (contains (due_ids due jobs limit) k)) [
      | inl e ↦ e
      | inr e ↦
          let all = map (λ (j : Job). j.id) (filter (λ j. due j.state) (Maps.values jobs)) in
          let fits : length (sort_by (goes_first_by_id jobs) all) ≤ limit = omega (
            arith,
            length-sort_by (goes_first_by_id jobs) all,
            length-ids (filter (λ j. due j.state) (Maps.values jobs)),
            length-filter-le (λ (j : Job). due j.state) (Maps.values jobs),
            Maps.length-values jobs,
          ) in
          let missing : contains (sort_by (goes_first_by_id jobs) all) k ≡ false =
            ap (λ xs. contains xs k) (sym (take_all limit _ fits)) ∙ e in
          let none_named =
            All-unfilter _ (λ j. due j.state) (Maps.values jobs)
              (All-unids _ _
                (All-unsort_by (goes_first_by_id jobs) _ all (contains-false k _ missing))) in
          absurd (
            Maps.All-values _ k job jobs none_named stored is_due
              (Maps.AllEntries-get _ k job jobs h.1 stored))
    ]
