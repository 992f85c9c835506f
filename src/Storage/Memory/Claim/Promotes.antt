-- ===== src/Storage/Memory/Claim/Promotes.antt =====
-- What a claim of due jobs does (src/storage/memory.rs).
use qml.Base.{
  ℕ, ◌≡◌, ◌≢◌, ◌≤◌, ◌↔◌, ◌≤ℤ◌, refl, sym, ap, ◌∙◌, ◌⊎◌, String, Bool, true, inl, inr, some, List,
  [], ◌∷◌, arith, All, All-map, length, Bool-cases, Option-cases, ◌==◌, eq_iff,
}
use qml.Base.Maps
use qml.Base.Maps.{Map}
use qml.Core.JobState.{JobState, DateTime, new_enqueued}
use qml.Storage.Memory.Jobs.{scheduled_due, retry_due}
use qml.Core.Job.{Job}
use qml.Storage.Memory.State.{MemoryStorage}
use qml.Storage.Memory.Locker.{contains}
use qml.Storage.Memory.Claim.{
  due_ids, promote, claim_loop, claim_due, claim_due_scheduled_jobs, claim_due_retry_jobs,
}
use qml.Storage.Memory.Invariant.{IsValid, JobsOk}
use qml.Storage.Memory.Ready.{at_most_iff}
use qml.Storage.Memory.Claim.Selection.{
  promote_twice, get-claim_loop, All-contains, due_ids_sound, due_ids_complete,
}

-- Where a returned job comes from.
Origin : (String → DateTime) → Map Job → Job → Type 0
Origin now_for jobs j' = (job : Job) × (Maps.get j'.id jobs ≡ some job) × (j' ≡ promote now_for job)

Origin-insert :
    (now_for : String → DateTime) (id : String) (job : Job) (jobs : Map Job) (j' : Job)
    → Maps.get id jobs ≡ some job
    → Origin now_for (Maps.insert id (promote now_for job) jobs) j'
    → Origin now_for jobs j'
unfolding Origin
Origin-insert now_for id job jobs j' e (old, stored, made) = elim (Bool-cases (id == j'.id)) [
  | inl t ↦ (
    job,
    ground (arith, eq_iff id j'.id, e),
    made
        ∙ ap (promote now_for)
            (ground (arith, Maps.get-insert id j'.id (promote now_for job) jobs, t, stored))
        ∙ promote_twice now_for job,
  )
  | inr t ↦
      (old, ground (arith, Maps.get-insert id j'.id (promote now_for job) jobs, t, stored), made)
]

claimed-Origin :
    (now_for : String → DateTime) (ids : List String) (jobs : Map Job)
    → JobsOk jobs
    → All
        (λ j'. (contains ids j'.id ≡ true) × Origin now_for jobs j')
        (claim_loop now_for ids jobs).1
unfolding claim_loop
claimed-Origin now_for [] jobs h = tt
claimed-Origin now_for (id ∷ ids) jobs h = elim (Option-cases (Maps.get id jobs)) [
  | inl e ↦
      rw (e, claim_loop)
        (All-map (λ j p. (ground (arith, p.0), p.1)) _ (claimed-Origin now_for ids jobs h))
  | inr (job, e) ↦
      let named : job.id ≡ id = Maps.AllEntries-get _ id job jobs h.1 e in
      let h' : JobsOk (Maps.insert id (promote now_for job) jobs) = (
        Maps.insert-Distinct id (promote now_for job) jobs h.0,
        Maps.AllEntries-insert _ id (promote now_for job) jobs (unfold promote in named) h.1,
      ) in
      rw (e, claim_loop)
        (
          (
            unfold promote in ground (arith, eq_iff id job.id, named),
            unfold promote Origin in (job, ap (λ k. Maps.get k jobs) named ∙ e, refl),
          ),
          All-map (λ j p. (ground (arith, p.0), Origin-insert now_for id job jobs j e p.1)) _
              (claimed-Origin now_for ids (Maps.insert id (promote now_for job) jobs) h'),
        )
]

module _ (due : JobState → Bool) (now_for : String → DateTime) (s : MemoryStorage) (limit : ℕ)
    (v : IsValid s) where
  claimed_are_due :
      All
        (λ j'.
          (job : Job) × (Maps.get j'.id s.jobs ≡ some job)
          × (due job.state ≡ true)
          × (j' ≡ promote now_for job)
          × (Maps.get j'.id (claim_due due now_for s limit).0.jobs ≡ some j'))
        (claim_due due now_for s limit).1
  unfolding claim_due Origin
  claimed_are_due =
      All-map
        (λ j p.
          let (named, origin) = p in
          let (job, stored, made) = origin in
          let (found, stored', ready) =
            All-contains _ j.id _ (due_ids_sound due s.jobs limit v.jobs_ok) named in
          (
            job,
            stored,
            ap (λ (o : Job). due o.state) (let q : job ≡ found = cc in q) ∙ ready,
            made,
            get-claim_loop now_for j.id (due_ids due s.jobs limit) s.jobs
                ∙ rw (named, stored) (ap some (sym made)),
          ))
        _ (claimed-Origin now_for (due_ids due s.jobs limit) s.jobs v.jobs_ok)

  -- A stored job either stays as it was, or was due and is promoted in place; none is lost or added.
  pub claim_changes :
      (k : String)
      → (Maps.get k (claim_due due now_for s limit).0.jobs ≡ Maps.get k s.jobs)
        ⊎ ((job : Job) × (Maps.get k s.jobs ≡ some job)
            × (due job.state ≡ true)
            × (Maps.get k (claim_due due now_for s limit).0.jobs ≡ some (promote now_for job)))
  unfolding claim_due
  claim_changes k =
      let ids = due_ids due s.jobs limit in
      elim (Bool-cases (contains ids k)) [
        | inl e ↦
            let (job, stored, ready) =
              All-contains _ k ids (due_ids_sound due s.jobs limit v.jobs_ok) e in
            inr (job, stored, ready, get-claim_loop now_for k ids s.jobs ∙ rw (e, stored))
        | inr e ↦ inl (get-claim_loop now_for k ids s.jobs ∙ rw e)
      ]

  -- With room for all, every due job is promoted.
  pub claim_complete :
      (k : String) (job : Job)
      → length s.jobs ≤ limit
      → Maps.get k s.jobs ≡ some job
      → due job.state ≡ true
      → Maps.get k (claim_due due now_for s limit).0.jobs ≡ some (promote now_for job)
  unfolding claim_due
  claim_complete k job room stored ready =
      get-claim_loop now_for k (due_ids due s.jobs limit) s.jobs
      ∙ rw (due_ids_complete due s.jobs limit k job v.jobs_ok room stored ready, stored)

-- The loop returns every listed job.
claim_loop_returns :
    (now_for : String → DateTime) (k : String) (job : Job) (ids : List String) (jobs : Map Job)
    → job.id ≡ k
    → Maps.get k jobs ≡ some job
    → contains ids k ≡ true
    → ¬ All (λ j. j.id ≢ k) (claim_loop now_for ids jobs).1
unfolding claim_loop
claim_loop_returns now_for k job [] jobs named stored listed h = cc
claim_loop_returns now_for k job (id ∷ ids) jobs named stored listed h =
    elim (Bool-cases (id == k)) [
      | inl t ↦
          let same : id ≡ k = (eq_iff id k).0 t in
          let here : Maps.get id jobs ≡ some job = ap (λ i. Maps.get i jobs) same ∙ stored in
          (rw (here, claim_loop) at h).0 (unfold promote in named)
      | inr t ↦
          let later : contains ids k ≡ true = rw t at listed in
          elim (Option-cases (Maps.get id jobs)) [
            | inl e ↦
                claim_loop_returns now_for k job ids jobs named stored later
                  (rw (e, claim_loop) at h)
            | inr (other, e) ↦
                claim_loop_returns now_for k job ids (Maps.insert id (promote now_for other) jobs)
                  named (Maps.get-insert id k (promote now_for other) jobs ∙ rw t stored) later
                  (rw (e, claim_loop) at h).1
          ]
    ]

abbrev pub IsScheduled : DateTime → JobState → Type 0
IsScheduled now (JobState.scheduled _ enqueue_at _) = enqueue_at ≤ℤ now
IsScheduled now _ = ⊥

abbrev pub AwaitsRetry : DateTime → JobState → Type 0
AwaitsRetry now (JobState.awaiting_retry _ retry_at _) = retry_at ≤ℤ now
AwaitsRetry now _ = ⊥

scheduled_due-IsScheduled :
    (now : DateTime) (s : JobState) → (scheduled_due now s ≡ true) ↔ IsScheduled now s
unfolding scheduled_due
scheduled_due-IsScheduled now (JobState.scheduled _ at _) = at_most_iff at now
scheduled_due-IsScheduled now _ = ((λ h. absurd (cc)), (λ h. absurd h))

retry_due-AwaitsRetry :
    (now : DateTime) (s : JobState) → (retry_due now s ≡ true) ↔ AwaitsRetry now s
unfolding retry_due
retry_due-AwaitsRetry now (JobState.awaiting_retry _ at _) = at_most_iff at now
retry_due-AwaitsRetry now _ = ((λ h. absurd (cc)), (λ h. absurd h))

-- What a claim of the jobs that are due leaves and returns, for the job stored under `k`.
module _ (now_for : String → DateTime) (s : MemoryStorage) (limit : ℕ) (k : String)
    (job : Job) where
  abbrev pub Claims : (JobState → Type 0) → MemoryStorage × List Job → Type 0
  Claims IsDue (s', claimed) =
      All
        (λ j'.
          (old : Job) × (Maps.get j'.id s.jobs ≡ some old)
          × IsDue old.state
          × (j' ≡ record old { state = JobState.enqueued (now_for old.id) old.queue })
          × (Maps.get j'.id s'.jobs ≡ some j'))
        claimed
      × (¬ IsDue job.state → Maps.get k s'.jobs ≡ some job)
      × (IsDue job.state
          → length s.jobs ≤ limit
          → (Maps.get k s'.jobs
              ≡ some (record job { state = JobState.enqueued (now_for job.id) job.queue }))
            × ¬ All (λ j. j.id ≢ k) claimed)

  claim_due-Claims :
      (due : JobState → Bool) (IsDue : JobState → Type 0)
      → ((t : JobState) → (due t ≡ true) ↔ IsDue t)
      → IsValid s
      → Maps.get k s.jobs ≡ some job
      → Claims IsDue (claim_due due now_for s limit)
  unfolding promote new_enqueued claim_due
  claim_due-Claims due IsDue same v stored = (
    All-map
        (λ j (old, found, ready, made, kept). (old, found, (same old.state).0 ready, made, kept)) _
        (claimed_are_due due now_for s limit v),
    (λ early. elim (claim_changes due now_for s limit v k) [
      | inl e ↦ e ∙ stored
      | inr (old, found, ready, _) ↦
          let q : old ≡ job = cc in
          absurd (early ((same job.state).0 (ap (λ (j : Job). due j.state) (sym q) ∙ ready)))
    ]),
    (λ late room. (
      claim_complete due now_for s limit v k job room stored ((same job.state).1 late),
      claim_loop_returns now_for k job (due_ids due s.jobs limit) s.jobs
          (Maps.AllEntries-get _ k job s.jobs v.jobs_ok.1 stored) stored
          (due_ids_complete due s.jobs limit k job v.jobs_ok room stored ((same job.state).1 late)),
    )),
  )

  -- Each job that a claim returns was stored and scheduled for an instant that has come, and is now
  -- stored as it is returned: enqueued in its own queue, and else as it was. A job that is not due
  -- stays as it was; if the limit has room for all, every due job is enqueued and returned. The same
  -- holds of the claim of the jobs that await a retry.
  pub claimed_are_promoted :
      (now : DateTime)
      → IsValid s
      → Maps.get k s.jobs ≡ some job
      → Claims (IsScheduled now) (claim_due_scheduled_jobs now_for s now limit)
        × Claims (AwaitsRetry now) (claim_due_retry_jobs now_for s now limit)
  unfolding claim_due_scheduled_jobs claim_due_retry_jobs
  claimed_are_promoted now v stored = (
    claim_due-Claims (scheduled_due now) (IsScheduled now) (scheduled_due-IsScheduled now) v stored,
    claim_due-Claims (retry_due now) (AwaitsRetry now) (retry_due-AwaitsRetry now) v stored,
  )
