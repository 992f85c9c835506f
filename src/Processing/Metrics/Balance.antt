-- ===== src/Processing/Metrics/Balance.antt =====
-- What the metrics of src/processing/metrics.rs count.
use qml.Base.{
  ℕ, ◌+◌, ◌≡◌, refl, String, Bool, true, false, ◌&&◌, none, some, List, [], ◌∷◌, ◌++◌, arith,
  if◌then◌else◌, ◌==◌, eq_iff, inl, inr, Option-cases,
}
use qml.Processing.Metrics.{
  MetricCall, inc_enqueued, inc_processed, observe_duration, inc_active, dec_active, Execution,
  after_next, call, call_all, state_label,
}
use qml.Error.{QmlError, Result, ok, err}
use qml.Processing.Worker.{WorkerResult, success, retry, failure}

abbrev count {ℓ} : {A : Type ℓ} → (A → Bool) → List A → ℕ
count p [] = 0
count p (x ∷ xs) = (if p x then 1 else 0) + count p xs

count-append {ℓ} :
    {A : Type ℓ} (p : A → Bool) (xs ys : List A) → count p (xs ++ ys) ≡ count p xs + count p ys
count-append p [] ys = omega arith
count-append p (x ∷ xs) ys = omega (arith, count-append p xs ys)

self_eq : (s : String) → s == s ≡ true
self_eq s = (eq_iff s s).1 refl

-- The states of the counter, by how an execution ends.
abbrev pub has_ended : String → Result QmlError WorkerResult → Bool
has_ended state (ok (success _ _ _)) = "succeeded" == state
has_ended state (ok (retry _ _ _ _)) = "retry" == state
has_ended state (ok (failure _ _ _)) = "failed" == state
has_ended state (err _) = "error" == state

state_label-has_ended :
    (state : String) (r : Result QmlError WorkerResult)
    → (state_label r == state) ≡ has_ended state r
unfolding state_label
state_label-has_ended state (ok (success _ _ _)) = refl
state_label-has_ended state (ok (retry _ _ _ _)) = refl
state_label-has_ended state (ok (failure _ _ _)) = refl
state_label-has_ended state (err _) = refl

module _ {F : Type 0} where
  -- The values of the families after some calls.
  abbrev is_inc : String → MetricCall F → Bool
  is_inc server (inc_active s) = s == server
  is_inc server _ = false

  abbrev is_dec : String → MetricCall F → Bool
  is_dec server (dec_active s) = s == server
  is_dec server _ = false

  abbrev is_processed : String → String → MetricCall F → Bool
  is_processed queue state (inc_processed q s) = q == queue && s == state
  is_processed queue state _ = false

  abbrev is_observed : String → MetricCall F → Bool
  is_observed method (observe_duration m _) = m == method
  is_observed method _ = false

  abbrev is_enqueued : MetricCall F → Bool
  is_enqueued (inc_enqueued _) = true
  is_enqueued _ = false

  -- What an execution is.
  abbrev is_dropped : Execution F → Bool
  is_dropped x = elim x.result [ none ↦ true | some _ ↦ false ]

  abbrev ends_as : String → String → Execution F → Bool
  ends_as queue state x = elim x.result [
    | none ↦ false
    | some r ↦ x.job.queue == queue && has_ended state r
  ]

  abbrev ends_method : String → Execution F → Bool
  ends_method method x = elim x.result [ none ↦ false | some _ ↦ x.job.method == method ]

  -- The families agree with the executions.
  pub record AddsUp (server : String) (calls : List (MetricCall F)) (xs : List (Execution F))
      : Type 0 where
    pub gauge : count (is_inc server) calls ≡ count (is_dec server) calls + count is_dropped xs
    pub processed :
        (queue state : String)
        → count (is_processed queue state) calls ≡ count (ends_as queue state) xs
    pub durations :
        (method : String) → count (is_observed method) calls ≡ count (ends_method method) xs
    pub enqueued : count is_enqueued calls ≡ 0

  one_AddsUp : (server : String) (x : Execution F) → AddsUp server (call server x) (x ∷ [])
  unfolding call after_next
  one_AddsUp server x = elim (Option-cases x.result) [
    | inl e ↦ record {
      gauge = rw (e, self_eq server) refl;
      processed = λ queue state. rw e refl;
      durations = λ method. rw e refl;
      enqueued = rw e refl;
    }
    | inr (r, e) ↦ record {
      gauge = rw (e, self_eq server) refl;
      processed = λ queue state. rw (e, state_label-has_ended state r) (omega arith);
      durations = λ method. rw e (omega arith);
      enqueued = rw e refl;
    }
  ]

  -- Over any executions on a server, the count of a queue and a state is the number of executions of
  -- jobs of the queue that ended so: "succeeded", "failed" and "retry" for the three results of a
  -- worker, and "error" for an error. The histogram of a method has as many observations as executions
  -- of the method ended, and the gauge has gone up as often as down and once more for each
  -- execution that was dropped by its timeout; nothing counts as enqueued.
  pub call_all-AddsUp :
      (server : String) (xs : List (Execution F)) → AddsUp server (call_all server xs) xs
  unfolding call_all
  call_all-AddsUp server [] = record {
    gauge = refl;
    processed = λ queue state. refl;
    durations = λ method. refl;
    enqueued = refl;
  }
  call_all-AddsUp server (x ∷ xs) =
      let one = one_AddsUp server x in
      let ih = call_all-AddsUp server xs in
      let both = λ (p : MetricCall F → Bool). count-append p (call server x) (call_all server xs) in
      record {
        gauge = omega (arith, one.gauge, ih.gauge, both (is_inc server), both (is_dec server));
        processed = λ queue state. omega (
          arith,
          one.processed queue state,
          ih.processed queue state,
          both (is_processed queue state),
        );
        durations = λ method.
            omega (arith, one.durations method, ih.durations method, both (is_observed method));
        enqueued = omega (arith, one.enqueued, ih.enqueued, both is_enqueued);
      }
