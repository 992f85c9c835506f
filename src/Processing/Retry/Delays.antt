-- ===== src/Processing/Retry/Delays.antt =====
-- Bounds on the delays of src/processing/retry.rs.
use qml.Base.{
  ℕ, ◌-◌, ◌≡◌, ◌≤◌, sym, subst, ℤ, pos, pos_part, neg_part, ◌+ℤ◌, ◌-ℤ◌, ◌*ℤ◌, ◌≤ℤ◌, min_ℤ,
  at_most→≤ℤ, Bool, true, false, none, some, arith, ltb, if◌then◌else◌,
}
use qml.Core.JobState.{Duration}
use qml.Processing.Retry.{
  Floats, FloatLaws, RetryStrategy, no_retries, fixed, exponential_backoff, linear_backoff,
  calculate_delay, as_i32, scale,
}

min_le : (a b : ℤ) → min_ℤ a b ≤ℤ b
min_le a b = ground (arith, at_most→≤ℤ a b)

dropped : {A : Type 0} → (b : Bool) (a d : A) → (if b then none else some a) ≡ some d → a ≡ d
dropped true a d q = absurd (cc)
dropped false a d q = cc

-- The strategy is a backoff without jitter, with this maximal delay.
abbrev pub BacksOff : {F : Type 0} → RetryStrategy F → Duration → Type 0
BacksOff no_retries m = ⊥
BacksOff (fixed _ _) m = ⊥
BacksOff (exponential_backoff _ _ max_delay _ jitter) m = (max_delay ≡ m) × (jitter ≡ false)
BacksOff (linear_backoff _ _ max_delay _) m = max_delay ≡ m

-- A backoff without jitter, exponential or linear, never waits longer than its maximal delay, when
-- that is up to 2^53 milliseconds, which f64 holds exactly: no growth of the attempt or of the
-- multiplier gets past the cap.
pub backoff_within_max :
    (fl : Floats) (laws : FloatLaws fl) (random : fl.F) (s : RetryStrategy fl.F)
    (max_delay d : Duration) (attempt : ℕ)
    → BacksOff s max_delay
    → pos_part max_delay ≤ 9_007_199_254_740_992
    → neg_part max_delay ≤ 9_007_199_254_740_992
    → calculate_delay fl random s attempt ≡ some d
    → d ≤ℤ max_delay
unfolding calculate_delay
backoff_within_max fl laws random no_retries m d attempt h up down q = absurd h
backoff_within_max fl laws random (fixed _ _) m d attempt h up down q = absurd h
backoff_within_max fl laws random (exponential_backoff i k c n j) m d attempt (h, plain) up down q =
    let capped = fl.fmin (scale fl (attempt - 1) k (fl.of_i64 i)) (fl.of_i64 c) in
    let below = laws.to_i64_mono capped (fl.of_i64 c) (laws.fmin_le _ c) in
    let exact = laws.exact m up down in
    let is : fl.to_i64 capped ≡ d = subst (Is capped) plain (dropped (ltb n attempt) _ d q) in
    let top : fl.to_i64 (fl.of_i64 c) ≡ m =
      subst (λ x. fl.to_i64 (fl.of_i64 x) ≡ m) (sym h) exact in
    subst (λ x. x ≤ℤ m) is (subst (λ x. fl.to_i64 capped ≤ℤ x) top below)
  where
    Is : fl.F → Bool → Type 0
    Is capped b =
        fl.to_i64 (
          if b
          then fl.fadd capped
              (fl.fmul (fl.fmul capped fl.quarter) (fl.fsub (fl.fmul random fl.two) fl.one))
          else capped)
        ≡ d
backoff_within_max fl laws random (linear_backoff i k c n) m d attempt h up down q =
    let is = dropped (ltb n attempt) _ d q in
    subst (λ x. x ≤ℤ m) is
      (subst (λ x. min_ℤ (i +ℤ k *ℤ (as_i32 attempt -ℤ pos 1)) c ≤ℤ x) h (min_le _ c))
