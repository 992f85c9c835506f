-- ===== src/Processing/Retry.antt =====
-- src/processing/retry.rs. The f64 arithmetic of the exponential backoff is the parameter `Floats`.
pub mod Delays
pub mod Decision
use qml.Base.{
  ℕ, zero, suc, ◌-◌, ℤ, pos, negsuc, ◌+ℤ◌, ◌-ℤ◌, ◌*ℤ◌, ◌≤ℤ◌, ◌≤◌, ◌≡◌, pos_part, neg_part, min_ℤ,
  String, Bool, true, false, not, Option, none, some, List, [], ◌∷◌, ◌++◌, ltb, if◌then◌else◌, ◌==◌,
}
use qml.Core.JobState.{DateTime, Duration}

-- The operations of f64 that the code uses, `as f64` from and `as i64` to an integer among them.
pub record Floats : Type 1 where
  pub F : Type 0
  pub of_i64 : ℤ → F
  pub to_i64 : F → ℤ
  pub fmul : F → F → F
  pub fadd : F → F → F
  pub fsub : F → F → F
  pub fmin : F → F → F
  pub quarter : F
  pub one : F
  pub two : F

-- What the bound on a delay relies on: `min` with an integer is not above it, `as i64` is monotone,
-- and integers of up to 53 bits convert exactly.
pub record FloatLaws (fl : Floats) : Type 1 where
  pub fle : fl.F → fl.F → Type 0
  pub fmin_le : (a : fl.F) (n : ℤ) → fle (fl.fmin a (fl.of_i64 n)) (fl.of_i64 n)
  pub to_i64_mono : (a b : fl.F) → fle a b → fl.to_i64 a ≤ℤ fl.to_i64 b
  pub exact :
      (n : ℤ)
      → pos_part n ≤ 9_007_199_254_740_992
      → neg_part n ≤ 9_007_199_254_740_992
      → fl.to_i64 (fl.of_i64 n) ≡ n

-- The fields in the source's order: `fixed interval max_attempts`,
-- `exponential_backoff initial_delay multiplier max_delay max_attempts jitter`,
-- `linear_backoff initial_delay increment max_delay max_attempts`.
pub data RetryStrategy (F : Type 0) : Type 0 where
  no_retries : RetryStrategy F
  fixed : Duration → ℕ → RetryStrategy F
  exponential_backoff : Duration → F → Duration → ℕ → Bool → RetryStrategy F
  linear_backoff : Duration → Duration → Duration → ℕ → RetryStrategy F

-- `attempt as i32 - 1`. The attempt 2^31, for which the subtraction overflows, is not modelled.
abbrev pub as_i32 : ℕ → ℤ
as_i32 n = if ltb n 2147483648 then pos n else negsuc (4294967295 - n)

abbrev pub max_attempts : {F : Type 0} → RetryStrategy F → ℕ
max_attempts no_retries = 0
max_attempts (fixed _ n) = n
max_attempts (exponential_backoff _ _ _ n _) = n
max_attempts (linear_backoff _ _ _ n) = n

abbrev pub is_retry_enabled : {F : Type 0} → RetryStrategy F → Bool
is_retry_enabled no_retries = false
is_retry_enabled (fixed _ _) = true
is_retry_enabled (exponential_backoff _ _ _ _ _) = true
is_retry_enabled (linear_backoff _ _ _ _) = true

module _ (fl : Floats) where
  open fl use {F, of_i64, to_i64, fmul, fadd, fsub, fmin, quarter, one, two}

  -- `for _ in 1..attempt { delay *= multiplier; }`: the rounds are `attempt - 1`, or none.
  unfoldable pub scale : ℕ → F → F → F
  scale zero multiplier delay = delay
  scale (suc n) multiplier delay = scale n multiplier (fmul delay multiplier)

  unfoldable pub default_strategy : RetryStrategy F
  default_strategy = exponential_backoff (pos 1000) two (pos 900_000) 5 true

  -- `random` is the value that `fastrand::f64()` returns.
  unfoldable pub calculate_delay : F → RetryStrategy F → ℕ → Option Duration
  unfolding scale
  calculate_delay random no_retries attempt = none
  calculate_delay random (fixed interval max_attempts) attempt =
      if ltb max_attempts attempt then none else some interval
  calculate_delay random
        (exponential_backoff initial_delay multiplier max_delay max_attempts jitter) attempt =
      if ltb max_attempts attempt
      then none
      else (let scaled = scale (attempt - 1) multiplier (of_i64 initial_delay) in
          let capped = fmin scaled (of_i64 max_delay) in
          let spread = fadd capped (fmul (fmul capped quarter) (fsub (fmul random two) one)) in
          some (to_i64 (if jitter then spread else capped)))
  calculate_delay random (linear_backoff initial_delay increment max_delay max_attempts) attempt =
      if ltb max_attempts attempt
      then none
      else some (min_ℤ (initial_delay +ℤ increment *ℤ (as_i32 attempt -ℤ pos 1)) max_delay)

pub record RetryPolicy (F : Type 0) : Type 0 where
  pub strategy : RetryStrategy F
  pub retry_on_all_exceptions : Bool
  pub retryable_exceptions : List String
  pub non_retryable_exceptions : List String

unfoldable pub policy_new : {F : Type 0} → RetryStrategy F → RetryPolicy F
policy_new strategy = record {
  strategy = strategy;
  retry_on_all_exceptions = true;
  retryable_exceptions = [];
  non_retryable_exceptions =
      "ArgumentError" ∷ "ValidationError" ∷ "AuthenticationError" ∷ "AuthorizationError" ∷ [];
}

unfoldable pub no_retry : {F : Type 0} → RetryPolicy F
no_retry = record {
  strategy = no_retries;
  retry_on_all_exceptions = false;
  retryable_exceptions = [];
  non_retryable_exceptions = [];
}

unfoldable pub with_retry_on_all : {F : Type 0} → RetryPolicy F → Bool → RetryPolicy F
with_retry_on_all p retry_all = record p { retry_on_all_exceptions = retry_all }

unfoldable pub add_retryable_exception : {F : Type 0} → RetryPolicy F → String → RetryPolicy F
add_retryable_exception p e = record p { retryable_exceptions = p.retryable_exceptions ++ e ∷ [] }

unfoldable pub add_non_retryable_exception : {F : Type 0} → RetryPolicy F → String → RetryPolicy F
add_non_retryable_exception p e = record p {
  non_retryable_exceptions = p.non_retryable_exceptions ++ e ∷ [];
}

abbrev pub contains : List String → String → Bool
contains [] e = false
contains (x ∷ xs) e = if x == e then true else contains xs e

unfoldable pub should_retry : {F : Type 0} → RetryPolicy F → Option String → ℕ → Bool
should_retry p exception_type attempt =
    if ltb (max_attempts p.strategy) attempt
    then false
    else if not (is_retry_enabled p.strategy)
    then false
    else (elim exception_type [
      | none ↦ p.retry_on_all_exceptions
      | some e ↦
          if contains p.non_retryable_exceptions e
          then false
          else if p.retry_on_all_exceptions
          then true
          else contains p.retryable_exceptions e
    ])

unfoldable pub calculate_retry_time :
    (fl : Floats) → fl.F → DateTime → RetryPolicy fl.F → ℕ → Option DateTime
unfolding calculate_delay
calculate_retry_time fl random now p attempt = elim (calculate_delay fl random p.strategy attempt) [
  | none ↦ none
  | some delay ↦ some (now +ℤ delay)
]
