-- ===== src/Processing/Retry/Decision.antt =====
-- When a policy allows a retry (src/processing/retry.rs).
use qml.Base.{
  ℕ, ◌≡◌, ◌≤◌, ◌↔◌, ◌⊎◌, inl, inr, refl, String, true, false, Option, none, some, List, [], ◌∷◌,
  arith, ltb, if◌then◌else◌, ◌==◌, eq_iff, Bool-cases,
}
use qml.Processing.Retry.{
  RetryStrategy, no_retries, fixed, exponential_backoff, linear_backoff, RetryPolicy, max_attempts,
  is_retry_enabled, contains, should_retry,
}

-- The text stands in the list.
abbrev pub Listed : String → List String → Type 0
Listed e [] = ⊥
Listed e (x ∷ xs) = (x ≡ e) ⊎ Listed e xs

contains_iff : (e : String) (xs : List String) → (contains xs e ≡ true) ↔ Listed e xs
contains_iff e [] = ((λ h. absurd (cc)), (λ h. absurd h))
contains_iff e (x ∷ xs) =
    let ih = contains_iff e xs in
    (
      (λ h. elim (Bool-cases (x == e)) [
        | inl t ↦ inl ((eq_iff x e).0 t)
        | inr t ↦ inr (ih.0 (rw t at h))
      ]),
      (λ h. elim (Bool-cases (x == e)) [
        | inl t ↦ rw t
        | inr t ↦ rw t (elim h [ inl q ↦ absurd (let b = (eq_iff x e).1 q in cc) | inr l ↦ ih.1 l ])
      ]),
    )

module _ {F : Type 0} where
  -- The exceptions that a policy retries. Without a type, only a policy for all exceptions does.
  abbrev pub Retryable : RetryPolicy F → Option String → Type 0
  Retryable p none = p.retry_on_all_exceptions ≡ true
  Retryable p (some e) =
      (¬ Listed e p.non_retryable_exceptions)
      × ((p.retry_on_all_exceptions ≡ true) ⊎ Listed e p.retryable_exceptions)

  abbrev pub IsEnabled : RetryStrategy F → Type 0
  IsEnabled no_retries = ⊥
  IsEnabled _ = Unit

  IsEnabled-iff : (s : RetryStrategy F) → (is_retry_enabled s ≡ true) ↔ IsEnabled s
  IsEnabled-iff no_retries = ((λ h. absurd (cc)), (λ h. absurd h))
  IsEnabled-iff (fixed _ _) = ((λ h. tt), (λ h. refl))
  IsEnabled-iff (exponential_backoff _ _ _ _ _) = ((λ h. tt), (λ h. refl))
  IsEnabled-iff (linear_backoff _ _ _ _) = ((λ h. tt), (λ h. refl))

  Retryable-iff :
      (p : RetryPolicy F) (ex : Option String)
      → ((elim ex [
        | none ↦ p.retry_on_all_exceptions
        | some e ↦
            if contains p.non_retryable_exceptions e
            then false
            else if p.retry_on_all_exceptions
            then true
            else contains p.retryable_exceptions e
      ])
          ≡ true)
        ↔ Retryable p ex
  Retryable-iff p none = ((λ h. h), (λ h. h))
  Retryable-iff p (some e) =
      let banned = contains_iff e p.non_retryable_exceptions in
      let wanted = contains_iff e p.retryable_exceptions in
      elim (Bool-cases (contains p.non_retryable_exceptions e)) [
        | inl b ↦ rw b ((λ h. absurd (cc)), (λ h. absurd (h.0 (banned.0 b))))
        | inr b ↦ elim (Bool-cases p.retry_on_all_exceptions) [
          | inl a ↦
              rw (b, a) ((λ h. ((λ l. absurd (let q = banned.1 l in cc)), inl refl)), (λ h. refl))
          | inr a ↦
              rw (b, a)
                (
                  (λ h. ((λ l. absurd (let q = banned.1 l in cc)), inr (wanted.0 h))),
                  (λ h. elim h.1 [ inl q ↦ absurd (cc) | inr l ↦ wanted.1 l ]),
                )
        ]
      ]

  -- A policy allows a retry exactly when the attempt is within the maximum, the strategy has retries
  -- at all, and the exception is one that the policy retries: never one of its non-retryable list,
  -- and otherwise any, or one of the retryable list.
  pub should_retry_iff :
      (p : RetryPolicy F) (ex : Option String) (attempt : ℕ)
      → (should_retry p ex attempt ≡ true)
        ↔ ((attempt ≤ max_attempts p.strategy) × IsEnabled p.strategy × Retryable p ex)
  unfolding should_retry
  should_retry_iff p ex attempt =
      let r = Retryable-iff p ex in
      let on = IsEnabled-iff p.strategy in
      elim (Bool-cases (ltb (max_attempts p.strategy) attempt)) [
        | inl over ↦ rw over ((λ h. absurd (cc)), (λ h. absurd (ground arith)))
        | inr within ↦ elim (Bool-cases (is_retry_enabled p.strategy)) [
          | inr off ↦ rw (within, off) ((λ h. absurd (cc)), (λ h. absurd (let q = on.1 h.1 in cc)))
          | inl e ↦ rw (within, e) ((λ h. (ground arith, on.0 e, r.0 h)), (λ h. r.1 h.2))
        ]
      ]
