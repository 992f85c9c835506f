-- ===== src/Base/Sort.antt =====
-- `slice::sort_by`: a stable sort. Any stable sort gives the same list, so an insertion sort stands
-- for it; `le x y` is "the comparator does not say `Greater`".
use mathlib.Core.Path.{◌≡◌, refl, subst}
use mathlib.Core.Logic.{inl, inr}
use mathlib.Core.Bool.{Bool, true, false}
use mathlib.Core.List.{List, [], ◌∷◌, Perm}
use mathlib.Core.List.Perm
use mathlib.Core.Option.{some}
use native.Mathlib.Omega.{arith}
use qml.Base.Tests.{if◌then◌else◌, Bool-cases}
use qml.Base.Lists.{length, All, All-map, find}

module _ {ℓ} {A : Type ℓ} (le : A → A → Bool) where
  unfoldable pub insert : A → List A → List A
  insert x [] = x ∷ []
  insert x (y ∷ ys) = if le x y then x ∷ y ∷ ys else y ∷ insert x ys

  unfoldable pub sort_by : List A → List A
  unfolding insert
  sort_by [] = []
  sort_by (x ∷ xs) = insert x (sort_by xs)

  abbrev pub IsSorted : List A → Type ℓ
  IsSorted [] = Unit
  IsSorted (x ∷ xs) = All (λ y. le x y ≡ true) xs × IsSorted xs

  insert-perm : (x : A) (ys : List A) → Perm (insert x ys) (x ∷ ys)
  unfolding insert
  insert-perm x [] = Perm.refl (x ∷ [])
  insert-perm x (y ∷ ys) = elim (Bool-cases (le x y)) [
    | inl e ↦ rw e (Perm.refl (x ∷ y ∷ ys))
    | inr e ↦ rw e (Perm.trans (Perm.cons y (insert-perm x ys)) (Perm.swap x y ys))
  ]

  pub sort_by-perm : (xs : List A) → Perm (sort_by xs) xs
  unfolding sort_by
  sort_by-perm [] = Perm.refl []
  sort_by-perm (x ∷ xs) = Perm.trans (insert-perm x (sort_by xs)) (Perm.cons x (sort_by-perm xs))

  length-insert : (x : A) (ys : List A) → length (insert x ys) ≡ length (x ∷ ys)
  unfolding insert
  length-insert x [] = refl
  length-insert x (y ∷ ys) = ground (arith, length-insert x ys)

  pub length-sort_by : (xs : List A) → length (sort_by xs) ≡ length xs
  unfolding sort_by
  length-sort_by [] = refl
  length-sort_by (x ∷ xs) = ground (arith, length-insert x (sort_by xs), length-sort_by xs)

module _ {ℓ κ} {A : Type ℓ} (le : A → A → Bool) (P : A → Type κ) where
  All-insert : (x : A) (ys : List A) → P x → All P ys → All P (insert le x ys)
  unfolding insert
  All-insert x [] p h = (p, tt)
  All-insert x (y ∷ ys) p h = elim (Bool-cases (le x y)) [
    | inl e ↦ rw e (p, h)
    | inr e ↦ rw e (h.0, All-insert x ys p h.1)
  ]

  All-uninsert : (x : A) (ys : List A) → All P (insert le x ys) → P x × All P ys
  unfolding insert
  All-uninsert x [] h = (h.0, tt)
  All-uninsert x (y ∷ ys) h = elim (Bool-cases (le x y)) [
    | inl e ↦ rw e at h
    | inr e ↦
        let k : P y × All P (insert le x ys) = rw e at h in
        let r = All-uninsert x ys k.1 in (r.0, (k.0, r.1))
  ]

  pub All-sort_by : (xs : List A) → All P xs → All P (sort_by le xs)
  unfolding sort_by
  All-sort_by [] h = tt
  All-sort_by (x ∷ xs) h = All-insert x (sort_by le xs) h.0 (All-sort_by xs h.1)

  pub All-unsort_by : (xs : List A) → All P (sort_by le xs) → All P xs
  unfolding sort_by
  All-unsort_by [] h = tt
  All-unsort_by (x ∷ xs) h = let r = All-uninsert x (sort_by le xs) h in (r.0, All-unsort_by xs r.1)

module _ {ℓ} {A : Type ℓ} (le : A → A → Bool) (total : (x y : A) → le x y ≡ false → le y x ≡ true)
    (trans : (x y z : A) → le x y ≡ true → le y z ≡ true → le x z ≡ true) where
  insert-IsSorted : (x : A) (ys : List A) → IsSorted le ys → IsSorted le (insert le x ys)
  unfolding insert
  insert-IsSorted x [] s = (tt, tt)
  insert-IsSorted x (y ∷ ys) s = elim (Bool-cases (le x y)) [
    | inl e ↦ rw e ((e, All-map (λ z h. trans x y z e h) ys s.0), s)
    | inr e ↦
        rw e (All-insert le (λ z. le y z ≡ true) x ys (total x y e) s.0, insert-IsSorted x ys s.1)
  ]

  pub sort_by-IsSorted : (xs : List A) → IsSorted le (sort_by le xs)
  unfolding sort_by
  sort_by-IsSorted [] = tt
  sort_by-IsSorted (x ∷ xs) = insert-IsSorted x (sort_by le xs) (sort_by-IsSorted xs)

  -- The first entry of a sorted list that passes a test comes before all others that pass.
  pub find-least :
      (p : A → Bool) (xs : List A) (x : A)
      → ((y : A) → le y y ≡ true)
      → IsSorted le xs
      → find p xs ≡ some x
      → All (λ y. p y ≡ true → le x y ≡ true) xs
  find-least p [] x r s e = tt
  find-least p (y ∷ ys) x r s e = elim (Bool-cases (p y)) [
    | inl t ↦
        let k : some y ≡ some x = rw t at e in
        let q : y ≡ x = cc in
        (
          λ _. subst (λ z. le z y ≡ true) q (r y),
          All-map (λ z h _. subst (λ w. le w z ≡ true) q h) ys s.0,
        )
    | inr t ↦
        let k : find p ys ≡ some x = rw t at e in ((λ u. absurd (cc)), find-least p ys x r s.1 k)
  ]
