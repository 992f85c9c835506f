-- ===== src/Storage/Memory/Jobs/Paging.antt =====
-- `list` of src/storage/memory.rs.
use qml.Base.{
  ℕ, zero, suc, ◌+◌, ◌-◌, ◌^◌, min, ◌≡◌, ◌≤◌, ◌<◌, refl, sym, ap, ◌∙◌, true, false, inl, inr,
  Option, none, some, List, [], ◌∷◌, arith, length, take, drop, length-drop, take_all, leb, ltb,
  Bool-cases,
}
use qml.Base.Maps
use qml.Base.Sort.{sort_by}
use qml.Core.JobState.{JobStateKind}
use qml.Core.Job.{Job}
use qml.Storage.Memory.State.{MemoryStorage, filter_jobs_by_state}
use qml.Storage.Memory.Jobs.{list, page, newest_first, usize_add}

-- The jobs of the wanted kind, the newest first.
abbrev pub wanted : MemoryStorage → Option JobStateKind → List Job
wanted s none = sort_by newest_first (Maps.values s.jobs)
wanted s (some k) = sort_by newest_first (filter_jobs_by_state s.jobs k)

drop_all : {A : Type 0} (n : ℕ) (xs : List A) → length xs ≤ n → drop n xs ≡ []
drop_all zero [] h = refl
drop_all zero (x ∷ xs) h = absurd (omega arith)
drop_all (suc n) [] h = refl
drop_all (suc n) (x ∷ xs) h = drop_all n xs (omega arith)

take_nil : {A : Type 0} (n : ℕ) → take {A = A} n [] ≡ []
take_nil zero = refl
take_nil (suc n) = refl

take_enough : {A : Type 0} (n m : ℕ) (xs : List A) → n ≡ min m (length xs) → take n xs ≡ take m xs
take_enough n m [] h = take_nil n ∙ sym (take_nil m)
take_enough zero zero (x ∷ xs) h = refl
take_enough zero (suc m) (x ∷ xs) h = absurd (omega arith)
take_enough (suc n) zero (x ∷ xs) h = absurd (omega arith)
take_enough (suc n) (suc m) (x ∷ xs) h = ap (◌∷◌ x) (take_enough n m xs (omega arith))

page_limited :
    (xs : List Job) (limit offset : ℕ)
    → offset + limit < 2 ^ 64
    → page xs (some limit) (some offset) ≡ some (take limit (drop offset xs))
unfolding page
page_limited xs limit offset fits = elim (Bool-cases (leb (length xs) offset)) [
  | inl e ↦ rw (e, drop_all offset xs (ground arith), take_nil limit)
  | inr e ↦
      let sum : usize_add offset limit ≡ offset + limit = omega arith in
      let within : ltb (min (offset + limit) (length xs)) offset ≡ false = ground arith in
      rw (e, sum, within)
        (ap some (
          take_enough (min (offset + limit) (length xs) - offset) limit (drop offset xs)
            (ground (arith, length-drop offset xs))))
]

page_unlimited : (xs : List Job) (offset : ℕ) → page xs none (some offset) ≡ some (drop offset xs)
unfolding page
page_unlimited xs offset = elim (Bool-cases (leb (length xs) offset)) [
  | inl e ↦ rw (e, drop_all offset xs (ground arith))
  | inr e ↦
      let within : ltb (length xs) offset ≡ false = ground arith in
      rw (e, within)
        (ap some (
          take_enough (length xs - offset) (length xs) (drop offset xs)
            (ground (arith, length-drop offset xs))
          ∙ take_all (length xs) (drop offset xs) (ground (arith, length-drop offset xs))))
]

page_overflow :
    (xs : List Job) (limit offset : ℕ)
    → offset < 2 ^ 64
    → limit < 2 ^ 64
    → 2 ^ 64 ≤ offset + limit
    → offset < length xs
    → page xs (some limit) (some offset) ≡ none
unfolding page
page_overflow xs limit offset ho hl over inside =
    let sum : usize_add offset limit < offset = omega arith in
    let started : leb (length xs) offset ≡ false = ground arith in
    let behind : ltb (min (usize_add offset limit) (length xs)) offset ≡ true = ground arith in
    rw (started, behind)

module _ (s : MemoryStorage) (filter : Option JobStateKind) (offset : ℕ) where
  -- A page is the wanted jobs, newest first, without the first `offset` and then at most `limit`,
  -- if `offset + limit` fits a usize.
  pub list_page :
      (limit : ℕ)
      → offset + limit < 2 ^ 64
      → list s filter (some limit) (some offset) ≡ some (take limit (drop offset (wanted s filter)))
  unfolding list
  list_page limit fits =
      elim filter
        as (λ f.
          list s f (some limit) (some offset) ≡ some (take limit (drop offset (wanted s f)))) [
            | none ↦ page_limited _ limit offset fits
            | some k ↦ page_limited _ limit offset fits
          ]

  -- Without a limit the page is all the wanted jobs behind the offset.
  pub list_rest : list s filter none (some offset) ≡ some (drop offset (wanted s filter))
  unfolding list
  list_rest = elim filter as (λ f. list s f none (some offset) ≡ some (drop offset (wanted s f))) [
    | none ↦ page_unlimited _ offset
    | some k ↦ page_unlimited _ offset
  ]

  -- Where `offset + limit` passes the largest usize, and the offset lies inside the list, the
  -- release build panics on the slice: a caller cannot ask for "the rest" by the largest limit.
  pub list_panics :
      (limit : ℕ)
      → offset < 2 ^ 64
      → limit < 2 ^ 64
      → 2 ^ 64 ≤ offset + limit
      → offset < length (wanted s filter)
      → list s filter (some limit) (some offset) ≡ none
  unfolding list
  list_panics limit ho hl over inside =
      elim filter
          as (λ f. offset < length (wanted s f) → list s f (some limit) (some offset) ≡ none) [
            | none ↦ λ h. page_overflow _ limit offset ho hl over h
            | some k ↦ λ h. page_overflow _ limit offset ho hl over h
          ]
        inside
