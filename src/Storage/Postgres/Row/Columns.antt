-- ===== src/Storage/Postgres/Row/Columns.antt =====
-- Which jobs the columns of the job table hold.
use qml.Base.{
  ℕ, ◌%◌, ◌^◌, ◌≤◌, ◌<◌, ◌≡◌, ◌↔◌, ◌⊎◌, refl, ap, String, Option, none, some, arith, [], ◌∷◌,
}
use qml.Base.Maps.{Map}
use qml.Core.Job.{Job}
use qml.Storage.Postgres.Row.{
  as_i32, as_u32, as_u64, at_least_zero, metadata_column, metadata_of, cast_timeout, inserted_row,
  row_to_job,
}

low_small : (n : ℕ) → n < 4294967296 → n % 2 ^ 32 ≡ n
low_small n h = omega arith

pub as_u32-as_i32 : (n : ℕ) → n < 4294967296 → as_u32 (as_i32 n) ≡ n
unfolding as_i32
as_u32-as_i32 n h = rw (low_small n h) (ground arith)

pub at_least_zero-as_i32 :
    (n : ℕ) → n < 4294967296 → (at_least_zero (as_i32 n) ≡ n) ↔ (n < 2147483648)
unfolding as_i32
at_least_zero-as_i32 n h = rw (low_small n h) (ground arith)

pub as_u64-as_i32 :
    (n : ℕ)
    → n < 18446744073709551616
    → (as_u64 (as_i32 n) ≡ n) ↔ ((n < 2147483648) ⊎ (18446744071562067968 ≤ n))
unfolding as_i32
as_u64-as_i32 n h = ground arith

-- The numbers of a job are those of its types in the source: two u32 and a u64.
abbrev pub Typed : Job → Type 0
Typed job =
    (job.max_retries < 4294967296)
    × (job.attempt < 4294967296)
    × ((t : ℕ) → job.timeout_seconds ≡ some t → t < 18446744073709551616)

-- What an INTEGER column and the way back keep of them.
abbrev pub Fits : Job → Type 0
Fits job =
    (job.attempt < 2147483648)
    × ((t : ℕ) → job.timeout_seconds ≡ some t → (t < 2147483648) ⊎ (18446744071562067968 ≤ t))

pub metadata_round : (m : Map String) → metadata_of (metadata_column m) ≡ m
metadata_round [] = refl
metadata_round (x ∷ m) = refl

timeout_round :
    (o : Option ℕ)
    → ((t : ℕ) → o ≡ some t → t < 18446744073709551616)
    → ((t : ℕ) → o ≡ some t → (t < 2147483648) ⊎ (18446744071562067968 ≤ t))
    → cast_timeout as_u64 (cast_timeout as_i32 o) ≡ o
timeout_round none typed fits = refl
timeout_round (some t) typed fits = ap some ((as_u64-as_i32 t (typed t refl)).1 (fits t refl))

timeout_fits :
    (o : Option ℕ)
    → ((t : ℕ) → o ≡ some t → t < 18446744073709551616)
    → cast_timeout as_u64 (cast_timeout as_i32 o) ≡ o
    → (t : ℕ) → o ≡ some t
    → (t < 2147483648) ⊎ (18446744071562067968 ≤ t)
timeout_fits none typed e t h = absurd (cc)
timeout_fits (some u) typed e t h =
    let same : as_u64 (as_i32 u) ≡ u = cc in
    let split : (u < 2147483648) ⊎ (18446744071562067968 ≤ u) =
      (as_u64-as_i32 u (typed u refl)).0 same in
    let u≡t : u ≡ t = cc in omega (arith, split, u≡t)

-- The row of a job, whose numbers are those of its types, is read as that job, under the parsed id,
-- exactly when the job fits the columns: an attempt count below 2³¹, and a timeout that is below 2³¹
-- or one of the 2³¹ greatest ones.
pub row_to_job-inserted_row :
    (id : String) (job : Job)
    → Typed job
    → (row_to_job (inserted_row id job) ≡ record job { id = id }) ↔ Fits job
unfolding row_to_job inserted_row
row_to_job-inserted_row id job (retries, attempts, timeouts) = (
  λ e. (
    (at_least_zero-as_i32 job.attempt attempts).0 (ap (λ j. j.attempt) e),
    timeout_fits job.timeout_seconds timeouts (ap (λ j. j.timeout_seconds) e),
  ),
  λ (attempt, timeout).
      let same = (at_least_zero-as_i32 job.attempt attempts).1 attempt in
      let kept = timeout_round job.timeout_seconds timeouts timeout in
      rw (same, kept, as_u32-as_i32 job.max_retries retries, metadata_round job.metadata) refl,
)
