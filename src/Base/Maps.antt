-- ===== src/Base/Maps.antt =====
-- A `HashMap<String, V>` as an association list, in an iteration order of which nothing is assumed.
use Prim.Native.Nat.{suc, ◌≤◌}
use Prim.Native.String.{String}
use mathlib.Core.Path.{◌≡◌, refl, subst}
use mathlib.Core.Logic.{inl, inr}
use mathlib.Core.Bool.{Bool, true, false}
use mathlib.Core.List.{List, [], ◌∷◌}
use mathlib.Core.Option.{Option, none, some}
use native.Mathlib.Omega.{arith}
use text.Mathlib.Text.{◌==◌}
use text.Mathlib.TextEquality.{eq_iff}
use qml.Base.Tests.{if◌then◌else◌, Bool-cases}
use qml.Base.Lists.{length, All, All-map}

abbrev pub Map {ℓ} : Type ℓ → Type ℓ
Map V = List (String × V)

abbrev pub is_some {ℓ} : {A : Type ℓ} → Option A → Bool
is_some none = false
is_some (some _) = true

-- `o` if its value passes.
abbrev pub keep_if {ℓ} : {A : Type ℓ} → (A → Bool) → Option A → Option A
keep_if p none = none
keep_if p (some v) = if p v then some v else none

module _ {ℓ} {V : Type ℓ} where
  unfoldable pub get : String → Map V → Option V
  get k [] = none
  get k ((j, v) ∷ m) = if j == k then some v else get k m

  unfoldable pub contains_key : String → Map V → Bool
  unfolding get
  contains_key k m = is_some (get k m)

  -- A present key keeps its place; a new one is added.
  unfoldable pub insert : String → V → Map V → Map V
  insert k v [] = (k, v) ∷ []
  insert k v ((j, w) ∷ m) = if j == k then (k, v) ∷ m else (j, w) ∷ insert k v m

  unfoldable pub remove : String → Map V → Map V
  remove k [] = []
  remove k ((j, w) ∷ m) = if j == k then remove k m else (j, w) ∷ remove k m

  unfoldable pub values : Map V → List V
  values [] = []
  values ((k, v) ∷ m) = v ∷ values m

  unfoldable pub retain : (V → Bool) → Map V → Map V
  retain p [] = []
  retain p ((k, v) ∷ m) = if p v then (k, v) ∷ retain p m else retain p m

  -- `for v in map.values_mut()`.
  unfoldable pub map_values : (V → V) → Map V → Map V
  map_values f [] = []
  map_values f ((k, v) ∷ m) = (k, f v) ∷ map_values f m

  -- No key stands twice.
  abbrev pub Distinct : Map V → Type ℓ
  Distinct [] = Unit
  Distinct ((k, v) ∷ m) = (get k m ≡ none) × Distinct m

  pub get-insert :
      (k j : String) (v : V) (m : Map V)
      → get j (insert k v m) ≡ (if k == j then some v else get j m)
  unfolding get insert
  get-insert k j v [] = refl
  get-insert k j v ((i, w) ∷ m) =
      ground (arith, eq_iff k j, eq_iff i k, eq_iff i j, get-insert k j v m)

  pub get-remove :
      (k j : String) (m : Map V) → get j (remove k m) ≡ (if k == j then none else get j m)
  unfolding get remove
  get-remove k j [] = ground arith
  get-remove k j ((i, w) ∷ m) = ground (arith, eq_iff k j, eq_iff i k, eq_iff i j, get-remove k j m)

  pub get-map_values :
      (f : V → V) (j : String) (m : Map V)
      → get j (map_values f m) ≡ elim (get j m) [ none ↦ none | some v ↦ some (f v) ]
  unfolding get map_values
  get-map_values f j [] = refl
  get-map_values f j ((i, w) ∷ m) = ground (arith, get-map_values f j m)

  pub get-retain :
      (p : V → Bool) (j : String) (m : Map V)
      → Distinct m
      → get j (retain p m) ≡ keep_if p (get j m)
  unfolding get retain
  get-retain p j [] d = refl
  get-retain p j ((i, w) ∷ m) d = ground (arith, eq_iff i j, get-retain p j m d.1, d.0)

  pub insert-Distinct : (k : String) (v : V) (m : Map V) → Distinct m → Distinct (insert k v m)
  unfolding insert get
  insert-Distinct k v [] d = (refl, tt)
  insert-Distinct k v ((i, w) ∷ m) d =
      ground (arith, eq_iff i k, eq_iff k i, insert-Distinct k v m d.1, get-insert k i v m)

  pub remove-Distinct : (k : String) (m : Map V) → Distinct m → Distinct (remove k m)
  unfolding remove
  remove-Distinct k [] d = tt
  remove-Distinct k ((i, w) ∷ m) d =
      ground (arith, remove-Distinct k m d.1, get-remove k i m, eq_iff k i)

  pub retain-Distinct : (p : V → Bool) (m : Map V) → Distinct m → Distinct (retain p m)
  unfolding retain
  retain-Distinct p [] d = tt
  retain-Distinct p ((i, w) ∷ m) d =
      ground (arith, retain-Distinct p m d.1, get-retain p i m d.1, d.0)

  pub map_values-Distinct : (f : V → V) (m : Map V) → Distinct m → Distinct (map_values f m)
  unfolding map_values
  map_values-Distinct f [] d = tt
  map_values-Distinct f ((i, w) ∷ m) d =
      ground (arith, map_values-Distinct f m d.1, get-map_values f i m, d.0)

  pub length-insert :
      (k : String) (v : V) (m : Map V)
      → length (insert k v m) ≡ (if contains_key k m then length m else suc (length m))
  unfolding insert contains_key
  length-insert k v [] = refl
  length-insert k v ((i, w) ∷ m) = ground (arith, length-insert k v m)

  pub length-retain-le : (p : V → Bool) (m : Map V) → length (retain p m) ≤ length m
  unfolding retain
  length-retain-le p [] = omega arith
  length-retain-le p ((i, w) ∷ m) = ground (arith, length-retain-le p m)

  pub length-remove-le : (k : String) (m : Map V) → length (remove k m) ≤ length m
  unfolding remove
  length-remove-le k [] = omega arith
  length-remove-le k ((i, w) ∷ m) = ground (arith, length-remove-le k m)

  pub length-map_values : (f : V → V) (m : Map V) → length (map_values f m) ≡ length m
  unfolding map_values
  length-map_values f [] = refl
  length-map_values f ((i, w) ∷ m) = ground (arith, length-map_values f m)

  pub length-values : (m : Map V) → length (values m) ≡ length m
  unfolding values
  length-values [] = refl
  length-values ((k, v) ∷ m) = omega (arith, length-values m)

  -- What a stored value satisfies for its key, as a predicate on the whole map.
  abbrev pub AllEntries {κ} : (String → V → Type κ) → Map V → Type κ
  AllEntries P [] = Unit
  AllEntries P ((k, v) ∷ m) = P k v × AllEntries P m

module _ {ℓ κ} {V : Type ℓ} (P : String → V → Type κ) where
  pub AllEntries-insert :
      (k : String) (v : V) (m : Map V) → P k v → AllEntries P m → AllEntries P (insert k v m)
  unfolding insert
  AllEntries-insert k v [] p h = (p, tt)
  AllEntries-insert k v ((i, w) ∷ m) p h = elim (Bool-cases (i == k)) [
    | inl e ↦ rw e (p, h.1)
    | inr e ↦ rw e (h.0, AllEntries-insert k v m p h.1)
  ]

  pub AllEntries-remove : (k : String) (m : Map V) → AllEntries P m → AllEntries P (remove k m)
  unfolding remove
  AllEntries-remove k [] h = tt
  AllEntries-remove k ((i, w) ∷ m) h = elim (Bool-cases (i == k)) [
    | inl e ↦ rw e (AllEntries-remove k m h.1)
    | inr e ↦ rw e (h.0, AllEntries-remove k m h.1)
  ]

  pub AllEntries-retain : (p : V → Bool) (m : Map V) → AllEntries P m → AllEntries P (retain p m)
  unfolding retain
  AllEntries-retain p [] h = tt
  AllEntries-retain p ((i, w) ∷ m) h = elim (Bool-cases (p w)) [
    | inl e ↦ rw e (h.0, AllEntries-retain p m h.1)
    | inr e ↦ rw e (AllEntries-retain p m h.1)
  ]

  pub AllEntries-get : (k : String) (v : V) (m : Map V) → AllEntries P m → get k m ≡ some v → P k v
  unfolding get
  AllEntries-get k v [] h e = absurd (cc)
  AllEntries-get k v ((i, w) ∷ m) h e = elim (Bool-cases (i == k)) [
    | inl t ↦
        let q : some w ≡ some v = rw t at e in
        subst (λ j. P j v) ((eq_iff i k).0 t) (subst (P i) (cc) h.0)
    | inr t ↦ let q : get k m ≡ some v = rw t at e in AllEntries-get k v m h.1 q
  ]

module _ {ℓ} {V : Type ℓ} (id : V → String) where
  -- Each value stands under its own identifier.
  abbrev pub Keyed : Map V → Type 0
  Keyed m = AllEntries (λ k v. id v ≡ k) m

  -- So every value is what a lookup of its identifier gives.
  pub values-get : (m : Map V) → Distinct m → Keyed m → All (λ v. get (id v) m ≡ some v) (values m)
  unfolding get values
  values-get [] d h = tt
  values-get ((i, w) ∷ m) d h = (
    ground (arith, eq_iff i (id w), h.0),
    All-map (λ v e. ground (arith, eq_iff i (id v), d.0)) (values m) (values-get m d.1 h.1),
  )

module _ {ℓ κ} {V : Type ℓ} (P : V → Type κ) where
  -- What holds of all values holds of what a lookup gives.
  pub All-values : (k : String) (v : V) (m : Map V) → All P (values m) → get k m ≡ some v → P v
  unfolding get values
  All-values k v [] h e = absurd (cc)
  All-values k v ((i, w) ∷ m) h e = elim (Bool-cases (i == k)) [
    | inl t ↦ let q : some w ≡ some v = rw t at e in subst P (cc) h.0
    | inr t ↦ let q : get k m ≡ some v = rw t at e in All-values k v m h.1 q
  ]
