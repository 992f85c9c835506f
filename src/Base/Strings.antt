-- ===== src/Base/Strings.antt =====
-- Texts as the lists of their bytes, with the methods of `str` that the code calls on them.
use Prim.Native.Char.{code}
use Prim.Native.String.{String}
use Prim.Native.Nat.{ℕ, zero, suc, ◌+◌, ◌-◌}
use mathlib.Core.Path.{◌≡◌, refl, ap, subst}
use mathlib.Core.Logic.{◌↔◌, inl, inr}
use mathlib.Core.Bool.{Bool, true, false, ◌&&◌, ◌||◌}
use mathlib.Core.List.{List, [], ◌∷◌, ◌++◌, map}
use mathlib.Core.Option.{Option, none, some}
use native.Mathlib.Omega.{arith}
use qml.Base.Lists.{length}
use qml.Base.Tests.{leb, eqb, eqb_refl, eqb→eq, if◌then◌else◌, Bool-cases, Option-cases}

abbrev pub Bytes : Type 0
Bytes = List ℕ

-- The bytes of a text that is ASCII.
abbrev pub codes : String → Bytes
codes String.[] = []
codes (String.◌∷◌ c s) = code c ∷ codes s

-- `strip_prefix`: what follows the prefix.
unfoldable pub strip_prefix : Bytes → Bytes → Option Bytes
strip_prefix [] s = some s
strip_prefix (p ∷ ps) [] = none
strip_prefix (p ∷ ps) (c ∷ s) = if eqb p c then strip_prefix ps s else none

unfoldable pub is_whitespace : ℕ → Bool
is_whitespace c = eqb c 32 || (leb 9 c && leb c 13)

unfoldable pub trim_start : Bytes → Bytes
trim_start [] = []
trim_start (c ∷ s) = if is_whitespace c then trim_start s else c ∷ s

-- A last whitespace is dropped with what is left behind it.
abbrev cons_trimmed : ℕ → Bytes → Bytes
cons_trimmed c [] = if is_whitespace c then [] else c ∷ []
cons_trimmed c (d ∷ s) = c ∷ d ∷ s

unfoldable pub trim_end : Bytes → Bytes
trim_end [] = []
trim_end (c ∷ s) = cons_trimmed c (trim_end s)

unfoldable pub trim : Bytes → Bytes
unfolding trim_start trim_end is_whitespace
trim s = trim_end (trim_start s)

-- `split_once` at a byte.
unfoldable pub split_once : ℕ → Bytes → Option (Bytes × Bytes)
split_once sep [] = none
split_once sep (c ∷ s) =
    let rest = split_once sep s in
    if eqb c sep
    then some ([], s)
    else elim rest [ none ↦ none | some (before, after) ↦ some (c ∷ before, after) ]

unfoldable pub to_ascii_lowercase : ℕ → ℕ
to_ascii_lowercase c = if leb b'A' c && leb c b'Z' then c + 32 else c

unfoldable pub lowercase : Bytes → Bytes
unfolding to_ascii_lowercase
lowercase s = map to_ascii_lowercase s

-- `==` on texts.
unfoldable pub same_bytes : Bytes → Bytes → Bool
same_bytes [] [] = true
same_bytes [] (d ∷ t) = false
same_bytes (c ∷ s) [] = false
same_bytes (c ∷ s) (d ∷ t) = eqb c d && same_bytes s t

pub same_bytes_iff : (s t : Bytes) → (same_bytes s t ≡ true) ↔ (s ≡ t)
unfolding same_bytes
same_bytes_iff [] [] = ((λ h. refl), (λ h. refl))
same_bytes_iff [] (d ∷ t) = ((λ h. absurd (cc)), (λ h. absurd (cc)))
same_bytes_iff (c ∷ s) [] = ((λ h. absurd (cc)), (λ h. absurd (cc)))
same_bytes_iff (c ∷ s) (d ∷ t) = (
  (λ h. ground (arith, (same_bytes_iff s t).0, eqb→eq c d)),
  (λ h. ground (arith, (same_bytes_iff s t).1, eqb_refl c)),
)

-- `sep` does not occur.
abbrev pub Lacks : ℕ → Bytes → Type 0
Lacks sep [] = Unit
Lacks sep (c ∷ s) = (eqb c sep ≡ false) × Lacks sep s

-- `str::replace`, for a text to replace that is not empty: its occurrences from left to right. The
-- first argument counts the bytes left of the occurrence that has just been replaced.
unfoldable pub replace_from : ℕ → Bytes → Bytes → Bytes → Bytes
unfolding strip_prefix
replace_from left from to [] = []
replace_from (suc left) from to (c ∷ s) = replace_from left from to s
replace_from zero from to (c ∷ s) = elim (strip_prefix from (c ∷ s)) [
  | none ↦ c ∷ replace_from zero from to s
  | some _ ↦ to ++ replace_from (length from - 1) from to s
]

unfoldable pub replace : Bytes → Bytes → Bytes → Bytes
unfolding replace_from
replace from to s = replace_from 0 from to s

-- `ends_with` a byte.
unfoldable pub ends_with : ℕ → Bytes → Bool
ends_with d [] = false
ends_with d (c ∷ []) = eqb c d
ends_with d (c ∷ e ∷ s) = ends_with d (e ∷ s)

-- The text does not occur.
abbrev pub Absent : Bytes → Bytes → Type 0
Absent from [] = Unit
Absent from (c ∷ s) = (strip_prefix from (c ∷ s) ≡ none) × Absent from s

pub replace-Absent : (from to s : Bytes) → Absent from s → replace_from 0 from to s ≡ s
unfolding replace_from
replace-Absent from to [] h = refl
replace-Absent from to (c ∷ s) h =
    rw (h.0, replace_from) (ap (◌∷◌ c) (replace-Absent from to s h.1))

pub strip_prefix_self : (p s : Bytes) → strip_prefix p (p ++ s) ≡ some s
unfolding strip_prefix
strip_prefix_self [] s = refl
strip_prefix_self (c ∷ p) s = rw (eqb_refl c) (strip_prefix_self p s)

pub strip_prefix_sound : (p s rest : Bytes) → strip_prefix p s ≡ some rest → s ≡ p ++ rest
unfolding strip_prefix
strip_prefix_sound [] s rest h = cc
strip_prefix_sound (c ∷ p) [] rest h = absurd (cc)
strip_prefix_sound (c ∷ p) (d ∷ s) rest h = ground (arith, strip_prefix_sound p s rest, eqb→eq c d)

pub split_once_lem :
    (sep : ℕ) (before after : Bytes)
    → Lacks sep before
    → split_once sep (before ++ sep ∷ after) ≡ some (before, after)
unfolding split_once
split_once_lem sep [] after h = rw (eqb_refl sep) refl
split_once_lem sep (c ∷ before) after h = rw (h.0, split_once_lem sep before after h.1) refl

pub split_once_sound :
    (sep : ℕ) (s before after : Bytes)
    → split_once sep s ≡ some (before, after)
    → (s ≡ before ++ sep ∷ after) × Lacks sep before
unfolding split_once
split_once_sound sep [] before after h = absurd (cc)
split_once_sound sep (c ∷ s) before after h = elim (Bool-cases (eqb c sep)) [
  | inl e ↦
      let q : ◌≡◌ {A = Option (Bytes × Bytes)} (some ([], s)) (some (before, after)) = rw e at h in
      let pair : ◌≡◌ {A = Bytes × Bytes} ([], s) (before, after) = cc in
      subst (Splits (c ∷ s)) pair (ap (λ d. d ∷ s) (eqb→eq c sep e), tt)
  | inr e ↦ elim (Option-cases (split_once sep s)) [
    | inl n ↦ absurd (let q : none ≡ some (before, after) = rw (e, n) at h in cc)
    | inr ((b, a), f) ↦
        let q : ◌≡◌ {A = Option (Bytes × Bytes)} (some (c ∷ b, a)) (some (before, after)) =
          rw (e, f) at h in
        let (ih, free) = split_once_sound sep s b a f in
        let pair : ◌≡◌ {A = Bytes × Bytes} (c ∷ b, a) (before, after) = cc in
        subst (Splits (c ∷ s)) pair (ap (◌∷◌ c) ih, (e, free))
  ]
]
  where
    Splits : Bytes → Bytes × Bytes → Type 0
    Splits t (b, a) = (t ≡ b ++ sep ∷ a) × Lacks sep b
