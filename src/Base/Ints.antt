-- ===== src/Base/Ints.antt =====
-- Signed integers over the native numbers, for i32 priorities and for instants and durations in
-- milliseconds. The order tests stay shut, so that proofs treat a comparison as one Boolean.
use Prim.Native.Nat.{ℕ, suc, ◌+◌, ◌-◌, ◌*◌, ◌≤◌, ◌<◌}
use mathlib.Core.Path.{◌≡◌}
use mathlib.Core.Bool.{Bool, true, false}
use native.Mathlib.Omega.{arith}
use qml.Base.Tests.{ltb, leb, if◌then◌else◌}

-- `negsuc n` is -(n + 1).
pub data ℤ : Type 0 where
  pos : ℕ → ℤ
  negsuc : ℕ → ℤ

abbrev pub pos_part : ℤ → ℕ
pos_part (pos n) = n
pos_part (negsuc n) = 0

abbrev pub neg_part : ℤ → ℕ
neg_part (pos n) = 0
neg_part (negsuc n) = suc n

abbrev pub sub_ℕ : ℕ → ℕ → ℤ
sub_ℕ a b = if leb b a then pos (a - b) else negsuc (b - a - 1)

infixl 65 ◌+ℤ◌ ◌-ℤ◌
infixl 70 ◌*ℤ◌
infix 50 ◌≤ℤ◌ ◌<ℤ◌
unfoldable pub ◌+ℤ◌ : ℤ → ℤ → ℤ
a +ℤ b = sub_ℕ (pos_part a + pos_part b) (neg_part a + neg_part b)

unfoldable pub ◌-ℤ◌ : ℤ → ℤ → ℤ
a -ℤ b = sub_ℕ (pos_part a + neg_part b) (neg_part a + pos_part b)

unfoldable pub ◌*ℤ◌ : ℤ → ℤ → ℤ
a *ℤ b =
    sub_ℕ (pos_part a * pos_part b + neg_part a * neg_part b)
      (pos_part a * neg_part b + neg_part a * pos_part b)

abbrev pub ◌≤ℤ◌ : ℤ → ℤ → Type 0
a ≤ℤ b = pos_part a + neg_part b ≤ pos_part b + neg_part a

abbrev pub ◌<ℤ◌ : ℤ → ℤ → Type 0
a <ℤ b = pos_part a + neg_part b < pos_part b + neg_part a

-- a ≤ b and a < b as tests.
unfoldable pub at_most : ℤ → ℤ → Bool
at_most a b = leb (pos_part a + neg_part b) (pos_part b + neg_part a)

unfoldable pub before : ℤ → ℤ → Bool
before a b = ltb (pos_part a + neg_part b) (pos_part b + neg_part a)

pub at_most→≤ℤ : (a b : ℤ) → at_most a b ≡ true → a ≤ℤ b
unfolding at_most
at_most→≤ℤ a b h = ground arith

pub ≤ℤ→at_most : (a b : ℤ) → a ≤ℤ b → at_most a b ≡ true
unfolding at_most
≤ℤ→at_most a b h = ground arith

pub before→<ℤ : (a b : ℤ) → before a b ≡ true → a <ℤ b
unfolding before
before→<ℤ a b h = ground arith

pub <ℤ→before : (a b : ℤ) → a <ℤ b → before a b ≡ true
unfolding before
<ℤ→before a b h = ground arith

pub before_false : (a b : ℤ) → before a b ≡ false → b ≤ℤ a
unfolding before
before_false a b h = ground arith

pub at_most_false : (a b : ℤ) → at_most a b ≡ false → b <ℤ a
unfolding at_most
at_most_false a b h = ground arith

pub ruleset int_tests =
    (arith, at_most→≤ℤ, ≤ℤ→at_most, before→<ℤ, <ℤ→before, before_false, at_most_false)

abbrev pub min_ℤ : ℤ → ℤ → ℤ
min_ℤ a b = if at_most a b then a else b

pub +ℤ_parts :
    (a b : ℤ)
    → pos_part (a +ℤ b) + neg_part a + neg_part b ≡ neg_part (a +ℤ b) + pos_part a + pos_part b
unfolding ◌+ℤ◌
+ℤ_parts a b = ground arith

pub eq_of_parts : (a b : ℤ) → pos_part a + neg_part b ≡ pos_part b + neg_part a → a ≡ b
eq_of_parts a b h = ground arith
