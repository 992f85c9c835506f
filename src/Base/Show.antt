-- ===== src/Base/Show.antt =====
-- The decimal text of a number, as `{}` prints it, and joined texts.
use Prim.Native.Nat.{ℕ, zero, suc, ◌/◌, ◌%◌}
use Prim.Native.String.{String, ◌++◌ as append}
use qml.Base.Tests.{ltb, if◌then◌else◌}

digit : ℕ → String
digit zero = "0"
digit (suc zero) = "1"
digit (suc (suc zero)) = "2"
digit (suc (suc (suc zero))) = "3"
digit (suc (suc (suc (suc zero)))) = "4"
digit (suc (suc (suc (suc (suc zero))))) = "5"
digit (suc (suc (suc (suc (suc (suc zero)))))) = "6"
digit (suc (suc (suc (suc (suc (suc (suc zero))))))) = "7"
digit (suc (suc (suc (suc (suc (suc (suc (suc zero)))))))) = "8"
digit (suc (suc (suc (suc (suc (suc (suc (suc (suc n))))))))) = "9"

-- One unit of fuel for each digit; `suc n` units are enough.
show_digits : ℕ → ℕ → String
show_digits zero n = ""
show_digits (suc fuel) n =
    let rest = show_digits fuel (n / 10) in
    if ltb n 10 then digit n else append rest (digit (n % 10))

unfoldable pub show : ℕ → String
unfolding show_digits digit
show n = show_digits (suc n) n

infixr 60 ◌<>◌
abbrev pub ◌<>◌ : String → String → String
s <> t = append s t
