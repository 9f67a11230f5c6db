-- ===== src/Common/Texts.antt =====
-- String methods on texts as lists of UTF-16 code units.
use Prim.Native.Nat.{ℕ, zero, suc, ◌+◌, ◌/◌, ◌%◌}
use mathlib.Core.Bool.{Bool, true, false, ◌&&◌, ◌||◌}
use mathlib.Core.List.{List, [], ◌∷◌, map}
use codeweaknesses.Common.Tests.{leb, ltb, eqb, if◌then◌else◌}

-- `s.toLowerCase()` on ASCII letters. No other code unit has a lower case that holds one of the
-- ASCII words that the program looks for, so it stays as it is.
abbrev pub to_lower : List ℕ → List ℕ
to_lower = map (λ c. if leb 65 c && leb c 90 then c + 32 else c)

-- `s.startsWith(p)`
unfoldable pub starts_with : List ℕ → List ℕ → Bool
starts_with s [] = true
starts_with [] (d ∷ p) = false
starts_with (c ∷ s) (d ∷ p) = eqb c d && starts_with s p

-- `s.includes(p)`
unfoldable pub includes : List ℕ → List ℕ → Bool
unfolding starts_with
includes [] p = starts_with [] p
includes (c ∷ s) p = starts_with (c ∷ s) p || includes s p

-- The decimal digits of a number, with fuel above it.
unfoldable pub decimal_from : ℕ → ℕ → List ℕ → List ℕ
decimal_from zero n digits = digits
decimal_from (suc fuel) n digits =
    let shown = (48 + n % 10) ∷ digits in
    let rest = decimal_from fuel (n / 10) shown in if ltb n 10 then shown else rest

unfoldable pub decimal : ℕ → List ℕ
unfolding decimal_from
decimal n = decimal_from (suc n) n []
