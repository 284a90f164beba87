-- ===== src/Base/Text/Unicode.antt =====
-- The character classes of Python's `str` and `re`, from the Unicode tables of Python 3.12 and 3.13.
use Prim.Native.Nat.{ℕ, ◌+◌, ◌-◌}
use mathlib.Core.Bool.{Bool, ◌&&◌, ◌||◌}
use mathlib.Core.List.{List, [], ◌∷◌}
use agf_orchestrator.Base.Tests.{leb, if◌then◌else◌}
use agf_orchestrator.Base.Lists.{any}

-- `str.isspace` and `\s`
unfoldable pub is_space : ℕ → Bool
is_space c =
    any (λ (r : ℕ × ℕ). leb r.0 c && leb c r.1)
      ((9, 13)
        ∷ (28, 32)
        ∷ (133, 133)
        ∷ (160, 160)
        ∷ (5760, 5760)
        ∷ (8192, 8202)
        ∷ (8232, 8233)
        ∷ (8239, 8239)
        ∷ (8287, 8287)
        ∷ (12288, 12288)
        ∷ [])

-- The zeros of the decimal digits: each begins a block of ten.
abbrev zeros : List ℕ
zeros =
    48 ∷ 1632 ∷ 1776 ∷ 1984 ∷ 2406 ∷ 2534 ∷ 2662 ∷ 2790 ∷ 2918 ∷ 3046 ∷ 3174 ∷ 3302 ∷ 3430 ∷ 3558
    ∷ 3664 ∷ 3792 ∷ 3872 ∷ 4160 ∷ 4240 ∷ 6112 ∷ 6160 ∷ 6470 ∷ 6608 ∷ 6784 ∷ 6800 ∷ 6992 ∷ 7088
    ∷ 7232 ∷ 7248 ∷ 42528 ∷ 43216 ∷ 43264 ∷ 43472 ∷ 43504 ∷ 43600 ∷ 44016 ∷ 65296 ∷ 66720 ∷ 68912
    ∷ 69734 ∷ 69872 ∷ 69942 ∷ 70096 ∷ 70384 ∷ 70736 ∷ 70864 ∷ 71248 ∷ 71360 ∷ 71472 ∷ 71904 ∷ 72016
    ∷ 72784 ∷ 73040 ∷ 73120 ∷ 73552 ∷ 92768 ∷ 92864 ∷ 93008 ∷ 120782 ∷ 120792 ∷ 120802 ∷ 120812
    ∷ 120822 ∷ 123200 ∷ 123632 ∷ 124144 ∷ 125264 ∷ 130032 ∷ []

-- `\d`
unfoldable pub is_decimal : ℕ → Bool
is_decimal c = any (λ z. leb z c && leb c (z + 9)) zeros

value_in : List ℕ → ℕ → ℕ
value_in [] c = 0
value_in (z ∷ zs) c = let rest = value_in zs c in if leb z c && leb c (z + 9) then c - z else rest

-- The value of a decimal digit.
unfoldable pub decimal_value : ℕ → ℕ
unfolding value_in
decimal_value c = value_in zeros c

-- `str.isdigit` on one character: the decimal digits, and superscripts and the like.
unfoldable pub is_digit : ℕ → Bool
unfolding is_decimal
is_digit c =
    is_decimal c
    || any (λ (r : ℕ × ℕ). leb r.0 c && leb c r.1)
        ((178, 179)
          ∷ (185, 185)
          ∷ (4969, 4977)
          ∷ (6618, 6618)
          ∷ (8304, 8304)
          ∷ (8308, 8313)
          ∷ (8320, 8329)
          ∷ (9312, 9320)
          ∷ (9332, 9340)
          ∷ (9352, 9360)
          ∷ (9450, 9450)
          ∷ (9461, 9469)
          ∷ (9471, 9471)
          ∷ (10102, 10110)
          ∷ (10112, 10120)
          ∷ (10122, 10130)
          ∷ (68160, 68163)
          ∷ (69216, 69224)
          ∷ (69714, 69722)
          ∷ (127232, 127242)
          ∷ [])
