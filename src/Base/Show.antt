-- ===== src/Base/Show.antt =====
-- Numbers as texts: Python's `str` of an int and the format `06d`.
use Prim.Native.String.{◌++◌}
use agf_orchestrator.Base.Tests.{if◌then◌else◌, ◌==◌, ltb}
use agf_orchestrator.Base.Int.{ℤ, pos, negsuc}
use Prim.Native.Nat.{ℕ, zero, suc, ◌/◌, ◌%◌}
use Prim.Native.String.{String}

abbrev digit_text : ℕ → String
digit_text d =
    if d == 0
    then "0"
    else if d == 1
    then "1"
    else if d == 2
    then "2"
    else if d == 3
    then "3"
    else if d == 4
    then "4"
    else if d == 5
    then "5"
    else if d == 6
    then "6"
    else if d == 7
    then "7"
    else if d == 8
    then "8"
    else "9"

-- The digits of a number before a text; each round drops one digit, so `suc n` rounds are enough.
show_from : ℕ → ℕ → String → String
show_from zero n rest = rest
show_from (suc fuel) n rest =
    let more = show_from fuel (n / 10) (digit_text (n % 10) ++ rest) in
    if ltb n 10 then digit_text n ++ rest else more

unfoldable pub show_ℕ : ℕ → String
unfolding show_from
show_ℕ n = show_from (suc n) n ""

-- `str(n)`
unfoldable pub show_ℤ : ℤ → String
unfolding show_ℕ
show_ℤ (pos n) = show_ℕ n
show_ℤ (negsuc n) = "-" ++ show_ℕ (suc n)

-- `f"{n:06d}"`
unfoldable pub show_06d : ℕ → String
unfolding show_ℕ
show_06d n =
    let text = show_ℕ n in
    if ltb n 10
    then "00000" ++ text
    else if ltb n 100
    then "0000" ++ text
    else if ltb n 1000
    then "000" ++ text
    else if ltb n 10000
    then "00" ++ text
    else if ltb n 100000
    then "0" ++ text
    else text
