-- ===== src/Roadmap/Lifecycle/Numbers.antt =====
-- Python's `int` on a text, as `Roadmap.revise` uses it.
use agf_orchestrator.Base.{
  ℕ, ◌+◌, ◌*◌, ◌-◌, Bool, true, false, not, ◌&&◌, Option, none, some, List, [], ◌∷◌, String, ltb,
  ◌==◌, if◌then◌else◌,
}
use agf_orchestrator.Base.Int.{ℤ, pos, negsuc, leb_ℤ}
use agf_orchestrator.Base.Raise.{
  Result, ok, raise, roadmap_validation_error, value_error, ◌>>=◌, ◌>>◌, raise_if,
}
use agf_orchestrator.Base.Text.{codes, is_space, is_decimal, decimal_value, is_digit_text}
use agf_orchestrator.Roadmap.Models.{Roadmap}
use mathlib.Core.List.{reverse}

-- `s.lstrip()`, on code points
abbrev skip_spaces : List ℕ → List ℕ
skip_spaces [] = []
skip_spaces (c ∷ cs) = let rest = skip_spaces cs in if is_space c then rest else c ∷ cs

-- Digits, with single underscores between them; `after_digit` tells whether a digit came last.
abbrev digits_value : Bool → ℕ → List ℕ → Option ℕ
digits_value after_digit acc [] = if after_digit then some acc else none
digits_value after_digit acc (c ∷ cs) =
    let digit = digits_value true (10 * acc + decimal_value c) cs in
    let underscore = digits_value false acc cs in
    if is_decimal c then digit else if after_digit && c == b'_' then underscore else none

abbrev negate : ℕ → ℤ
negate n = if n == 0 then pos 0 else negsuc (n - 1)

abbrev signed : List ℕ → Option ℤ
signed [] = none
signed (c ∷ cs) =
    if c == b'-'
    then elim (digits_value false 0 cs) [ none ↦ none | some n ↦ some (negate n) ]
    else elim (if c == b'+' then digits_value false 0 cs else digits_value false 0 (c ∷ cs)) [
      | none ↦ none
      | some n ↦ some (pos n)
    ]

-- The number of decimal digits, which `int` bounds by 4300.
abbrev digit_count : List ℕ → ℕ
digit_count [] = 0
digit_count (c ∷ cs) = (if is_decimal c then 1 else 0) + digit_count cs

-- `int(s)`
unfoldable pub int_of : String → Result ℤ
int_of s =
    let cs = reverse (skip_spaces (reverse (skip_spaces (codes s)))) in
    if ltb 4300 (digit_count cs)
    then raise (value_error "exceeds the limit for integer string conversion")
    else elim (signed cs) [ none ↦ raise (value_error "invalid literal for int()") | some n ↦ ok n ]

-- `Roadmap.revise`
unfoldable pub revise : Roadmap → String → Result Roadmap
revise r version = do
  raise_if (not (is_digit_text version))
      (roadmap_validation_error "roadmap version must increase monotonically")
  new ← int_of version
  old ← int_of r.version
  raise_if (leb_ℤ new old) (roadmap_validation_error "roadmap version must increase monotonically")
  ok (record r { version = version })
