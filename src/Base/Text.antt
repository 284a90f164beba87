-- ===== src/Base/Text.antt =====
-- Python's `str` as the native `String`, and the tests that the program makes on it: `len`,
-- `strip`, `isdigit`, comparison, and its regular expressions. A `str` is a sequence of code points.
mod Unicode
pub mod Tokens
use Prim.Native.Nat.{ℕ, zero, suc, ◌+◌, ◌-◌, ◌*◌, ◌≤◌, compare, Ordering}
use Prim.Native.Char.{Char, code}
use Prim.Native.String.{String}
use mathlib.Core.Path.{◌≡◌, refl}
use mathlib.Core.Logic.{◌↔◌}
use mathlib.Core.Bool.{Bool, true, false, not, ◌&&◌, ◌||◌}
use mathlib.Core.Option.{Option, none, some}
use mathlib.Core.List.{List, [], ◌∷◌}
use text.Mathlib.Text.{◌==◌ as text_beq}
use text.Mathlib.TextEquality.{eq_iff}
use text.Mathlib.TextPositions.{eq_refl}
use agf_orchestrator.Base.Tests.{leb, ltb, ◌==◌, if◌then◌else◌}
use agf_orchestrator.Base.Lists.{length, all, any, drop}
unfoldable pub use Unicode.{is_space, is_decimal, is_digit, decimal_value}

-- Equality of texts.
abbrev pub str_eq : String → String → Bool
str_eq = text_beq

pub str_eq_iff : (s t : String) → (str_eq s t ≡ true) ↔ (s ≡ t)
str_eq_iff = eq_iff

pub str_eq_refl : (s : String) → str_eq s s ≡ true
str_eq_refl = eq_refl

str_decided : (s t : String) (b : Bool) → str_eq s t ≡ b → Dec (s ≡ t)
str_decided s t true same = yes ((str_eq_iff s t).0 same)
str_decided s t false other = no (λ e. let same = (str_eq_iff s t).1 e in cc)

unfoldable pub str_discrete : Discrete String
unfolding str_decided
str_discrete s t = str_decided s t (str_eq s t) refl

-- The code points of a text.
abbrev pub codes : String → List ℕ
codes String.[] = []
codes (String.◌∷◌ c s) = code c ∷ codes s

-- `x in xs`
abbrev pub str_mem : String → List String → Bool
str_mem x = any (str_eq x)

-- `len(set(xs)) == len(xs)`
abbrev pub str_distinct : List String → Bool
str_distinct [] = true
str_distinct (x ∷ xs) = not (str_mem x xs) && str_distinct xs

-- `set(xs).issubset(ys)`
abbrev pub str_subset : List String → List String → Bool
str_subset xs ys = all (λ x. str_mem x ys) xs

-- `bool(s)`
unfoldable pub is_nonempty : String → Bool
is_nonempty s = not (length (codes s) == 0)

-- `bool(s.strip())`
unfoldable pub has_text : String → Bool
has_text s = not (all is_space (codes s))

-- `len(s) <= n`
unfoldable pub len_le : String → ℕ → Bool
len_le s n = leb (length (codes s)) n

-- `s.isdigit()`
unfoldable pub is_digit_text : String → Bool
is_digit_text s = is_nonempty s && all is_digit (codes s)

-- The order of two sequences of code points: Python's order of texts.
abbrev pub codes_compare : List ℕ → List ℕ → Ordering
codes_compare [] [] = Ordering.eq
codes_compare [] (d ∷ ds) = Ordering.lt
codes_compare (c ∷ cs) [] = Ordering.gt
codes_compare (c ∷ cs) (d ∷ ds) =
    let rest = codes_compare cs ds in
    elim (compare c d) [
      | Ordering.lt ↦ Ordering.lt
      | Ordering.eq ↦ rest
      | Ordering.gt ↦ Ordering.gt
    ]

-- `s < t`
unfoldable pub str_lt : String → String → Bool
str_lt s t = elim (codes_compare (codes s) (codes t)) [ Ordering.lt ↦ true | _ ↦ false ]

-- What is left of a text after a prefix.
abbrev pub after : List ℕ → List ℕ → Option (List ℕ)
after [] cs = some cs
after (p ∷ ps) [] = none
after (p ∷ ps) (c ∷ cs) = let rest = after ps cs in if p == c then rest else none

-- `s.startswith(prefix)`
unfoldable pub starts_with : String → String → Bool
starts_with s prefix = elim (after (codes prefix) (codes s)) [ none ↦ false | some _ ↦ true ]

is_id_start : ℕ → Bool
is_id_start c = leb b'a' c && leb c b'z' || leb b'0' c && leb c b'9'

is_id_part : ℕ → Bool
unfolding is_id_start
is_id_part c = is_id_start c || c == b'-'

is_id_tail : List ℕ → Bool
unfolding is_id_start is_id_part
is_id_tail [] = false
is_id_tail (c ∷ cs) = is_id_start c && (leb (length cs) 79 && all is_id_part cs)

-- `^<prefix>[a-z0-9][a-z0-9-]{0,79}$` under `fullmatch`.
unfoldable pub is_identifier : String → String → Bool
unfolding is_id_tail
is_identifier prefix s = elim (after (codes prefix) (codes s)) [
  | none ↦ false
  | some cs ↦ is_id_tail cs
]

are_record_digits : Option (List ℕ) → Bool
are_record_digits none = false
are_record_digits (some cs) =
    leb 6 (length cs) && (leb (length cs) 80 && all (λ c. leb b'0' c && leb c b'9') cs)

-- `^(?:event|inbox)-[0-9]{6,80}$` under `fullmatch`.
unfoldable pub is_record_id : String → Bool
unfolding are_record_digits
is_record_id s =
    are_record_digits (after (codes "event-") (codes s))
    || are_record_digits (after (codes "inbox-") (codes s))

-- A text against a shape, in which `0` stands for `\d`.
matches_shape : List ℕ → List ℕ → Bool
matches_shape [] [] = true
matches_shape [] (c ∷ cs) = false
matches_shape (p ∷ ps) [] = false
matches_shape (p ∷ ps) (c ∷ cs) =
    (if p == b'0' then is_decimal c else p == c) && matches_shape ps cs

-- `^\d{4}-\d{2}-\d{2}T\d{2}:\d{2}:\d{2}Z$` under `fullmatch`.
unfoldable pub is_timestamp : String → Bool
unfolding matches_shape
is_timestamp s = matches_shape (codes "0000-00-00T00:00:00Z") (codes s)

is_hex_lower : ℕ → Bool
is_hex_lower c = leb b'0' c && leb c b'9' || leb b'a' c && leb c b'f'

is_name_part : ℕ → Bool
is_name_part c = leb b'a' c && leb c b'z' || leb b'0' c && leb c b'9' || c == b'-'

is_name_from : (ℕ → Bool) → ℕ → ℕ → List ℕ → Bool
is_name_from part least most [] = false
is_name_from part least most (c ∷ cs) =
    leb b'a' c && leb c b'z' && (leb least (length cs) && (leb (length cs) most && all part cs))

-- `^[a-z][a-z0-9_-]{1,63}$` under `fullmatch`.
unfoldable pub is_gate_name : String → Bool
unfolding is_name_from is_name_part
is_gate_name s = is_name_from (λ c. is_name_part c || c == b'_') 1 63 (codes s)

-- `^[a-z][a-z0-9-]{2,127}$` under `fullmatch`.
unfoldable pub is_decision_id : String → Bool
unfolding is_name_from is_name_part
is_decision_id s = is_name_from is_name_part 2 127 (codes s)

-- `<prefix>[a-f0-9]{n}` under `fullmatch`.
unfoldable pub is_hex_text : String → ℕ → String → Bool
unfolding is_hex_lower
is_hex_text prefix n s = elim (after (codes prefix) (codes s)) [
  | none ↦ false
  | some cs ↦ (length cs == n) && all is_hex_lower cs
]

-- `^[0-9a-fA-F]{40,64}$` under `fullmatch`.
unfoldable pub is_revision : String → Bool
unfolding is_hex_lower
is_revision s =
    leb 40 (length (codes s))
    && leb (length (codes s)) 64
    && all (λ c. is_hex_lower c || leb b'A' c && leb c b'F') (codes s)

-- The case folding of `(?i)` on a letter of the pattern below.
fold_case : ℕ → ℕ
fold_case c =
    if leb b'A' c && leb c b'Z'
    then c + 32
    else if c == 0x130 || c == 0x131
    then b'i'
    else if c == 0x17f
    then b's'
    else if c == 0x212a
    then b'k'
    else c

after_folded : List ℕ → List ℕ → Option (List ℕ)
unfolding fold_case
after_folded [] cs = some cs
after_folded (p ∷ ps) [] = none
after_folded (p ∷ ps) (c ∷ cs) =
    let rest = after_folded ps cs in if p == fold_case c then rest else none

-- `\s*[:=]` at the front
assigns : List ℕ → Bool
assigns [] = false
assigns (c ∷ cs) = (c == b':' || c == b'=') || (is_space c && assigns cs)

names_secret : String → List ℕ → Bool
unfolding after_folded assigns
names_secret word cs = elim (after_folded (codes word) cs) [ none ↦ false | some r ↦ assigns r ]

abbrev secret_words : List String
secret_words =
    "apikey" ∷ "api_key" ∷ "api-key" ∷ "token" ∷ "secret" ∷ "password" ∷ "authorization" ∷ []

secret_from : List ℕ → Bool
unfolding names_secret
secret_from [] = false
secret_from (c ∷ cs) = any (λ w. names_secret w (c ∷ cs)) secret_words || secret_from cs

-- `(?i)(api[_-]?key|token|secret|password|authorization)\s*[:=]` under `search`.
unfoldable pub has_secret : String → Bool
unfolding secret_from
has_secret s = secret_from (codes s)

-- `isinstance(s, str) and bool(s.strip()) and len(s) <= 4000`
abbrev pub is_bounded_text : String → Bool
is_bounded_text s = has_text s && len_le s 4000
