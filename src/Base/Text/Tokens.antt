-- ===== src/Base/Text/Tokens.antt =====
-- The shapes of access tokens in a text.
use Prim.Native.Nat.{ℕ}
use mathlib.Core.Bool.{Bool, false, ◌&&◌, ◌||◌}
use mathlib.Core.Option.{none, some}
use mathlib.Core.List.{List, [], ◌∷◌}
use Prim.Native.String.{String}
use agf_orchestrator.Base.Tests.{leb, ◌==◌}
use agf_orchestrator.Base.Lists.{length, all, any, take}
use agf_orchestrator.Base.Text.{codes, fold_case, after_folded}

-- `[A-Za-z0-9_-]` under `(?i)`
is_token_code : ℕ → Bool
unfolding fold_case
is_token_code c =
    leb b'a' (fold_case c) && leb (fold_case c) b'z'
    || leb b'0' c && leb c b'9'
    || c == b'_'
    || c == b'-'

abbrev token_words : List String
token_words =
    "sk-" ∷ "ghp_" ∷ "github_pat_" ∷ "xoxb-" ∷ "xoxa-" ∷ "xoxp-" ∷ "xoxr-" ∷ "xoxs-" ∷ "aiza" ∷ []

starts_token : String → List ℕ → Bool
unfolding after_folded is_token_code
starts_token word cs = elim (after_folded (codes word) cs) [
  | none ↦ false
  | some rest ↦ length (take 12 rest) == 12 && all is_token_code (take 12 rest)
]

token_from : List ℕ → Bool
unfolding starts_token
token_from [] = false
token_from (c ∷ cs) = any (λ w. starts_token w (c ∷ cs)) token_words || token_from cs

-- `(?i)(?:sk-|ghp_|github_pat_|xox[baprs]-|AIza)[A-Za-z0-9_-]{12}` under `search`.
unfoldable pub has_token : String → Bool
unfolding token_from
has_token s = token_from (codes s)
