-- ===== src/Scope/Parts.antt =====
-- A path in scope, by its components.
use agf_orchestrator.Base.{
  ℕ, String, Bool, true, false, some, List, [], ◌∷◌, ◌++◌, all, any, get_last?, All, ◌≡◌, refl, ap,
  sym, ◌∙◌, subst, ◌≢◌, ◌⊎◌, inl, inr, ◌↔◌, ◌==◌, ==_iff, Bool-cases, Option-cases, and_true, arith,
}
use agf_orchestrator.Base.Text.{codes, after, starts_with, str_eq, str_eq_iff, str_eq_refl, str_mem}
use agf_orchestrator.Scope.{
  codes_eq, split_from, parts, is_part, refused_parts, valid_relative, is_directory, drop_last,
  entry, scope_is_valid, covers, path_in_scope,
}

codes_eq_refl : (cs : List ℕ) → codes_eq cs cs ≡ true
codes_eq_refl [] = refl
codes_eq_refl (c ∷ cs) = ground (arith, codes_eq_refl cs)

-- A text that starts with a prefix is the prefix and what is left.
after-eq-some : (ps cs rest : List ℕ) → after ps cs ≡ some rest → cs ≡ ps ++ rest
after-eq-some [] cs rest h = cc
after-eq-some (p ∷ ps) [] rest h = cc
after-eq-some (p ∷ ps) (c ∷ cs) rest h = elim (Bool-cases (p == c)) [
  | inl same ↦ let t = after-eq-some ps cs rest (rw same at h) in let e = (==_iff p c).0 same in cc
  | inr other ↦ let k = rw other at h in absurd (cc)
]

-- The parts on both sides of a slash are split apart.
split_from-append :
    (ds rs : List ℕ)
    → split_from (ds ++ b'/' ∷ rs) ≡ ((split_from ds).0, (split_from ds).1 ++ parts rs)
split_from-append [] rs = refl
split_from-append (d ∷ ds) rs = elim (Bool-cases (d == b'/')) [
  | inl slash ↦ rw (slash, split_from-append ds rs)
  | inr other ↦ rw (other, split_from-append ds rs)
]

get_last-drop_last : (cs : List ℕ) (c : ℕ) → get_last? cs ≡ some c → cs ≡ drop_last cs ++ c ∷ []
get_last-drop_last [] c h = cc
get_last-drop_last (d ∷ []) c h = cc
get_last-drop_last (d ∷ e ∷ cs) c h = ap (λ t. d ∷ t) (get_last-drop_last (e ∷ cs) c h)

-- What a path in scope owes to one entry of the scope: it is that file, or it has the parts of that
-- directory and further parts below.
abbrev pub IsBelow : String → String → Type 0
IsBelow path allowed =
    ((is_directory allowed ≡ false) × (path ≡ allowed))
    ⊎ ((is_directory allowed ≡ true)
        × (rest : List ℕ) × (parts (codes path) ≡ parts (entry allowed) ++ parts rest))

entry_slash : (a : String) → is_directory a ≡ true → codes a ≡ entry a ++ b'/' ∷ []
entry_slash a h = elim (Option-cases (get_last? (codes a))) [
  | inl empty ↦ let k = rw (empty, is_directory) at h in absurd (cc)
  | inr (c, last) ↦
      let e = (==_iff c b'/').0 (rw (last, is_directory) at h) in
      rw h (get_last-drop_last (codes a) b'/' (last ∙ ap (λ d. some d) e))
]

append_assoc : (xs ys zs : List ℕ) → (xs ++ ys) ++ zs ≡ xs ++ (ys ++ zs)
append_assoc [] ys zs = refl
append_assoc (x ∷ xs) ys zs = ap (λ t. x ∷ t) (append_assoc xs ys zs)

parts-after :
    (path : List ℕ) (a : String) (rest : List ℕ)
    → is_directory a ≡ true
    → after (codes a) path ≡ some rest
    → parts path ≡ parts (entry a) ++ parts rest
parts-after path a rest directory left =
    let slash = ap (λ t. t ++ rest) (entry_slash a directory) in
    let split =
      after-eq-some (codes a) path rest left ∙ slash ∙ append_assoc (entry a) (b'/' ∷ []) rest in
    ap parts split ∙ ap (λ s. s.0 ∷ s.1) (split_from-append (entry a) rest)

covers-IsBelow : (path allowed : String) → covers path allowed ≡ true → IsBelow path allowed
unfolding starts_with
covers-IsBelow path allowed h = elim (Bool-cases (is_directory allowed)) [
  | inr file ↦ inl (file, (str_eq_iff path allowed).0 (rw file at h))
  | inl directory ↦ elim (Option-cases (after (codes allowed) (codes path))) [
    | inl none_left ↦ let k = rw (directory, none_left, starts_with) at h in absurd (cc)
    | inr (rest, left) ↦ inr (directory, rest, parts-after (codes path) allowed rest directory left)
  ]
]

any-eq-true :
    (p : String → Bool) (xs : List String)
    → any p xs ≡ true
    → (x : String) × (str_mem x xs ≡ true) × (p x ≡ true)
any-eq-true p [] h = cc
any-eq-true p (x ∷ xs) h = elim (Bool-cases (p x)) [
  | inl here ↦ (x, ground (arith, str_eq_refl x), here)
  | inr miss ↦ let (y, mem, holds) = any-eq-true p xs (ground arith) in (y, ground arith, holds)
]

-- No part of the path is empty, names the directory itself or its parent, or is git's.
abbrev pub IsPart : List ℕ → Type 0
IsPart part = All (λ refused. part ≢ codes refused) refused_parts

not_refused :
    (part : List ℕ) (refused : List String)
    → any (λ r. codes_eq part (codes r)) refused ≡ false
    → All (λ r. part ≢ codes r) refused
not_refused part [] h = tt
not_refused part (r ∷ rs) h = (
  (λ e. let same = subst (λ c. codes_eq part c ≡ true) e (codes_eq_refl part) in ground arith),
  not_refused part rs (ground arith),
)

is_part-IsPart : (part : List ℕ) → is_part part ≡ true → IsPart part
is_part-IsPart part h = not_refused part refused_parts (ground arith)

all_parts : (ps : List (List ℕ)) → all is_part ps ≡ true → All IsPart ps
all_parts [] h = tt
all_parts (p ∷ ps) h =
    let (first, others) = and_true (is_part p) (all is_part ps) h in
    (is_part-IsPart p first, all_parts ps others)

valid_relative-parts : (cs : List ℕ) → valid_relative cs ≡ true → All IsPart (parts cs)
unfolding valid_relative
valid_relative-parts cs h = all_parts (parts cs) (ground arith)

-- `"/".join(parts)`
join : List ℕ → List (List ℕ) → List ℕ
join p [] = p
join p (q ∷ qs) = p ++ b'/' ∷ join q qs

join_parts : List (List ℕ) → List ℕ
unfolding join
join_parts [] = []
join_parts (p ∷ ps) = join p ps

join-cons : (c : ℕ) (p : List ℕ) (ps : List (List ℕ)) → join (c ∷ p) ps ≡ c ∷ join p ps
unfolding join
join-cons c p [] = refl
join-cons c p (q ∷ qs) = refl

join-split_from : (cs : List ℕ) → join (split_from cs).0 (split_from cs).1 ≡ cs
unfolding join
join-split_from [] = refl
join-split_from (c ∷ cs) = elim (Bool-cases (c == b'/')) [
  | inl slash ↦ cc (join-split_from cs, (==_iff c b'/').0 slash)
  | inr other ↦ rw (other, join-cons c (split_from cs).0 (split_from cs).1, join-split_from cs)
]

-- A text is determined by its parts.
parts-injective : (cs ds : List ℕ) → parts cs ≡ parts ds → cs ≡ ds
unfolding join_parts
parts-injective cs ds h = sym (join-split_from cs) ∙ ap join_parts h ∙ join-split_from ds

after-append : (ps rest : List ℕ) → after ps (ps ++ rest) ≡ some rest
after-append [] rest = refl
after-append (p ∷ ps) rest = ground (arith, after-append ps rest)

IsBelow-covers : (path allowed : String) → IsBelow path allowed → covers path allowed ≡ true
unfolding starts_with
IsBelow-covers path allowed (inl (file, same)) = rw file (ground (arith, str_eq_iff path allowed))
IsBelow-covers path allowed (inr (directory, rest, same)) =
    let split = same ∙ sym (ap (λ s. s.0 ∷ s.1) (split_from-append (entry allowed) rest)) in
    let slash = append_assoc (entry allowed) (b'/' ∷ []) rest in
    let whole =
      parts-injective (codes path) (entry allowed ++ b'/' ∷ rest) split
      ∙ sym slash
      ∙ sym (ap (λ t. t ++ rest) (entry_slash allowed directory)) in
    rw (directory, starts_with, whole, after-append (codes allowed) rest)

any-mem :
    (p : String → Bool) (xs : List String) (x : String)
    → str_mem x xs ≡ true
    → p x ≡ true
    → any p xs ≡ true
any-mem p [] x mem holds = cc
any-mem p (y ∷ ys) x mem holds = elim (Bool-cases (str_eq x y)) [
  | inl same ↦
      let e = (str_eq_iff x y).0 same in let hit = subst (λ z. p z ≡ true) e holds in ground arith
  | inr other ↦ let rest = any-mem p ys x (rw other at mem) holds in ground arith
]

-- `path_in_scope` admits a path exactly if the path and the scope are valid and some entry of the scope
-- permits it: an entry without a final slash that is the path, or a directory whose parts are the first
-- parts of the path. An admitted path has no part that is empty, `.`, `..` or `.git`.
pub path_in_scope_iff :
    (path : String) (allowed : List String)
    → (path_in_scope path allowed ≡ true) ↔ (
        (valid_relative (codes path) ≡ true)
        × (scope_is_valid allowed ≡ true)
        × All IsPart (parts (codes path))
        × (a : String) × (str_mem a allowed ≡ true)
        × IsBelow path a)
unfolding path_in_scope
path_in_scope_iff path allowed = (
  (λ h. elim (Bool-cases (valid_relative (codes path))) [
    | inr invalid ↦ absurd (let k = rw invalid at h in cc)
    | inl valid ↦ elim (Bool-cases (scope_is_valid allowed)) [
      | inr no_scope ↦ absurd (let k = rw (valid, no_scope) at h in cc)
      | inl scope ↦
          let (a, mem, hit) = any-eq-true (covers path) allowed (rw (valid, scope) at h) in
          (valid, scope, valid_relative-parts (codes path) valid, a, mem, covers-IsBelow path a hit)
    ]
  ]),
  (λ g.
      let (valid, scope, _, a, mem, below) = g in
      rw (valid, scope) (any-mem (covers path) allowed a mem (IsBelow-covers path a below))),
)
