-- ===== src/Finding/Store/Active.antt =====
-- Which findings `active` returns.
use Prim.Native.String.{◌++◌}
use agf_orchestrator.Base.{
  Bool, true, false, ◌&&◌, Option, none, some, List, [], ◌∷◌, String, ◌≡◌, refl, ◌∙◌, subst, ap,
  Bool-cases, inl, inr, any, keep, All,
}
use agf_orchestrator.Base.Raise.{ok, >>=-eq-ok, ok-injective}
use agf_orchestrator.Base.Sort.{any-sort_by}
use agf_orchestrator.Base.Text.{str_eq, str_eq_iff, str_lt, starts_with}
use agf_orchestrator.Finding.Models.{
  Digest, CausalFinding, validate, finding_from_dict, identity_of,
}
use agf_orchestrator.Finding.Store.{
  Contents, malformed, document, Entry, Files, read, read_all, is_wanted, directory, active,
}

any-keep :
    {A : Type 0} (q k : A → Bool) (xs : List A) → any q (keep k xs) ≡ any (λ x. k x && q x) xs
any-keep q k [] = refl
any-keep q k (x ∷ xs) = elim (Bool-cases (k x)) [
  | inl kept ↦ rw (kept, any-keep q k xs)
  | inr dropped ↦ rw (dropped, any-keep q k xs)
]

abbrev at_revision : {J : Type 0} → Option String → CausalFinding J → Bool
at_revision none f = true
at_revision (some sha) f = str_eq f.reproduced_sha sha

-- The test on an object that is ACTIVE and reproduced at the given revision, if one is given.
abbrev pub holds_active :
    {J : Type 0} → Option String → (CausalFinding J → Bool) → Contents J → Bool
holds_active baseline q (malformed e) = false
holds_active baseline q (document f) = str_eq f.status "ACTIVE" && (at_revision baseline f && q f)

-- The test on a file of a finding of the project.
abbrev pub is_active_file :
    {J : Type 0} → String → Option String → (CausalFinding J → Bool) → Entry J → Bool
is_active_file p baseline q e =
    (str_eq e.project_id p && starts_with e.finding_id "finding-")
    && holds_active baseline q e.contents

-- A finding that keeps the rules of its model, under the name that its content has.
abbrev pub IsSound : {J : Type 0} → Digest → CausalFinding J → Type 0
IsSound digest f = (validate f ≡ ok tt) × (f.finding_id ≡ identity_of digest f)

module _ {J : Type 0} (digest : Digest) where
  read_document :
      (c : Contents J) (f : CausalFinding J)
      → read digest c ≡ ok f
      → (c ≡ document f) × IsSound digest f
  unfolding finding_from_dict
  read_document (malformed e) f h = absurd (cc)
  read_document (document g) f h =
      let (_, valid, h₁) = >>=-eq-ok (validate g) _ h in
      elim (Bool-cases (str_eq g.finding_id (identity_of digest g))) [
        | inl bound ↦
            let same : g ≡ f = ok-injective g f (rw bound at h₁) in
            (
              ap document same,
              subst (IsSound digest) same
                  (valid, (str_eq_iff g.finding_id (identity_of digest g)).0 bound),
            )
        | inr unbound ↦ absurd (let k = rw unbound at h₁ in cc)
      ]

module _ {J : Type 0} (digest : Digest) (baseline : Option String)
    (q : CausalFinding J → Bool) where
  holds_active_wanted :
      (b : Option String) (f : CausalFinding J)
      → holds_active b q (document f) ≡ is_wanted b f && q f
  holds_active_wanted none f = refl
  holds_active_wanted (some sha) f = elim (Bool-cases (str_eq f.status "ACTIVE")) [
    | inl live ↦ rw live
    | inr other ↦ rw other
  ]

  any-read_all :
      (es : Files J) (fs : List (CausalFinding J))
      → read_all digest baseline es ≡ ok fs
      → (any q fs ≡ any (λ e. holds_active baseline q e.contents) es) × All (IsSound digest) fs
  any-read_all [] fs h =
      let e : [] ≡ fs = cc in subst (λ l. (any q l ≡ false) × All (IsSound digest) l) e (refl, tt)
  any-read_all (e ∷ es) fs h =
      let (f, r, h₁) = >>=-eq-ok (read digest e.contents) _ h in
      let (gs, rest, h₂) = >>=-eq-ok (read_all digest baseline es) _ h₁ in
      let (ih, sound) = any-read_all es gs rest in
      let (d, f_sound) = read_document digest e.contents f r in
      let w = holds_active_wanted baseline f in
      elim (Bool-cases (is_wanted baseline f)) [
        | inl yes_wanted ↦
            let same : f ∷ gs ≡ fs = ok-injective (f ∷ gs) fs (rw yes_wanted at h₂) in
            subst
              (λ l.
                (any q l ≡ any (λ x. holds_active baseline q x.contents) (e ∷ es))
                × All (IsSound digest) l)
              same (rw (d, w, yes_wanted, ih), (f_sound, sound))
        | inr not_wanted ↦
            let same : gs ≡ fs = ok-injective gs fs (rw not_wanted at h₂) in
            subst
              (λ l.
                (any q l ≡ any (λ x. holds_active baseline q x.contents) (e ∷ es))
                × All (IsSound digest) l)
              same (rw (d, w, not_wanted, ih), sound)
      ]

-- If `active` returns, a test holds of one of the findings that it returns exactly if it holds of the
-- object in one of the project's files whose name starts with `finding-` and that object is ACTIVE and
-- reproduced at the given revision, if one is given; and every finding returned is valid and has the
-- identity of its content.
pub any-active :
    {J : Type 0} (digest : Digest) (p : String) (baseline : Option String) (files : Files J)
    (fs : List (CausalFinding J)) (q : CausalFinding J → Bool)
    → active digest p baseline files ≡ ok fs
    → (any q fs ≡ any (is_active_file p baseline q) files) × All (IsSound digest) fs
unfolding active
any-active digest p baseline files fs q h =
    let (found, sound) = any-read_all digest baseline q (directory p files) fs h in
    (
      found
          ∙ any-sort_by _ (λ a b. str_lt (a.finding_id ++ ".json") (b.finding_id ++ ".json"))
              (keep (λ e. str_eq e.project_id p && starts_with e.finding_id "finding-") files)
          ∙ any-keep _ (λ e. str_eq e.project_id p && starts_with e.finding_id "finding-") files,
      sound,
    )
