-- ===== src/Source/Extract/Accepts.antt =====
-- Which answers `extract_solution_code` accepts, and which block it takes the code from.
use csharp_llm_benchmark.Prelude.{
  ◌≢◌, ◌≡◌, refl, ap, ◌↔◌, inl, inr, ◌⊎◌, Option, none, some, List, [], ◌∷◌, ◌++◌, arith, Bool,
  true, false, ◌>>=◌, All, select, Bool-cases, Option-cases,
}
use csharp_llm_benchmark.Prelude.Text.{Text}
use csharp_llm_benchmark.Source.Strip.{newline}
use csharp_llm_benchmark.Source.Scan.{scan}
use csharp_llm_benchmark.Source.Scan
use csharp_llm_benchmark.Source.Refine.{strip-scan}
use csharp_llm_benchmark.Source.Extract.{
  Regexes, Fence, Warning, empty, is_csharp, declares_namespace, take_code, lacks_class, check_code,
  extract_solution_code, head,
}

module _ (re : Regexes) where
  declares_namespace-scan :
      (code : Text)
      → declares_namespace re code ≡ some (re.finds_namespace (scan Scan.Mode.code code))
  unfolding declares_namespace
  declares_namespace-scan code = rw (strip-scan code, ◌>>=◌)

  -- No class is required, or one without a name, or the text declares it as public.
  abbrev pub HasClass : Option Text → Text → Type 0
  HasClass required code =
      (required ≡ none)
      ⊎ ((name : Text) × (required ≡ some name)
          × ((name ≡ []) ⊎ (re.finds_public_class name code ≡ true)))

  lacks_class_iff :
      (required : Option Text) (code : Text)
      → (lacks_class re required code ≡ none) ↔ HasClass required code
  unfolding lacks_class
  lacks_class_iff none code = (λ h. inl refl, λ h. refl)
  lacks_class_iff (some []) code = (λ h. inr ([], refl, inl refl), λ h. refl)
  lacks_class_iff (some (c ∷ name)) code = (
    λ h. inr (c ∷ name, refl, inr (ground arith)),
    λ h. elim h [
      | inl e ↦ absurd (cc)
      | inr (n, e, inl k) ↦ absurd (cc)
      | inr (n, e, inr k) ↦ ground arith
    ],
  )

  empty_iff : (code : Text) → (empty code ≡ false) ↔ (code ≢ [])
  empty_iff [] = (λ h. absurd (cc), λ h. absurd (h refl))
  empty_iff (c ∷ code) = (λ h e. cc, λ h. refl)

  -- What a text must satisfy to be accepted as code.
  pub record IsAccepted (required : Option Text) (code : Text) : Type 0 where
    pub not_empty : code ≢ []
    pub no_namespace : re.finds_namespace (scan Scan.Mode.code code) ≡ false
    pub has_class : HasClass required code

  check_code_iff :
      (required : Option Text) (warnings : List Warning) (code out : Text)
      → ((check_code re required warnings code).code ≡ some out)
        ↔ (IsAccepted required code × (out ≡ code ++ newline ∷ []))
  unfolding check_code
  check_code_iff required warnings code out = (
    λ h. (
      record {
        not_empty = (empty_iff code).0 (ground (arith, declares_namespace-scan code));
        no_namespace = ground (arith, declares_namespace-scan code);
        has_class =
            (lacks_class_iff required code).0 (ground (arith, declares_namespace-scan code));
      },
      ground (arith, declares_namespace-scan code),
    ),
    λ (a, same).
        let filled = (empty_iff code).1 a.not_empty in
        let declared = (lacks_class_iff required code).1 a.has_class in
        let clean = a.no_namespace in ground (arith, declares_namespace-scan code),
  )

  -- An answer is accepted exactly when the text taken from it, without the white space around it, is
  -- not empty, declares no namespace outside of comments and literals as the machine finds them, and
  -- declares the required class as public, where one with a name is required; the result is that text with one line break behind it.
  pub extract_iff :
      (response : Text) (required : Option Text) (out : Text)
      → ((extract_solution_code re response required).code ≡ some out) ↔ (
          IsAccepted required (re.strip (take_code re response).0)
          × (out ≡ re.strip (take_code re response).0 ++ newline ∷ []))
  unfolding extract_solution_code
  extract_iff response required out = check_code_iff required _ _ out

  -- The first block that satisfies a test: the block, and that those before it fail the test.
  select-head :
      (p : Fence → Bool) (fs : List Fence) (f : Fence)
      → head (select p fs) ≡ some f
      → (before rest : List Fence) × (fs ≡ before ++ f ∷ rest)
        × (p f ≡ true)
        × All (λ g. p g ≡ false) before
  select-head p [] f h = absurd (cc)
  select-head p (g ∷ fs) f h = elim (Bool-cases (p g)) [
    | inl e ↦ let same : g ≡ f = ground arith in ([], fs, cc, cc, tt)
    | inr e ↦
        let (before, rest, split, passes, fail) = select-head p fs f (rw e at h) in
        (g ∷ before, rest, ap (λ (l : List Fence). g ∷ l) split, passes, (e, fail))
  ]

  -- Whether a block is marked as C#.
  abbrev pub marked : Fence → Bool
  marked f = is_csharp (re.lower (re.strip f.language))

  select-none :
      (p : Fence → Bool) (fs : List Fence) → head (select p fs) ≡ none → All (λ g. p g ≡ false) fs
  select-none p [] h = tt
  select-none p (g ∷ fs) h = elim (Bool-cases (p g)) [
    | inl e ↦ absurd (ground arith)
    | inr e ↦ (e, select-none p fs (rw e at h))
  ]

  -- Where a text was taken from an answer with the blocks `fs`.
  pub data TakenFrom (response : Text) (fs : List Fence) (code : Text) : Type 0 where
    first_marked :
        (before rest : List Fence) (f : Fence)
        → fs ≡ before ++ f ∷ rest
        → marked f ≡ true
        → All (λ g. marked g ≡ false) before
        → code ≡ f.body
        → TakenFrom response fs code
    first_block :
        (f : Fence) (rest : List Fence)
        → fs ≡ f ∷ rest
        → All (λ g. marked g ≡ false) fs
        → code ≡ f.body
        → TakenFrom response fs code
    whole_answer : fs ≡ [] → code ≡ response → TakenFrom response fs code

  take_code-of :
      (response : Text) (fs : List Fence)
      → re.fences response ≡ fs
      → TakenFrom response fs (take_code re response).0
  unfolding take_code
  take_code-of response [] h = whole_answer refl (ground arith)
  take_code-of response (g ∷ fs) h = elim (Option-cases (head (select marked (g ∷ fs)))) [
    | inl e ↦ first_block g fs refl (select-none marked (g ∷ fs) e) (ground arith)
    | inr (f, e) ↦
        let (before, rest, split, passes, fail) = select-head marked (g ∷ fs) f e in
        first_marked before rest f split passes fail (ground arith)
  ]

  -- The code that is taken from an answer is the body of the first block marked as C#; where no
  -- block is marked so it is that of the first block, and the whole answer where it has no block.
  pub take_code_source :
      (response : Text) → TakenFrom response (re.fences response) (take_code re response).0
  take_code_source response = take_code-of response (re.fences response) refl
