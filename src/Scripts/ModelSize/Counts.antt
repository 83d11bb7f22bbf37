-- ===== src/Scripts/ModelSize/Counts.antt =====
-- Each run with a summary is counted once.
use csharp_llm_benchmark.Prelude.{
  ℕ, ◌+◌, ◌≡◌, Option, none, some, List, [], ◌∷◌, arith, Bool, true, false,
}
use csharp_llm_benchmark.Prelude.Text.{Text}
use csharp_llm_benchmark.Prelude.Int.{ℤ}
use csharp_llm_benchmark.Json.Fields.{Json, object, Fields}
use csharp_llm_benchmark.Json.Python.{Python}
use csharp_llm_benchmark.LmStudio.Meta.{LmStudioModelMeta}
use csharp_llm_benchmark.Scripts.Files.{JsonText, RunDir}
use csharp_llm_benchmark.Scripts.ModelSize.{
  Arguments, Line, Library, Visit, passed_over, skipped, matched, failed, Report, models_for, save,
  visit_size, visit_meta, visit_entry, visit_models, visit_root, visit_section, visit_value,
  after_test, visit_loaded, visit_summary, visit, migrated_after, skips_after, after_visit,
  visit_all,
}

-- The number of runs with a summary.
abbrev pub summaries : {File : Type 0} → List (RunDir File) → ℕ
summaries [] = 0
summaries (run ∷ runs) = elim run.summary [ none ↦ summaries runs | some file ↦ 1 + summaries runs ]

module _ (py : Python) {File : Type 0} (json : JsonText File)
    (respond : List Text → Text → Option Json) (args : Arguments) where
  abbrev Counted : Visit File → Type 0
  Counted passed_over = ⊥
  Counted _ = Unit

  visit_size-Counted :
      (name : Text) (fs : Fields) (meta : LmStudioModelMeta) (o : Option ℤ)
      → Counted (visit_size py json respond args name fs meta o)
  visit_size-Counted name fs meta none = tt
  visit_size-Counted name fs meta (some size) = go args.dry_run _ _
    where
      go :
          (dry : Bool) (line : Line) (o : Option Fields)
          → Counted (save py json respond args dry line o)
      go true line o = tt
      go false line none = tt
      go false line (some updated) = tt

  visit_entry-Counted :
      (name : Text) (fs : Fields) (o : Option (Option Fields))
      → Counted (visit_entry py json respond args name fs o)
  visit_entry-Counted name fs none = tt
  visit_entry-Counted name fs (some none) = tt
  visit_entry-Counted name fs (some (some entry)) = go _
    where
      go : (o : Option LmStudioModelMeta) → Counted (visit_meta py json respond args name fs o)
      go none = tt
      go (some meta) = visit_size-Counted name fs meta meta.size_bytes

  visit_models-Counted :
      (name : Text) (fs : Fields) (models : List Fields)
      → Counted (visit_models py json respond args name fs models)
  visit_models-Counted name fs [] = tt
  visit_models-Counted name fs (m ∷ models) = visit_entry-Counted name fs _

  visit_section-Counted :
      (name : Text) (fs : Fields) (o : Option Fields) (library : Library)
      → Counted (visit_section py json respond args name fs o library).0
  visit_section-Counted name fs none library = tt
  visit_section-Counted name fs (some llm) library = go _ _ _
    where
      go :
          (url root : Text) (o : Option Bool)
          → Counted (visit_root py json respond args name fs url root o library).0
      go url root none = tt
      go url root (some false) = tt
      go url root (some true) = visit_models-Counted name fs (models_for respond root library).0

  visit_value-Counted :
      (name : Text) (value : Json) (library : Library)
      → Counted (visit_value py json respond args name value library).0
  visit_value-Counted name (object fs) library = visit_section-Counted name fs _ library
  visit_value-Counted name _ library = tt

  visit_loaded-Counted :
      (name : Text) (o : Option Json) (library : Library)
      → Counted (visit_loaded py json respond args name o library).0
  visit_loaded-Counted name none library = tt
  visit_loaded-Counted name (some value) library = go _
    where
      go : (o : Option Bool) → Counted (after_test py json respond args name o value library).0
      go none = tt
      go (some true) = tt
      go (some false) = visit_value-Counted name value library

  -- If no exception ends the script, each run with a summary is counted exactly once, as migrated or
  -- as skipped.
  pub visit_all_counts :
      (runs : List (RunDir File)) (library : Library) (count skips : ℕ)
      → let report = visit_all py json respond args runs library count skips in
        report.raised ≡ false → report.migrated + report.skips ≡ count + skips + summaries runs
  unfolding visit_all visit
  visit_all_counts [] library count skips h = omega arith
  visit_all_counts (run ∷ runs) library count skips h =
      go run.summary h (λ l m s. visit_all_counts runs l m s)
    where
      rounds : Visit File × Library → Report File
      rounds (v, l) =
          after_visit py json respond args run runs v l count skips
            (visit_all py json respond args runs l (migrated_after v count) (skips_after v skips))

      counted :
          (v : Visit File) (l : Library)
          → Counted v
          → (rounds (v, l)).raised ≡ false
          → ((l : Library) (m s : ℕ)
              → (visit_all py json respond args runs l m s).raised ≡ false
              → (visit_all py json respond args runs l m s).migrated
                  + (visit_all py json respond args runs l m s).skips
                ≡ m + s + summaries runs)
          → (rounds (v, l)).migrated + (rounds (v, l)).skips ≡ count + skips + (1 + summaries runs)
      counted passed_over l c h next = absurd c
      counted (skipped lines) l c h next = omega (arith, next l count (skips + 1) h)
      counted (matched line file) l c h next = omega (arith, next l (count + 1) skips h)
      counted (failed lines) l c h next = absurd (cc)

      go :
          (o : Option File)
          → (rounds (visit_summary py json respond args run.name o library)).raised ≡ false
          → ((l : Library) (m s : ℕ)
              → (visit_all py json respond args runs l m s).raised ≡ false
              → (visit_all py json respond args runs l m s).migrated
                  + (visit_all py json respond args runs l m s).skips
                ≡ m + s + summaries runs)
          → (rounds (visit_summary py json respond args run.name o library)).migrated
              + (rounds (visit_summary py json respond args run.name o library)).skips
            ≡ count + skips + (elim o [ none ↦ summaries runs | some file ↦ 1 + summaries runs ])
      go none h next = next library count skips h
      go (some file) h next =
          counted (visit_loaded py json respond args run.name (json.loads file) library).0 _
            (visit_loaded-Counted run.name (json.loads file) library) h next
