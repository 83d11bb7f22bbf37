-- ===== src/Scripts/ModelSize/DryRun.antt =====
-- A dry run changes nothing, and announces what a real run does.
use csharp_llm_benchmark.Prelude.{
  ℕ, ◌+◌, ◌≡◌, refl, Option, none, some, List, [], ◌∷◌, Bool, true, false,
}
use csharp_llm_benchmark.Prelude.Text.{Text}
use csharp_llm_benchmark.Prelude.Int.{ℤ}
use csharp_llm_benchmark.Json.Fields.{Json, object, Fields}
use csharp_llm_benchmark.Json.Python.{Python}
use csharp_llm_benchmark.LmStudio.Meta.{LmStudioModelMeta, parse_model_meta}
use csharp_llm_benchmark.Scripts.Files.{JsonText, RunDir, Pointwise, both_end, both}
use csharp_llm_benchmark.Scripts.ModelSize.{
  Arguments, Line, Library, Visit, passed_over, skipped, matched, failed, Report, models_for,
  update, save, visit_size, visit_meta, visit_entry, visit_models, visit_root, visit_section,
  visit_value, after_test, visit_loaded, visit_summary, visit, migrated_after, skips_after,
  after_visit, visit_all, written, prepend,
}
use csharp_llm_benchmark.Scripts.ModelSize.Written.{visit_all-Pointwise}
use csharp_llm_benchmark.Scripts.ModelSize.Change.{Change, kept, migrated}

module _ (py : Python) {File : Type 0} (json : JsonText File)
    (respond : List Text → Text → Option Json) (base_url : Option Text) where
  abbrev pub with_dry_run : Bool → Arguments
  with_dry_run dry = record { base_url = base_url; dry_run = dry }

  unchanged :
      (first : Library) (runs runs' : List (RunDir File))
      → Pointwise (Change py json respond (with_dry_run true) first) runs runs'
      → runs' ≡ runs
  unchanged first _ _ both_end = refl
  unchanged first _ _ (both {a} {b} {l} {k} (kept e) p) = rw (e, unchanged first l k p) refl
  unchanged first _ _ (both {a} {b} {l} {k} (migrated file m e) p) = absurd (cc (m.real_run))

  -- A real visit that raises nothing, and the dry one.
  abbrev Same : Visit File → Visit File → Type 0
  Same passed_over passed_over = Unit
  Same (skipped l) (skipped k) = l ≡ k
  Same (matched line file) (matched line' file') = Unit
  Same (failed lines) v = Unit
  Same _ _ = ⊥

  abbrev SameVisit : Visit File × Library → Visit File × Library → Type 0
  SameVisit (v, l) (v', l') = Same v v' × (l ≡ l')

  same : (v : Visit File) → Same v v
  same passed_over = tt
  same (skipped l) = refl
  same (matched line file) = tt
  same (failed lines) = tt

  save-Same :
      (line line' : Line) (o o' : Option Fields)
      → Same
          (save py json respond (with_dry_run false) false line o)
          (save py json respond (with_dry_run true) true line' o')
  save-Same line line' none o' = tt
  save-Same line line' (some fs) o' = tt

  module _ (name : Text) (fs : Fields) where
    visit_size-Same :
        (meta : LmStudioModelMeta) (o : Option ℤ)
        → Same
            (visit_size py json respond (with_dry_run false) name fs meta o)
            (visit_size py json respond (with_dry_run true) name fs meta o)
    visit_size-Same meta none = refl
    visit_size-Same meta (some size) =
        save-Same _ _ (update size meta.params_string fs) (update size meta.params_string fs)

    visit_meta-Same :
        (o : Option LmStudioModelMeta)
        → Same
            (visit_meta py json respond (with_dry_run false) name fs o)
            (visit_meta py json respond (with_dry_run true) name fs o)
    visit_meta-Same none = tt
    visit_meta-Same (some meta) = visit_size-Same meta meta.size_bytes

    visit_entry-Same :
        (o : Option (Option Fields))
        → Same
            (visit_entry py json respond (with_dry_run false) name fs o)
            (visit_entry py json respond (with_dry_run true) name fs o)
    visit_entry-Same none = tt
    visit_entry-Same (some none) = refl
    visit_entry-Same (some (some entry)) = visit_meta-Same (parse_model_meta py entry)

    visit_models-Same :
        (models : List Fields)
        → Same
            (visit_models py json respond (with_dry_run false) name fs models)
            (visit_models py json respond (with_dry_run true) name fs models)
    visit_models-Same [] = refl
    visit_models-Same (m ∷ models) = visit_entry-Same _

    visit_root-Same :
        (url root : Text) (o : Option Bool) (library : Library)
        → SameVisit
            (visit_root py json respond (with_dry_run false) name fs url root o library)
            (visit_root py json respond (with_dry_run true) name fs url root o library)
    visit_root-Same url root none library = (tt, refl)
    visit_root-Same url root (some false) library = (refl, refl)
    visit_root-Same url root (some true) library =
        (visit_models-Same (models_for respond root library).0, refl)

    visit_section-Same :
        (o : Option Fields) (library : Library)
        → SameVisit
            (visit_section py json respond (with_dry_run false) name fs o library)
            (visit_section py json respond (with_dry_run true) name fs o library)
    visit_section-Same none library = (tt, refl)
    visit_section-Same (some llm) library = visit_root-Same _ _ _ library

  visit_value-Same :
      (name : Text) (value : Json) (library : Library)
      → SameVisit
          (visit_value py json respond (with_dry_run false) name value library)
          (visit_value py json respond (with_dry_run true) name value library)
  visit_value-Same name (object fs) library = visit_section-Same name fs _ library
  visit_value-Same name _ library = (tt, refl)

  after_test-Same :
      (name : Text) (o : Option Bool) (value : Json) (library : Library)
      → SameVisit
          (after_test py json respond (with_dry_run false) name o value library)
          (after_test py json respond (with_dry_run true) name o value library)
  after_test-Same name none value library = (tt, refl)
  after_test-Same name (some true) value library = (refl, refl)
  after_test-Same name (some false) value library = visit_value-Same name value library

  visit_summary-Same :
      (name : Text) (summary : Option File) (library : Library)
      → SameVisit
          (visit_summary py json respond (with_dry_run false) name summary library)
          (visit_summary py json respond (with_dry_run true) name summary library)
  visit_summary-Same name none library = (tt, refl)
  visit_summary-Same name (some file) library = go (json.loads file)
    where
      go :
          (o : Option Json)
          → SameVisit
              (visit_loaded py json respond (with_dry_run false) name o library)
              (visit_loaded py json respond (with_dry_run true) name o library)
      go none = (tt, refl)
      go (some value) = after_test-Same name _ value library

  -- What both reports say: the dry run raises nothing, and has the same counts and answers.
  pub record Announces (real dry : Report File) : Type 0 where
    pub raises : dry.raised ≡ false
    pub counted : dry.migrated ≡ real.migrated
    pub skipped_alike : dry.skips ≡ real.skips
    pub asked : dry.library ≡ real.library

  wrap :
      (run run' : RunDir File) (k k' : List Line) {real dry : Report File}
      → Announces real dry
      → Announces (prepend run k real) (prepend run' k' dry)
  wrap run run' k k' a = record {
    raises = a.raises;
    counted = a.counted;
    skipped_alike = a.skipped_alike;
    asked = a.asked;
  }

  announced :
      (runs : List (RunDir File)) (library : Library) (count skips : ℕ)
      → (visit_all py json respond (with_dry_run false) runs library count skips).raised ≡ false
      → Announces
          (visit_all py json respond (with_dry_run false) runs library count skips)
          (visit_all py json respond (with_dry_run true) runs library count skips)
  unfolding visit_all visit
  announced [] library count skips h = record {
    raises = refl;
    counted = refl;
    skipped_alike = refl;
    asked = refl;
  }
  announced (run ∷ runs) library count skips h =
      go (visit_summary py json respond (with_dry_run false) run.name run.summary library)
        (visit_summary py json respond (with_dry_run true) run.name run.summary library)
        (visit_summary-Same run.name run.summary library) h (λ l m s. announced runs l m s)
    where
      rounds : Bool → Visit File × Library → Report File
      rounds dry (v, l) = after_visit py json respond (with_dry_run dry) run runs v l count skips (
          visit_all py json respond (with_dry_run dry) runs l (migrated_after v count)
            (skips_after v skips))

      go :
          (p q : Visit File × Library)
          → SameVisit p q
          → (rounds false p).raised ≡ false
          → ((l : Library) (m s : ℕ)
              → (visit_all py json respond (with_dry_run false) runs l m s).raised ≡ false
              → Announces
                  (visit_all py json respond (with_dry_run false) runs l m s)
                  (visit_all py json respond (with_dry_run true) runs l m s))
          → Announces (rounds false p) (rounds true q)
      go (passed_over, l) (passed_over, l') r h next =
          rw (← r.1) (wrap run run [] [] (next l count skips h))
      go (skipped k, l) (skipped k', l') r h next =
          rw (← r.1) (wrap run run k k' (next l count (skips + 1) h))
      go (matched line file, l) (matched line' file', l') r h next = rw (← r.1) (
          wrap (written run file) (written run file') (line ∷ []) (line' ∷ [])
            (next l (count + 1) skips h))
      go (failed k, l) q r h next = absurd (cc)
      go (passed_over, l) (skipped k', l') r h next = absurd r.0
      go (passed_over, l) (matched line' file', l') r h next = absurd r.0
      go (passed_over, l) (failed k', l') r h next = absurd r.0
      go (skipped k, l) (passed_over, l') r h next = absurd r.0
      go (skipped k, l) (matched line' file', l') r h next = absurd r.0
      go (skipped k, l) (failed k', l') r h next = absurd r.0
      go (matched line file, l) (passed_over, l') r h next = absurd r.0
      go (matched line file, l) (skipped k', l') r h next = absurd r.0
      go (matched line file, l) (failed k', l') r h next = absurd r.0

  -- A dry run leaves every run as it is. If the same real run raises no exception, the dry one
  -- raises none either, asks the same servers, and counts the same runs as migrated and as skipped.
  pub visit_all_dry :
      (runs : List (RunDir File)) (library : Library) (count skips : ℕ)
      → let real = visit_all py json respond (with_dry_run false) runs library count skips in
        let dry = visit_all py json respond (with_dry_run true) runs library count skips in
        (dry.runs ≡ runs) × (real.raised ≡ false → Announces real dry)
  visit_all_dry runs library count skips = (
    unchanged library runs _
        (visit_all-Pointwise py json respond (with_dry_run true) runs library count skips),
    announced runs library count skips,
  )
