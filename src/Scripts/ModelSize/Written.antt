-- ===== src/Scripts/ModelSize/Written.antt =====
-- What the script writes into a summary.
use csharp_llm_benchmark.Prelude.{
  ℕ, ◌≡◌, refl, Option, none, some, List, [], ◌∷◌, Bool, true, false,
}
use csharp_llm_benchmark.Prelude.Text.{Text, codes, text_eq}
use csharp_llm_benchmark.Prelude.Int.{ℤ}
use csharp_llm_benchmark.Json.Fields.{
  Json, null, boolean, integer, real, text, array, object, Fields, end, get_or,
}
use csharp_llm_benchmark.Json.Python.{Python, contains}
use csharp_llm_benchmark.LmStudio.Match.{match_model, keep}
use csharp_llm_benchmark.LmStudio.Match.Found.{Some, Matched, match_model-Matched}
use csharp_llm_benchmark.LmStudio.Meta.{LmStudioModelMeta, parse_model_meta}
use csharp_llm_benchmark.Scripts.Files.{JsonText, RunDir, Pointwise, both_end, both}
use csharp_llm_benchmark.Scripts.ModelSize.{
  size_key, Arguments, Line, Library, Visit, passed_over, skipped, matched, failed, Report,
  models_for, section_of, label_of, update, save, visit_size, visit_meta, visit_entry, visit_models,
  visit_root, visit_section, visit_value, after_test, visit_loaded, visit_summary, visit,
  migrated_after, skips_after, after_visit, visit_all, written,
}
use csharp_llm_benchmark.Scripts.ModelSize.Requests.{visit-keeps}
use csharp_llm_benchmark.Scripts.ModelSize.Comes.{Comes, models_for-Source, models_for-Comes}
use csharp_llm_benchmark.Scripts.ModelSize.Change.{
  update-IsUpdate, Source, kept_before, IsAllowed, IsMigrated, Change, Writes, Updated, kept,
  migrated,
}

module _ (py : Python) {File : Type 0} (json : JsonText File)
    (respond : List Text → Text → Option Json) (args : Arguments) where
  module _ (name : Text) (fs : Fields) where
    save-Writes :
        (models : List Fields) (entry : Fields)
        → Some py models
            (λ c. Matched py models c entry)
            (keep py
              (get_or (codes "model") null fs)
              (keep py (label_of py json respond args fs) []))
        → (meta : LmStudioModelMeta) (size : ℤ) → parse_model_meta py entry ≡ some meta
        → meta.size_bytes ≡ some size
        → (dry : Bool) → args.dry_run ≡ dry
        → (line : Line) (o : Option Fields) → update size meta.params_string fs ≡ o
        → Writes py json respond args
            (Updated py json respond args models fs)
            (save py json respond args dry line o)
    save-Writes models entry a meta size p s true r line o e = tt
    save-Writes models entry a meta size p s false r line none e = tt
    save-Writes models entry a meta size p s false r line (some updated) e = (
      updated,
      record {
        entry = entry;
        answers = a;
        meta = meta;
        parsed = p;
        size = size;
        has_size = s;
        change = update-IsUpdate size meta.params_string fs updated e;
      },
      refl,
      r,
    )

    visit_size-Writes :
        (models : List Fields) (entry : Fields)
        → Some py models
            (λ c. Matched py models c entry)
            (keep py
              (get_or (codes "model") null fs)
              (keep py (label_of py json respond args fs) []))
        → (meta : LmStudioModelMeta) → parse_model_meta py entry ≡ some meta
        → (o : Option ℤ) → meta.size_bytes ≡ o
        → Writes py json respond args
            (Updated py json respond args models fs)
            (visit_size py json respond args name fs meta o)
    visit_size-Writes models entry a meta p none s = tt
    visit_size-Writes models entry a meta p (some size) s =
        save-Writes models entry a meta size p s args.dry_run refl _
          (update size meta.params_string fs) refl

    visit_meta-Writes :
        (models : List Fields) (entry : Fields)
        → Some py models
            (λ c. Matched py models c entry)
            (keep py
              (get_or (codes "model") null fs)
              (keep py (label_of py json respond args fs) []))
        → (o : Option LmStudioModelMeta) → parse_model_meta py entry ≡ o
        → Writes py json respond args
            (Updated py json respond args models fs)
            (visit_meta py json respond args name fs o)
    visit_meta-Writes models entry a none p = tt
    visit_meta-Writes models entry a (some meta) p =
        visit_size-Writes models entry a meta p meta.size_bytes refl

    visit_entry-Writes :
        (models : List Fields) (o : Option (Option Fields))
        → match_model py models (get_or (codes "model") null fs) (label_of py json respond args fs)
          ≡ o
        → Writes py json respond args
            (Updated py json respond args models fs)
            (visit_entry py json respond args name fs o)
    visit_entry-Writes models none e = tt
    visit_entry-Writes models (some none) e = tt
    visit_entry-Writes models (some (some entry)) e =
        visit_meta-Writes models entry (match_model-Matched py models _ _ entry e)
          (parse_model_meta py entry) refl

    visit_models-Writes :
        (models : List Fields)
        → Writes py json respond args
            (Updated py json respond args models fs)
            (visit_models py json respond args name fs models)
    visit_models-Writes [] = tt
    visit_models-Writes (m ∷ models) = visit_entry-Writes (m ∷ models) _ refl

    abbrev Allowed : Library → File → Type 0
    Allowed first after =
        (models : List Fields) × Updated py json respond args models fs after
        × IsAllowed py json respond args first fs models

    allow :
        (first : Library) (models : List Fields) (v : Visit File)
        → IsAllowed py json respond args first fs models
        → Writes py json respond args (Updated py json respond args models fs) v
        → Writes py json respond args (Allowed first) v
    allow first models passed_over a w = tt
    allow first models (skipped lines) a w = tt
    allow first models (matched line none) a w = tt
    allow first models (matched line (some after)) a w = (models, w, a)
    allow first models (failed lines) a w = tt

    visit_root-Writes :
        (first : Library) (base_url root : Text) (o : Option Bool) (library : Library)
        → Comes py json respond args first library
        → (o ≡ some true
            → (models : List Fields) → Source py json respond args first root models
            → IsAllowed py json respond args first fs models)
        → Writes py json respond args
            (Allowed first)
            (visit_root py json respond args name fs base_url root o library).0
    visit_root-Writes first base_url root none library c a = tt
    visit_root-Writes first base_url root (some false) library c a = tt
    visit_root-Writes first base_url root (some true) library c a =
        let models = (models_for respond root library).0 in
        allow first models (visit_models py json respond args name fs models)
          (a refl models (models_for-Source py json respond args first root library c))
          (visit_models-Writes models)

    visit_section-Writes :
        (first : Library) (o : Option Fields) (library : Library)
        → Comes py json respond args first library
        → section_of py json respond args (get_or (codes "llm") (object end) fs) ≡ o
        → Writes py json respond args
            (Allowed first)
            (visit_section py json respond args name fs o library).0
    visit_section-Writes first none library c e = tt
    visit_section-Writes first (some llm) library c e =
        visit_root-Writes first _ _ _ library c (λ h models source. record {
          llm = llm;
          section = e;
          root = _;
          root_of = refl;
          local = h;
          source = source;
        })

  widen :
      (P Q : File → Type 0)
      → ((f : File) → P f → Q f)
      → (v : Visit File) → Writes py json respond args P v
      → Writes py json respond args Q v
  widen P Q g passed_over w = tt
  widen P Q g (skipped lines) w = tt
  widen P Q g (matched line none) w = tt
  widen P Q g (matched line (some after)) w = g after w
  widen P Q g (failed lines) w = tt

  visit_value-Writes :
      (first : Library) (name : Text) (file : File) (value : Json) (library : Library)
      → Comes py json respond args first library
      → json.loads file ≡ some value
      → contains py value (text size_key) ≡ some false
      → Writes py json respond args
          (IsMigrated py json respond args first (some file))
          (visit_value py json respond args name value library).0
  visit_value-Writes first name file (object fs) library c e t =
      widen (Allowed name fs first) (IsMigrated py json respond args first (some file))
        (λ after (models, (updated, sized, written, effective), allowed). record {
          file = file;
          fs = fs;
          updated = updated;
          models = models;
          old_file = refl;
          old_fields = e;
          lacked = some_inj t;
          sized = sized;
          allowed = allowed;
          new_file = written;
          real_run = effective;
        })
        _ (visit_section-Writes name fs first _ library c refl)
    where
      some_inj : {b c : Bool} → some b ≡ some c → b ≡ c
      some_inj h = cc
  visit_value-Writes first name file null library c e t = tt
  visit_value-Writes first name file (boolean b) library c e t = tt
  visit_value-Writes first name file (integer z) library c e t = tt
  visit_value-Writes first name file (real r) library c e t = tt
  visit_value-Writes first name file (text s) library c e t = tt
  visit_value-Writes first name file (array vs) library c e t = tt

  after_test-Writes :
      (first : Library) (name : Text) (file : File) (value : Json) (o : Option Bool)
      (library : Library)
      → Comes py json respond args first library
      → json.loads file ≡ some value
      → contains py value (text size_key) ≡ o
      → Writes py json respond args
          (IsMigrated py json respond args first (some file))
          (after_test py json respond args name o value library).0
  after_test-Writes first name file value none library c e t = tt
  after_test-Writes first name file value (some true) library c e t = tt
  after_test-Writes first name file value (some false) library c e t =
      visit_value-Writes first name file value library c e t

  visit_loaded-Writes :
      (first : Library) (name : Text) (file : File) (o : Option Json) (library : Library)
      → Comes py json respond args first library
      → json.loads file ≡ o
      → Writes py json respond args
          (IsMigrated py json respond args first (some file))
          (visit_loaded py json respond args name o library).0
  visit_loaded-Writes first name file none library c e = tt
  visit_loaded-Writes first name file (some value) library c e =
      after_test-Writes first name file value _ library c e refl

  visit-Writes :
      (first : Library) (run : RunDir File) (library : Library)
      → Comes py json respond args first library
      → Writes py json respond args
          (IsMigrated py json respond args first run.summary)
          (visit py json respond args run library).0
  unfolding visit
  visit-Writes first run library c = go run.summary
    where
      go :
          (summary : Option File)
          → Writes py json respond args
              (IsMigrated py json respond args first summary)
              (visit_summary py json respond args run.name summary library).0
      go none = tt
      go (some file) = visit_loaded-Writes first run.name file (json.loads file) library c refl

  all_kept :
      (first : Library) (runs : List (RunDir File))
      → Pointwise (Change py json respond args first) runs runs
  all_kept first [] = both_end
  all_kept first (run ∷ runs) = both (kept refl) (all_kept first runs)

  visit_all-Change :
      (first : Library) (runs : List (RunDir File)) (library : Library) (count skips : ℕ)
      → Comes py json respond args first library
      → Pointwise
          (Change py json respond args first)
          runs
          (visit_all py json respond args runs library count skips).runs
  unfolding visit_all
  visit_all-Change first [] library count skips c = both_end
  visit_all-Change first (run ∷ runs) library count skips c =
      let (v, library') = visit py json respond args run library in
      let kept =
        visit-keeps py json respond args (Comes py json respond args first)
          (λ root l h. models_for-Comes py json respond args first root l) run library c in
      go v library' (visit-Writes first run library c) _
        (visit_all-Change first runs library' (migrated_after v count) (skips_after v skips) kept)
    where
      go :
          (v : Visit File) (l : Library)
          → Writes py json respond args (IsMigrated py json respond args first run.summary) v
          → (rest : Report File) → Pointwise (Change py json respond args first) runs rest.runs
          → Pointwise
              (Change py json respond args first)
              (run ∷ runs)
              (after_visit py json respond args run runs v l count skips rest).runs
      go passed_over l w rest p = both (kept refl) p
      go (skipped lines) l w rest p = both (kept refl) p
      go (matched line none) l w rest p = both (kept refl) p
      go (matched line (some after)) l w rest p = both (migrated after w refl) p
      go (failed lines) l w rest p = all_kept first (run ∷ runs)

  -- However the servers answer, and also where an exception ends the script, each run is kept as it
  -- was, or this is no dry run, its summary lacked the key, the server in question is local, and the
  -- summary now has, at the top and in its section "llm", the size and the parameters of a model
  -- that answers to the run's model or label: one of the dictionaries in the list "models" that this
  -- server answered with when it was asked at "/api/v1/models", or one that the script began with
  -- for this server. All other keys at the top are kept.
  pub visit_all-Pointwise :
      (runs : List (RunDir File)) (library : Library) (count skips : ℕ)
      → Pointwise
          (Change py json respond args library)
          runs
          (visit_all py json respond args runs library count skips).runs
  visit_all-Pointwise runs library count skips =
      visit_all-Change library runs library count skips (λ root models e. kept_before e)
