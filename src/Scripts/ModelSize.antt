-- ===== src/Scripts/ModelSize.antt =====
-- scripts/backfill_model_size.py. The servers are the parameter `respond`: it answers by the
-- addresses that were asked before.
pub mod Requests
pub mod Fetches
pub mod Counts
pub mod Change
pub mod Comes
pub mod Written
pub mod DryRun
use csharp_llm_benchmark.Prelude.{
  ℕ, ◌+◌, Option, none, some, List, [], ◌∷◌, ◌++◌, select, Bool, true, false, ◌==◌, ◌>>=◌,
  if◌then◌else◌,
}
use csharp_llm_benchmark.Prelude.Text.{Text, codes, text_eq}
use csharp_llm_benchmark.Prelude.Int.{ℤ}
use csharp_llm_benchmark.Json.Fields.{Json, null, integer, text, object, Fields, end, get_or, put}
use csharp_llm_benchmark.Json.Python.{Python, empty_text, truthy, contains}
use csharp_llm_benchmark.LmStudio.Server.{derive_base_root, is_local_server}
use csharp_llm_benchmark.LmStudio.Match.{match_model}
use csharp_llm_benchmark.LmStudio.Meta.{LmStudioModelMeta, parse_model_meta, fetch_models}
use csharp_llm_benchmark.Scripts.Files.{JsonText, RunDir, with_summary, put_in_llm}

abbrev pub size_key : Text
size_key = codes "model_size_bytes"

abbrev pub params_key : Text
params_key = codes "params_string"

-- The command line; the API key, which is only sent, is part of `respond`.
pub record Arguments : Type 0 where
  pub base_url : Option Text
  pub dry_run : Bool

-- The lines that are printed, by their parts.
pub data Line : Type 0 where
  no_results : Line
  remote_run : Text → Text → Line
  metadata_unavailable : Text → Line
  no_library_match : Text → Line
  no_size : Text → Line
  backfilled : Bool → Text → ℤ → Option Text → Line
  done : Bool → ℕ → ℕ → Line

-- `models_by_root`, and the addresses that were asked, the last one first.
pub record Library : Type 0 where
  pub models_by_root : List (Text × List Fields)
  pub fetched : List Text

-- What happens to one run.
pub data Visit (File : Type 0) : Type 0 where
  -- It has no summary.
  passed_over : Visit File
  skipped : List Line → Visit File
  -- The line, and the new summary unless this is a dry run.
  matched : Line → Option File → Visit File
  -- An exception, and the lines printed before it.
  failed : List Line → Visit File

pub record Report (File : Type 0) : Type 0 where
  pub runs : List (RunDir File)
  pub lines : List Line
  pub library : Library
  pub migrated : ℕ
  pub skips : ℕ
  pub raised : Bool

abbrev pub params_json : Option Text → Json
params_json none = null
params_json (some t) = text t

-- `models_by_root.get(root)`
abbrev pub lookup : Text → List (Text × List Fields) → Option (List Fields)
lookup root [] = none
lookup root ((r, models) ∷ rest) =
    let other = lookup root rest in if r == root then some models else other

abbrev pub no_library : Library
no_library = record { models_by_root = []; fetched = [] }

-- A request: the answer depends on the addresses that were asked before, and its own is noted.
abbrev pub ask : (List Text → Text → Option Json) → Text → List Text → Option Json × List Text
ask respond url asked = (respond asked url, url ∷ asked)

-- The models of a root, from the cache or from the server.
unfoldable pub models_for :
    (List Text → Text → Option Json) → Text → Library → List Fields × Library
models_for respond root library = elim (lookup root library.models_by_root) [
  | some models ↦ (models, library)
  | none ↦
      let (models, fetched) = fetch_models (ask respond) root library.fetched in
      (
        models,
        record { models_by_root = (root, models) ∷ library.models_by_root; fetched = fetched },
      )
]

-- The four writes; `none` is a TypeError.
unfoldable pub update : ℤ → Option Text → Fields → Option Fields
update size params fs = do
  with_size ←
      put_in_llm size_key (integer size)
        (put params_key (params_json params) (put size_key (integer size) fs))
  put_in_llm params_key (params_json params) with_size

-- `args.base_url or base_url`
abbrev pub url_for : Option Text → Text → Text
url_for none base_url = base_url
url_for (some url) base_url = if empty_text url then base_url else url

abbrev pub migrated_after : {File : Type 0} → Visit File → ℕ → ℕ
migrated_after (matched line file) migrated = migrated + 1
migrated_after _ migrated = migrated

abbrev pub skips_after : {File : Type 0} → Visit File → ℕ → ℕ
skips_after (skipped lines) skips = skips + 1
skips_after _ skips = skips

abbrev pub written : {File : Type 0} → RunDir File → Option File → RunDir File
written run none = run
written run (some file) = with_summary run file

abbrev pub prepend : {File : Type 0} → RunDir File → List Line → Report File → Report File
prepend run lines report = record report { runs = run ∷ report.runs; lines = lines ++ report.lines }

module _ (py : Python) {File : Type 0} (json : JsonText File)
    (respond : List Text → Text → Option Json) (args : Arguments) where
  -- `data.get("llm", {}) or {}`, which must have a `get`.
  abbrev pub section_of : Json → Option Fields
  section_of (object llm) = some llm
  section_of value = if truthy py value then none else some end

  -- `data.get("modelLabel") or data.get("model_label")`
  abbrev pub label_of : Fields → Json
  label_of fs =
      let label = get_or (codes "modelLabel") null fs in
      if truthy py label then label else get_or (codes "model_label") null fs

  -- The last part of a round: a dry run writes nothing.
  abbrev pub save : Bool → Line → Option Fields → Visit File
  save true line fs = matched line none
  save false line none = failed (line ∷ [])
  save false line (some fs) = matched line (some (json.dumps (object fs)))

  -- The OverflowError of a size that is too large to be printed is left out.
  abbrev pub visit_size : Text → Fields → LmStudioModelMeta → Option ℤ → Visit File
  visit_size name fs meta none = skipped (no_size name ∷ [])
  visit_size name fs meta (some size) =
      save args.dry_run (backfilled args.dry_run name size meta.params_string)
        (update size meta.params_string fs)

  -- Once an entry is parsed.
  abbrev pub visit_meta : Text → Fields → Option LmStudioModelMeta → Visit File
  visit_meta name fs none = failed []
  visit_meta name fs (some meta) = visit_size name fs meta meta.size_bytes

  -- Once an entry is looked for.
  abbrev pub visit_entry : Text → Fields → Option (Option Fields) → Visit File
  visit_entry name fs none = failed []
  visit_entry name fs (some none) = skipped (no_library_match name ∷ [])
  visit_entry name fs (some (some entry)) = visit_meta name fs (parse_model_meta py entry)

  abbrev pub visit_models : Text → Fields → List Fields → Visit File
  visit_models name fs [] = skipped (metadata_unavailable name ∷ [])
  visit_models name fs (m ∷ models) =
      visit_entry name fs
        (match_model py (m ∷ models) (get_or (codes "model") null fs) (label_of fs))

  -- Once it is known whether the server at `root` may be asked.
  abbrev pub visit_root : Text → Fields → Text → Text → Option Bool → Library → Visit File × Library
  visit_root name fs base_url root none library = (failed [], library)
  visit_root name fs base_url root (some false) library =
      (skipped (remote_run name base_url ∷ []), library)
  visit_root name fs base_url root (some true) library =
      let (models, library') = models_for respond root library in
      (visit_models name fs models, library')

  abbrev pub visit_section : Text → Fields → Option Fields → Library → Visit File × Library
  visit_section name fs none library = (failed [], library)
  visit_section name fs (some llm) library =
      let base_url = py.str (get_or (codes "base_url") (text []) llm) in
      let root = derive_base_root (url_for args.base_url base_url) in
      visit_root name fs base_url root (is_local_server py root) library

  abbrev pub visit_value : Text → Json → Library → Visit File × Library
  visit_value name (object fs) library =
      visit_section name fs (section_of (get_or (codes "llm") (object end) fs)) library
  visit_value name _ library = (failed [], library)

  -- After the test for the key, which may raise.
  abbrev pub after_test : Text → Option Bool → Json → Library → Visit File × Library
  after_test name none value library = (failed [], library)
  after_test name (some true) value library = (skipped [], library)
  after_test name (some false) value library = visit_value name value library

  abbrev pub visit_loaded : Text → Option Json → Library → Visit File × Library
  visit_loaded name none library = (failed [], library)
  visit_loaded name (some value) library =
      after_test name (contains py value (text size_key)) value library

  abbrev pub visit_summary : Text → Option File → Library → Visit File × Library
  visit_summary name none library = (passed_over, library)
  visit_summary name (some file) library = visit_loaded name (json.loads file) library

  unfoldable pub visit : RunDir File → Library → Visit File × Library
  unfolding models_for update
  visit run library = visit_summary run.name run.summary library

  -- One round of the loop, before the rounds that `rest` stands for.
  abbrev pub after_visit :
      RunDir File → List (RunDir File) → Visit File → Library → ℕ → ℕ → Report File → Report File
  after_visit run runs passed_over library migrated skips rest = prepend run [] rest
  after_visit run runs (skipped lines) library migrated skips rest = prepend run lines rest
  after_visit run runs (matched line file) library migrated skips rest =
      prepend (written run file) (line ∷ []) rest
  after_visit run runs (failed lines) library migrated skips rest = record {
    runs = run ∷ runs;
    lines = lines;
    library = library;
    migrated = migrated;
    skips = skips;
    raised = true;
  }

  unfoldable pub visit_all : List (RunDir File) → Library → ℕ → ℕ → Report File
  unfolding visit
  visit_all [] library migrated skips = record {
    runs = [];
    lines = done args.dry_run migrated skips ∷ [];
    library = library;
    migrated = migrated;
    skips = skips;
    raised = false;
  }
  visit_all (run ∷ runs) library migrated skips =
      let (v, library') = visit run library in
      after_visit run runs v library' migrated skips
        (visit_all runs library' (migrated_after v migrated) (skips_after v skips))

  -- `sorted` is Python's, on the directories; `none` for no results directory.
  unfoldable pub main :
      (List (RunDir File) → List (RunDir File)) → Option (List (RunDir File)) → Report File
  unfolding visit_all
  main sorted none = record {
    runs = [];
    lines = no_results ∷ [];
    library = no_library;
    migrated = 0;
    skips = 0;
    raised = false;
  }
  main sorted (some runs) =
      visit_all (sorted (select (λ (r : RunDir File). r.is_dir) runs)) no_library 0 0
