-- ===== src/Scripts/KvCache.antt =====
-- scripts/backfill_kv_cache_quantization.py
pub mod Runs
use csharp_llm_benchmark.Prelude.{
  ℕ, ◌+◌, Option, none, some, List, [], ◌∷◌, ◌++◌, select, Bool, true, false, ◌==◌, ◌>>=◌,
  if◌then◌else◌,
}
use csharp_llm_benchmark.Prelude.Text.{Text, codes, text_eq}
use csharp_llm_benchmark.Json.Fields.{Json, null, text, object, Fields, end, get, get_or, put}
use csharp_llm_benchmark.Json.Python.{Python, contains}
use csharp_llm_benchmark.Scripts.Files.{JsonText, RunDir, with_summary, put_in_llm}

abbrev pub kv_key : Text
kv_key = codes "kv_cache_quantization"

-- The lines that are printed, by their parts.
pub data Line : Type 0 where
  no_results : Line
  backfilled : Text → Json → Line
  done : ℕ → Line

-- What happens to one run: it is passed over, its summary is replaced, or an exception is raised.
pub data Visit (File : Type 0) : Type 0 where
  passed_over : Visit File
  rewritten : Json → File → Visit File
  failed : Visit File

-- What the loop has done: the runs, the lines and the count, and whether an exception ended it.
pub record Report (File : Type 0) : Type 0 where
  pub runs : List (RunDir File)
  pub lines : List Line
  pub migrated : ℕ
  pub raised : Bool

module _ (py : Python) {File : Type 0} (json : JsonText File) where
  -- The new value: none for a run against the cloud.
  abbrev pub kv_value : Text → Json
  kv_value base_url =
      if py.substring (codes "api.openai.com") base_url then null else text (codes "Q4")

  -- `str(data.get("llm", {}).get("base_url", ""))`; `none` is an AttributeError.
  abbrev pub base_url_of : Fields → Option Text
  base_url_of fs = elim (get_or (codes "llm") (object end) fs) [
    | object llm ↦ some (py.str (get_or (codes "base_url") (text []) llm))
    | _ ↦ none
  ]

  unfoldable pub backfill : Fields → Option (Json × Fields)
  backfill fs = do
    base_url ← base_url_of fs
    let value = kv_value base_url
    updated ← put_in_llm kv_key value (put kv_key value fs)
    some (value, updated)

  abbrev pub write : Option (Json × Fields) → Visit File
  write none = failed
  write (some (value, fs)) = rewritten value (json.dumps (object fs))

  -- A value that is no dictionary has no `get`.
  abbrev pub backfill_value : Json → Visit File
  backfill_value (object fs) = write (backfill fs)
  backfill_value _ = failed

  -- After the test for the key, which may raise.
  abbrev pub after_test : Option Bool → Json → Visit File
  after_test none value = failed
  after_test (some true) value = passed_over
  after_test (some false) value = backfill_value value

  abbrev pub visit_loaded : Option Json → Visit File
  visit_loaded none = failed
  visit_loaded (some value) = after_test (contains py value (text kv_key)) value

  unfoldable pub visit : Option File → Visit File
  unfolding backfill
  visit none = passed_over
  visit (some file) = visit_loaded (json.loads file)

  abbrev pub prepend : RunDir File → List Line → Report File → Report File
  prepend run lines report = record report {
    runs = run ∷ report.runs;
    lines = lines ++ report.lines;
  }

  abbrev pub count_after : Visit File → ℕ → ℕ
  count_after (rewritten value file) migrated = migrated + 1
  count_after _ migrated = migrated

  -- One round of the loop, before the rounds that `rest` stands for.
  abbrev pub after_visit :
      RunDir File → List (RunDir File) → ℕ → Visit File → Report File → Report File
  after_visit run runs migrated passed_over rest = prepend run [] rest
  after_visit run runs migrated (rewritten value file) rest =
      prepend (with_summary run file) (backfilled run.name value ∷ []) rest
  after_visit run runs migrated failed rest = record {
    runs = run ∷ runs;
    lines = [];
    migrated = migrated;
    raised = true;
  }

  unfoldable pub visit_all : List (RunDir File) → ℕ → Report File
  unfolding visit
  visit_all [] migrated = record {
    runs = [];
    lines = done migrated ∷ [];
    migrated = migrated;
    raised = false;
  }
  visit_all (run ∷ runs) migrated =
      let v = visit run.summary in
      after_visit run runs migrated v (visit_all runs (count_after v migrated))

  -- `sorted` is Python's, on the directories; `none` for no results directory.
  unfoldable pub main :
      (List (RunDir File) → List (RunDir File)) → Option (List (RunDir File)) → Report File
  unfolding visit_all
  main sorted none = record { runs = []; lines = no_results ∷ []; migrated = 0; raised = false }
  main sorted (some runs) = visit_all (sorted (select (λ (r : RunDir File). r.is_dir) runs)) 0
