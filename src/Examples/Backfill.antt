-- ===== src/Examples/Backfill.antt =====
-- The theorems on the scripts and on the model library at small files.
use csharp_llm_benchmark.Prelude.{
  IsDistinct, ◌+◌, ◌≡◌, refl, Option, none, some, List, [], ◌∷◌, ◌++◌, map, all, leb, All, Bool,
  true, false, ◌&&◌, ◌||◌, ◌==◌, nat_eq, if◌then◌else◌,
}
use csharp_llm_benchmark.Prelude.Text.{Text, codes, text_eq, starts_with}
use csharp_llm_benchmark.Prelude.Int.{pos, int_eq}
use csharp_llm_benchmark.Json.Fields.{
  Json, null, integer, text, array, object, nil, cons, Fields, end, field,
}
use csharp_llm_benchmark.Json.Python.{Python, Converted, converted, refused}
use csharp_llm_benchmark.LmStudio.Server.{
  derive_base_root, is_private_ipv4, is_local_host, is_local_server,
}
use csharp_llm_benchmark.LmStudio.Match.{find, find_candidate, find_name, first_found, match_model}
use csharp_llm_benchmark.LmStudio.Match.Found.{match_model_loaded}
use csharp_llm_benchmark.LmStudio.Meta.{fetch_models, models_of, parse_model_meta, format_publisher}
use csharp_llm_benchmark.Scripts.Files.{JsonText, JsonLaws, RunDir, Pointwise}
use csharp_llm_benchmark.Scripts.KvCache
use csharp_llm_benchmark.Scripts.KvCache.Runs
use csharp_llm_benchmark.Scripts.KvCache.Runs.{visit_all-Change, visit_all_twice}
use csharp_llm_benchmark.Scripts.ModelSize
use csharp_llm_benchmark.Scripts.ModelSize.{Arguments, no_library}
use csharp_llm_benchmark.Scripts.ModelSize.Fetches.{main_fetches}
use csharp_llm_benchmark.Scripts.ModelSize.Counts.{summaries, visit_all_counts}
use csharp_llm_benchmark.Scripts.ModelSize.Change
use csharp_llm_benchmark.Scripts.ModelSize.Written.{visit_all-Pointwise}
use csharp_llm_benchmark.Scripts.ModelSize.DryRun.{with_dry_run, Announces, visit_all_dry}

abbrev substring : Text → Text → Bool
substring part [] = part == []
substring part (c ∷ t) = starts_with part (c ∷ t) || substring part t

abbrev same : Json → Json → Bool
same (text s) (text t) = s == t
same (integer a) (integer b) = a == b
same null null = true
same _ _ = false

abbrev str : Json → Text
str (text t) = t
str _ = []

abbrev int : Json → Converted
int (integer z) = converted z
int _ = refused

abbrev pub python : Python
python = record {
  strip = λ t. t;
  lower = λ t. t;
  upper = λ t. t;
  casefold = λ t. t;
  is_digit = all (λ c. leb 48 c && leb c 57);
  digits = λ t. some 127;
  int = int;
  str = str;
  is_zero = λ t. false;
  same = same;
  substring = substring;
  hostname = λ url. some (
      some
        (if substring (codes "localhost") url then codes "localhost" else codes "api.openai.com"));
}

-- Files that hold the values themselves.
abbrev values : JsonText Json
values = record { loads = λ j. some j; dumps = λ j. j }

values_laws : JsonLaws values
values_laws = record { loads-dumps = λ fs. (fs, refl, λ key. refl) }

abbrev entry : Text → Fields
entry key = field (codes "key") (text key) (
    field (codes "size_bytes") (integer (pos 7)) (
      field (codes "params_string") (text (codes "8B")) (
        field (codes "loaded_instances")
          (array (cons (object (field (codes "id") (text key) end)) nil)) end)))

abbrev summary : Text → Fields
summary url =
    field (codes "model") (text (codes "m"))
      (field (codes "llm") (object (field (codes "base_url") (text url) end)) end)

abbrev pub local_url : Text
local_url = codes "http://localhost:1/v1"

abbrev cloud_url : Text
cloud_url = codes "https://api.openai.com/v1"

abbrev run : Text → Fields → RunDir Json
run name fs = record { name = name; is_dir = true; summary = some (object fs) }

abbrev runs : List (RunDir Json)
runs = run (codes "a") (summary local_url) ∷ run (codes "b") (summary cloud_url) ∷ []

abbrev library : List Fields
library = entry (codes "x") ∷ entry (codes "m") ∷ []

finds_second : match_model python library (text (codes "m")) null ≡ some (some (entry (codes "m")))
unfolding match_model first_found find_candidate find
finds_second = refl

match_model_loaded_example :
    match_model python
      ((entry (codes "x") ∷ []) ++ entry (codes "m") ∷ [])
      (text (codes "m"))
      (text (codes "x"))
    ≡ some (some (entry (codes "m")))
match_model_loaded_example =
    match_model_loaded python (entry (codes "x") ∷ []) [] (entry (codes "m")) (text (codes "m"))
      (text (codes "x")) refl (refl, tt) refl

visit_all-Change_example :
    Pointwise (Runs.Change python values) runs (KvCache.visit_all python values runs 0).runs
visit_all-Change_example = visit_all-Change python values runs 0

nothing_raised : (KvCache.visit_all python values runs 0).raised ≡ false
unfolding KvCache.visit_all KvCache.visit KvCache.backfill
nothing_raised = refl

visit_all_twice_example :
    KvCache.visit_all python values (KvCache.visit_all python values runs 0).runs 0 ≡ record {
      runs = (KvCache.visit_all python values runs 0).runs;
      lines = KvCache.done 0 ∷ [];
      migrated = 0;
      raised = false;
    }
visit_all_twice_example = visit_all_twice python values values_laws runs 0 0 nothing_raised

abbrev respond : List Text → Text → Option Json
respond asked url =
    some (object (field (codes "models") (array (cons (object (entry (codes "m"))) nil)) end))

abbrev no_arguments : Arguments
no_arguments = with_dry_run python values respond none false

main_fetches_example :
    (asked_roots : List Text) × ((ModelSize.main python values respond no_arguments
        (λ l. l)
        (some runs)).library.fetched
      ≡ map (λ root. derive_base_root root ++ codes "/api/v1/models") asked_roots)
    × IsDistinct asked_roots
    × All (λ root. is_local_server python root ≡ some true) asked_roots
main_fetches_example = main_fetches python values respond no_arguments (λ l. l) (some runs)

visit_all-Pointwise_example :
    Pointwise
      (Change.Change python values respond no_arguments no_library)
      runs
      (ModelSize.visit_all python values respond no_arguments runs no_library 0 0).runs
visit_all-Pointwise_example =
    visit_all-Pointwise python values respond no_arguments runs no_library 0 0

no_exception :
    (ModelSize.visit_all python values respond no_arguments runs no_library 0 0).raised ≡ false
unfolding ModelSize.visit_all ModelSize.visit ModelSize.models_for ModelSize.update is_local_server
    is_local_host is_private_ipv4 derive_base_root fetch_models models_of parse_model_meta
    format_publisher match_model first_found find_candidate find_name find
no_exception = refl

visit_all_counts_example :
    (ModelSize.visit_all python values respond no_arguments runs no_library 0 0).migrated
      + (ModelSize.visit_all python values respond no_arguments runs no_library 0 0).skips
    ≡ 0 + 0 + summaries runs
visit_all_counts_example =
    visit_all_counts python values respond no_arguments runs no_library 0 0 no_exception

visit_all_dry_example :
    ((ModelSize.visit_all python values respond
        (with_dry_run python values respond none true)
        runs
        no_library
        0
        0).runs
      ≡ runs)
    × ((ModelSize.visit_all python values respond no_arguments runs no_library 0 0).raised ≡ false
        → Announces python values respond none
            (ModelSize.visit_all python values respond no_arguments runs no_library 0 0)
            (ModelSize.visit_all python values respond
              (with_dry_run python values respond none true)
              runs
              no_library
              0
              0))
visit_all_dry_example = visit_all_dry python values respond none runs no_library 0 0

-- With an address on the command line, a run against the cloud is migrated too.
cloud_migrated :
    (ModelSize.visit_all python values respond
      (record { base_url = some local_url; dry_run = false })
      (run (codes "b") (summary cloud_url) ∷ [])
      no_library
      0
      0).migrated
    ≡ 1
unfolding ModelSize.visit_all ModelSize.visit ModelSize.models_for ModelSize.update is_local_server
    is_local_host is_private_ipv4 derive_base_root fetch_models models_of parse_model_meta
    format_publisher match_model first_found find_candidate find_name find
cloud_migrated = refl

-- A section "llm" that is null ends the script with an exception.
null_section_raises :
    (ModelSize.visit_all python values respond
      (record { base_url = some local_url; dry_run = false })
      (run (codes "c") (field (codes "model") (text (codes "m")) (field (codes "llm") null end))
        ∷ [])
      no_library
      0
      0).raised
    ≡ true
unfolding ModelSize.visit_all ModelSize.visit ModelSize.models_for ModelSize.update is_local_server
    is_local_host is_private_ipv4 derive_base_root fetch_models models_of parse_model_meta
    format_publisher match_model first_found find_candidate find_name find
null_section_raises = refl
