-- ===== src/Scripts/ModelSize/Requests.antt =====
-- What holds of the library is kept by a visit if it is kept by each request of a local server.
use csharp_llm_benchmark.Prelude.{◌≡◌, refl, Option, none, some, List, [], ◌++◌, Bool, true, false}
use csharp_llm_benchmark.Prelude.Text.{Text, codes, text_eq}
use csharp_llm_benchmark.Json.Fields.{Json, object, text, Fields, get_or}
use csharp_llm_benchmark.Json.Python.{Python, contains}
use csharp_llm_benchmark.LmStudio.Server.{derive_base_root, is_local_server}
use csharp_llm_benchmark.Scripts.Files.{JsonText, RunDir}
use csharp_llm_benchmark.Scripts.ModelSize.{
  size_key, Arguments, Library, models_for, url_for, visit_root, visit_section, visit_value,
  after_test, visit_loaded, visit_summary, visit,
}

-- Where the models of a root are asked for.
abbrev pub address : Text → Text
address root = derive_base_root root ++ codes "/api/v1/models"

module _ (py : Python) {File : Type 0} (json : JsonText File)
    (respond : List Text → Text → Option Json) (args : Arguments) (P : Library → Type 0)
    (step : (root : Text) (library : Library)
      → is_local_server py root ≡ some true
      → P library
      → P (models_for respond root library).1) where
  visit_root-keeps :
      (name : Text) (fs : Fields) (base_url root : Text) (o : Option Bool) (library : Library)
      → is_local_server py root ≡ o
      → P library
      → P (visit_root py json respond args name fs base_url root o library).1
  visit_root-keeps name fs base_url root none library h s = s
  visit_root-keeps name fs base_url root (some false) library h s = s
  visit_root-keeps name fs base_url root (some true) library h s = step root library h s

  visit_section-keeps :
      (name : Text) (fs : Fields) (o : Option Fields) (library : Library)
      → P library
      → P (visit_section py json respond args name fs o library).1
  visit_section-keeps name fs none library s = s
  visit_section-keeps name fs (some llm) library s =
      let base_url = py.str (get_or (codes "base_url") (text []) llm) in
      let root = derive_base_root (url_for args.base_url base_url) in
      visit_root-keeps name fs base_url root (is_local_server py root) library refl s

  visit_value-keeps :
      (name : Text) (value : Json) (library : Library)
      → P library
      → P (visit_value py json respond args name value library).1
  visit_value-keeps name (object fs) library s = visit_section-keeps name fs _ library s
  visit_value-keeps name _ library s = s

  after_test-keeps :
      (name : Text) (test : Option Bool) (value : Json) (library : Library)
      → P library
      → P (after_test py json respond args name test value library).1
  after_test-keeps name none value library s = s
  after_test-keeps name (some true) value library s = s
  after_test-keeps name (some false) value library s = visit_value-keeps name value library s

  visit_loaded-keeps :
      (name : Text) (o : Option Json) (library : Library)
      → P library
      → P (visit_loaded py json respond args name o library).1
  visit_loaded-keeps name none library s = s
  visit_loaded-keeps name (some value) library s =
      after_test-keeps name (contains py value (text size_key)) value library s

  pub visit-keeps :
      (run : RunDir File) (library : Library)
      → P library
      → P (visit py json respond args run library).1
  unfolding visit
  visit-keeps run library s = go run.summary
    where
      go :
          (summary : Option File)
          → P (visit_summary py json respond args run.name summary library).1
      go none = s
      go (some file) = visit_loaded-keeps run.name (json.loads file) library s
