-- ===== src/LmStudio/Match.antt =====
-- benchmark/lmstudio_meta.py: `match_model`. An entry is a dictionary; `none` is an exception.
pub mod Found
use csharp_llm_benchmark.Prelude.{
  Option, none, some, List, [], ◌∷◌, ◌++◌, Bool, true, false, ◌&&◌, ◌||◌, ◌==◌, ◌>>=◌,
  if◌then◌else◌,
}
use csharp_llm_benchmark.Prelude.Text.{Text, codes, text_eq}
use csharp_llm_benchmark.Json.Fields.{
  Json, null, text, array, object, Items, nil, cons, Fields, get, get_or, items,
}
use csharp_llm_benchmark.Json.Python.{Python, truthy, contains}

-- `next((entry for entry in entries if test(entry)), None)`
unfoldable pub find {ℓ} : {A : Type ℓ} → (A → Option Bool) → List A → Option (Option A)
find test [] = some none
find test (entry ∷ entries) =
    let rest = find test entries in
    do found ← test entry; (if found then some (some entry) else rest)

-- The first search, or the second if the first finds nothing.
abbrev pub or_find {ℓ} : {A : Type ℓ} → Option (Option A) → Option (Option A) → Option (Option A)
or_find none second = none
or_find (some none) second = second
or_find (some (some entry)) second = some (some entry)

-- A look for each candidate, until one finds something.
unfoldable pub first_found : (Json → Option (Option Fields)) → List Json → Option (Option Fields)
first_found look [] = some none
first_found look (candidate ∷ candidates) = or_find (look candidate) (first_found look candidates)

module _ (py : Python) where
  -- `entry.get(key) or []`
  abbrev pub list_of : Text → Fields → Json
  list_of key entry =
      let value = get_or key null entry in if truthy py value then value else array nil

  abbrev pub has_id : Json → List Json → Bool
  has_id candidate [] = false
  has_id candidate (object instance_fields ∷ rest) =
      py.same (get_or (codes "id") null instance_fields) candidate || has_id candidate rest
  has_id candidate (_ ∷ rest) = has_id candidate rest

  -- The test of the loaded instances. A text or a dictionary holds no dictionaries.
  abbrev pub is_instance : Json → Json → Option Bool
  is_instance candidate (array instances) = some (has_id candidate (items instances))
  is_instance candidate (text t) = some false
  is_instance candidate (object fs) = some false
  is_instance candidate _ = none

  -- `value.strip().casefold()`; what is no text has no `strip`.
  abbrev pub folded : Json → Option Text
  folded (text t) = some (py.casefold (py.strip t))
  folded _ = none

  abbrev pub folded_field : Text → Fields → Text
  folded_field key entry = py.casefold (py.strip (py.str (get_or key (text []) entry)))

  abbrev pub by_instance : Json → Fields → Option Bool
  by_instance candidate entry = is_instance candidate (list_of (codes "loaded_instances") entry)

  abbrev pub by_exact_key : Json → Fields → Option Bool
  by_exact_key candidate entry = some (py.same (get_or (codes "key") null entry) candidate)

  abbrev pub by_variant : Json → Fields → Option Bool
  by_variant candidate entry = contains py (list_of (codes "variants") entry) candidate

  abbrev pub by_folded : Text → Text → Fields → Option Bool
  by_folded key name entry = some (folded_field key entry == name)

  -- The searches for one candidate in the first loop.
  unfoldable pub find_candidate : List Fields → Json → Option (Option Fields)
  unfolding find
  find_candidate models candidate =
      let by_key = (do name ← folded candidate; find (by_folded (codes "key") name) models) in
      or_find (find (by_instance candidate) models) (
        or_find (find (by_exact_key candidate) models)
          (or_find (find (by_variant candidate) models) by_key))

  unfoldable pub find_name : List Fields → Json → Option (Option Fields)
  unfolding find
  find_name models candidate = do
    name ← folded candidate
    find (by_folded (codes "display_name") name) models

  abbrev pub keep : Json → List Json → List Json
  keep value rest = if truthy py value then value ∷ rest else rest

  unfoldable pub match_model : List Fields → Json → Json → Option (Option Fields)
  unfolding first_found find_candidate find_name
  match_model models model model_label =
      let candidates = keep model (keep model_label []) in
      or_find (first_found (find_candidate models) candidates)
        (first_found (find_name models) candidates)
