-- ===== src/LmStudio/Meta.antt =====
-- benchmark/lmstudio_meta.py: what is read of an entry, and what the server and the local command
-- line tool are asked. `none` is an exception, unless something else is said.
use csharp_llm_benchmark.Prelude.{
  ℕ, ◌+◌, Option, none, some, List, [], ◌∷◌, ◌++◌, ◌==◌, nat_eq, ltb, length, ◌>>=◌, if◌then◌else◌,
}
use csharp_llm_benchmark.Prelude.Text.{Text, codes, text_eq}
use csharp_llm_benchmark.Prelude.Int.{ℤ}
use csharp_llm_benchmark.Json.Fields.{
  Json, null, text, array, object, Fields, end, field, get_or, items,
}
use csharp_llm_benchmark.Json.Python.{Python, converted, refused, overflowed, empty_text, truthy}
use csharp_llm_benchmark.LmStudio.Server.{derive_base_root}
use csharp_llm_benchmark.LmStudio.Match.{list_of}

pub record LmStudioModelMeta : Type 0 where
  pub size_bytes : Option ℤ
  pub quantization : Option Text
  pub params_string : Option Text
  pub publisher : Option Text
  pub display_name : Option Text

-- `text or None`
abbrev pub nonempty : Text → Option Text
nonempty t = if empty_text t then none else some t

abbrev pub count : Fields → ℕ
count end = 0
count (field k v rest) = 1 + count rest

-- The dictionaries of a list.
abbrev pub dictionaries : List Json → List Fields
dictionaries [] = []
dictionaries (object entry ∷ rest) = entry ∷ dictionaries rest
dictionaries (_ ∷ rest) = dictionaries rest

module _ (py : Python) where
  -- `len(value)`; what has no length is a TypeError.
  abbrev pub length_of : Json → Option ℕ
  length_of (text t) = some (length t)
  length_of (array vs) = some (length (items vs))
  length_of (object fs) = some (count fs)
  length_of _ = none

  unfoldable pub format_publisher : Json → Option Text
  format_publisher (text t) =
      let name = py.strip t in
      let folded = py.casefold name in
      if folded == codes "lmstudio-community"
      then some (codes "LM Studio Community")
      else if folded == codes "prism-ml"
      then some (codes "Prism ML")
      else capitalized name
    where
      -- `none` for a name without characters
      capitalized : Text → Option Text
      capitalized [] = none
      capitalized (c ∷ rest) = some (py.upper (c ∷ []) ++ rest)
  format_publisher _ = none

  abbrev pub quantization_name : Json → Option Text
  quantization_name (object quantization) =
      let name = get_or (codes "name") null quantization in
      if truthy py name then nonempty (py.strip (py.str name)) else none
  quantization_name _ = none

  -- An OverflowError is not caught.
  abbrev pub size_of : Json → Option (Option ℤ)
  size_of null = some none
  size_of value = elim (py.int value) [
    | converted z ↦ some (some z)
    | refused ↦ some none
    | overflowed ↦ none
  ]

  abbrev pub params_of : Json → Option Text
  params_of value = if truthy py value then nonempty (py.strip (py.str value)) else none

  abbrev pub display_of : Json → Option Text
  display_of (text t) = nonempty (py.strip t)
  display_of _ = none

  unfoldable pub parse_model_meta : Fields → Option LmStudioModelMeta
  unfolding format_publisher
  parse_model_meta entry = do
    size_bytes ← size_of (get_or (codes "size_bytes") null entry)
    variants ← length_of (list_of py (codes "variants") entry)
    some (record {
      size_bytes = if ltb 1 variants then none else size_bytes;
      quantization =
          if ltb 1 variants
          then none
          else quantization_name (get_or (codes "quantization") null entry);
      params_string = params_of (get_or (codes "params_string") null entry);
      publisher = format_publisher (get_or (codes "publisher") null entry);
      display_name = display_of (get_or (codes "display_name") null entry);
    })

-- The entries of an answer of the server; `none` for a request that failed in any way.
unfoldable pub models_of : Option Json → List Fields
models_of (some (object payload)) = listed (get_or (codes "models") null payload)
  where
    listed : Json → List Fields
    listed (array models) = dictionaries (items models)
    listed _ = []
models_of _ = []

-- `ask` is the request of an URL: it answers, and changes what is kept of the requests. An URL that
-- no request can be made of, and an answer that is no HTTP, which raise, are failed requests here.
unfoldable pub fetch_models :
    {S : Type 0} → (Text → S → Option Json × S) → Text → S → List Fields × S
unfolding models_of derive_base_root
fetch_models ask base_root state =
    let (answer, after) = ask (derive_base_root base_root ++ codes "/api/v1/models") state in
    (models_of answer, after)
