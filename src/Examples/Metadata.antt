-- ===== src/Examples/Metadata.antt =====
-- The metadata of a loaded instance, where the catalog has another variant of the model.
use csharp_llm_benchmark.Prelude.{
  ◌≡◌, refl, Option, none, some, List, [], ◌∷◌, Bool, true, false, ◌==◌, if◌then◌else◌,
}
use csharp_llm_benchmark.Prelude.Text.{Text, codes, text_eq}
use csharp_llm_benchmark.Prelude.Int.{pos}
use csharp_llm_benchmark.Json.Fields.{
  Json, null, boolean, integer, text, array, object, nil, cons, Fields, end, field, get_or,
}
use csharp_llm_benchmark.LmStudio.Server.{derive_base_root, is_local_host, is_local_server}
use csharp_llm_benchmark.LmStudio.Match.{find, first_found, find_candidate, find_name, match_model}
use csharp_llm_benchmark.LmStudio.Meta.{
  LmStudioModelMeta, format_publisher, quantization_name, size_of, parse_model_meta, models_of,
  fetch_models,
}
use csharp_llm_benchmark.LmStudio.Resolve.{
  Resolver, Tool, is_same_machine, fetch_loaded_models, find_loaded, merge, resolve_model_meta,
}
use csharp_llm_benchmark.LmStudio.Resolve.Instance.{resolve_model_meta_instance}
use csharp_llm_benchmark.Examples.Backfill.{python, local_url}

abbrev loopback : Resolver
loopback = record {
  addresses = λ name. some (codes "127.0.0.1" ∷ []);
  own_addresses = some [];
  is_loopback = λ a. some (a == codes "127.0.0.1");
}

abbrev instance_fields : Fields
instance_fields =
    field (codes "identifier") (text (codes "m")) (field (codes "sizeBytes") (integer (pos 9)) end)

abbrev is_short : List Text → Bool
is_short (a ∷ b ∷ []) = true
is_short _ = false

-- The tool runs and lists one instance.
abbrev local_tool : Tool
local_tool = record {
  urlparse = λ url. some (record {
    scheme = codes "http";
    path = [];
    hostname = some (codes "localhost");
    port = some (integer (pos 1));
  });
  installed = true;
  query = λ command.
      if is_short command
      then some (array (cons (object instance_fields) nil))
      else some (
          object
            (field (codes "running") (boolean true) (field (codes "port") (integer (pos 1)) end)));
}

-- The catalog has a quantization and another size.
abbrev catalog : Text → Option Json
catalog url = some (
    object (
      field (codes "models")
        (array (
          cons
            (object (
              field (codes "key") (text (codes "m")) (
                field (codes "size_bytes") (integer (pos 7)) (
                  field (codes "quantization")
                    (object (field (codes "name") (text (codes "Q4")) end)) end))))
            nil))
        end))

abbrev resolved : LmStudioModelMeta
resolved = record {
  size_bytes = some (pos 9);
  quantization = none;
  params_string = none;
  publisher = none;
  display_name = none;
}

is_local : is_local_server python local_url ≡ some true
unfolding is_local_server is_local_host
is_local = refl

lists_instance :
    fetch_loaded_models python loopback local_tool local_url ≡ some (instance_fields ∷ [])
unfolding fetch_loaded_models derive_base_root is_same_machine
lists_instance = refl

finds_instance :
    find_loaded python loopback local_tool (text (codes "m")) (instance_fields ∷ [])
    ≡ some instance_fields
unfolding find_loaded
finds_instance = refl

resolves :
    resolve_model_meta python loopback local_tool catalog local_url (text (codes "m")) null
    ≡ some resolved
unfolding resolve_model_meta is_local_server is_local_host fetch_loaded_models derive_base_root
    is_same_machine find_loaded fetch_models models_of match_model first_found find_candidate
    find_name find merge parse_model_meta format_publisher
resolves = refl

resolve_model_meta_instance_example :
    (resolved.quantization
      ≡ quantization_name python (get_or (codes "quantization") null instance_fields))
    × (size_of python (get_or (codes "sizeBytes") null instance_fields) ≡ some resolved.size_bytes)
resolve_model_meta_instance_example =
    resolve_model_meta_instance python loopback local_tool catalog local_url (text (codes "m")) null
      (instance_fields ∷ []) instance_fields resolved is_local lists_instance finds_instance
      resolves
