-- ===== src/LmStudio/Resolve.antt =====
-- benchmark/lmstudio_meta.py: `resolve_model_meta`, `fetch_loaded_models` and `_is_same_machine`.
-- `none` is an exception, unless something else is said; the warnings are left out.
pub mod Instance
use csharp_llm_benchmark.Prelude.{
  ℕ, Option, none, some, List, [], ◌∷◌, Bool, true, false, not, ◌&&◌, ◌||◌, ◌==◌, mem, select,
  length, ◌>>=◌, if◌then◌else◌,
}
use csharp_llm_benchmark.Prelude.Text.{Text, codes, text_eq}
use csharp_llm_benchmark.Json.Fields.{
  Json, null, boolean, integer, real, text, array, object, Fields, end, field, get_or, put, drop,
  items,
}
use csharp_llm_benchmark.Json.Python.{Python, empty_text, truthy}
use csharp_llm_benchmark.LmStudio.Server.{derive_base_root, is_local_server, or_empty}
use csharp_llm_benchmark.LmStudio.Match.{match_model}
use csharp_llm_benchmark.LmStudio.Meta.{
  LmStudioModelMeta, dictionaries, parse_model_meta, fetch_models,
}

-- The resolver; `none` is an OSError, or a ValueError for what is no address.
pub record Resolver : Type 0 where
  pub addresses : Text → Option (List Text)
  pub own_addresses : Option (List Text)
  pub is_loopback : Text → Option Bool

-- The parts of an URL. `port` has its default 80 filled in; it is `none` for a ValueError.
pub record Url : Type 0 where
  pub scheme : Text
  pub path : Text
  pub hostname : Option Text
  pub port : Option Json

-- The local tool: whether it is installed, and what a command prints, decoded; `none` is one of the
-- exceptions that are caught.
pub record Tool : Type 0 where
  pub urlparse : Text → Option Url
  pub installed : Bool
  pub query : List Text → Option Json

-- The generator that `all` walks through, up to the first address that is refused.
abbrev pub all_local : Resolver → List Text → List Text → Option Bool
all_local resolver own [] = some true
all_local resolver own (a ∷ rest) =
    let others = all_local resolver own rest in
    do loopback ← resolver.is_loopback a; (if loopback || mem a own then others else some false)

abbrev pub or_false : Option Bool → Bool
or_false none = false
or_false (some b) = b

unfoldable pub is_same_machine : Resolver → Text → Bool
is_same_machine resolver hostname = or_false (do
  addresses ← resolver.addresses hostname
  own ← resolver.own_addresses
  found ← all_local resolver own addresses
  some (not (is_none addresses) && found))
  where
    is_none : List Text → Bool
    is_none [] = true
    is_none (a ∷ rest) = false

module _ (py : Python) (resolver : Resolver) (tool : Tool) where
  abbrev pub is_true : Json → Bool
  is_true (boolean b) = b
  is_true _ = false

  -- The answer of `server status`, for a port.
  abbrev pub is_running : Option Json → Option Json → Bool
  is_running (some port) (some (object status)) =
      is_true (get_or (codes "running") null status)
      && py.same (get_or (codes "port") null status) port
  is_running _ _ = false

  abbrev pub loaded_of : Option Json → List Fields
  loaded_of (some (array loaded)) = dictionaries (items loaded)
  loaded_of _ = []

  unfoldable pub fetch_loaded_models : Text → Option (List Fields)
  unfolding derive_base_root is_same_machine
  fetch_loaded_models base_url = do
    root ← tool.urlparse (derive_base_root base_url)
    some (
        if not (root.scheme == codes "http")
          || (not (empty_text root.path)
              || not (is_same_machine resolver (or_empty py root.hostname)))
        then []
        else if not tool.installed
        then []
        else if is_running root.port
            (tool.query (codes "server" ∷ codes "status" ∷ codes "--json" ∷ []))
        then loaded_of (tool.query (codes "ps" ∷ codes "--json" ∷ []))
        else [])

  -- The loaded models whose `key` is the model.
  abbrev pub named : Text → Json → List Fields → List Fields
  named key model [] = []
  named key model (entry ∷ entries) =
      let others = named key model entries in
      if py.same (get_or key null entry) model then entry ∷ others else others

  abbrev pub single : List Fields → Option Fields
  single (entry ∷ []) = some entry
  single _ = none

  abbrev pub or_named : List Fields → List Fields → List Fields
  or_named [] others = others
  or_named (entry ∷ entries) others = entry ∷ entries

  -- `loaded`: the one instance of the model, if there is one.
  unfoldable pub find_loaded : Json → List Fields → Option Fields
  find_loaded model loaded_models =
      if truthy py model
      then single (
          or_named (named (codes "identifier") model loaded_models)
            (named (codes "modelKey") model loaded_models))
      else none

  abbrev pub put_if : Bool → Text → Json → Fields → Fields
  put_if true key value fs = put key value fs
  put_if false key value fs = fs

  -- One round of the loop over `source` and `target`.
  abbrev pub take_over : Fields → Text → Text → Fields → Fields
  take_over loaded source target resolved =
      let value = get_or source null loaded in put_if (truthy py value) target value resolved

  abbrev pub or_end : Option Fields → Fields
  or_end none = end
  or_end (some fs) = fs

  -- `resolved`: the entry with the fields of the instance.
  unfoldable pub merge : Option Fields → Fields → Fields
  merge entry loaded = take_over loaded (codes "paramsString") (codes "params_string") (
      take_over loaded (codes "publisher") (codes "publisher") (
        take_over loaded (codes "displayName") (codes "display_name") (
          put (codes "size_bytes") (get_or (codes "sizeBytes") null loaded) (
            put (codes "quantization") (get_or (codes "quantization") null loaded)
              (drop (codes "variants") (or_end entry))))))

  abbrev pub no_meta : LmStudioModelMeta
  no_meta = record {
    size_bytes = none;
    quantization = none;
    params_string = none;
    publisher = none;
    display_name = none;
  }

  -- The entry, or the one with the key of the instance.
  abbrev pub entry_of : List Fields → Option Fields → Fields → Option (Option Fields)
  entry_of models none loaded = match_model py models (get_or (codes "modelKey") null loaded) null
  entry_of models (some entry) loaded = some (some entry)

  abbrev pub meta_of : List Fields → Option Fields → Option Fields → Option LmStudioModelMeta
  meta_of models entry (some loaded) = do
    found ← entry_of models entry loaded
    parse_model_meta py (merge found loaded)
  meta_of [] entry none = some no_meta
  meta_of (m ∷ models) none none = some no_meta
  meta_of (m ∷ models) (some entry) none = parse_model_meta py entry

  -- Requests of which nothing is kept.
  abbrev pub no_log : (Text → Option Json) → Text → Unit {0} → Option Json × Unit {0}
  no_log respond url state = (respond url, state)

  module _ (respond : Text → Option Json) where
    unfoldable pub resolve_model_meta : Text → Json → Json → Option LmStudioModelMeta
    unfolding fetch_loaded_models find_loaded merge fetch_models match_model
    resolve_model_meta base_url model model_label = do
      local ← is_local_server py base_url
      (if local
          then (do
            loaded_models ← fetch_loaded_models base_url
            let models = (fetch_models (no_log respond) (derive_base_root base_url) tt).0
            entry ← match_model py models model model_label
            meta_of models entry (find_loaded model loaded_models))
          else some no_meta)
