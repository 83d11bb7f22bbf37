-- ===== src/LmStudio/Resolve/Instance.antt =====
-- Where the fields of a variant come from.
use csharp_llm_benchmark.Prelude.{
  ◌≡◌, refl, sym, ap, ◌∙◌, Option, none, some, List, Bool, true, false, ◌==◌, bind_inv, arith,
  ◌>>=◌, if◌then◌else◌,
}
use csharp_llm_benchmark.Prelude.Text.{Text, codes, text_eq}
use csharp_llm_benchmark.Prelude.Int.{ℤ}
use csharp_llm_benchmark.Json.Fields.{
  Json, null, array, nil, Fields, get, get_or, put, drop, get-put, get-put_other, get-drop,
  get_or-some, get_or-none,
}
use csharp_llm_benchmark.Json.Python.{Python, truthy}
use csharp_llm_benchmark.LmStudio.Server.{derive_base_root, is_local_server}
use csharp_llm_benchmark.LmStudio.Match.{list_of, match_model}
use csharp_llm_benchmark.LmStudio.Meta.{
  LmStudioModelMeta, length_of, quantization_name, size_of, parse_model_meta, fetch_models,
}
use csharp_llm_benchmark.LmStudio.Resolve.{
  Resolver, Tool, no_log, fetch_loaded_models, find_loaded, put_if, take_over, or_end, merge,
  entry_of, resolve_model_meta,
}

module _ (py : Python) (resolver : Resolver) (tool : Tool) where
  get-put_if :
      (c : Bool) (key other : Text) (value : Json) (fs : Fields)
      → (key == other) ≡ false
      → get other (put_if py resolver tool c key value fs) ≡ get other fs
  get-put_if true key other value fs h = get-put_other key other value fs h
  get-put_if false key other value fs h = refl

  get-take_over :
      (source target other : Text) (loaded fs : Fields)
      → (target == other) ≡ false
      → get other (take_over py resolver tool loaded source target fs) ≡ get other fs
  get-take_over source target other loaded fs h =
      get-put_if (truthy py (get_or source null loaded)) target other (get_or source null loaded) fs
        h

  -- The loop over the names leaves another field as it is.
  taken :
      (other : Text) (loaded fs : Fields)
      → (codes "params_string" == other) ≡ false
      → (codes "publisher" == other) ≡ false
      → (codes "display_name" == other) ≡ false
      → get other (
          take_over py resolver tool loaded (codes "paramsString") (codes "params_string") (
            take_over py resolver tool loaded
              (codes "publisher")
              (codes "publisher")
              (take_over py resolver tool loaded (codes "displayName") (codes "display_name") fs)))
        ≡ get other fs
  taken other loaded fs p q r =
      let named =
        take_over py resolver tool loaded (codes "displayName") (codes "display_name") fs in
      let published =
        take_over py resolver tool loaded (codes "publisher") (codes "publisher") named in
      get-take_over (codes "paramsString") (codes "params_string") other loaded published p
      ∙ get-take_over (codes "publisher") (codes "publisher") other loaded named q
      ∙ get-take_over (codes "displayName") (codes "display_name") other loaded fs r

  module _ (entry : Option Fields) (loaded : Fields) where
    abbrev alone : Fields
    alone = drop (codes "variants") (or_end py resolver tool entry)

    abbrev quantized : Fields
    quantized = put (codes "quantization") (get_or (codes "quantization") null loaded) alone

    abbrev sized : Fields
    sized = put (codes "size_bytes") (get_or (codes "sizeBytes") null loaded) quantized

    merge-quantization :
        get (codes "quantization") (merge py resolver tool entry loaded)
        ≡ some (get_or (codes "quantization") null loaded)
    unfolding merge
    merge-quantization =
        taken (codes "quantization") loaded sized refl refl refl
        ∙ get-put_other (codes "size_bytes") (codes "quantization")
            (get_or (codes "sizeBytes") null loaded) quantized refl
        ∙ get-put (codes "quantization") (get_or (codes "quantization") null loaded) alone

    merge-size :
        get (codes "size_bytes") (merge py resolver tool entry loaded)
        ≡ some (get_or (codes "sizeBytes") null loaded)
    unfolding merge
    merge-size =
        taken (codes "size_bytes") loaded sized refl refl refl
        ∙ get-put (codes "size_bytes") (get_or (codes "sizeBytes") null loaded) quantized

    merge-variants : get (codes "variants") (merge py resolver tool entry loaded) ≡ none
    unfolding merge
    merge-variants =
        taken (codes "variants") loaded sized refl refl refl
        ∙ get-put_other (codes "size_bytes") (codes "variants")
            (get_or (codes "sizeBytes") null loaded) quantized refl
        ∙ get-put_other (codes "quantization") (codes "variants")
            (get_or (codes "quantization") null loaded) alone refl
        ∙ get-drop (codes "variants") (or_end py resolver tool entry)

  no_list :
      (entry : Fields)
      → get (codes "variants") entry ≡ none
      → list_of py (codes "variants") entry ≡ array nil
  no_list entry h =
      ap (λ v. if truthy py v then v else array nil) (get_or-none (codes "variants") null entry h)

  -- What is parsed of an entry without variants.
  parsed_alone :
      (entry : Fields) (quantization size : Json) (meta : LmStudioModelMeta)
      → get (codes "quantization") entry ≡ some quantization
      → get (codes "size_bytes") entry ≡ some size
      → get (codes "variants") entry ≡ none
      → parse_model_meta py entry ≡ some meta
      → (meta.quantization ≡ quantization_name py quantization)
        × (size_of py size ≡ some meta.size_bytes)
  unfolding parse_model_meta
  parsed_alone entry quantization size meta q s v h =
      let (size_bytes, e, h1) =
        bind_inv (size_of py (get_or (codes "size_bytes") null entry)) _ _ h in
      let (variants, e', h2) =
        bind_inv (length_of py (list_of py (codes "variants") entry)) _ _ h1 in
      let sized : size_of py size ≡ some size_bytes =
        sym (ap (size_of py) (get_or-some (codes "size_bytes") null size entry s)) ∙ e in
      let none_there : some 0 ≡ some variants = sym (ap (length_of py) (no_list entry v)) ∙ e' in
      let zero_there : 0 ≡ variants = ground (arith, none_there) in
      let h3 = (rw (← zero_there) at h2) in
      (
        sym (ap quantization_in h3)
            ∙ ap (quantization_name py)
                (get_or-some (codes "quantization") null quantization entry q),
        sized ∙ ap some (ap size_in h3),
      )
    where
      quantization_in : Option LmStudioModelMeta → Option Text
      quantization_in none = none
      quantization_in (some m) = m.quantization

      size_in : Option LmStudioModelMeta → Option ℤ
      size_in none = none
      size_in (some m) = m.size_bytes

  -- If the server is local, the tool lists one instance of the model, and the metadata is resolved,
  -- then its quantization and its size are read from that instance only, whatever the catalog says:
  -- what the instance does not tell stays empty.
  pub resolve_model_meta_instance :
      (respond : Text → Option Json) (base_url : Text) (model model_label : Json)
      (loaded_models : List Fields) (loaded : Fields) (meta : LmStudioModelMeta)
      → is_local_server py base_url ≡ some true
      → fetch_loaded_models py resolver tool base_url ≡ some loaded_models
      → find_loaded py resolver tool model loaded_models ≡ some loaded
      → resolve_model_meta py resolver tool respond base_url model model_label ≡ some meta
      → (meta.quantization ≡ quantization_name py (get_or (codes "quantization") null loaded))
        × (size_of py (get_or (codes "sizeBytes") null loaded) ≡ some meta.size_bytes)
  unfolding resolve_model_meta
  resolve_model_meta_instance respond base_url model model_label loaded_models loaded meta local
        listed one h =
      let h1 = (rw (local, ◌>>=◌, listed) at h) in
      let (entry, e, h2) =
        bind_inv
          (match_model py
            (fetch_models (no_log py resolver tool respond) (derive_base_root base_url) tt).0 model
            model_label)
          _ _ h1 in
      let h3 = (rw one at h2) in
      let (found, e', h4) =
        bind_inv
          (entry_of py resolver tool
            (fetch_models (no_log py resolver tool respond) (derive_base_root base_url) tt).0 entry
            loaded)
          _ _ h3 in
      parsed_alone (merge py resolver tool found loaded) _ _ meta (merge-quantization found loaded)
        (merge-size found loaded) (merge-variants found loaded) h4
