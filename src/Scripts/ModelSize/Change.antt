-- ===== src/Scripts/ModelSize/Change.antt =====
-- The change that the script makes to a summary.
use csharp_llm_benchmark.Prelude.{
  ◌≡◌, refl, ◌∙◌, Option, some, List, [], ◌++◌, true, false, ◌==◌, bind_inv,
}
use csharp_llm_benchmark.Prelude.Text.{Text, codes, text_eq}
use csharp_llm_benchmark.Prelude.Int.{ℤ}
use csharp_llm_benchmark.Json.Fields.{
  Json, null, integer, text, array, object, Fields, Items, items, end, get, get_or, put, has,
  get-put, get-put_other,
}
use csharp_llm_benchmark.Json.Python.{Python}
use csharp_llm_benchmark.LmStudio.Server.{derive_base_root, is_local_server}
use csharp_llm_benchmark.LmStudio.Match.{keep}
use csharp_llm_benchmark.LmStudio.Match.Found.{Some, Matched}
use csharp_llm_benchmark.LmStudio.Meta.{LmStudioModelMeta, dictionaries, parse_model_meta}
use csharp_llm_benchmark.Scripts.Files.{JsonText, RunDir, with_summary, put_in_llm}
use csharp_llm_benchmark.Scripts.Files.Section.{HasInLlm, put_in_llm_lem}
use csharp_llm_benchmark.Scripts.ModelSize.{
  size_key, params_key, params_json, Arguments, Visit, matched, Library, lookup, section_of,
  label_of, url_for, update,
}

-- The fields of a summary before and after the four writes.
pub record IsUpdate (size : ℤ) (params : Option Text) (fs updated : Fields) : Type 0 where
  pub top_size : get size_key updated ≡ some (integer size)
  pub top_params : get params_key updated ≡ some (params_json params)
  pub section_size : HasInLlm size_key (integer size) updated
  pub section_params : HasInLlm params_key (params_json params) updated
  pub others :
      (key : Text)
      → (size_key == key) ≡ false
      → (params_key == key) ≡ false
      → (codes "llm" == key) ≡ false
      → get key updated ≡ get key fs

pub update-IsUpdate :
    (size : ℤ) (params : Option Text) (fs updated : Fields)
    → update size params fs ≡ some updated
    → IsUpdate size params fs updated
unfolding update
update-IsUpdate size params fs updated h =
    let p = params_json params in
    let top = put params_key p (put size_key (integer size) fs) in
    let (one, e, h1) = bind_inv (put_in_llm size_key (integer size) top) _ _ h in
    let (own, outside, keeps) = put_in_llm_lem size_key (integer size) top one e in
    let (own', outside', keeps') = put_in_llm_lem params_key p one updated h1 in
    let both_outside : (key : Text) → (codes "llm" == key) ≡ false → get key updated ≡ get key top =
      λ key n. outside' key n ∙ outside key n in
    record {
      top_size =
          both_outside size_key refl
          ∙ get-put_other params_key size_key p (put size_key (integer size) fs) refl
          ∙ get-put size_key (integer size) fs;
      top_params =
          both_outside params_key refl ∙ get-put params_key p (put size_key (integer size) fs);
      section_size = keeps' size_key (integer size) refl own;
      section_params = own';
      others = λ key n m k.
          both_outside key k
          ∙ get-put_other params_key key p (put size_key (integer size) fs) m
          ∙ get-put_other size_key key (integer size) fs n;
    }

module _ (py : Python) {File : Type 0} (json : JsonText File)
    (respond : List Text → Text → Option Json) (args : Arguments) where
  -- The size and the parameters come from one of these models, which answers to the run's model or
  -- label.
  pub record IsSized (models : List Fields) (fs updated : Fields) : Type 0 where
    pub entry : Fields
    pub answers :
        Some py models
          (λ c. Matched py models c entry)
          (keep py (get_or (codes "model") null fs) (keep py (label_of py json respond args fs) []))
    pub meta : LmStudioModelMeta
    pub parsed : parse_model_meta py entry ≡ some meta
    pub size : ℤ
    pub has_size : meta.size_bytes ≡ some size
    pub change : IsUpdate size meta.params_string fs updated

  -- The models of a root: those that `first` has for it, or the dictionaries in the list "models" of
  -- what the server at the root answered.
  pub data Source (first : Library) (root : Text) (models : List Fields) : Type 0 where
    kept_before : lookup root first.models_by_root ≡ some models → Source first root models
    answered :
        (asked : List Text) (payload : Fields) (values : Items)
        → respond asked (derive_base_root root ++ codes "/api/v1/models") ≡ some (object payload)
        → get_or (codes "models") null payload ≡ array values
        → models ≡ dictionaries (items values)
        → Source first root models
    -- No answer, or one without a list: then none of its models answers to a run.
    without_models : models ≡ [] → Source first root models

  -- The server that was asked is the one on the command line or the run's own, and local, and the
  -- models are its.
  pub record IsAllowed (first : Library) (fs : Fields) (models : List Fields) : Type 0 where
    pub llm : Fields
    pub section : section_of py json respond args (get_or (codes "llm") (object end) fs) ≡ some llm
    pub root : Text
    pub root_of :
        root
        ≡ derive_base_root
            (url_for args.base_url (py.str (get_or (codes "base_url") (text []) llm)))
    pub local : is_local_server py root ≡ some true
    pub source : Source first root models

  pub record IsMigrated (first : Library) (before : Option File) (after : File) : Type 0 where
    pub file : File
    pub fs : Fields
    pub updated : Fields
    pub models : List Fields
    pub old_file : before ≡ some file
    pub old_fields : json.loads file ≡ some (object fs)
    pub lacked : has size_key fs ≡ false
    pub sized : IsSized models fs updated
    pub allowed : IsAllowed first fs models
    pub new_file : after ≡ json.dumps (object updated)
    pub real_run : args.dry_run ≡ false

  -- A run before and after the script.
  pub data Change (first : Library) (old new : RunDir File) : Type 0 where
    kept : new ≡ old → Change first old new
    migrated :
        (file : File)
        → IsMigrated first old.summary file
        → new ≡ with_summary old file
        → Change first old new

  -- What a visit may write.
  abbrev pub Writes : (File → Type 0) → Visit File → Type 0
  Writes P (matched line (some after)) = P after
  Writes P _ = Unit

  abbrev pub Updated : List Fields → Fields → File → Type 0
  Updated models fs after =
      (updated : Fields) × IsSized models fs updated
      × (after ≡ json.dumps (object updated))
      × (args.dry_run ≡ false)
