-- ===== src/Scripts/ModelSize/Comes.antt =====
-- Where the models in the library come from.
use csharp_llm_benchmark.Prelude.{
  ◌≡◌, refl, Option, none, some, List, ◌∷◌, ◌++◌, arith, ◌==◌, Option-cases, Bool-cases, inl, inr,
}
use csharp_llm_benchmark.Prelude.Text.{Text, codes, text_eq}
use csharp_llm_benchmark.Json.Fields.{
  Json, null, boolean, integer, real, text, array, object, Fields, get_or,
}
use csharp_llm_benchmark.Json.Python.{Python}
use csharp_llm_benchmark.LmStudio.Server.{derive_base_root}
use csharp_llm_benchmark.LmStudio.Meta.{models_of, fetch_models}
use csharp_llm_benchmark.Scripts.Files.{JsonText}
use csharp_llm_benchmark.Scripts.ModelSize.{Arguments, Library, lookup, models_for}
use csharp_llm_benchmark.Scripts.ModelSize.Change.{Source, answered, without_models}

module _ (py : Python) {File : Type 0} (json : JsonText File)
    (respond : List Text → Text → Option Json) (args : Arguments) (first : Library) where
  -- The models that the library has for a root are those of `first` or were answered.
  abbrev pub Comes : Library → Type 0
  Comes library =
      (root : Text) (models : List Fields)
      → lookup root library.models_by_root ≡ some models
      → Source py json respond args first root models

  models_of-Source :
      (root : Text) (asked : List Text) (answer : Option Json)
      → respond asked (derive_base_root root ++ codes "/api/v1/models") ≡ answer
      → Source py json respond args first root (models_of answer)
  unfolding models_of
  models_of-Source root asked none e = without_models refl
  models_of-Source root asked (some (object payload)) e =
      go (get_or (codes "models") null payload) refl
    where
      go :
          (value : Json)
          → get_or (codes "models") null payload ≡ value
          → Source py json respond args first root (models_of (some (object payload)))
      go (array values) k = answered asked payload values e k (rw k refl)
      go null k = without_models (rw k refl)
      go (boolean b) k = without_models (rw k refl)
      go (integer z) k = without_models (rw k refl)
      go (real r) k = without_models (rw k refl)
      go (text t) k = without_models (rw k refl)
      go (object fs) k = without_models (rw k refl)
  models_of-Source root asked (some _) e = without_models refl

  pub models_for-Source :
      (root : Text) (library : Library)
      → Comes library
      → Source py json respond args first root (models_for respond root library).0
  unfolding models_for fetch_models
  models_for-Source root library c = elim (Option-cases (lookup root library.models_by_root)) [
    | inr (models, e) ↦ rw (e, models_for) (c root models e)
    | inl e ↦ rw (e, models_for) (models_of-Source root library.fetched _ refl)
  ]

  pub models_for-Comes :
      (root : Text) (library : Library) → Comes library → Comes (models_for respond root library).1
  unfolding models_for fetch_models
  models_for-Comes root library c = elim (Option-cases (lookup root library.models_by_root)) [
    | inr (models, e) ↦ rw (e, models_for) c
    | inl e ↦ rw (e, models_for) (λ other models h. later other models h)
  ]
    where
      fetched : List Fields
      fetched =
          models_of (respond library.fetched (derive_base_root root ++ codes "/api/v1/models"))

      later :
          (other : Text) (models : List Fields)
          → lookup other ((root, fetched) ∷ library.models_by_root) ≡ some models
          → Source py json respond args first other models
      later other models h = elim (Bool-cases (root == other)) [
        | inl e ↦
            let same : root ≡ other = (text_eq.beq_iff root other).0 e in
            let own : fetched ≡ models = ground arith in
            rw (← same, ← own) (models_of-Source root library.fetched _ refl)
        | inr e ↦ c other models (ground arith)
      ]
