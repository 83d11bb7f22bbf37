-- ===== src/Scripts/Files.antt =====
-- The results directory that both scripts walk through, and the JSON files in it.
pub mod Section
use csharp_llm_benchmark.Prelude.{◌≡◌, Option, none, some, List, [], ◌∷◌, Bool}
use csharp_llm_benchmark.Prelude.Text.{Text, codes, text_eq}
use csharp_llm_benchmark.Json.Fields.{Json, object, Fields, end, field, get, put, has}

-- `json.loads` and `json.dumps`, with the line break behind it, on the contents of files; `none` is
-- a JSONDecodeError.
pub record JsonText (File : Type 0) : Type 0 where
  pub loads : File → Option Json
  pub dumps : Json → File

-- What was dumped can be loaded, with the same keys.
pub record JsonLaws {File : Type 0} (json : JsonText File) : Type 0 where
  pub loads-dumps :
      (fs : Fields)
      → (back : Fields) × (json.loads (json.dumps (object fs)) ≡ some (object back))
        × ((key : Text) → has key back ≡ has key fs)

-- An entry of the results directory, and its summary.json if it has one.
pub record RunDir (File : Type 0) : Type 0 where
  pub name : Text
  pub is_dir : Bool
  pub summary : Option File

abbrev pub with_summary : {File : Type 0} → RunDir File → File → RunDir File
with_summary run file = record run { summary = some file }

-- `data.setdefault("llm", {})[key] = value`; `none` is a TypeError.
abbrev pub put_in_llm : Text → Json → Fields → Option Fields
put_in_llm key value fs = elim (get (codes "llm") fs) [
  | none ↦ some (put (codes "llm") (object (field key value end)) fs)
  | some (object section) ↦ some (put (codes "llm") (object (put key value section)) fs)
  | some _ ↦ none
]

-- The two lists have the same length, and each element is related to the one of the same index.
pub data Pointwise {A : Type 0} (R : A → A → Type 0) : List A → List A → Type 0 where
  both_end : Pointwise R [] []
  both : {a b : A} {l k : List A} → R a b → Pointwise R l k → Pointwise R (a ∷ l) (b ∷ k)
