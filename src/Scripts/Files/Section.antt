-- ===== src/Scripts/Files/Section.antt =====
-- What writing a key of the section "llm" does to a summary.
use csharp_llm_benchmark.Prelude.{
  ◌≡◌, refl, sym, ap, ◌∙◌, Option, none, some, arith, true, false, ◌==◌,
}
use csharp_llm_benchmark.Prelude.Text.{Text, codes, text_eq}
use csharp_llm_benchmark.Json.Fields.{
  Json, object, Fields, end, field, get, put, has, get-put, get-put_other,
}
use csharp_llm_benchmark.Scripts.Files.{put_in_llm}

-- The section "llm" of an object has a key with a value.
pub record HasInLlm (key : Text) (value : Json) (fs : Fields) : Type 0 where
  pub section : Fields
  pub found : get (codes "llm") fs ≡ some (object section)
  pub value_found : get key section ≡ some value

-- The objects agree on the keys other than "llm".
abbrev pub AgreesOutside : Fields → Fields → Type 0
AgreesOutside updated fs =
    (other : Text) → (codes "llm" == other) ≡ false → get other updated ≡ get other fs

-- What was in the section stays there, apart from the key.
abbrev pub KeepsSection : Text → Fields → Fields → Type 0
KeepsSection key updated fs =
    (other : Text) (value : Json)
    → (key == other) ≡ false
    → HasInLlm other value fs
    → HasInLlm other value updated

module _ (key : Text) (value : Json) (fs updated : Fields) where
  section_put :
      (section : Fields)
      → get key section ≡ some value
      → ((other : Text) (v : Json)
          → (key == other) ≡ false
          → HasInLlm other v fs
          → get other section ≡ some v)
      → put (codes "llm") (object section) fs ≡ updated
      → HasInLlm key value updated × AgreesOutside updated fs × KeepsSection key updated fs
  section_put section own kept e = rw (← e) (
    record {
      section = section;
      found = get-put (codes "llm") (object section) fs;
      value_found = own;
    },
    λ other h. get-put_other (codes "llm") other (object section) fs h,
    λ other v h m. record {
      section = section;
      found = get-put (codes "llm") (object section) fs;
      value_found = kept other v h m;
    },
  )

  put_cases :
      (o : Option Json)
      → get (codes "llm") fs ≡ o
      → (elim o [
        | none ↦ some (put (codes "llm") (object (field key value end)) fs)
        | some (object section) ↦ some (put (codes "llm") (object (put key value section)) fs)
        | some _ ↦ none
      ])
        ≡ some updated
      → HasInLlm key value updated × AgreesOutside updated fs × KeepsSection key updated fs
  put_cases none e h =
      section_put (field key value end) (get-put key value end)
        (λ other v n m. absurd (cc (sym e ∙ m.found))) (ground arith)
  put_cases (some (object section)) e h =
      section_put (put key value section) (get-put key value section)
        (λ other v n m.
          let same : section ≡ m.section = cc (sym e ∙ m.found) in
          get-put_other key other value section n ∙ ap (get other) same ∙ m.value_found)
        (ground arith)
  put_cases (some _) e h = absurd (cc)

  pub put_in_llm_lem :
      put_in_llm key value fs ≡ some updated
      → HasInLlm key value updated × AgreesOutside updated fs × KeepsSection key updated fs
  put_in_llm_lem h = put_cases (get (codes "llm") fs) refl h

-- A key with a value is a key.
pub get-has :
    (key : Text) (value : Json) (fs : Fields) → get key fs ≡ some value → has key fs ≡ true
get-has key value end h = absurd (cc)
get-has key value (field k v rest) h = ground (arith, get-has key value rest)
