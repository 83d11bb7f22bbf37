-- ===== src/LmStudio/Match/Found.antt =====
-- Which entry `match_model` finds.
use csharp_llm_benchmark.Prelude.{
  ◌≡◌, refl, ap, Option, none, some, List, [], ◌∷◌, ◌++◌, arith, All, Bool, true, false, ◌>>=◌,
  bind_inv, if◌then◌else◌,
}
use csharp_llm_benchmark.Prelude.Text.{Text, codes, text_eq}
use csharp_llm_benchmark.Json.Fields.{Json, Fields}
use csharp_llm_benchmark.Json.Python.{Python, truthy}
use csharp_llm_benchmark.LmStudio.Match.{
  find, or_find, folded, by_instance, by_exact_key, by_variant, by_folded, find_candidate,
  find_name, first_found, keep, match_model,
}

-- One of the elements of a list.
pub record IsIn {ℓ} {A : Type ℓ} (a : A) (l : List A) : Type ℓ where
  pub before : List A
  pub after : List A
  pub split : l ≡ before ++ a ∷ after

IsIn-cons {ℓ} : {A : Type ℓ} {a : A} (x : A) {l : List A} → IsIn a l → IsIn a (x ∷ l)
IsIn-cons x m = record { before = x ∷ m.before; after = m.after; split = ap (λ t. x ∷ t) m.split }

-- What is found is an element that passes the test.
find_found {ℓ} :
    {A : Type ℓ} (test : A → Option Bool) (l : List A) (a : A)
    → find test l ≡ some (some a)
    → IsIn a l × (test a ≡ some true)
unfolding find
find_found test [] a h = absurd (cc)
find_found test (x ∷ l) a h = taken (find_found test l a) (bind_inv (test x) _ _ h)
  where
    taken :
        (find test l ≡ some (some a) → IsIn a l × (test a ≡ some true))
        → ((found : Bool) × (test x ≡ some found)
            × ((if found then some (some x) else find test l) ≡ some (some a)))
        → IsIn a (x ∷ l) × (test a ≡ some true)
    taken deeper (true, e, h) =
        let same : x ≡ a = ground arith in
        rw (← same) (record { before = []; after = l; split = refl }, e)
    taken deeper (false, e, h) = let (m, t) = deeper h in (IsIn-cons x m, t)

-- The first element that passes the test is found, if the test raises nothing before.
find-first {ℓ} :
    {A : Type ℓ} (test : A → Option Bool) (before : List A) (a : A) (after : List A)
    → All (λ g. test g ≡ some false) before
    → test a ≡ some true
    → find test (before ++ a ∷ after) ≡ some (some a)
unfolding find
find-first test [] a after f h = rw (h, ◌>>=◌) refl
find-first test (x ∷ before) a after f h = rw (f.0, ◌>>=◌) (find-first test before a after f.1 h)

or_find_cases {ℓ} :
    {A : Type ℓ} (P : A → Type ℓ) (first second : Option (Option A)) (a : A)
    → or_find first second ≡ some (some a)
    → (first ≡ some (some a) → P a)
    → (second ≡ some (some a) → P a)
    → P a
or_find_cases P none second a h f g = absurd (cc)
or_find_cases P (some none) second a h f g = g h
or_find_cases P (some (some e)) second a h f g = f h

module _ (py : Python) (models : List Fields) where
  -- An entry answers to a candidate by one of the ways of matching.
  pub data IsMatch (candidate : Json) (entry : Fields) : Type 0 where
    instance_id : by_instance py candidate entry ≡ some true → IsMatch candidate entry
    exact_key : by_exact_key py candidate entry ≡ some true → IsMatch candidate entry
    variant : by_variant py candidate entry ≡ some true → IsMatch candidate entry
    folded_key :
        (name : Text)
        → folded py candidate ≡ some name
        → by_folded py (codes "key") name entry ≡ some true
        → IsMatch candidate entry
    folded_name :
        (name : Text)
        → folded py candidate ≡ some name
        → by_folded py (codes "display_name") name entry ≡ some true
        → IsMatch candidate entry

  abbrev pub Matched : Json → Fields → Type 0
  Matched candidate entry = IsIn entry models × IsMatch candidate entry

  find_candidate-Matched :
      (candidate : Json) (entry : Fields)
      → find_candidate py models candidate ≡ some (some entry)
      → Matched candidate entry
  unfolding find_candidate
  find_candidate-Matched candidate entry h =
      or_find_cases (Matched candidate) (find (by_instance py candidate) models) _ entry h
        (λ e.
          let (m, t) = find_found (by_instance py candidate) models entry e in (m, instance_id t))
        (λ h1.
          or_find_cases (Matched candidate) (find (by_exact_key py candidate) models) _ entry h1
            (λ e.
              let (m, t) = find_found (by_exact_key py candidate) models entry e in
              (m, exact_key t))
            (λ h2.
              or_find_cases (Matched candidate) (find (by_variant py candidate) models) _ entry h2
                (λ e.
                  let (m, t) = find_found (by_variant py candidate) models entry e in
                  (m, variant t))
                (λ e.
                  let (name, n, f) = bind_inv (folded py candidate) _ _ e in
                  let (m, t) = find_found (by_folded py (codes "key") name) models entry f in
                  (m, folded_key name n t))))

  find_name-Matched :
      (candidate : Json) (entry : Fields)
      → find_name py models candidate ≡ some (some entry)
      → Matched candidate entry
  unfolding find_name
  find_name-Matched candidate entry h =
      let (name, n, f) = bind_inv (folded py candidate) _ _ h in
      let (m, t) = find_found (by_folded py (codes "display_name") name) models entry f in
      (m, folded_name name n t)

  -- Some candidate of a list has a property.
  abbrev pub Some : (Json → Type 0) → List Json → Type 0
  Some P candidates = (candidate : Json) × IsIn candidate candidates × P candidate

  first_found-Some :
      (look : Json → Option (Option Fields)) (entry : Fields) (candidates : List Json)
      → ((candidate : Json) → look candidate ≡ some (some entry) → Matched candidate entry)
      → first_found look candidates ≡ some (some entry)
      → Some (λ c. Matched c entry) candidates
  unfolding first_found
  first_found-Some look entry [] f h = absurd (cc)
  first_found-Some look entry (c ∷ candidates) f h =
      or_find_cases (λ e. Some (λ c. Matched c entry) (c ∷ candidates)) (look c) _ entry h
        (λ e. (c, record { before = []; after = candidates; split = refl }, f c e))
        (λ e. let (d, m, t) = first_found-Some look entry candidates f e in (d, IsIn-cons c m, t))

  -- The entry that is found is one of the models, and answers to the model or to its label, which
  -- is neither missing nor empty.
  pub match_model-Matched :
      (model model_label : Json) (entry : Fields)
      → match_model py models model model_label ≡ some (some entry)
      → Some (λ c. Matched c entry) (keep py model (keep py model_label []))
  unfolding match_model
  match_model-Matched model model_label entry h =
      let candidates = keep py model (keep py model_label []) in
      or_find_cases (λ e. Some (λ c. Matched c entry) candidates)
        (first_found (find_candidate py models) candidates) _ entry h
        (λ e.
          first_found-Some (find_candidate py models) entry candidates
            (λ c. find_candidate-Matched c entry) e)
        (λ e.
          first_found-Some (find_name py models) entry candidates (λ c. find_name-Matched c entry)
            e)

-- A loaded instance decides: the first entry with an instance whose id is the model is found,
-- whatever keys, variants and names the other entries have, and whatever the label is.
pub match_model_loaded :
    (py : Python) (before after : List Fields) (entry : Fields) (model model_label : Json)
    → truthy py model ≡ true
    → All (λ g. by_instance py model g ≡ some false) before
    → by_instance py model entry ≡ some true
    → match_model py (before ++ entry ∷ after) model model_label ≡ some (some entry)
unfolding match_model first_found find_candidate
match_model_loaded py before after entry model model_label present others loaded =
    rw (present, find-first (by_instance py model) before entry after others loaded, or_find) refl
