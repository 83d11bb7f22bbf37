-- ===== src/Scripts/ModelSize/Fetches.antt =====
-- Which servers the script asks.
use csharp_llm_benchmark.Prelude.{
  IsDistinct, ℕ, ◌≡◌, refl, ap, Option, none, some, List, [], ◌∷◌, ◌++◌, map, select, mem, All,
  arith, true, false, Option-cases, inl, inr,
}
use csharp_llm_benchmark.Prelude.Text.{Text, codes, text_eq}
use csharp_llm_benchmark.Json.Fields.{Json, Fields}
use csharp_llm_benchmark.Json.Python.{Python}
use csharp_llm_benchmark.LmStudio.Server.{derive_base_root, is_local_server}
use csharp_llm_benchmark.LmStudio.Meta.{fetch_models}
use csharp_llm_benchmark.Scripts.ModelSize.Requests.{address, visit-keeps}
use csharp_llm_benchmark.Scripts.Files.{JsonText, RunDir}
use csharp_llm_benchmark.Scripts.ModelSize.{
  Arguments, Library, Visit, passed_over, skipped, matched, failed, Report, lookup, models_for,
  visit, migrated_after, skips_after, after_visit, visit_all, no_library, main,
}

abbrev pub roots : List (Text × List Fields) → List Text
roots models_by_root = map (λ (root, _). root) models_by_root

lookup-none :
    (root : Text) (d : List (Text × List Fields))
    → lookup root d ≡ none
    → mem root (roots d) ≡ false
lookup-none root [] h = refl
lookup-none root ((r, models) ∷ d) h = ground (arith, lookup-none root d)

module _ (py : Python) {File : Type 0} (json : JsonText File)
    (respond : List Text → Text → Option Json) (args : Arguments) where
  -- The cached roots are distinct and local, and one request was made for each of them.
  pub record IsSound (library : Library) : Type 0 where
    pub local : All (λ root. is_local_server py root ≡ some true) (roots library.models_by_root)
    pub distinct : IsDistinct (roots library.models_by_root)
    pub asked : library.fetched ≡ map address (roots library.models_by_root)

  models_for-IsSound :
      (root : Text) (library : Library)
      → is_local_server py root ≡ some true
      → IsSound library
      → IsSound (models_for respond root library).1
  unfolding models_for fetch_models
  models_for-IsSound root library h s = elim (Option-cases (lookup root library.models_by_root)) [
    | inr (models, e) ↦ rw (e, models_for) s
    | inl e ↦
        rw (e, models_for)
          (record {
            local = (h, s.local);
            distinct = (lookup-none root library.models_by_root e, s.distinct);
            asked = ap (λ (l : List Text). address root ∷ l) s.asked;
          })
  ]

  visit_all-IsSound :
      (runs : List (RunDir File)) (library : Library) (migrated skips : ℕ)
      → IsSound library
      → IsSound (visit_all py json respond args runs library migrated skips).library
  unfolding visit_all
  visit_all-IsSound [] library migrated skips s = s
  visit_all-IsSound (run ∷ runs) library migrated skips s =
      let (v, library') = visit py json respond args run library in
      let s' = visit-keeps py json respond args IsSound models_for-IsSound run library s in
      go v s' _
        (visit_all-IsSound runs library' (migrated_after v migrated) (skips_after v skips) s')
    where
      go :
          (v : Visit File) {l : Library}
          → IsSound l
          → (rest : Report File) → IsSound rest.library
          → IsSound (after_visit py json respond args run runs v l migrated skips rest).library
      go passed_over s rest r = r
      go (skipped lines) s rest r = r
      go (matched line file) s rest r = r
      go (failed lines) s rest r = s

  -- However the servers answer, and also where an exception ends the script, the addresses that it
  -- asks are those of the models under some roots, one request for each root; these roots are
  -- distinct, and each counts as a local server.
  pub main_fetches :
      (sorted : List (RunDir File) → List (RunDir File)) (results : Option (List (RunDir File)))
      → (asked_roots : List Text) × ((main py json respond args sorted results).library.fetched
          ≡ map (λ root. derive_base_root root ++ codes "/api/v1/models") asked_roots)
        × IsDistinct asked_roots
        × All (λ root. is_local_server py root ≡ some true) asked_roots
  unfolding main
  main_fetches sorted none = ([], refl, tt, tt)
  main_fetches sorted (some runs) =
      let s =
        visit_all-IsSound (sorted (select (λ (r : RunDir File). r.is_dir) runs)) no_library 0 0
          (record { local = tt; distinct = tt; asked = refl }) in
      (_, s.asked, s.distinct, s.local)
