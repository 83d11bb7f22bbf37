-- ===== src/Scripts/KvCache/Runs.antt =====
-- What the script changes, and that it changes nothing when it is run again.
use csharp_llm_benchmark.Prelude.{
  ℕ, ◌≡◌, refl, ap, ◌∙◌, Option, none, some, List, [], ◌∷◌, arith, Bool, true, false, ◌==◌, nat_eq,
  bind_inv, inl, inr, ◌⊎◌, Bool-cases,
}
use csharp_llm_benchmark.Prelude.Text.{Text, codes, text_eq}
use csharp_llm_benchmark.Json.Fields.{
  Json, null, text, object, end, get_or, Fields, get, put, has, get-put, get-put_other,
}
use csharp_llm_benchmark.Json.Python.{Python, contains}
use csharp_llm_benchmark.Scripts.Files.{
  JsonText, JsonLaws, RunDir, with_summary, put_in_llm, Pointwise, both_end, both,
}
use csharp_llm_benchmark.Scripts.Files.Section.{HasInLlm, put_in_llm_lem, get-has}
use csharp_llm_benchmark.Scripts.KvCache.{
  kv_key, done, Visit, passed_over, rewritten, failed, Report, kv_value, base_url_of, backfill,
  write, backfill_value, after_test, visit_loaded, visit, visit_all, after_visit, count_after,
}

module _ (py : Python) {File : Type 0} (json : JsonText File) where
  abbrev pub IsCloud : Text → Bool → Type 0
  IsCloud base_url b = py.substring (codes "api.openai.com") base_url ≡ b

  base_url_inv :
      (fs : Fields) (url : Text)
      → base_url_of py json fs ≡ some url
      → (llm : Fields) × (get_or (codes "llm") (object end) fs ≡ object llm)
        × (url ≡ py.str (get_or (codes "base_url") (text []) llm))
  base_url_inv fs url h = go (get_or (codes "llm") (object end) fs) h
    where
      go :
          (section : Json)
          → (elim section [
            | object llm ↦ some (py.str (get_or (codes "base_url") (text []) llm))
            | _ ↦ none
          ])
            ≡ some url
          → (llm : Fields) × (section ≡ object llm)
            × (url ≡ py.str (get_or (codes "base_url") (text []) llm))
      go (object llm) h = (llm, refl, cc)
      go _ h = absurd (cc)

  kv_value_inv :
      (url : Text)
      → (IsCloud url true × (kv_value py json url ≡ null))
        ⊎ (IsCloud url false × (kv_value py json url ≡ text (codes "Q4")))
  kv_value_inv url = elim (Bool-cases (py.substring (codes "api.openai.com") url)) [
    | inl e ↦ inl (e, rw e refl)
    | inr e ↦ inr (e, rw e refl)
  ]

  -- An old summary without the key, and the new one.
  pub record IsBackfilled (fs updated : Fields) : Type 0 where
    pub llm : Fields
    pub has_section : get_or (codes "llm") (object end) fs ≡ object llm
    pub value : Json
    pub is_value :
        IsCloud (py.str (get_or (codes "base_url") (text []) llm)) true × (value ≡ null)
        ⊎ IsCloud (py.str (get_or (codes "base_url") (text []) llm)) false
          × (value ≡ text (codes "Q4"))
    pub lacked : has (codes "kv_cache_quantization") fs ≡ false
    pub top : get (codes "kv_cache_quantization") updated ≡ some value
    pub section : HasInLlm (codes "kv_cache_quantization") value updated
    pub others :
        (key : Text)
        → (codes "kv_cache_quantization" == key) ≡ false
        → (codes "llm" == key) ≡ false
        → get key updated ≡ get key fs

  -- A run before and after the script.
  pub data Change (old new : RunDir File) : Type 0 where
    kept : new ≡ old → Change old new
    migrated :
        (file : File) (fs updated : Fields)
        → old.summary ≡ some file
        → json.loads file ≡ some (object fs)
        → IsBackfilled fs updated
        → new ≡ with_summary old (json.dumps (object updated))
        → Change old new

  backfill-IsBackfilled :
      (fs updated : Fields) (value : Json)
      → has kv_key fs ≡ false
      → backfill py json fs ≡ some (value, updated)
      → IsBackfilled fs updated
  unfolding backfill
  backfill-IsBackfilled fs updated value lacks h =
      let (url, e, h1) = bind_inv (base_url_of py json fs) _ _ h in
      let v = kv_value py json url in
      let (u, e2, h2) = bind_inv (put_in_llm kv_key v (put kv_key v fs)) _ _ h1 in
      let same : u ≡ updated = ground arith in
      let (section, outside, keeps) = put_in_llm_lem kv_key v (put kv_key v fs) u e2 in
      let (llm, found, url_of) = base_url_inv fs url e in
      rw (← same) (record {
        llm = llm;
        has_section = found;
        value = v;
        is_value = rw (← url_of) (kv_value_inv url);
        lacked = lacks;
        top = outside kv_key refl ∙ get-put kv_key v fs;
        section = section;
        others = λ key n m. outside key m ∙ get-put_other kv_key key v fs n;
      })

  -- A visit that replaces a summary.
  pub record IsRewrite (before : Option File) (after : File) : Type 0 where
    pub file : File
    pub fs : Fields
    pub updated : Fields
    pub old_file : before ≡ some file
    pub old_fields : json.loads file ≡ some (object fs)
    pub change : IsBackfilled fs updated
    pub new_file : after ≡ json.dumps (object updated)

  write_inv :
      (o : Option (Json × Fields)) (value : Json) (after : File)
      → write py json o ≡ rewritten value after
      → (updated : Fields) × (o ≡ some (value, updated)) × (after ≡ json.dumps (object updated))
  write_inv none value after h = absurd (cc)
  write_inv (some (v, updated)) value after h = (updated, cc, cc)

  backfill_value_inv :
      (loaded value : Json) (after : File)
      → backfill_value py json loaded ≡ rewritten value after
      → (fs : Fields) × (loaded ≡ object fs)
        × (write py json (backfill py json fs) ≡ rewritten value after)
  backfill_value_inv (object fs) value after h = (fs, refl, h)
  backfill_value_inv _ value after h = absurd (cc)

  after_test_inv :
      (test : Option Bool) (loaded value : Json) (after : File)
      → after_test py json test loaded ≡ rewritten value after
      → (test ≡ some false) × (backfill_value py json loaded ≡ rewritten value after)
  after_test_inv none loaded value after h = absurd (cc)
  after_test_inv (some true) loaded value after h = absurd (cc)
  after_test_inv (some false) loaded value after h = (refl, h)

  visit_loaded-IsRewrite :
      (file after : File) (value : Json) (o : Option Json)
      → json.loads file ≡ o
      → visit_loaded py json o ≡ rewritten value after
      → IsRewrite (some file) after
  visit_loaded-IsRewrite file after value none e h = absurd (cc)
  visit_loaded-IsRewrite file after value (some loaded) e h =
      let (lacks, h1) = after_test_inv (contains py loaded (text kv_key)) loaded value after h in
      let (fs, object_of, h2) = backfill_value_inv loaded value after h1 in
      let (updated, finished, new_file) = write_inv (backfill py json fs) value after h2 in
      let lacks' : has kv_key fs ≡ false = some_inj (rw object_of at lacks) in
      record {
        file = file;
        fs = fs;
        updated = updated;
        old_file = refl;
        old_fields = e ∙ ap some object_of;
        change = backfill-IsBackfilled fs updated value lacks' finished;
        new_file = new_file;
      }
    where
      some_inj : {b c : Bool} → some b ≡ some c → b ≡ c
      some_inj h = cc

  visit-IsRewrite :
      (summary : Option File) (value : Json) (after : File)
      → visit py json summary ≡ rewritten value after
      → IsRewrite summary after
  unfolding visit
  visit-IsRewrite none value after h = absurd (cc)
  visit-IsRewrite (some file) value after h =
      visit_loaded-IsRewrite file after value (json.loads file) refl h

  all_kept : (runs : List (RunDir File)) → Pointwise Change runs runs
  all_kept [] = both_end
  all_kept (run ∷ runs) = both (kept refl) (all_kept runs)

  -- Whatever happens to a run, an exception included, each run is kept as it was, or had a summary
  -- without the key "kv_cache_quantization", which now has it at the top and in its section "llm":
  -- null if the "base_url" of its section has "api.openai.com" in it, and "Q4" if not. All other
  -- keys at the top keep their values, but for the section.
  pub visit_all-Change :
      (runs : List (RunDir File)) (count : ℕ)
      → Pointwise Change runs (visit_all py json runs count).runs
  unfolding visit_all
  visit_all-Change [] count = both_end
  visit_all-Change (run ∷ runs) count =
      go (visit py json run.summary)
        (visit_all py json runs (count_after py json (visit py json run.summary) count)) refl
        (visit_all-Change runs (count_after py json (visit py json run.summary) count))
    where
      go :
          (v : Visit File) (rest : Report File)
          → visit py json run.summary ≡ v
          → Pointwise Change runs rest.runs
          → Pointwise Change (run ∷ runs) (after_visit py json run runs count v rest).runs
      go passed_over rest e p = both (kept refl) p
      go (rewritten value file) rest e p =
          let r = visit-IsRewrite run.summary value file e in
          both
            (migrated r.file r.fs r.updated r.old_file r.old_fields r.change
              (ap (with_summary run) r.new_file))
            p
      go failed rest e p = all_kept (run ∷ runs)

  module _ (laws : JsonLaws json) where
    -- A summary that was written is passed over.
    visit_again :
        (summary : Option File) (after : File)
        → IsRewrite summary after
        → visit py json (some after) ≡ passed_over
    unfolding visit
    visit_again summary after r =
        let (back, e, keys) = laws.loads-dumps r.updated in
        let present : has kv_key back ≡ true =
          keys kv_key ∙ get-has kv_key _ r.updated r.change.top in
        rw (r.new_file, e, present) refl

    -- If no exception ended the script, then running it again, whatever count it starts from,
    -- writes nothing: it raises nothing, leaves each run as it is, and prints only its last line.
    pub visit_all_twice :
        (runs : List (RunDir File)) (count again : ℕ)
        → (visit_all py json runs count).raised ≡ false
        → visit_all py json (visit_all py json runs count).runs again ≡ record {
          runs = (visit_all py json runs count).runs;
          lines = done again ∷ [];
          migrated = again;
          raised = false;
        }
    unfolding visit_all
    visit_all_twice [] count again h = refl
    visit_all_twice (run ∷ runs) count again h =
        go (visit py json run.summary)
          (visit_all py json runs (count_after py json (visit py json run.summary) count)) refl h
          (visit_all_twice runs (count_after py json (visit py json run.summary) count) again)
      where
        go :
            (v : Visit File) (rest : Report File)
            → visit py json run.summary ≡ v
            → (after_visit py json run runs count v rest).raised ≡ false
            → (rest.raised ≡ false
                → visit_all py json rest.runs again ≡ record {
                  runs = rest.runs;
                  lines = done again ∷ [];
                  migrated = again;
                  raised = false;
                })
            → visit_all py json (after_visit py json run runs count v rest).runs again ≡ record {
              runs = (after_visit py json run runs count v rest).runs;
              lines = done again ∷ [];
              migrated = again;
              raised = false;
            }
        go passed_over rest e h next = rw e (rw (next h) refl)
        go (rewritten value file) rest e h next =
            rw (visit_again run.summary file (visit-IsRewrite run.summary value file e))
              (rw (next h) refl)
        go failed rest e h next = absurd (cc)
