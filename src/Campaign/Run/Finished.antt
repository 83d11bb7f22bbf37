-- ===== src/Campaign/Run/Finished.antt =====
-- A campaign that is created or resumed is run to its end, and its file says what came of it.
use mathlib.Core.Path.{subst}
use csharp_llm_benchmark.Prelude.{
  ℕ, ◌≡◌, refl, sym, ap, ◌∙◌, ◌↔◌, String, Option, none, some, List, [], ◌∷◌, mem, any, all, arith,
  Bool, true, false, ◌==◌, string_eq, Bool-cases, inl, inr, All, IsDistinct, if◌then◌else◌,
}
use csharp_llm_benchmark.Prelude.Numbers.{Numbers}
use csharp_llm_benchmark.Tasks.Model.{Dict, keys, values}
use csharp_llm_benchmark.Campaign.Model.{PairState, pair_key}
use csharp_llm_benchmark.Campaign.Validate.{at_key, same_text}
use csharp_llm_benchmark.Campaign.Validate.Points.{mem-at_key}
use csharp_llm_benchmark.Campaign.Pairs.{Campaign, Summaries, is_completed, status_of}
use csharp_llm_benchmark.Campaign.Run.{Executor, CampaignState, exited, is_failure, run_pairs}
use csharp_llm_benchmark.Campaign.Run.Updates.{pair_at, IsSaved}
use csharp_llm_benchmark.Campaign.Run.Rounds.{IsOutcome}
use csharp_llm_benchmark.Campaign.Run.Settled.{
  HasPair, key_list, result_keys, exit_code, run_pairs-IsRun,
}

-- Whether all pairs are completed, by their keys.
all_completed_at :
    (d : Dict PairState) (key : String) (p : PairState)
    → all is_completed (values d) ≡ true
    → at_key key d ≡ some p
    → is_completed p ≡ true
all_completed_at [] key p h e = absurd (cc)
all_completed_at ((k, v) ∷ rest) key p h e = elim (Bool-cases (k == key)) [
  | inl here ↦
      let same : some v ≡ some p = (rw here at e) in
      let v_p : v ≡ p = ground (arith, same) in
      subst (λ q. is_completed q ≡ true) v_p (ground (arith, h))
  | inr other ↦ all_completed_at rest key p (ground (arith, h)) (rw other at e)
]

completed_all :
    (d : Dict PairState)
    → IsDistinct (keys d)
    → ((key : String)
        → mem key (keys d) ≡ true
        → (p : PairState) × (at_key key d ≡ some p) × (is_completed p ≡ true))
    → all is_completed (values d) ≡ true
completed_all [] distinct h = refl
completed_all ((k, v) ∷ rest) (new, distinct) h =
    let self : (k == k) ≡ true = (string_eq.beq_iff k k).1 refl in
    let (p, e, is) = h k (ground (arith, self)) in
    let same : some v ≡ some p = (rw self at e) in
    let v_p : p ≡ v = ground (arith, same) in
    let first : is_completed v ≡ true = subst (λ q. is_completed q ≡ true) v_p is in
    let others =
      completed_all rest distinct (λ key there. go key there (h key (ground (arith, there)))) in
    ground (arith, first, others)
  where
    go :
        (key : String)
        → mem key (keys rest) ≡ true
        → (p : PairState) × (at_key key ((k, v) ∷ rest) ≡ some p) × (is_completed p ≡ true)
        → (p : PairState) × (at_key key rest ≡ some p) × (is_completed p ≡ true)
    go key there (p, e, is) = elim (Bool-cases (k == key)) [
      | inl here ↦
          let moved : mem k (keys rest) ≡ true =
            subst (λ z. mem z (keys rest) ≡ true) (sym ((string_eq.beq_iff k key).0 here)) there in
          absurd (ground (arith, moved, new))
      | inr other ↦ (p, rw other at e, is)
    ]

code_zero : (b : Bool) → ◌≡◌ {A = ℕ} (if b then 1 else 0) 0 → b ≡ false
code_zero false h = refl
code_zero true h = absurd (omega (arith, h))

abbrev pub started :
    {N Settings Score : Type 0} → Campaign N Settings → Summaries N → CampaignState N Settings Score
started c summaries = record { campaign = c; summaries = summaries; results = [] }

module _ {N Settings Score : Type 0} (num : Numbers N) (executor : Executor N Score) where
  -- The results are all scores if and only if all pairs are completed.
  scores_completed :
      (s : CampaignState N Settings Score) (rows : List ((String × String) × Option Score))
      → All (λ r. IsOutcome num executor r.0 s r.1) rows
      → any is_failure rows ≡ false
      → (key : String) → mem key (key_list (result_keys rows)) ≡ true
      → (p : PairState) × (pair_at s.campaign key ≡ some p) × (is_completed p ≡ true)
  scores_completed s [] h none_missing key there = absurd (cc)
  scores_completed s ((k, none) ∷ rows) h none_missing key there = absurd (cc)
  scores_completed s ((k, some score) ∷ rows) (((p, e, is), ok), h) none_missing key there =
      elim (Bool-cases (pair_key k == key)) [
        | inl here ↦ (
          p,
          subst (λ z. pair_at s.campaign z ≡ some p) ((string_eq.beq_iff _ _).0 here) e,
          (string_eq.beq_iff _ _).1 is,
        )
        | inr other ↦ scores_completed s rows h none_missing key (ground (arith, there, other))
      ]

  completed_scores :
      (s : CampaignState N Settings Score) (rows : List ((String × String) × Option Score))
      → All (λ r. IsOutcome num executor r.0 s r.1) rows
      → all is_completed (values s.campaign.contents.pairs) ≡ true
      → any is_failure rows ≡ false
  completed_scores s [] h done = refl
  completed_scores s ((k, some score) ∷ rows) (first, h) done = completed_scores s rows h done
  completed_scores s ((k, none) ∷ rows) ((p, e, is), h) done =
      let yes_it_is : is_completed p ≡ true =
        all_completed_at s.campaign.contents.pairs (pair_key k) p done e in
      let not_it : same_text "failed" "completed" ≡ true =
        subst (λ t. same_text t "completed" ≡ true) is yes_it_is in
      absurd (cc)

  -- The loop ends without an exception; each pair has a result, which says whether the pair is
  -- completed, with a valid summary, or failed; the file is up to date, and says "completed" if
  -- and only if the exit code is 0.
  abbrev pub Finishes : Campaign N Settings → Summaries N → List (String × String) → Type 0
  Finishes c summaries pairs =
      (after : CampaignState N Settings Score) × (run_pairs num executor (started c summaries) pairs
        ≡ exited (exit_code after) after)
      × (result_keys after.results ≡ pairs)
      × All (λ r. IsOutcome num executor r.0 after r.1) after.results
      × (after.campaign.saved ≡ some after.campaign.contents)
      × ((exit_code after ≡ 0) ↔ (after.campaign.contents.status ≡ "completed"))

  code_iff :
      (s : CampaignState N Settings Score)
      → All (λ r. IsOutcome num executor r.0 s r.1) s.results
      → s.campaign.contents.status ≡ status_of s.campaign.contents.pairs
      → IsDistinct (keys s.campaign.contents.pairs)
      → ((key : String)
          → mem key (keys s.campaign.contents.pairs) ≡ true
          → mem key (key_list (result_keys s.results)) ≡ true)
      → (exit_code s ≡ 0) ↔ (s.campaign.contents.status ≡ "completed")
  code_iff s outcomes status distinct inside = (
    λ code.
        status
        ∙ of_all (
            completed_all s.campaign.contents.pairs distinct (λ key there.
              scores_completed s s.results outcomes (code_zero (any is_failure s.results) code) key
                (inside key there))),
    λ is.
        let none_missing =
          completed_scores s s.results outcomes
            (to_all (all is_completed (values s.campaign.contents.pairs)) (sym status ∙ is)) in
        rw none_missing refl,
  )
    where
      of_all :
          all is_completed (values s.campaign.contents.pairs) ≡ true
          → status_of s.campaign.contents.pairs ≡ "completed"
      of_all h = rw h refl

      to_all :
          (b : Bool)
          → ◌≡◌ {A = String} (if b then "completed" else "incomplete") "completed"
          → b ≡ true
      to_all true h = refl
      to_all false h =
          let t : same_text "incomplete" "completed" ≡ true = (string_eq.beq_iff _ _).1 h in
          absurd (cc)

  pub finishes :
      (c : Campaign N Settings) (summaries : Summaries N) (pairs : List (String × String))
      → IsSaved c
      → IsDistinct (keys c.contents.pairs)
      → IsDistinct (key_list pairs)
      → ((key : String) → mem key (keys c.contents.pairs) ≡ mem key (key_list pairs))
      → Finishes c summaries pairs
  finishes c summaries pairs is_saved distinct different same =
      let (after, ends, run) =
        run_pairs-IsRun num executor pairs (started c summaries)
          (has pairs (λ key there. same key ∙ there)) different in
      let outcomes =
        subst (All (λ r. IsOutcome num executor r.0 after r.1)) (sym run.results) run.outcomes in
      let listed : result_keys after.results ≡ pairs = ap result_keys run.results ∙ run.keys_are in
      let (file, status) = run.saved is_saved in
      (
        after,
        ends,
        listed,
        outcomes,
        file,
        code_iff after outcomes status (subst IsDistinct (sym run.same_keys) distinct) (λ key there.
            subst (λ l. mem key (key_list l) ≡ true) (sym listed)
              (sym (same key) ∙ ap (mem key) (sym run.same_keys) ∙ there)),
      )
    where
      has :
          (l : List (String × String))
          → ((key : String) → mem key (key_list l) ≡ true → mem key (keys c.contents.pairs) ≡ true)
          → All (HasPair c) l
      has [] inside = tt
      has (k ∷ l) inside = (
        mem-at_key (pair_key k) c.contents.pairs (
            inside (pair_key k) (
              let self : (pair_key k == pair_key k) ≡ true = (string_eq.beq_iff _ _).1 refl in
              ground (arith, self))),
        has l (λ key there. inside key (ground (arith, there))),
      )
