-- ===== src/Campaign/Run/Settled.antt =====
-- The loop over the pairs settles each of them.
use csharp_llm_benchmark.Prelude.{
  ℕ, ◌≡◌, refl, sym, ap, ◌∙◌, String, Option, none, some, List, [], ◌∷◌, ◌++◌, append_assoc,
  append-nil, map, mem, any, arith, false, ◌&&◌, ◌==◌, string_eq, differ_sym, All, IsDistinct,
  if◌then◌else◌,
}
use csharp_llm_benchmark.Prelude.Numbers.{Numbers}
use csharp_llm_benchmark.Tasks.Model.{keys}
use csharp_llm_benchmark.Campaign.Model.{PairState, pair_key}
use csharp_llm_benchmark.Campaign.Pairs.{Campaign, is_supported, passes}
use csharp_llm_benchmark.Campaign.Run.{
  Executor, CampaignState, on_to, stopped, exited, escaped, is_failure, try_pair, settle_pair,
  run_pairs,
}
use csharp_llm_benchmark.Campaign.Run.Updates.{head, pair_at, IsSaved, is_valid-head}
use csharp_llm_benchmark.Campaign.Run.Rounds.{IsOutcome, IsRound, settle_pair_ends}
use csharp_llm_benchmark.Campaign.Run.Tries.{try_pair_ends}

abbrev pub HasPair : {N Settings : Type 0} → Campaign N Settings → String × String → Type 0
HasPair c key = (p : PairState) × (pair_at c (pair_key key) ≡ some p)

abbrev pub key_list : List (String × String) → List String
key_list pairs = map pair_key pairs

abbrev pub result_keys :
    {Score : Type 0} → List ((String × String) × Option Score) → List (String × String)
result_keys rows = map (λ (key, score). key) rows

abbrev pub exit_code : {N Settings Score : Type 0} → CampaignState N Settings Score → ℕ
exit_code s = if any is_failure s.results then 1 else 0

module _ {N Settings Score : Type 0} (num : Numbers N) (executor : Executor N Score) where
  -- A pair that no round touches keeps its outcome.
  IsOutcome-kept :
      (s after : CampaignState N Settings Score) (key : String × String) (result : Option Score)
      → head after.campaign ≡ head s.campaign
      → pair_at after.campaign (pair_key key) ≡ pair_at s.campaign (pair_key key)
      → after.summaries (pair_key key) ≡ s.summaries (pair_key key)
      → IsOutcome num executor key s result
      → IsOutcome num executor key after result
  IsOutcome-kept s after key (some score) h pair file ((p, e, is), ok) = (
    (p, pair ∙ e, is),
    is_valid-head num s.campaign after.campaign after.summaries key h
        ∙ ap (λ f. is_supported key && passes num s.campaign.contents key f) file
        ∙ ok,
  )
  IsOutcome-kept s after key none h pair file (p, e, is) = (p, pair ∙ e, is)

  has_others :
      (s mid : CampaignState N Settings Score) (key : String) (pairs : List (String × String))
      → mem key (key_list pairs) ≡ false
      → ((other : String)
          → (key == other) ≡ false
          → pair_at mid.campaign other ≡ pair_at s.campaign other)
      → All (HasPair s.campaign) pairs
      → All (HasPair mid.campaign) pairs
  has_others s mid key [] new others h = tt
  has_others s mid key (k ∷ pairs) new others ((p, e), h) =
      let apart : (key == pair_key k) ≡ false = differ_sym (pair_key k) key (ground (arith, new)) in
      (
        (p, others (pair_key k) apart ∙ e),
        has_others s mid key pairs (ground (arith, new)) others h,
      )

  -- What the loop leaves: the results of the pairs, each with its outcome.
  pub record IsRun (s after : CampaignState N Settings Score) (pairs : List (String × String))
      : Type 0 where
    pub rows : List ((String × String) × Option Score)
    pub results : after.results ≡ s.results ++ rows
    pub keys_are : result_keys rows ≡ pairs
    pub outcomes : All (λ r. IsOutcome num executor r.0 after r.1) rows
    pub same_head : head after.campaign ≡ head s.campaign
    pub others :
        (other : String)
        → mem other (key_list pairs) ≡ false
        → pair_at after.campaign other ≡ pair_at s.campaign other
    pub files :
        (other : String)
        → mem other (key_list pairs) ≡ false
        → after.summaries other ≡ s.summaries other
    pub saved : IsSaved s.campaign → IsSaved after.campaign
    pub same_keys : keys after.campaign.contents.pairs ≡ keys s.campaign.contents.pairs

  IsRun-cons :
      (s mid after : CampaignState N Settings Score) (key : String × String)
      (pairs : List (String × String))
      → mem (pair_key key) (key_list pairs) ≡ false
      → IsRound num executor key s mid
      → IsRun mid after pairs
      → IsRun s after (key ∷ pairs)
  IsRun-cons s mid after key pairs new first rest = record {
    rows = (key, first.result) ∷ rest.rows;
    results =
        rest.results
        ∙ ap (λ (l : List ((String × String) × Option Score)). l ++ rest.rows) first.row
        ∙ append_assoc s.results ((key, first.result) ∷ []) rest.rows;
    keys_are = ap (λ (l : List (String × String)). key ∷ l) rest.keys_are;
    outcomes = (
      IsOutcome-kept mid after key first.result rest.same_head (rest.others (pair_key key) new)
          (rest.files (pair_key key) new) first.outcome,
      rest.outcomes,
    );
    same_head = rest.same_head ∙ first.same_head;
    others = λ other out.
        rest.others other (ground (arith, out)) ∙ first.others other (ground (arith, out));
    files = λ other out.
        rest.files other (ground (arith, out)) ∙ first.files other (ground (arith, out));
    saved = λ h. rest.saved (first.saved h);
    same_keys = rest.same_keys ∙ first.same_keys;
  }

  pub run_pairs-IsRun :
      (pairs : List (String × String)) (s : CampaignState N Settings Score)
      → All (HasPair s.campaign) pairs
      → IsDistinct (key_list pairs)
      → (after : CampaignState N Settings Score) × (run_pairs num executor s pairs
          ≡ exited (exit_code after) after)
        × IsRun s after pairs
  unfolding run_pairs
  run_pairs-IsRun [] s has distinct = (
    s,
    refl,
    record {
      rows = [];
      results = sym (append-nil s.results);
      keys_are = refl;
      outcomes = tt;
      same_head = refl;
      others = λ other out. refl;
      files = λ other out. refl;
      saved = λ h. h;
      same_keys = refl;
    },
  )
  run_pairs-IsRun (key ∷ pairs) s ((p, e), has) (new, distinct) =
      let (mid, is, first) =
        settle_pair_ends num executor key s (try_pair num executor s key)
          (try_pair_ends num executor key s p e) in
      let (after, ends, rest) =
        run_pairs-IsRun pairs mid (has_others s mid (pair_key key) pairs new first.others has)
          distinct in
      (after, go mid after is ends, IsRun-cons s mid after key pairs new first rest)
    where
      go :
          (mid after : CampaignState N Settings Score)
          → settle_pair num executor key (try_pair num executor s key) ≡ on_to mid
          → run_pairs num executor mid pairs ≡ exited (exit_code after) after
          → elim (settle_pair num executor key (try_pair num executor s key)) [
            | stopped last ↦ escaped last
            | on_to next ↦ run_pairs num executor next pairs
          ]
            ≡ exited (exit_code after) after
      go mid after is ends = rw is ends
