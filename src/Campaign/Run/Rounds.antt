-- ===== src/Campaign/Run/Rounds.antt =====
-- What one round of the loop over the pairs comes to.
use csharp_llm_benchmark.Prelude.{
  ◌≡◌, ap, ◌∙◌, String, Option, none, some, List, [], ◌∷◌, ◌++◌, true, false, ◌==◌, string_eq, inl,
  inr,
}
use csharp_llm_benchmark.Prelude.Numbers.{Numbers}
use csharp_llm_benchmark.Tasks.Model.{keys}
use csharp_llm_benchmark.Campaign.Model.{pair_key}
use csharp_llm_benchmark.Campaign.Pairs.{is_valid}
use csharp_llm_benchmark.Campaign.Run.{
  Executor, CampaignState, Tried, on_to, with_campaign, with_result, after_failed, fail,
  settle_pair,
}
use csharp_llm_benchmark.Campaign.Run.Updates.{head, pair_at, HasStatus, IsSaved, update_pair_ends}
use csharp_llm_benchmark.Campaign.Run.Tries.{
  IsKept, IsKept-refl, IsKept-trans, update-IsKept, TryEnds,
}

module _ {N Settings Score : Type 0} (num : Numbers N) (executor : Executor N Score)
    (key : String × String) where
  -- A result says what its pair has come to: completed, with a valid summary, or failed.
  abbrev pub IsOutcome : CampaignState N Settings Score → Option Score → Type 0
  IsOutcome s (some score) =
      HasStatus s.campaign (pair_key key) "completed"
      × (is_valid num s.campaign.contents s.summaries key ≡ true)
  IsOutcome s none = HasStatus s.campaign (pair_key key) "failed"

  pub record IsRound (s after : CampaignState N Settings Score) : Type 0 where
    pub same_head : head after.campaign ≡ head s.campaign
    pub others :
        (other : String)
        → (pair_key key == other) ≡ false
        → pair_at after.campaign other ≡ pair_at s.campaign other
    pub files :
        (other : String)
        → (pair_key key == other) ≡ false
        → after.summaries other ≡ s.summaries other
    pub result : Option Score
    pub row : after.results ≡ s.results ++ ((key, result) ∷ [])
    pub outcome : IsOutcome after result
    pub saved : IsSaved s.campaign → IsSaved after.campaign
    pub same_keys : keys after.campaign.contents.pairs ≡ keys s.campaign.contents.pairs

  with_result-IsRound :
      (s t after : CampaignState N Settings Score) (result : Option Score)
      → IsKept s t (pair_key key)
      → IsKept t after (pair_key key)
      → IsOutcome (with_result after key result) result
      → (IsSaved s.campaign → IsSaved after.campaign)
      → IsRound s (with_result after key result)
  with_result-IsRound s t after result a b outcome saved =
      let kept = IsKept-trans s t after (pair_key key) a b in
      record {
        same_head = kept.same_head;
        others = kept.others;
        files = kept.files;
        result = result;
        row =
            ap (λ (l : List ((String × String) × Option Score)). l ++ ((key, result) ∷ []))
              kept.results;
        outcome = outcome;
        saved = saved;
        same_keys = kept.same_keys;
      }

  pub settle_pair_ends :
      (s : CampaignState N Settings Score) (t : Tried N Settings Score)
      → TryEnds num executor key s t
      → (after : CampaignState N Settings Score) × (settle_pair num executor key t ≡ on_to after)
        × IsRound s after
  unfolding settle_pair fail
  settle_pair_ends s t (inl (after, score, e, kept, status, ok, saved)) = (
    with_result after key (some score),
    ap (settle_pair num executor key) e,
    with_result-IsRound s after after (some score) kept
        (IsKept-refl after (pair_key key) kept.present) (status, ok) saved,
  )
  settle_pair_ends s t (inr (after, e, kept)) =
      let (p, there) = kept.present in
      elim (update_pair_ends num after.summaries after.campaign key "failed"
        (some (executor.message key)) p there) [
          | inr (c, is, u, h) ↦ absurd (cc)
          | inl (c, is, u, saved, ok) ↦ (
            with_result (with_campaign after c) key none,
            ap (settle_pair num executor key) e ∙ ap (after_failed (with_result after key none)) is,
            with_result-IsRound s after (with_campaign after c) none kept
                (update-IsKept after c (pair_key key) "failed" u) u.found (λ h. saved),
          )
        ]
