-- ===== src/Campaign/Run/Tries.antt =====
-- What the `try` body of a round of the loop over the pairs comes to.
use mathlib.Core.Path.{subst}
use csharp_llm_benchmark.Prelude.{
  ◌≡◌, refl, sym, ap, ◌∙◌, String, Option, none, some, Bool, true, false, ◌==◌, string_eq,
  differ_sym, ◌⊎◌, inl, inr,
}
use csharp_llm_benchmark.Prelude.Numbers.{Numbers}
use csharp_llm_benchmark.Tasks.Model.{keys}
use csharp_llm_benchmark.Campaign.Model.{PairState, PairSummary, pair_key}
use csharp_llm_benchmark.Campaign.Pairs.{Campaign, is_valid, update_pair, completed}
use csharp_llm_benchmark.Campaign.Run.{
  Executed, Executor, CampaignState, Tried, scored, threw, put_summary, with_campaign,
  after_completed, after_execute, after_running, after_load, after_check, try_pair,
}
use csharp_llm_benchmark.Campaign.Run.Updates.{
  head, pair_at, HasStatus, IsSaved, IsUpdated, update_pair_ends, completed-true,
}

module _ {N Settings Score : Type 0} where
  -- Nothing but the pair of this key has changed, and its summary.
  pub record IsKept (s after : CampaignState N Settings Score) (key : String) : Type 0 where
    pub same_head : head after.campaign ≡ head s.campaign
    pub present : (p : PairState) × (pair_at after.campaign key ≡ some p)
    pub others :
        (other : String)
        → (key == other) ≡ false
        → pair_at after.campaign other ≡ pair_at s.campaign other
    pub files :
        (other : String) → (key == other) ≡ false → after.summaries other ≡ s.summaries other
    pub results : after.results ≡ s.results
    pub same_keys : keys after.campaign.contents.pairs ≡ keys s.campaign.contents.pairs

  pub IsKept-refl :
      (s : CampaignState N Settings Score) (key : String)
      → (p : PairState) × (pair_at s.campaign key ≡ some p)
      → IsKept s s key
  IsKept-refl s key present = record {
    same_head = refl;
    present = present;
    others = λ other h. refl;
    files = λ other h. refl;
    results = refl;
    same_keys = refl;
  }

  pub IsKept-trans :
      (s t u : CampaignState N Settings Score) (key : String)
      → IsKept s t key
      → IsKept t u key
      → IsKept s u key
  IsKept-trans s t u key a b = record {
    same_head = b.same_head ∙ a.same_head;
    present = b.present;
    others = λ other h. b.others other h ∙ a.others other h;
    files = λ other h. b.files other h ∙ a.files other h;
    results = b.results ∙ a.results;
    same_keys = b.same_keys ∙ a.same_keys;
  }

  pub update-IsKept :
      (s : CampaignState N Settings Score) (after : Campaign N Settings) (key status : String)
      → IsUpdated s.campaign after key status
      → IsKept s (with_campaign s after) key
  update-IsKept s after key status u = record {
    same_head = u.same_head;
    present = let (p, e, is) = u.found in (p, e);
    others = u.others;
    files = λ other h. refl;
    results = refl;
    same_keys = u.same_keys;
  }

  put_summary-IsKept :
      (s : CampaignState N Settings Score) (key : String) (summary : Option (PairSummary N))
      → (p : PairState) × (pair_at s.campaign key ≡ some p)
      → IsKept s (record s { summaries = put_summary key summary s.summaries }) key
  put_summary-IsKept s key summary present = record {
    same_head = refl;
    present = present;
    others = λ other h. refl;
    files = λ other h. rw (differ_sym key other h) refl;
    results = refl;
    same_keys = refl;
  }

module _ {N Settings Score : Type 0} (num : Numbers N) (executor : Executor N Score)
    (key : String × String) where
  -- How the body of a round ends: with a score and a valid completed pair, or with an exception.
  abbrev pub TryEnds : CampaignState N Settings Score → Tried N Settings Score → Type 0
  TryEnds s t =
      ((after : CampaignState N Settings Score) × (score : Score) × (t ≡ scored after score)
        × IsKept s after (pair_key key)
        × HasStatus after.campaign (pair_key key) "completed"
        × (is_valid num after.campaign.contents after.summaries key ≡ true)
        × (IsSaved s.campaign → IsSaved after.campaign))
      ⊎ ((after : CampaignState N Settings Score) × (t ≡ threw after)
          × IsKept s after (pair_key key))

  later :
      (s t : CampaignState N Settings Score) (tried : Tried N Settings Score)
      → IsKept s t (pair_key key)
      → (IsSaved s.campaign → IsSaved t.campaign)
      → TryEnds t tried
      → TryEnds s tried
  later s t tried k saved (inl (after, score, e, kept, status, ok, keeps)) = inl (
    after,
    score,
    e,
    IsKept-trans s t after (pair_key key) k kept,
    status,
    ok,
    λ h. keeps (saved h),
  )
  later s t tried k saved (inr (after, e, kept)) =
      inr (after, e, IsKept-trans s t after (pair_key key) k kept)

  after_execute_ends :
      (s : CampaignState N Settings Score) (score : Option Score)
      → (p : PairState) × (pair_at s.campaign (pair_key key) ≡ some p)
      → TryEnds s (after_execute num executor s key score)
  unfolding after_execute
  after_execute_ends s none (p, e) = inr (s, refl, IsKept-refl s (pair_key key) (p, e))
  after_execute_ends s (some score) (p, e) =
      elim (update_pair_ends num s.summaries s.campaign key "completed" none p e) [
        | inl (after, is, u, saved, ok) ↦ inl (
          with_campaign s after,
          score,
          ap (after_completed s score) is,
          update-IsKept s after (pair_key key) "completed" u,
          u.found,
          ok refl,
          λ h. saved,
        )
        | inr (after, is, u, h) ↦ inr (
          with_campaign s after,
          ap (after_completed s score) is,
          update-IsKept s after (pair_key key) "completed" u,
        )
      ]

  after_running_ends :
      (s : CampaignState N Settings Score) (p : PairState)
      → pair_at s.campaign (pair_key key) ≡ some p
      → TryEnds s (
          after_running num executor s key
            (update_pair num s.summaries s.campaign key "running" none))
  unfolding after_running
  after_running_ends s p e =
      elim (update_pair_ends num s.summaries s.campaign key "running" none p e) [
        | inr (after, is, u, h) ↦ absurd (cc)
        | inl (after, is, u, saved, ok) ↦
            subst (λ r. TryEnds s (after_running num executor s key r)) (sym is)
              (later s (started after)
                (after_execute num executor (started after) key executed.score)
                (IsKept-trans s (with_campaign s after) (started after) (pair_key key)
                  (update-IsKept s after (pair_key key) "running" u)
                  (put_summary-IsKept (with_campaign s after) (pair_key key) executed.summary
                    (there after u.found)))
                (λ h. saved)
                (after_execute_ends (started after) executed.score (there after u.found)))
      ]
    where
      executed : Executed N Score
      executed = executor.execute s.summaries key

      started : Campaign N Settings → CampaignState N Settings Score
      started after = record s {
        campaign = after;
        summaries = put_summary (pair_key key) executed.summary s.summaries;
      }

      there :
          (after : Campaign N Settings)
          → HasStatus after (pair_key key) "running"
          → (q : PairState) × (pair_at after (pair_key key) ≡ some q)
      there after (q, found, is) = (q, found)

  pub try_pair_ends :
      (s : CampaignState N Settings Score) (p : PairState)
      → pair_at s.campaign (pair_key key) ≡ some p
      → TryEnds s (try_pair num executor s key)
  unfolding try_pair after_check
  try_pair_ends s p e = go (completed num s.summaries s.campaign key) refl
    where
      go :
          (is : Option Bool)
          → completed num s.summaries s.campaign key ≡ is
          → TryEnds s (after_check num executor s key is)
      go none h = inr (s, refl, IsKept-refl s (pair_key key) (p, e))
      go (some false) h = after_running_ends s p e
      go (some true) h =
          reused (executor.load_completed_pair s.summaries key)
            (completed-true num s.summaries s.campaign key h)
        where
          reused :
              (loaded : Option Score)
              → HasStatus s.campaign (pair_key key) "completed"
                × (is_valid num s.campaign.contents s.summaries key ≡ true)
              → TryEnds s (after_load s loaded)
          reused none facts = inr (s, refl, IsKept-refl s (pair_key key) (p, e))
          reused (some score) (status, ok) =
              inl (s, score, refl, IsKept-refl s (pair_key key) (p, e), status, ok, λ h. h)
