-- ===== src/Campaign/Run/Updates.antt =====
-- What `update_pair` and `completed` do to a campaign that has the pair.
use csharp_llm_benchmark.Prelude.{
  ◌≡◌, refl, sym, ap, ◌∙◌, String, Option, none, some, [], arith, Bool, true, false, not, ◌&&◌,
  ◌==◌, bind_inv, string_eq, ◌⊎◌, inl, inr, if◌then◌else◌,
}
use csharp_llm_benchmark.Prelude.Numbers.{Numbers}
use csharp_llm_benchmark.Tasks.Model.{keys}
use csharp_llm_benchmark.Campaign.Model.{PairState, CampaignData, PairSummary, pair_key}
use csharp_llm_benchmark.Campaign.Validate.{at_key, validate_pair_summary, check_discovery}
use csharp_llm_benchmark.Campaign.Validate.Points.{at_key-put_key, keys-put_key}
use csharp_llm_benchmark.Campaign.Pairs.{
  Campaign, PairUpdate, updated, interrupted, Summaries, status_of, save_campaign, is_completed,
  is_supported, is_valid, passes, with_pair, update_pair, update_found, completed,
}

module _ {N Settings : Type 0} where
  -- A campaign without what its pairs have come to.
  abbrev pub head : Campaign N Settings → CampaignData N Settings
  head c = record c.contents { status = ""; pairs = [] }

  abbrev pub pair_at : Campaign N Settings → String → Option PairState
  pair_at c key = at_key key c.contents.pairs

  abbrev pub HasStatus : Campaign N Settings → String → String → Type 0
  HasStatus c key status = (p : PairState) × (pair_at c key ≡ some p) × (p.status ≡ status)

  -- The file is up to date, and says whether all pairs are completed.
  abbrev pub IsSaved : Campaign N Settings → Type 0
  IsSaved c = (c.saved ≡ some c.contents) × (c.contents.status ≡ status_of c.contents.pairs)

  -- Only the pair has changed.
  pub record IsUpdated (c after : Campaign N Settings) (key status : String) : Type 0 where
    pub same_head : head after ≡ head c
    pub found : HasStatus after key status
    pub others : (other : String) → (key == other) ≡ false → pair_at after other ≡ pair_at c other
    pub same_keys : keys after.contents.pairs ≡ keys c.contents.pairs

module _ {N Settings : Type 0} (num : Numbers N) where
  passes-head :
      (c : Campaign N Settings) (key : String × String) (found : Option (PairSummary N))
      → passes num c.contents key found ≡ passes num (head c) key found
  unfolding validate_pair_summary check_discovery
  passes-head c (suite, generator) none = refl
  passes-head c (suite, generator) (some payload) = refl

  -- Whether a summary is valid does not hang on the pairs.
  pub is_valid-head :
      (c after : Campaign N Settings) (summaries : Summaries N) (key : String × String)
      → head after ≡ head c
      → is_valid num after.contents summaries key ≡ is_valid num c.contents summaries key
  is_valid-head c after summaries key h =
      let found = summaries (pair_key key) in
      ap (λ b. is_supported key && b)
        (passes-head after key found
          ∙ ap (λ d. passes num d key found) h
          ∙ sym (passes-head c key found))

  with_pair-IsUpdated :
      (c after : Campaign N Settings) (key status : String) (old pair : PairState)
      → pair_at c key ≡ some old
      → after.contents ≡ with_pair num c.contents key pair
      → pair.status ≡ status
      → IsUpdated c after key status
  with_pair-IsUpdated c after key status old pair there e is = record {
    same_head = ap erased e;
    found = (
      pair,
      ap (λ (d : CampaignData N Settings). at_key key d.pairs) e
          ∙ at_key-put_key key key pair c.contents.pairs
          ∙ itself,
      is,
    );
    others = λ other apart.
        ap (λ (d : CampaignData N Settings). at_key other d.pairs) e
        ∙ at_key-put_key key other pair c.contents.pairs
        ∙ elsewhere other apart;
    same_keys =
        ap (λ (d : CampaignData N Settings). keys d.pairs) e
        ∙ keys-put_key key pair old c.contents.pairs there;
  }
    where
      erased : CampaignData N Settings → CampaignData N Settings
      erased d = record d { status = ""; pairs = [] }

      itself : (if key == key then some pair else at_key key c.contents.pairs) ≡ some pair
      itself = rw ((string_eq.beq_iff key key).1 refl) refl

      elsewhere :
          (other : String)
          → (key == other) ≡ false
          → (if key == other then some pair else at_key other c.contents.pairs)
            ≡ at_key other c.contents.pairs
      elsewhere other apart = rw apart refl

  -- An update ends with a file that is written, and after "completed" with a valid summary; or
  -- it is interrupted, and then it was one to "completed".
  abbrev pub UpdateEnds :
      Summaries N → Campaign N Settings → String × String → String → PairUpdate N Settings → Type 0
  UpdateEnds summaries c key status result =
      ((after : Campaign N Settings) × (result ≡ updated after)
        × IsUpdated c after (pair_key key) status
        × IsSaved after
        × ((status == "completed") ≡ true → is_valid num after.contents summaries key ≡ true))
      ⊎ ((after : Campaign N Settings) × (result ≡ interrupted after)
          × IsUpdated c after (pair_key key) status
          × ((status == "completed") ≡ true))

  update_found_ends :
      (summaries : Summaries N) (c : Campaign N Settings) (key : String × String) (status : String)
      (error : Option String) (pair : PairState)
      → pair_at c (pair_key key) ≡ some pair
      → UpdateEnds summaries c key status (update_found num summaries c key status error pair)
  update_found_ends summaries c key status error pair there =
      go (status == "completed") (is_valid num now.contents summaries key) refl refl
    where
      changed : PairState
      changed = record pair { status = status; error = error }

      now : Campaign N Settings
      now = record c { contents = with_pair num c.contents (pair_key key) changed }

      is_updated :
          (after : Campaign N Settings)
          → after.contents ≡ now.contents
          → IsUpdated c after (pair_key key) status
      is_updated after e =
          with_pair-IsUpdated c after (pair_key key) status pair changed there e refl

      of_saved : IsUpdated c (save_campaign now) (pair_key key) status
      of_saved = record {
        same_head = refl;
        found = (is_updated now refl).found;
        others = (is_updated now refl).others;
        same_keys = (is_updated now refl).same_keys;
      }

      go :
          (is ok : Bool)
          → (status == "completed") ≡ is
          → is_valid num now.contents summaries key ≡ ok
          → UpdateEnds summaries c key status
              (if is && not ok then interrupted now else updated (save_campaign now))
      go false ok e v =
          inl (save_campaign now, refl, of_saved, (refl, refl), λ h. absurd (ground (arith, e, h)))
      go true false e v = inr (now, refl, is_updated now refl, e)
      go true true e v = inl (
        save_campaign now,
        refl,
        of_saved,
        (refl, refl),
        λ h. is_valid-head now (save_campaign now) summaries key refl ∙ v,
      )

  pub update_pair_ends :
      (summaries : Summaries N) (c : Campaign N Settings) (key : String × String) (status : String)
      (error : Option String) (pair : PairState)
      → pair_at c (pair_key key) ≡ some pair
      → UpdateEnds summaries c key status (update_pair num summaries c key status error)
  unfolding update_pair
  update_pair_ends summaries c key status error pair e =
      rw (e, update_pair) (update_found_ends summaries c key status error pair e)

  -- `completed` says yes only of a pair that is, with a valid summary.
  pub completed-true :
      (summaries : Summaries N) (c : Campaign N Settings) (key : String × String)
      → completed num summaries c key ≡ some true
      → HasStatus c (pair_key key) "completed" × (is_valid num c.contents summaries key ≡ true)
  unfolding completed
  completed-true summaries c key h =
      let (pair, e, h1) = bind_inv (pair_at c (pair_key key)) _ _ h in
      let (is, ok) = go pair (is_completed pair) (is_valid num c.contents summaries key) h1 in
      ((pair, e, (string_eq.beq_iff _ _).0 is), ok)
    where
      go :
          (pair : PairState) (a b : Bool)
          → (if not a then some false else if b then some true else none) ≡ some true
          → (a ≡ true) × (b ≡ true)
      go pair false b h = absurd (cc)
      go pair true false h = absurd (cc)
      go pair true true h = (refl, refl)
