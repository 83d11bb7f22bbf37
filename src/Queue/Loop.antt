-- ===== src/Queue/Loop.antt =====
-- The loops of the queue: what each step keeps, the loops keep.
use csharp_llm_benchmark.Prelude.{ℕ, ◌≡◌, refl, ap, ◌⊎◌, inl, inr, ◌<◌, List, [], ◌∷◌, All, arith}
use csharp_llm_benchmark.Queue.{
  Failure, Step, ignored, handled, raised, Round, continues, stops, keep_future, after_step,
  each_future,
}

module _ {Q : Type 0} where
  abbrev pub AfterStep : (Q → Type 0) → (Failure → Q → Type 0) → Step Q → Type 0
  AfterStep P E ignored = Unit
  AfterStep P E (handled q) = P q
  AfterStep P E (raised e q) = E e q

  abbrev pub AfterLoop : (Q → Type 0) → (Failure → Q → Type 0) → Round Q → Type 0
  AfterLoop P E (continues q rest) = P q
  AfterLoop P E (stops e q) = E e q

  -- No failure matters.
  abbrev pub AnyFailure : Failure → Q → Type 0
  AnyFailure e q = Unit

  abbrev pub Decreases : (Q → ℕ) → Q → Step Q → Type 0
  Decreases measure q st = AfterStep (λ q'. measure q' < measure q) AnyFailure st

  pub AfterStep-map :
      (P P' : Q → Type 0) (st : Step Q)
      → ((q : Q) → P q → P' q)
      → AfterStep P AnyFailure st
      → AfterStep P' AnyFailure st
  AfterStep-map P P' ignored f h = tt
  AfterStep-map P P' (handled q) f h = f q h
  AfterStep-map P P' (raised e q) f h = tt

  pub AfterStep-and :
      (P P' : Q → Type 0) (st : Step Q)
      → AfterStep P AnyFailure st
      → AfterStep P' AnyFailure st
      → AfterStep (λ q. P q × P' q) AnyFailure st
  AfterStep-and P P' ignored h h' = tt
  AfterStep-and P P' (handled q) h h' = (h, h')
  AfterStep-and P P' (raised e q) h h' = tt

  module _ (step : ℕ → Q → Step Q) where
    module _ (P : Q → Type 0) (E : Failure → Q → Type 0)
        (keeps : (f : ℕ) (q : Q) → P q → AfterStep P E (step f q)) where
      pub each_future-AfterLoop :
          (fs : List ℕ) (q : Q) → P q → AfterLoop P E (each_future step fs q)
      each_future-AfterLoop [] q p = p
      each_future-AfterLoop (f ∷ fs) q p = go (step f q) (keeps f q p) (each_future-AfterLoop fs)
        where
          kept : (r : Round Q) → AfterLoop P E r → AfterLoop P E (keep_future f r)
          kept (continues q' rest) h = h
          kept (stops e q') h = h

          go :
              (st : Step Q)
              → AfterStep P E st
              → ((q' : Q) → P q' → AfterLoop P E (each_future step fs q'))
              → AfterLoop P E (after_step f st q (each_future step fs))
          go ignored h next = kept _ (next q p)
          go (handled q') h next = next q' h
          go (raised e q') h next = h

    module _ (measure : Q → ℕ) where
      -- Either some future was handled, or all of them were ignored.
      abbrev pub HasProgressed : List ℕ → Q → Round Q → Type 0
      HasProgressed fs q (continues q' rest) =
          (measure q' < measure q) ⊎ ((q' ≡ q) × (rest ≡ fs) × All (λ f. step f q ≡ ignored) fs)
      HasProgressed fs q (stops e q') = Unit

      pub each_future-HasProgressed :
          ((f : ℕ) (q : Q) → Decreases measure q (step f q))
          → (fs : List ℕ) (q : Q) → HasProgressed fs q (each_future step fs q)
      each_future-HasProgressed h [] q = inr (refl, refl, tt)
      each_future-HasProgressed h (f ∷ fs) q =
          go (step f q) refl (h f q) (each_future-HasProgressed h fs)
        where
          further :
              (q' : Q) (r : Round Q)
              → measure q' < measure q
              → HasProgressed fs q' r
              → HasProgressed (f ∷ fs) q r
          further q' (continues q2 rest) less (inl e) = inl (omega arith)
          further q' (continues q2 rest) less (inr (e, _, _)) = inl (rw e less)
          further q' (stops e q2) less p = tt

          kept :
              (r : Round Q)
              → step f q ≡ ignored
              → HasProgressed fs q r
              → HasProgressed (f ∷ fs) q (keep_future f r)
          kept (continues q' rest) i (inl less) = inl less
          kept (continues q' rest) i (inr (same, all_kept, rest_ignored)) =
              inr (same, ap (λ (l : List ℕ). f ∷ l) all_kept, (i, rest_ignored))
          kept (stops e q') i p = tt

          go :
              (st : Step Q)
              → step f q ≡ st
              → Decreases measure q st
              → ((q' : Q) → HasProgressed fs q' (each_future step fs q'))
              → HasProgressed (f ∷ fs) q (after_step f st q (each_future step fs))
          go ignored e less next = kept _ e (next q)
          go (handled q') e less next = further q' _ less (next q')
          go (raised e q') _ less next = tt
