-- ===== src/Queue/Progress.antt =====
-- What a step leaves to do.
use csharp_llm_benchmark.Prelude.{
  ℕ, ◌+◌, ◌*◌, ◌≡◌, refl, ◌≢◌, ◌<◌, Option, none, some, List, [], ◌∷◌, length, length-append, Bool,
  true, false, nat_eq, ltb, arith, if◌then◌else◌,
}
use csharp_llm_benchmark.Prelude.Numbers.{Numbers}
use csharp_llm_benchmark.Runner.Result.{TaskRunResult}
use csharp_llm_benchmark.Scorer.{TaskScore}
use csharp_llm_benchmark.Queue.{
  PendingGeneration, PendingEvaluation, Pool, Queue, Step, ignored, handled, raised, interrupted,
  pop,
}
use csharp_llm_benchmark.Queue.Rounds.{
  submit_generation, queue_more, queue_more_generations, queue_evaluation, after_generation,
  pop_generation, complete_generation, after_store, after_score, after_write, after_evaluation,
  pop_evaluation, complete_evaluation,
}
use csharp_llm_benchmark.Queue.Futures.{pop-length}
use csharp_llm_benchmark.Queue.Steps.{
  any_failure, queue_more-AfterStep, complete_generation-AfterStep, complete_evaluation-AfterStep,
}
use csharp_llm_benchmark.Queue.Loop.{AfterStep, AnyFailure, Decreases, AfterStep-map}

module _ {N Meta Generated : Type 0} (num : Numbers N) (pool : Pool N Meta Generated)
    (generation_workers : ℕ) where
  -- How many futures are still to complete.
  abbrev pub left : Queue N Meta Generated → ℕ
  left q = 2 * (length q.waiting + length q.active_generations) + length q.pending

  pub queue_more-left :
      (waiting : List (PendingGeneration N)) (q : Queue N Meta Generated)
      → AfterStep
          (λ q'. left q' ≡ left (record q { waiting = waiting }))
          AnyFailure
          (queue_more num pool generation_workers waiting q)
  queue_more-left waiting q =
      queue_more-AfterStep num pool generation_workers
        (λ q'. left q' ≡ left (record q { waiting = waiting })) AnyFailure
        (any_failure num pool generation_workers)
        (λ g rest q' free same.
          omega (arith, same, length-append q'.active_generations ((q'.futures, g) ∷ [])))
        waiting q refl

  pub complete_generation-left :
      (f : ℕ) (q : Queue N Meta Generated)
      → Decreases left q (complete_generation num pool generation_workers f q)
  unfolding queue_evaluation
  complete_generation-left f q =
      complete_generation-AfterStep num pool generation_workers (λ q'. left q' < left q) AnyFailure
        (any_failure num pool generation_workers) f q
        (λ g active generated popped e.
          let queued =
            queue_evaluation num pool generation_workers g generated
              (record q { active_generations = active }) in
          let evaluation : PendingEvaluation N Generated = record {
            generation = g;
            generated = generated;
          } in
          let longer = length-append q.pending ((q.futures, evaluation) ∷ []) in
          let less = pop-length f q.active_generations g active popped in
          AfterStep-map (λ q'. left q' ≡ left queued) (λ q'. left q' < left q)
            (queue_more num pool generation_workers q.waiting queued)
            (λ q' same. omega (arith, same, longer, less)) (queue_more-left q.waiting queued))

  pub complete_evaluation-left :
      (f : ℕ) (q : Queue N Meta Generated)
      → Decreases left q (complete_evaluation num pool generation_workers f q)
  complete_evaluation-left f q =
      complete_evaluation-AfterStep num pool generation_workers (λ q'. left q' < left q) AnyFailure
        (any_failure num pool generation_workers) f q
        (λ e pending result score scores popped r c t.
          let less = pop-length f q.pending e pending popped in omega (arith, less))
        (λ e pending result popped t. tt) (λ e pending score popped t. tt)

  pub queue_more_acts :
      (waiting : List (PendingGeneration N)) (q : Queue N Meta Generated)
      → queue_more num pool generation_workers waiting q ≢ ignored
  unfolding queue_more
  queue_more_acts [] q h = absurd (cc)
  queue_more_acts (g ∷ waiting) q h =
      go (ltb (length q.active_generations) generation_workers) (pool.mkdir g) _
        (queue_more_acts waiting (submit_generation num pool generation_workers g q)) h
    where
      go :
          (free made : Bool) (st : Step (Queue N Meta Generated))
          → st ≢ ignored
          → (if free
              then (if made then st else raised interrupted (record q { waiting = g ∷ waiting }))
              else handled (record q { waiting = g ∷ waiting }))
            ≢ ignored
      go true true st other h = other h
      go true false st other h = absurd (cc)
      go false _ st other h = absurd (cc)

  -- A future is ignored only if it is not in the dictionary.
  pub generation_ignored :
      (f : ℕ) (q : Queue N Meta Generated)
      → complete_generation num pool generation_workers f q ≡ ignored
      → pop f q.active_generations ≡ none
  unfolding complete_generation queue_more_generations
  generation_ignored f q h = go (pop f q.active_generations) h
    where
      after :
          (g : PendingGeneration N) (active : List (ℕ × PendingGeneration N))
          (generated : Option Generated)
          → after_generation num pool generation_workers f g generated
              (record q { active_generations = active })
            ≢ ignored
      after g active none h = absurd (cc)
      after g active (some generated) h = queue_more_acts _ _ h

      go :
          (popped : Option (PendingGeneration N × List (ℕ × PendingGeneration N)))
          → pop_generation num pool generation_workers f popped q ≡ ignored
          → popped ≡ none
      go none h = refl
      go (some (g, active)) h = absurd (after g active _ h)

  pub evaluation_ignored :
      (f : ℕ) (q : Queue N Meta Generated)
      → complete_evaluation num pool generation_workers f q ≡ ignored
      → pop f q.pending ≡ none
  unfolding complete_evaluation
  evaluation_ignored f q h = go (pop f q.pending) h
    where
      stored :
          (scores : Option (List (List (Option (TaskScore N Meta))))) (q : Queue N Meta Generated)
          → after_store num pool generation_workers scores q ≢ ignored
      stored none q h = absurd (cc)
      stored (some scores) q h = absurd (cc)

      scored :
          (g : PendingGeneration N) (score : Option (TaskScore N Meta)) (q : Queue N Meta Generated)
          → after_score num pool generation_workers g score q ≢ ignored
      scored g none q h = absurd (cc)
      scored g (some score) q h = stored _ _ h

      wrote :
          (g : PendingGeneration N) (result : TaskRunResult N Meta) (ok : Bool)
          (q : Queue N Meta Generated)
          → after_write num pool generation_workers g result ok q ≢ ignored
      wrote g result false q h = absurd (cc)
      wrote g result true q h = scored g _ q h

      after :
          (e : PendingEvaluation N Generated) (result : Option (TaskRunResult N Meta))
          (q : Queue N Meta Generated)
          → after_evaluation num pool generation_workers f e result q ≢ ignored
      after e none q h = absurd (cc)
      after e (some result) q h = wrote e.generation result _ q h

      go :
          (popped : Option
            (PendingEvaluation N Generated × List (ℕ × PendingEvaluation N Generated)))
          → pop_evaluation num pool generation_workers f popped q ≡ ignored
          → popped ≡ none
      go none h = refl
      go (some (e, pending)) h = absurd (after e _ _ h)
