-- ===== src/Queue/Reach.antt =====
-- The states that the queue goes through between two completed futures.
use csharp_llm_benchmark.Prelude.{
  ℕ, ◌+◌, ◌≡◌, Option, ◌≤◌, List, [], ◌∷◌, length, length-append, arith,
}
use csharp_llm_benchmark.Prelude.Numbers.{Numbers}
use csharp_llm_benchmark.Scorer.{TaskScore}
use csharp_llm_benchmark.Queue.{
  PendingGeneration, PendingEvaluation, Pool, Queue, Step, ignored, handled, raised,
}
use csharp_llm_benchmark.Queue.Rounds.{
  queue_more, queue_more_generations, queue_evaluation, complete_generation, complete_evaluation,
  start,
}
use csharp_llm_benchmark.Queue.Futures.{pop-length}
use csharp_llm_benchmark.Queue.Loop.{AfterStep, AnyFailure}
use csharp_llm_benchmark.Queue.Steps.{
  any_failure, queue_more-AfterStep, complete_generation-AfterStep, complete_evaluation-AfterStep,
}

module _ {N Meta Generated : Type 0} (num : Numbers N) (pool : Pool N Meta Generated)
    (generation_workers : ℕ) where
  -- Futures may complete in any order.
  pub data IsReached (queued : List (PendingGeneration N))
      (scores : List (List (Option (TaskScore N Meta)))) : Queue N Meta Generated → Type 0 where
    begun :
        {q : Queue N Meta Generated}
        → queue_more_generations num pool generation_workers
            (start num pool generation_workers queued scores)
          ≡ handled q
        → IsReached queued scores q
    generation_done :
        {q q' : Queue N Meta Generated} (f : ℕ)
        → IsReached queued scores q
        → complete_generation num pool generation_workers f q ≡ handled q'
        → IsReached queued scores q'
    evaluation_done :
        {q q' : Queue N Meta Generated} (f : ℕ)
        → IsReached queued scores q
        → complete_evaluation num pool generation_workers f q ≡ handled q'
        → IsReached queued scores q'

  -- What bounds the work in progress: the workers, and the number of tasks.
  pub record IsBounded (tasks : ℕ) (q : Queue N Meta Generated) : Type 0 where
    pub active : length q.active_generations ≤ generation_workers
    pub all : length q.waiting + length q.active_generations + length q.pending ≤ tasks

  handled_inv :
      (P : Queue N Meta Generated → Type 0) (st : Step (Queue N Meta Generated))
      (q : Queue N Meta Generated)
      → st ≡ handled q
      → AfterStep P AnyFailure st
      → P q
  handled_inv P ignored q h p = absurd (cc)
  handled_inv P (handled q') q h p = let same : q' ≡ q = ground arith in rw (← same) p
  handled_inv P (raised e q') q h p = absurd (cc)

  module _ (tasks : ℕ) where
    queue_more-IsBounded :
        (waiting : List (PendingGeneration N)) (q : Queue N Meta Generated)
        → IsBounded tasks (record q { waiting = waiting })
        → AfterStep (IsBounded tasks) AnyFailure (queue_more num pool generation_workers waiting q)
    queue_more-IsBounded =
        queue_more-AfterStep num pool generation_workers (IsBounded tasks) AnyFailure
          (any_failure num pool generation_workers)
          (λ g waiting q free b.
            let longer = length-append q.active_generations ((q.futures, g) ∷ []) in
            record { active = omega (arith, longer, free); all = omega (arith, longer, b.all) })

    complete_generation-IsBounded :
        (f : ℕ) (q : Queue N Meta Generated)
        → IsBounded tasks q
        → AfterStep
            (IsBounded tasks)
            AnyFailure
            (complete_generation num pool generation_workers f q)
    unfolding queue_evaluation
    complete_generation-IsBounded f q b =
        complete_generation-AfterStep num pool generation_workers (IsBounded tasks) AnyFailure
          (any_failure num pool generation_workers) f q
          (λ g active generated popped e.
            let evaluation : PendingEvaluation N Generated = record {
              generation = g;
              generated = generated;
            } in
            let longer = length-append q.pending ((q.futures, evaluation) ∷ []) in
            let less = pop-length f q.active_generations g active popped in
            queue_more-IsBounded q.waiting _ (record {
              active = omega (arith, less, b.active);
              all = omega (arith, less, longer, b.all);
            }))

    complete_evaluation-IsBounded :
        (f : ℕ) (q : Queue N Meta Generated)
        → IsBounded tasks q
        → AfterStep
            (IsBounded tasks)
            AnyFailure
            (complete_evaluation num pool generation_workers f q)
    complete_evaluation-IsBounded f q b =
        complete_evaluation-AfterStep num pool generation_workers (IsBounded tasks) AnyFailure
          (any_failure num pool generation_workers) f q
          (λ e pending result score scores popped r s t.
            let less = pop-length f q.pending e pending popped in
            record { active = b.active; all = omega (arith, less, b.all) })
          (λ e pending result popped s. tt) (λ e pending score popped t. tt)

  -- In whatever order futures complete, no more generations are active than there are workers, and
  -- no more tasks are in the queue, waiting, active or pending, than were given to it.
  pub IsReached-IsBounded :
      (queued : List (PendingGeneration N)) (scores : List (List (Option (TaskScore N Meta))))
      (q : Queue N Meta Generated)
      → IsReached queued scores q
      → IsBounded (length queued) q
  unfolding queue_more_generations
  IsReached-IsBounded queued scores q (begun e) = handled_inv (IsBounded (length queued)) _ q e (
      queue_more-IsBounded (length queued) queued (start num pool generation_workers queued scores)
        (record { active = omega arith; all = omega arith }))
  IsReached-IsBounded queued scores q (generation_done {q = before} f r e) =
      handled_inv (IsBounded (length queued)) _ q e (
        complete_generation-IsBounded (length queued) f before
          (IsReached-IsBounded queued scores before r))
  IsReached-IsBounded queued scores q (evaluation_done {q = before} f r e) =
      handled_inv (IsBounded (length queued)) _ q e (
        complete_evaluation-IsBounded (length queued) f before
          (IsReached-IsBounded queued scores before r))
