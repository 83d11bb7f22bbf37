-- ===== src/Queue/Finishes.antt =====
-- A queue in which nothing raises finishes.
use csharp_llm_benchmark.Prelude.{
  ℕ, ◌≡◌, ◌≢◌, ◌<◌, inl, inr, Option, none, some, List, All, Any, true,
}
use csharp_llm_benchmark.Prelude.Numbers.{Numbers}
use csharp_llm_benchmark.Runner.Result.{TaskRunResult}
use csharp_llm_benchmark.Scorer.{TaskScore, score_task}
use csharp_llm_benchmark.Queue.{
  PendingGeneration, PendingEvaluation, Pool, Queue, Failure, Run, finished, failed, out_of_fuel,
  pop, store,
}
use csharp_llm_benchmark.Queue.Rounds.{
  queue_more, queue_evaluation, complete_generation, complete_evaluation, start,
  run_generation_queue,
}
use csharp_llm_benchmark.Queue.Futures.{pop-All, cell, store_cases, store-none}
use csharp_llm_benchmark.Queue.Loop.{AfterStep}
use csharp_llm_benchmark.Queue.Steps.{
  OnFailure, queue_more-AfterStep, complete_generation-AfterStep, complete_evaluation-AfterStep,
}
use csharp_llm_benchmark.Queue.Terminates.{WaitLaws}
use csharp_llm_benchmark.Queue.Runs.{AfterRun, run_generation_queue-AfterRun}
use csharp_llm_benchmark.Queue.Completes.{All-Any, run_generation_queue_completes}
use csharp_llm_benchmark.Queue.Scored.{
  IsScored, IsQueued, IsComplete, submit-IsComplete, generated-IsComplete, evaluated-IsComplete,
}

module _ {N Meta Generated : Type 0} (num : Numbers N) (pool : Pool N Meta Generated) where
  -- Nothing raises, and the table has a cell for each task.
  pub record IsHealthy (queued : List (PendingGeneration N))
      (scores : List (List (Option (TaskScore N Meta)))) : Type 0 where
    pub mkdir : (g : PendingGeneration N) → pool.mkdir g ≡ true
    pub generate : (f : ℕ) (g : PendingGeneration N) → pool.generate f g ≢ none
    pub evaluate : (f : ℕ) (e : PendingEvaluation N Generated) → pool.evaluate f e ≢ none
    pub write :
        (e : PendingEvaluation N Generated) (result : TaskRunResult N Meta)
        → pool.write_result e result ≡ true
    pub score :
        (g : PendingGeneration N)
        → Any (λ h. h ≡ g) queued
        → (result : TaskRunResult N Meta) → score_task num g.task result ≢ none
    pub cells :
        (g : PendingGeneration N)
        → Any (λ h. h ≡ g) queued
        → cell g.temperature_index g.task_index scores ≢ none

  module _ (queued : List (PendingGeneration N)) (scores : List (List (Option (TaskScore N Meta))))
      (healthy : IsHealthy queued scores) (generation_workers : ℕ) where
    abbrev Never : Failure → Queue N Meta Generated → Type 0
    Never e q = ⊥

    abbrev HasCells : List (List (Option (TaskScore N Meta))) → Type 0
    HasCells table =
        (g : PendingGeneration N)
        → Any (λ h. h ≡ g) queued
        → cell g.temperature_index g.task_index table ≢ none

    abbrev IsFine : Queue N Meta Generated → Type 0
    IsFine q = IsComplete num pool queued q × HasCells q.task_scores_by_temperature

    failures : OnFailure num pool generation_workers Never
    failures = record {
      mkdir = λ g q e. absurd (cc (e, healthy.mkdir g));
      generation = λ f g q e. healthy.generate f g e;
      evaluation = λ f p q e. healthy.evaluate f p e;
      write = λ p r q e. absurd (cc (e, healthy.write p r));
    }

    queue_more-IsFine :
        (waiting : List (PendingGeneration N)) (q : Queue N Meta Generated)
        → IsFine (record q { waiting = waiting })
        → AfterStep IsFine Never (queue_more num pool generation_workers waiting q)
    queue_more-IsFine =
        queue_more-AfterStep num pool generation_workers IsFine Never failures
          (λ g waiting q free c.
            (submit-IsComplete num pool queued generation_workers g waiting q c.0, c.1))

    complete_generation-IsFine :
        (f : ℕ) (q : Queue N Meta Generated)
        → IsFine q
        → AfterStep IsFine Never (complete_generation num pool generation_workers f q)
    unfolding queue_evaluation
    complete_generation-IsFine f q c =
        complete_generation-AfterStep num pool generation_workers IsFine Never failures f q
          (λ g active generated popped e. queue_more-IsFine q.waiting _ (
            generated-IsComplete num pool queued generation_workers f q g active generated popped
                c.0,
            c.1,
          ))

    stored-HasCells :
        (t i : ℕ) (score : TaskScore N Meta)
        (before after : List (List (Option (TaskScore N Meta))))
        → store t i score before ≡ some after
        → HasCells before
        → HasCells after
    stored-HasCells t i score before after e h g own gone =
        elim (store_cases t i score before after e g.temperature_index g.task_index) [
          | inl (_, _, now) ↦ absurd (cc (now, gone))
          | inr kept ↦ h g own (rw (← kept) gone)
        ]

    complete_evaluation-IsFine :
        (f : ℕ) (q : Queue N Meta Generated)
        → IsFine q
        → AfterStep IsFine Never (complete_evaluation num pool generation_workers f q)
    complete_evaluation-IsFine f q c =
        complete_evaluation-AfterStep num pool generation_workers IsFine Never failures f q
          (λ e pending result score after popped r s t. (
            evaluated-IsComplete num pool queued generation_workers f q e pending result score after
                popped r s t c.0,
            stored-HasCells _ _ score _ after t c.1,
          ))
          (λ e pending result popped s. healthy.score e.generation (own e pending popped) result s)
          (λ e pending score popped t.
            c.1 e.generation (own e pending popped) (store-none _ _ score _ t))
      where
        own :
            (e : PendingEvaluation N Generated) (pending : List (ℕ × PendingEvaluation N Generated))
            → pop f q.pending ≡ some (e, pending)
            → Any (λ h. h ≡ e.generation) queued
        own e pending popped =
            (pop-All (λ e. IsQueued num pool queued e.generation) f q.pending e pending popped
              c.0.pending).0

    -- If `wait` returns one or more of the futures that it is given, there is a worker, no call
    -- outside raises, each queued task can be scored and has a cell in the table, then the queue
    -- finishes, and the table holds a score for each queued task at its temperature, which is the
    -- score of an evaluation of it, or of another queued one with the same indices.
    pub run_generation_queue_finishes :
        WaitLaws pool
        → 0 < generation_workers
        → (q : Queue N Meta Generated) × (run_generation_queue num pool generation_workers queued
              scores
            ≡ finished q)
          × All (IsScored num pool queued q.task_scores_by_temperature) queued
    run_generation_queue_finishes laws some_worker =
        elim (run_generation_queue_completes num pool generation_workers laws some_worker queued
          scores) [
            | inl result ↦ result
            | inr (e, q, h) ↦ absurd (
                go _ h (
                  run_generation_queue-AfterRun num pool generation_workers IsFine Never
                    complete_generation-IsFine complete_evaluation-IsFine queued scores
                    (queue_more-IsFine queued (start num pool generation_workers queued scores) (
                      record {
                        waiting = All-Any num pool (IsQueued num pool queued) queued (λ g m. m);
                        active = tt;
                        pending = tt;
                        held = λ g own. inl own;
                      },
                      healthy.cells,
                    ))))
          ]
      where
        go :
            {e : Failure} {q : Queue N Meta Generated} (r : Run (Queue N Meta Generated))
            → r ≡ failed e q
            → AfterRun num pool generation_workers IsFine Never r
            → ⊥
        go (finished q') h p = absurd (cc)
        go (failed e' q') h p = p
        go out_of_fuel h p = absurd (cc)
