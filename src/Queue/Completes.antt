-- ===== src/Queue/Completes.antt =====
-- A queue that finishes has a score for each task.
use csharp_llm_benchmark.Prelude.{
  ℕ, ◌≡◌, refl, ◌<◌, ◌⊎◌, inl, inr, List, [], ◌∷◌, length, All, Any, Bool, true, false, ltb, arith,
  if◌then◌else◌,
}
use csharp_llm_benchmark.Prelude.Numbers.{Numbers}
use csharp_llm_benchmark.Queue.{
  PendingGeneration, PendingEvaluation, Pool, Queue, Failure, Step, handled, raised, interrupted,
  Run, finished, failed, out_of_fuel, futures_of,
}
use csharp_llm_benchmark.Queue.Rounds.{
  submit_generation, queue_more, queue_evaluation, complete_generation, complete_evaluation,
  is_idle, start, run_generation_queue,
}
use csharp_llm_benchmark.Queue.Loop.{AfterStep, AnyFailure, AfterStep-and}
use csharp_llm_benchmark.Queue.Steps.{
  any_failure, queue_more-AfterStep, complete_generation-AfterStep, complete_evaluation-AfterStep,
}
use csharp_llm_benchmark.Queue.Terminates.{WaitLaws, run_generation_queue_ends}
use csharp_llm_benchmark.Queue.Runs.{AfterRun, run_generation_queue-AfterRun}
use csharp_llm_benchmark.Queue.Scored.{
  Scores, IsScored, IsQueued, IsComplete, submit-IsComplete, generated-IsComplete,
  evaluated-IsComplete,
}

module _ {N Meta Generated : Type 0} (num : Numbers N) (pool : Pool N Meta Generated) where
  module _ (queued : List (PendingGeneration N)) where
    module _ (generation_workers : ℕ) where
      -- While tasks wait, some worker is busy.
      abbrev HasWork : Queue N Meta Generated → Type 0
      HasWork q = (q.waiting ≡ []) ⊎ (0 < length q.active_generations)

      abbrev IsSound : Queue N Meta Generated → Type 0
      IsSound q = IsComplete num pool queued q × HasWork q

      queue_more-IsComplete :
          (waiting : List (PendingGeneration N)) (q : Queue N Meta Generated)
          → IsComplete num pool queued (record q { waiting = waiting })
          → AfterStep
              (IsComplete num pool queued)
              AnyFailure
              (queue_more num pool generation_workers waiting q)
      queue_more-IsComplete =
          queue_more-AfterStep num pool generation_workers (IsComplete num pool queued) AnyFailure
            (any_failure num pool generation_workers)
            (λ g waiting q free c.
              submit-IsComplete num pool queued generation_workers g waiting q c)

      module _ (some_worker : 0 < generation_workers) where
        queue_more-HasWork :
            (waiting : List (PendingGeneration N)) (q : Queue N Meta Generated)
            → AfterStep HasWork AnyFailure (queue_more num pool generation_workers waiting q)
        unfolding queue_more
        queue_more-HasWork [] q = inl refl
        queue_more-HasWork (g ∷ waiting) q =
            go (ltb (length q.active_generations) generation_workers) refl (pool.mkdir g) _
              (queue_more-HasWork waiting (submit_generation num pool generation_workers g q))
          where
            go :
                (free : Bool)
                → ltb (length q.active_generations) generation_workers ≡ free
                → (made : Bool) (st : Step (Queue N Meta Generated))
                → AfterStep HasWork AnyFailure st
                → AfterStep HasWork AnyFailure (
                    if free
                    then (if made
                        then st
                        else raised interrupted (record q { waiting = g ∷ waiting }))
                    else handled (record q { waiting = g ∷ waiting }))
            go true e true st h = h
            go true e false st h = tt
            go false e _ st h = inr (ground (arith, some_worker, e))

        complete_generation-IsSound :
            (f : ℕ) (q : Queue N Meta Generated)
            → IsSound q
            → AfterStep IsSound AnyFailure (complete_generation num pool generation_workers f q)
        unfolding queue_evaluation
        complete_generation-IsSound f q s =
            complete_generation-AfterStep num pool generation_workers IsSound AnyFailure
              (any_failure num pool generation_workers) f q
              (λ g active generated popped e.
                AfterStep-and (IsComplete num pool queued) HasWork _
                  (queue_more-IsComplete q.waiting _ (
                    generated-IsComplete num pool queued generation_workers f q g active generated
                      popped s.0))
                  (queue_more-HasWork q.waiting _))

        complete_evaluation-IsSound :
            (f : ℕ) (q : Queue N Meta Generated)
            → IsSound q
            → AfterStep IsSound AnyFailure (complete_evaluation num pool generation_workers f q)
        complete_evaluation-IsSound f q s =
            complete_evaluation-AfterStep num pool generation_workers IsSound AnyFailure
              (any_failure num pool generation_workers) f q
              (λ e pending result score scores popped r c t. (
                evaluated-IsComplete num pool queued generation_workers f q e pending result score
                    scores popped r c t s.0,
                s.1,
              ))
              (λ e pending result popped t. tt) (λ e pending score popped t. tt)

        -- When nothing runs any more, nothing waits, so each generation has its score.
        idle-IsScored :
            (q : Queue N Meta Generated)
            → IsSound q
            → is_idle num pool generation_workers
                (futures_of q.active_generations)
                (futures_of q.pending)
              ≡ true
            → (g : PendingGeneration N) → IsQueued num pool queued g
            → IsScored num pool queued q.task_scores_by_temperature g
        idle-IsScored q s idle g own =
            go q.waiting q.active_generations q.pending s.1 idle (s.0.held g own)
          where
            go :
                (waiting : List (PendingGeneration N)) (active : List (ℕ × PendingGeneration N))
                (pending : List (ℕ × PendingEvaluation N Generated))
                → (waiting ≡ []) ⊎ (0 < length active)
                → is_idle num pool generation_workers (futures_of active) (futures_of pending)
                  ≡ true
                → Any (λ h. h ≡ g) waiting
                  ⊎ (Any (λ e. e.1 ≡ g) active
                      ⊎ (Any (λ e. e.1.generation ≡ g) pending
                          ⊎ IsScored num pool queued q.task_scores_by_temperature g))
                → IsScored num pool queued q.task_scores_by_temperature g
            go waiting (a ∷ active) pending work idle held = absurd (cc)
            go waiting [] (p ∷ pending) work idle held = absurd (cc)
            go (w ∷ waiting) [] [] (inl none_waits) idle held = absurd (cc)
            go (w ∷ waiting) [] [] (inr busy) idle held = absurd (omega (arith, busy))
            go [] [] [] work idle (inl there) = elim there [ ]
            go [] [] [] work idle (inr (inl there)) = elim there [ ]
            go [] [] [] work idle (inr (inr (inl there))) = elim there [ ]
            go [] [] [] work idle (inr (inr (inr there))) = there

  pub All-Any :
      (P : PendingGeneration N → Type 0) (l : List (PendingGeneration N))
      → ((g : PendingGeneration N) → Any (λ h. h ≡ g) l → P g)
      → All P l
  All-Any P [] f = tt
  All-Any P (g ∷ l) f = (f g (inl refl), All-Any P l (λ h m. f h (inr m)))

  -- If `wait` returns one or more of the futures that it is given and there is a worker, then the
  -- queue ends: it fails, or it finishes and the table holds a score for each queued task at its
  -- temperature, which is the score of an evaluation of it, or of another queued one with the same
  -- indices.
  pub run_generation_queue_completes :
      (generation_workers : ℕ)
      → WaitLaws pool
      → 0 < generation_workers
      → (queued : List (PendingGeneration N)) (scores : Scores num pool)
      → ((q : Queue N Meta Generated) × (run_generation_queue num pool generation_workers queued
              scores
            ≡ finished q)
          × All (IsScored num pool queued q.task_scores_by_temperature) queued)
        ⊎ ((e : Failure) × (q : Queue N Meta Generated) × (run_generation_queue num pool
                generation_workers queued scores
              ≡ failed e q))
  run_generation_queue_completes workers laws some_worker queued scores =
      go (run_generation_queue num pool workers queued scores) refl (
        run_generation_queue-AfterRun num pool workers (IsSound queued workers) AnyFailure
          (complete_generation-IsSound queued workers some_worker)
          (complete_evaluation-IsSound queued workers some_worker) queued scores
          (AfterStep-and (IsComplete num pool queued) (HasWork queued workers) _
            (queue_more-IsComplete queued workers queued (start num pool workers queued scores)
              (record {
                waiting = All-Any (IsQueued num pool queued) queued (λ g m. m);
                active = tt;
                pending = tt;
                held = λ g own. inl own;
              }))
            (queue_more-HasWork queued workers some_worker queued
              (start num pool workers queued scores))))
    where
      go :
          (r : Run (Queue N Meta Generated))
          → run_generation_queue num pool workers queued scores ≡ r
          → AfterRun num pool workers (IsSound queued workers) AnyFailure r
          → ((q : Queue N Meta Generated) × (run_generation_queue num pool workers queued scores
                ≡ finished q)
              × All (IsScored num pool queued q.task_scores_by_temperature) queued)
            ⊎ ((e : Failure) × (q : Queue N Meta Generated) × (run_generation_queue num pool workers
                    queued scores
                  ≡ failed e q))
      go (finished q) e (s, idle) = inl (
        q,
        e,
        All-Any (IsScored num pool queued q.task_scores_by_temperature) queued
            (λ g own. idle-IsScored queued workers some_worker q s idle g own),
      )
      go (failed x q) e h = inr (x, q, e)
      go out_of_fuel e h = absurd (run_generation_queue_ends num pool workers laws queued scores e)
