-- ===== src/Queue/Steps.antt =====
-- What a step of the queue does to its state, one change at a time.
use csharp_llm_benchmark.Prelude.{
  ℕ, ◌≡◌, refl, ◌<◌, Option, none, some, List, [], ◌∷◌, length, Bool, true, false, ltb, arith,
  if◌then◌else◌,
}
use csharp_llm_benchmark.Prelude.Numbers.{Numbers}
use csharp_llm_benchmark.Runner.Result.{TaskRunResult}
use csharp_llm_benchmark.Scorer.{TaskScore, score_task}
use csharp_llm_benchmark.Queue.{
  PendingGeneration, PendingEvaluation, Pool, Queue, Failure, Step, handled, raised, interrupted,
  generation_failed, evaluation_failed, pop, store,
}
use csharp_llm_benchmark.Queue.Rounds.{
  cancel_all_pending_work, submit_generation, queue_more, queue_more_generations, queue_evaluation,
  after_generation, pop_generation, complete_generation, after_store, after_score, after_write,
  after_evaluation, pop_evaluation, complete_evaluation,
}
use csharp_llm_benchmark.Queue.Loop.{AfterStep, AnyFailure}

module _ {N Meta Generated : Type 0} (num : Numbers N) (pool : Pool N Meta Generated)
    (generation_workers : ℕ) where
  -- What holds of each failure outside of the scoring.
  pub record OnFailure (E : Failure → Queue N Meta Generated → Type 0) : Type 0 where
    pub mkdir :
        (g : PendingGeneration N) (q : Queue N Meta Generated)
        → pool.mkdir g ≡ false
        → E interrupted q
    pub generation :
        (f : ℕ) (g : PendingGeneration N) (q : Queue N Meta Generated)
        → pool.generate f g ≡ none
        → E (generation_failed f) (cancel_all_pending_work num pool generation_workers q)
    pub evaluation :
        (f : ℕ) (e : PendingEvaluation N Generated) (q : Queue N Meta Generated)
        → pool.evaluate f e ≡ none
        → E (evaluation_failed f) (cancel_all_pending_work num pool generation_workers q)
    pub write :
        (e : PendingEvaluation N Generated) (result : TaskRunResult N Meta)
        (q : Queue N Meta Generated)
        → pool.write_result e result ≡ false
        → E interrupted q

  pub any_failure : OnFailure AnyFailure
  any_failure = record {
    mkdir = λ g q e. tt;
    generation = λ f g q e. tt;
    evaluation = λ f p q e. tt;
    write = λ p r q e. tt;
  }

module _ {N Meta Generated : Type 0} (num : Numbers N) (pool : Pool N Meta Generated)
    (generation_workers : ℕ) (P : Queue N Meta Generated → Type 0)
    (E : Failure → Queue N Meta Generated → Type 0)
    (failures : OnFailure num pool generation_workers E) where
  pub queue_more-AfterStep :
      ((g : PendingGeneration N) (waiting : List (PendingGeneration N)) (q : Queue N Meta Generated)
        → length q.active_generations < generation_workers
        → P (record q { waiting = g ∷ waiting })
        → P (record (submit_generation num pool generation_workers g q) { waiting = waiting }))
      → (waiting : List (PendingGeneration N)) (q : Queue N Meta Generated)
      → P (record q { waiting = waiting })
      → AfterStep P E (queue_more num pool generation_workers waiting q)
  unfolding queue_more
  queue_more-AfterStep submits [] q p = p
  queue_more-AfterStep submits (g ∷ waiting) q p =
      go (ltb (length q.active_generations) generation_workers) refl (pool.mkdir g) refl _ (λ less.
        queue_more-AfterStep submits waiting (submit_generation num pool generation_workers g q)
          (submits g waiting q less p))
    where
      go :
          (free : Bool)
          → ltb (length q.active_generations) generation_workers ≡ free
          → (made : Bool) → pool.mkdir g ≡ made
          → (st : Step (Queue N Meta Generated))
          → (length q.active_generations < generation_workers → AfterStep P E st)
          → AfterStep P E (
              if free
              then (if made then st else raised interrupted (record q { waiting = g ∷ waiting }))
              else handled (record q { waiting = g ∷ waiting }))
      go true e true made st h = h (ground (arith, e))
      go true e false made st h = failures.mkdir g _ made
      go false e _ made st h = p

  pub complete_generation-AfterStep :
      (f : ℕ) (q : Queue N Meta Generated)
      → ((g : PendingGeneration N) (active : List (ℕ × PendingGeneration N)) (generated : Generated)
          → pop f q.active_generations ≡ some (g, active)
          → pool.generate f g ≡ some generated
          → AfterStep P E (
              queue_more num pool generation_workers q.waiting (
                queue_evaluation num pool generation_workers g generated
                  (record q { active_generations = active }))))
      → AfterStep P E (complete_generation num pool generation_workers f q)
  unfolding complete_generation queue_more_generations
  complete_generation-AfterStep f q h = go (pop f q.active_generations) refl
    where
      after :
          (g : PendingGeneration N) (active : List (ℕ × PendingGeneration N))
          (generated : Option Generated)
          → pop f q.active_generations ≡ some (g, active)
          → pool.generate f g ≡ generated
          → AfterStep P E (
              after_generation num pool generation_workers f g generated
                (record q { active_generations = active }))
      after g active none e e' = failures.generation f g _ e'
      after g active (some generated) e e' = h g active generated e e'

      go :
          (popped : Option (PendingGeneration N × List (ℕ × PendingGeneration N)))
          → pop f q.active_generations ≡ popped
          → AfterStep P E (pop_generation num pool generation_workers f popped q)
      go none e = tt
      go (some (g, active)) e = after g active (pool.generate f g) e refl

  pub complete_evaluation-AfterStep :
      (f : ℕ) (q : Queue N Meta Generated)
      → ((e : PendingEvaluation N Generated) (pending : List (ℕ × PendingEvaluation N Generated))
            (result : TaskRunResult N Meta) (score : TaskScore N Meta)
            (scores : List (List (Option (TaskScore N Meta))))
          → pop f q.pending ≡ some (e, pending)
          → pool.evaluate f e ≡ some result
          → score_task num e.generation.task result ≡ some score
          → store e.generation.temperature_index e.generation.task_index score
              q.task_scores_by_temperature
            ≡ some scores
          → P (record q { pending = pending; task_scores_by_temperature = scores }))
      → ((e : PendingEvaluation N Generated) (pending : List (ℕ × PendingEvaluation N Generated))
            (result : TaskRunResult N Meta)
          → pop f q.pending ≡ some (e, pending)
          → score_task num e.generation.task result ≡ none
          → E interrupted (record q { pending = pending }))
      → ((e : PendingEvaluation N Generated) (pending : List (ℕ × PendingEvaluation N Generated))
            (score : TaskScore N Meta)
          → pop f q.pending ≡ some (e, pending)
          → store e.generation.temperature_index e.generation.task_index score
              q.task_scores_by_temperature
            ≡ none
          → E interrupted (record q { pending = pending }))
      → AfterStep P E (complete_evaluation num pool generation_workers f q)
  unfolding complete_evaluation
  complete_evaluation-AfterStep f q h unscored missing = go (pop f q.pending) refl
    where
      stored :
          (e : PendingEvaluation N Generated) (pending : List (ℕ × PendingEvaluation N Generated))
          (result : TaskRunResult N Meta) (score : TaskScore N Meta)
          (scores : Option (List (List (Option (TaskScore N Meta)))))
          → pop f q.pending ≡ some (e, pending)
          → pool.evaluate f e ≡ some result
          → score_task num e.generation.task result ≡ some score
          → store e.generation.temperature_index e.generation.task_index score
              q.task_scores_by_temperature
            ≡ scores
          → AfterStep P E
              (after_store num pool generation_workers scores (record q { pending = pending }))
      stored e pending result score none p r c t = missing e pending score p t
      stored e pending result score (some scores) p r c t = h e pending result score scores p r c t

      scored :
          (e : PendingEvaluation N Generated) (pending : List (ℕ × PendingEvaluation N Generated))
          (result : TaskRunResult N Meta) (score : Option (TaskScore N Meta))
          → pop f q.pending ≡ some (e, pending)
          → pool.evaluate f e ≡ some result
          → score_task num e.generation.task result ≡ score
          → AfterStep P E (
              after_score num pool generation_workers e.generation score
                (record q { pending = pending }))
      scored e pending result none p r c = unscored e pending result p c
      scored e pending result (some score) p r c = stored e pending result score _ p r c refl

      wrote :
          (e : PendingEvaluation N Generated) (pending : List (ℕ × PendingEvaluation N Generated))
          (result : TaskRunResult N Meta) (ok : Bool)
          → pool.write_result e result ≡ ok
          → pop f q.pending ≡ some (e, pending)
          → pool.evaluate f e ≡ some result
          → AfterStep P E (
              after_write num pool generation_workers e.generation result ok
                (record q { pending = pending }))
      wrote e pending result false w p r = failures.write e result _ w
      wrote e pending result true w p r = scored e pending result _ p r refl

      after :
          (e : PendingEvaluation N Generated) (pending : List (ℕ × PendingEvaluation N Generated))
          (result : Option (TaskRunResult N Meta))
          → pop f q.pending ≡ some (e, pending)
          → pool.evaluate f e ≡ result
          → AfterStep P E (
              after_evaluation num pool generation_workers f e result
                (record q { pending = pending }))
      after e pending none p r = failures.evaluation f e _ r
      after e pending (some result) p r =
          wrote e pending result (pool.write_result e result) refl p r

      go :
          (popped : Option
            (PendingEvaluation N Generated × List (ℕ × PendingEvaluation N Generated)))
          → pop f q.pending ≡ popped
          → AfterStep P E (pop_evaluation num pool generation_workers f popped q)
      go none p = tt
      go (some (e, pending)) p = after e pending (pool.evaluate f e) p refl
