-- ===== src/Queue/Scored.antt =====
-- Where the tasks of the queue are, and which of them have a score.
use csharp_llm_benchmark.Prelude.{
  ℕ, ◌≡◌, refl, ◌⊎◌, inl, inr, Option, some, List, ◌∷◌, All, Any, All-append, Any-append_left,
  Any-append_right,
}
use csharp_llm_benchmark.Prelude.Numbers.{Numbers}
use csharp_llm_benchmark.Runner.Result.{TaskRunResult}
use csharp_llm_benchmark.Scorer.{TaskScore, score_task}
use csharp_llm_benchmark.Queue.{PendingGeneration, PendingEvaluation, Pool, Queue, pop, store}
use csharp_llm_benchmark.Queue.Rounds.{submit_generation, queue_evaluation}
use csharp_llm_benchmark.Queue.Futures.{pop-Any, pop-All, cell, cell-store, store_cases}

module _ {N Meta Generated : Type 0} (num : Numbers N) (pool : Pool N Meta Generated) where
  abbrev pub Scores : Type 0
  Scores = List (List (Option (TaskScore N Meta)))

  -- The score in the cell of a generation is that of an evaluation of one of the queued
  -- generations, of that cell.
  pub record IsScored (queued : List (PendingGeneration N)) (scores : Scores)
      (g : PendingGeneration N) : Type 0 where
    pub score : TaskScore N Meta
    pub stored : cell g.temperature_index g.task_index scores ≡ some (some score)
    pub evaluation : PendingEvaluation N Generated
    pub is_queued : Any (λ h. h ≡ evaluation.generation) queued
    pub same_temperature : evaluation.generation.temperature_index ≡ g.temperature_index
    pub same_task : evaluation.generation.task_index ≡ g.task_index
    pub future : ℕ
    pub result : TaskRunResult N Meta
    pub evaluated : pool.evaluate future evaluation ≡ some result
    pub scored : score_task num evaluation.generation.task result ≡ some score

  module _ (queued : List (PendingGeneration N)) where
    -- Where a generation is.
    abbrev pub Held : PendingGeneration N → Queue N Meta Generated → Type 0
    Held g q =
        Any (λ h. h ≡ g) q.waiting
        ⊎ (Any (λ e. e.1 ≡ g) q.active_generations
            ⊎ (Any (λ e. e.1.generation ≡ g) q.pending
                ⊎ IsScored queued q.task_scores_by_temperature g))

    abbrev pub IsQueued : PendingGeneration N → Type 0
    IsQueued g = Any (λ h. h ≡ g) queued

    -- No generation is lost and none is made up.
    pub record IsComplete (q : Queue N Meta Generated) : Type 0 where
      pub waiting : All IsQueued q.waiting
      pub active : All (λ e. IsQueued e.1) q.active_generations
      pub pending : All (λ e. IsQueued e.1.generation) q.pending
      pub held : (g : PendingGeneration N) → IsQueued g → Held g q

    module _ (generation_workers : ℕ) where
      pub submit-IsComplete :
          (g : PendingGeneration N) (waiting : List (PendingGeneration N))
          (q : Queue N Meta Generated)
          → IsComplete (record q { waiting = g ∷ waiting })
          → IsComplete
              (record (submit_generation num pool generation_workers g q) { waiting = waiting })
      submit-IsComplete g waiting q c = record {
        waiting = c.waiting.1;
        active = All-append _ q.active_generations _ c.active (c.waiting.0, tt);
        pending = c.pending;
        held = λ h own. moved h (c.held h own);
      }
        where
          moved :
              (h : PendingGeneration N)
              → Held h (record q { waiting = g ∷ waiting })
              → Held h
                  (record (submit_generation num pool generation_workers g q) { waiting = waiting })
          moved h (inl (inl same)) =
              inr (inl (Any-append_right (λ e. e.1 ≡ h) q.active_generations _ (inl same)))
          moved h (inl (inr there)) = inl there
          moved h (inr (inl there)) =
              inr (inl (Any-append_left (λ e. e.1 ≡ h) q.active_generations _ there))
          moved h (inr (inr there)) = inr (inr there)

      pub generated-IsComplete :
          (f : ℕ) (q : Queue N Meta Generated) (g : PendingGeneration N)
          (active : List (ℕ × PendingGeneration N)) (generated : Generated)
          → pop f q.active_generations ≡ some (g, active)
          → IsComplete q
          → IsComplete (
              queue_evaluation num pool generation_workers g generated
                (record q { active_generations = active }))
      unfolding queue_evaluation
      generated-IsComplete f q g active generated popped c =
          let (own, others) = pop-All IsQueued f q.active_generations g active popped c.active in
          record {
            waiting = c.waiting;
            active = others;
            pending = All-append _ q.pending _ c.pending (own, tt);
            held = λ h own. moved h (c.held h own);
          }
        where
          moved :
              (h : PendingGeneration N)
              → Held h q
              → Held h (
                  queue_evaluation num pool generation_workers g generated
                    (record q { active_generations = active }))
          moved h (inl there) = inl there
          moved h (inr (inl there)) =
              elim (pop-Any (λ x. x ≡ h) f q.active_generations g active popped there) [
                | inl same ↦
                    inr (
                      inr (inl (Any-append_right (λ e. e.1.generation ≡ h) q.pending _ (inl same))))
                | inr other ↦ inr (inl other)
              ]
          moved h (inr (inr (inl there))) =
              inr (inr (inl (Any-append_left (λ e. e.1.generation ≡ h) q.pending _ there)))
          moved h (inr (inr (inr there))) = inr (inr (inr there))

      pub evaluated-IsComplete :
          (f : ℕ) (q : Queue N Meta Generated) (e : PendingEvaluation N Generated)
          (pending : List (ℕ × PendingEvaluation N Generated)) (result : TaskRunResult N Meta)
          (score : TaskScore N Meta) (scores : Scores)
          → pop f q.pending ≡ some (e, pending)
          → pool.evaluate f e ≡ some result
          → score_task num e.generation.task result ≡ some score
          → store e.generation.temperature_index e.generation.task_index score
              q.task_scores_by_temperature
            ≡ some scores
          → IsComplete q
          → IsComplete (record q { pending = pending; task_scores_by_temperature = scores })
      evaluated-IsComplete f q e pending result score scores popped r s t c =
          let (own, others) =
            pop-All (λ e. IsQueued e.generation) f q.pending e pending popped c.pending in
          record {
            waiting = c.waiting;
            active = c.active;
            pending = others;
            held = λ h own'. moved own h (c.held h own');
          }
        where
          -- The cell of the evaluation holds its score now, each other one what it held.
          written :
              IsQueued e.generation
              → (h : PendingGeneration N)
              → (e.generation.temperature_index ≡ h.temperature_index)
                × (e.generation.task_index ≡ h.task_index)
                × (cell h.temperature_index h.task_index scores ≡ some (some score))
              → IsScored queued scores h
          written own h (temperature, task, there) = record {
            score = score;
            stored = there;
            evaluation = e;
            is_queued = own;
            same_temperature = temperature;
            same_task = task;
            future = f;
            result = result;
            evaluated = r;
            scored = s;
          }

          here :
              cell e.generation.temperature_index e.generation.task_index scores ≡ some (some score)
          here =
              cell-store e.generation.temperature_index e.generation.task_index score
                q.task_scores_by_temperature scores t

          moved :
              IsQueued e.generation
              → (h : PendingGeneration N) → Held h q
              → Held h (record q { pending = pending; task_scores_by_temperature = scores })
          moved own h (inl there) = inl there
          moved own h (inr (inl there)) = inr (inl there)
          moved own h (inr (inr (inl there))) =
              elim (pop-Any (λ x. x.generation ≡ h) f q.pending e pending popped there) [
                | inr other ↦ inr (inr (inl other))
                | inl same ↦
                    inr (inr (inr (rw (← same) (written own e.generation (refl, refl, here)))))
              ]
          moved own h (inr (inr (inr there))) =
              elim (store_cases e.generation.temperature_index e.generation.task_index score
                q.task_scores_by_temperature scores t h.temperature_index h.task_index) [
                  | inl now ↦ inr (inr (inr (written own h now)))
                  | inr kept ↦ inr (
                      inr (
                        inr (record {
                          score = there.score;
                          stored = rw kept there.stored;
                          evaluation = there.evaluation;
                          is_queued = there.is_queued;
                          same_temperature = there.same_temperature;
                          same_task = there.same_task;
                          future = there.future;
                          result = there.result;
                          evaluated = there.evaluated;
                          scored = there.scored;
                        })))
                ]
