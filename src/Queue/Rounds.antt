-- ===== src/Queue/Rounds.antt =====
-- benchmark/cli.py: `_run_generation_queue`, `_queue_evaluation`, `_complete_evaluations` and
-- `_cancel_all_pending_work`.
use csharp_llm_benchmark.Prelude.{
  ℕ, zero, suc, ◌+◌, ◌*◌, Option, none, some, List, [], ◌∷◌, ◌++◌, length, Bool, true, false, ltb,
  nat_eq, if◌then◌else◌,
}
use csharp_llm_benchmark.Prelude.Numbers.{Numbers}
use csharp_llm_benchmark.Runner.Result.{TaskRunResult}
use csharp_llm_benchmark.Scorer.{TaskScore, score_task}
use csharp_llm_benchmark.Queue.{
  PendingGeneration, PendingEvaluation, Event, Pool, Queue, Step, Round, Run, pop, futures_of,
  store, each_future, submitted, future_cancelled, runner_cancelled, generation_failed,
  evaluation_failed, interrupted, ignored, handled, raised, continues, stops, finished, failed,
  out_of_fuel,
}

module _ {N Meta Generated : Type 0} (num : Numbers N) (pool : Pool N Meta Generated)
    (generation_workers : ℕ) where
  -- Each temperature has a generator; the IndexError of one without is left out.
  abbrev pub submit_generation :
      PendingGeneration N → Queue N Meta Generated → Queue N Meta Generated
  submit_generation g q = record q {
    active_generations = q.active_generations ++ ((q.futures, g) ∷ []);
    futures = q.futures + 1;
    events = submitted q.futures ∷ q.events;
  }

  -- The loop of `queue_more_generations`, on the generations that are waiting.
  unfoldable pub queue_more :
      List (PendingGeneration N) → Queue N Meta Generated → Step (Queue N Meta Generated)
  queue_more [] q = handled (record q { waiting = [] })
  queue_more (g ∷ waiting) q =
      let rest = queue_more waiting (submit_generation g q) in
      if ltb (length q.active_generations) generation_workers
      then (if pool.mkdir g then rest else raised interrupted (record q { waiting = g ∷ waiting }))
      else handled (record q { waiting = g ∷ waiting })

  unfoldable pub queue_more_generations : Queue N Meta Generated → Step (Queue N Meta Generated)
  unfolding queue_more
  queue_more_generations q = queue_more q.waiting q

  abbrev pub cancel_generations : List (ℕ × PendingGeneration N) → List Event → List Event
  cancel_generations [] events = events
  cancel_generations ((f, g) ∷ rest) events =
      cancel_generations rest
        (if pool.is_done events f then events else future_cancelled f ∷ events)

  abbrev pub cancel_evaluations : List (ℕ × PendingEvaluation N Generated) → List Event → List Event
  cancel_evaluations [] events = events
  cancel_evaluations ((f, e) ∷ rest) events = cancel_evaluations rest (future_cancelled f ∷ events)

  unfoldable pub cancel_all_pending_work : Queue N Meta Generated → Queue N Meta Generated
  cancel_all_pending_work q = record q {
    events =
        runner_cancelled
        ∷ cancel_evaluations q.pending (cancel_generations q.active_generations q.events);
  }

  unfoldable pub queue_evaluation :
      PendingGeneration N → Generated → Queue N Meta Generated → Queue N Meta Generated
  queue_evaluation g generated q = record q {
    pending = q.pending ++ ((q.futures, record { generation = g; generated = generated }) ∷ []);
    futures = q.futures + 1;
    events = submitted q.futures ∷ q.events;
  }

  -- Once the result of a generation is asked for.
  abbrev pub after_generation :
      ℕ
      → PendingGeneration N
      → Option Generated
      → Queue N Meta Generated
      → Step (Queue N Meta Generated)
  after_generation f g none q = raised (generation_failed f) (cancel_all_pending_work q)
  after_generation f g (some generated) q = queue_more_generations (queue_evaluation g generated q)

  abbrev pub pop_generation :
      ℕ
      → Option (PendingGeneration N × List (ℕ × PendingGeneration N))
      → Queue N Meta Generated
      → Step (Queue N Meta Generated)
  pop_generation f none q = ignored
  pop_generation f (some (g, active)) q =
      after_generation f g (pool.generate f g) (record q { active_generations = active })

  unfoldable pub complete_generation : ℕ → Queue N Meta Generated → Step (Queue N Meta Generated)
  unfolding queue_more_generations queue_evaluation cancel_all_pending_work
  complete_generation f q = pop_generation f (pop f q.active_generations) q

  -- Once the scores are written.
  abbrev pub after_store :
      Option (List (List (Option (TaskScore N Meta))))
      → Queue N Meta Generated
      → Step (Queue N Meta Generated)
  after_store none q = raised interrupted q
  after_store (some scores) q = handled (record q { task_scores_by_temperature = scores })

  abbrev pub after_score :
      PendingGeneration N
      → Option (TaskScore N Meta)
      → Queue N Meta Generated
      → Step (Queue N Meta Generated)
  after_score g none q = raised interrupted q
  after_score g (some score) q =
      after_store (store g.temperature_index g.task_index score q.task_scores_by_temperature) q

  abbrev pub after_write :
      PendingGeneration N
      → TaskRunResult N Meta
      → Bool
      → Queue N Meta Generated
      → Step (Queue N Meta Generated)
  after_write g result false q = raised interrupted q
  after_write g result true q = after_score g (score_task num g.task result) q

  abbrev pub after_evaluation :
      ℕ
      → PendingEvaluation N Generated
      → Option (TaskRunResult N Meta)
      → Queue N Meta Generated
      → Step (Queue N Meta Generated)
  after_evaluation f e none q = raised (evaluation_failed f) (cancel_all_pending_work q)
  after_evaluation f e (some result) q =
      after_write e.generation result (pool.write_result e result) q

  abbrev pub pop_evaluation :
      ℕ
      → Option (PendingEvaluation N Generated × List (ℕ × PendingEvaluation N Generated))
      → Queue N Meta Generated
      → Step (Queue N Meta Generated)
  pop_evaluation f none q = ignored
  pop_evaluation f (some (e, pending)) q =
      after_evaluation f e (pool.evaluate f e) (record q { pending = pending })

  -- One round of `_complete_evaluations`.
  unfoldable pub complete_evaluation : ℕ → Queue N Meta Generated → Step (Queue N Meta Generated)
  unfolding cancel_all_pending_work store
  complete_evaluation f q = pop_evaluation f (pop f q.pending) q

  abbrev pub then_evaluations : Round (Queue N Meta Generated) → Round (Queue N Meta Generated)
  then_evaluations (continues q completed) = each_future complete_evaluation completed q
  then_evaluations (stops e q) = stops e q

  -- One round of the outer loop.
  unfoldable pub round : Queue N Meta Generated → Round (Queue N Meta Generated)
  unfolding complete_generation complete_evaluation
  round q =
      let completed =
        pool.wait q.events (futures_of q.pending ++ futures_of q.active_generations) in
      then_evaluations (each_future complete_generation completed q)

  -- `while active_generations or pending`
  abbrev pub is_idle : List ℕ → List ℕ → Bool
  is_idle [] [] = true
  is_idle _ _ = false

  abbrev pub after_round :
      Round (Queue N Meta Generated)
      → (Queue N Meta Generated → Run (Queue N Meta Generated))
      → Run (Queue N Meta Generated)
  after_round (continues q completed) next = next q
  after_round (stops e q) next = failed e q

  unfoldable pub rounds : ℕ → Queue N Meta Generated → Run (Queue N Meta Generated)
  unfolding round
  rounds zero q = out_of_fuel
  rounds (suc fuel) q =
      let rest = after_round (round q) (rounds fuel) in
      if is_idle (futures_of q.active_generations) (futures_of q.pending) then finished q else rest

  abbrev pub after_start : ℕ → Step (Queue N Meta Generated) → Run (Queue N Meta Generated)
  after_start fuel ignored = out_of_fuel
  after_start fuel (handled q) = rounds fuel q
  after_start fuel (raised e q) = failed e q

  abbrev pub start :
      List (PendingGeneration N) → List (List (Option (TaskScore N Meta))) → Queue N Meta Generated
  start queued scores = record {
    waiting = queued;
    active_generations = [];
    pending = [];
    task_scores_by_temperature = scores;
    futures = 0;
    events = [];
  }

  -- Each round completes a generation or an evaluation, of which there are two for each task.
  unfoldable pub run_generation_queue :
      List (PendingGeneration N)
      → List (List (Option (TaskScore N Meta)))
      → Run (Queue N Meta Generated)
  unfolding rounds queue_more_generations
  run_generation_queue queued scores =
      after_start (2 * length queued + 1) (queue_more_generations (start queued scores))
