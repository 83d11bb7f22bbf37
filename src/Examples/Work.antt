-- ===== src/Examples/Work.antt =====
-- The theorems on the queue at two tasks and one worker.
use csharp_llm_benchmark.Prelude.{
  ℕ, ◌≡◌, refl, ◌≢◌, ◌⊎◌, inl, inr, String, Option, none, some, List, [], ◌∷◌, All, Any, true,
  false, ◌==◌, nat_eq, arith,
}
use csharp_llm_benchmark.Prelude.Numbers.{nat_numbers}
use csharp_llm_benchmark.Runner.Result.{TaskRunResult}
use csharp_llm_benchmark.Scorer.{TaskScore, score_task}
use csharp_llm_benchmark.Scorer.Totals.{score_task_fails_iff}
use csharp_llm_benchmark.Queue.Futures.{cell}
use csharp_llm_benchmark.Queue.{
  PendingGeneration, Pool, Queue, submitted, future_cancelled, runner_cancelled, Failure,
  generation_failed, finished, failed, out_of_fuel, store,
}
use csharp_llm_benchmark.Queue.Rounds.{
  queue_more, queue_more_generations, queue_evaluation, cancel_all_pending_work,
  complete_generation, complete_evaluation, round, rounds, run_generation_queue,
}
use csharp_llm_benchmark.Queue.Terminates.{WaitLaws, run_generation_queue_ends}
use csharp_llm_benchmark.Queue.Completes.{run_generation_queue_completes}
use csharp_llm_benchmark.Queue.Scored.{IsScored}
use csharp_llm_benchmark.Queue.Finishes.{IsHealthy, run_generation_queue_finishes}
use csharp_llm_benchmark.Queue.Cancels.{IsHandled, run_generation_queue_cancels}
use csharp_llm_benchmark.Queue.Reach.{IsReached, begun, IsBounded, IsReached-IsBounded}
use csharp_llm_benchmark.Examples.Data.{greenfield_task, passed_result}

abbrev generation : ℕ → PendingGeneration ℕ
generation i = record {
  row_index = i;
  task_index = i;
  temperature_index = 0;
  temperature = 1;
  task = greenfield_task;
}

abbrev queued : List (PendingGeneration ℕ)
queued = generation 0 ∷ generation 1 ∷ []

abbrev table : List (List (Option (TaskScore ℕ String)))
table = (none ∷ none ∷ []) ∷ []

abbrev first_only : List ℕ → List ℕ
first_only [] = []
first_only (f ∷ fs) = f ∷ []

-- Every call succeeds, and `wait` returns one future.
abbrev good_pool : Pool ℕ String String
good_pool = record {
  mkdir = λ g. true;
  generate = λ f g. some "class A";
  evaluate = λ f e. some passed_result;
  write_result = λ e result. true;
  wait = λ events fs. first_only fs;
  is_done = λ events f. false;
}

-- Every generation raises.
abbrev bad_pool : Pool ℕ String String
bad_pool = record good_pool { generate = λ f g. none }

same_refl : (f : ℕ) → (f == f) ≡ true
same_refl f = ground (arith, nat_eq.beq_iff f f)

good_pool-WaitLaws : WaitLaws good_pool
good_pool-WaitLaws = record {
  first = λ events f fs. f;
  others = λ events f fs. [];
  returned = λ events f fs. refl;
  given = λ events f fs. rw (same_refl f) refl;
}

run_generation_queue_ends_example :
    run_generation_queue nat_numbers good_pool 1 queued table ≢ out_of_fuel
run_generation_queue_ends_example =
    run_generation_queue_ends nat_numbers good_pool 1 good_pool-WaitLaws queued table

run_generation_queue_completes_example :
    ((q : Queue ℕ String String) × (run_generation_queue nat_numbers good_pool 1 queued table
        ≡ finished q)
      × All (IsScored nat_numbers good_pool queued q.task_scores_by_temperature) queued)
    ⊎ ((e : Failure) × (q : Queue ℕ String String) × (run_generation_queue nat_numbers good_pool 1
            queued table
          ≡ failed e q))
run_generation_queue_completes_example =
    run_generation_queue_completes nat_numbers good_pool 1 good_pool-WaitLaws (omega arith) queued
      table

greenfield_scored :
    (result : TaskRunResult ℕ String) → score_task nat_numbers greenfield_task result ≢ none
greenfield_scored result h =
    let fails = (score_task_fails_iff nat_numbers greenfield_task result).0 h in absurd (cc fails)

has_cell :
    (g : PendingGeneration ℕ)
    → Any (λ h. h ≡ g) queued
    → cell g.temperature_index g.task_index table ≢ none
has_cell g (inl e) h = absurd (cc (rw (← e) at h))
has_cell g (inr (inl e)) h = absurd (cc (rw (← e) at h))
has_cell g (inr (inr e)) h = elim e [ ]

good_pool-IsHealthy : IsHealthy nat_numbers good_pool queued table
good_pool-IsHealthy = record {
  mkdir = λ g. refl;
  generate = λ f g h. absurd (cc);
  evaluate = λ f e h. absurd (cc);
  write = λ e result. refl;
  score = λ g own result. scored g own result;
  cells = has_cell;
}
  where
    scored :
        (g : PendingGeneration ℕ)
        → Any (λ h. h ≡ g) queued
        → (result : TaskRunResult ℕ String) → score_task nat_numbers g.task result ≢ none
    scored g (inl e) result h = greenfield_scored result (rw (← e) at h)
    scored g (inr (inl e)) result h = greenfield_scored result (rw (← e) at h)
    scored g (inr (inr e)) result h = elim e [ ]

run_generation_queue_finishes_example :
    (q : Queue ℕ String String) × (run_generation_queue nat_numbers good_pool 1 queued table
      ≡ finished q)
    × All (IsScored nat_numbers good_pool queued q.task_scores_by_temperature) queued
run_generation_queue_finishes_example =
    run_generation_queue_finishes nat_numbers good_pool queued table good_pool-IsHealthy 1
      good_pool-WaitLaws (omega arith)

-- The state that the first failing generation of two workers leaves.
abbrev stopped : Queue ℕ String String
stopped = record {
  waiting = [];
  active_generations = (1, generation 1) ∷ [];
  pending = [];
  task_scores_by_temperature = table;
  futures = 2;
  events = runner_cancelled ∷ future_cancelled 1 ∷ submitted 1 ∷ submitted 0 ∷ [];
}

stops_at_error :
    run_generation_queue nat_numbers bad_pool 2 queued table ≡ failed (generation_failed 0) stopped
unfolding run_generation_queue rounds round complete_generation complete_evaluation
    queue_more_generations queue_more queue_evaluation cancel_all_pending_work store
stops_at_error = refl

run_generation_queue_cancels_example : IsHandled nat_numbers bad_pool (generation_failed 0) stopped
run_generation_queue_cancels_example =
    run_generation_queue_cancels nat_numbers bad_pool 2 queued table (generation_failed 0) stopped
      stops_at_error

-- One worker begins with the first task.
abbrev one_active : Queue ℕ String String
one_active = record {
  waiting = generation 1 ∷ [];
  active_generations = (0, generation 0) ∷ [];
  pending = [];
  task_scores_by_temperature = table;
  futures = 1;
  events = submitted 0 ∷ [];
}

one_active-IsReached : IsReached nat_numbers good_pool 1 queued table one_active
unfolding queue_more_generations queue_more
one_active-IsReached = begun refl

IsReached-IsBounded_example : IsBounded nat_numbers good_pool 1 2 one_active
IsReached-IsBounded_example =
    IsReached-IsBounded nat_numbers good_pool 1 queued table one_active one_active-IsReached
