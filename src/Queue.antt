-- ===== src/Queue.antt =====
-- benchmark/cli.py: the variables of `_run_generation_queue` and its loops. Futures are numbers, in the order in
-- which they are submitted; the executors and the waiting are the parameter `Pool`, which answers by
-- the events so far. The rows of the dashboard are left out.
pub mod Rounds
pub mod Progress
pub mod Scored
pub mod Futures
pub mod Loop
pub mod Steps
pub mod Runs
pub mod Terminates
pub mod Completes
pub mod Cancels
pub mod Finishes
pub mod Reach
use csharp_llm_benchmark.Prelude.{
  ℕ, zero, suc, ◌+◌, ◌*◌, Option, none, some, List, [], ◌∷◌, ◌++◌, map, length, get_elem?, set?,
  Bool, true, false, not, ltb, ◌==◌, nat_eq, ◌>>=◌, if◌then◌else◌,
}
use csharp_llm_benchmark.Prelude.Numbers.{Numbers}
use csharp_llm_benchmark.Tasks.Model.{Task}
use csharp_llm_benchmark.Runner.Result.{TaskRunResult}
use csharp_llm_benchmark.Scorer.{TaskScore, score_task}

pub record PendingGeneration (N : Type 0) : Type 0 where
  pub row_index : ℕ
  pub task_index : ℕ
  pub temperature_index : ℕ
  pub temperature : N
  pub task : Task N

-- An evaluation, with the generated solution that it was submitted with.
pub record PendingEvaluation (N Generated : Type 0) : Type 0 where
  pub generation : PendingGeneration N
  pub generated : Generated

pub data Event : Type 0 where
  submitted : ℕ → Event
  -- A call of `cancel` on a future.
  future_cancelled : ℕ → Event
  runner_cancelled : Event

-- What is outside. `none` and `false` are exceptions.
pub record Pool (N Meta Generated : Type 0) : Type 0 where
  pub mkdir : PendingGeneration N → Bool
  -- The result of a future.
  pub generate : ℕ → PendingGeneration N → Option Generated
  pub evaluate : ℕ → PendingEvaluation N Generated → Option (TaskRunResult N Meta)
  pub write_result : PendingEvaluation N Generated → TaskRunResult N Meta → Bool
  -- `wait` with FIRST_COMPLETED, in the order in which the set is walked through, and `done`.
  pub wait : List Event → List ℕ → List ℕ
  pub is_done : List Event → ℕ → Bool

-- The variables of the function. `waiting` is `queued_generations` from `next_generation_index` on,
-- `futures` the number of futures so far, `events` begins with the last one.
pub record Queue (N Meta Generated : Type 0) : Type 0 where
  pub waiting : List (PendingGeneration N)
  pub active_generations : List (ℕ × PendingGeneration N)
  pub pending : List (ℕ × PendingEvaluation N Generated)
  pub task_scores_by_temperature : List (List (Option (TaskScore N Meta)))
  pub futures : ℕ
  pub events : List Event

-- What ends the queue early. `interrupted` is an exception that no handler expects.
pub data Failure : Type 0 where
  generation_failed : ℕ → Failure
  evaluation_failed : ℕ → Failure
  interrupted : Failure

-- One completed future in a loop over them.
pub data Step (Q : Type 0) : Type 0 where
  ignored : Step Q
  handled : Q → Step Q
  raised : Failure → Q → Step Q

-- A loop over completed futures: the state, and the futures that it ignored.
pub data Round (Q : Type 0) : Type 0 where
  continues : Q → List ℕ → Round Q
  stops : Failure → Q → Round Q

pub data Run (Q : Type 0) : Type 0 where
  finished : Q → Run Q
  failed : Failure → Q → Run Q
  out_of_fuel : Run Q

-- An entry is the one that is looked for, or what is found behind it counts.
abbrev pub pop_at {ℓ} :
    {A : Type ℓ}
    → Bool
    → ℕ × A
    → List (ℕ × A)
    → Option (A × List (ℕ × A))
    → Option (A × List (ℕ × A))
pop_at true (g, a) rest found = some (a, rest)
pop_at false entry rest none = none
pop_at false entry rest (some (b, others)) = some (b, entry ∷ others)

-- `pop` of a dictionary: the value, and the dictionary without the key.
abbrev pub pop {ℓ} : {A : Type ℓ} → ℕ → List (ℕ × A) → Option (A × List (ℕ × A))
pop f [] = none
pop f ((g, a) ∷ rest) = pop_at (g == f) (g, a) rest (pop f rest)

abbrev pub futures_of {ℓ} : {A : Type ℓ} → List (ℕ × A) → List ℕ
futures_of [] = []
futures_of ((f, a) ∷ rest) = f ∷ futures_of rest

-- `scores[temperature_index][task_index] = score`
unfoldable pub store {ℓ} :
    {A : Type ℓ} → ℕ → ℕ → A → List (List (Option A)) → Option (List (List (Option A)))
store t i score scores = do
  row ← get_elem? scores t
  filled ← set? row i (some score)
  set? scores t filled

abbrev pub keep_future : {Q : Type 0} → ℕ → Round Q → Round Q
keep_future f (continues q rest) = continues q (f ∷ rest)
keep_future f (stops e q) = stops e q

-- One round of such a loop, before the rounds that `next` stands for.
abbrev pub after_step : {Q : Type 0} → ℕ → Step Q → Q → (Q → Round Q) → Round Q
after_step f ignored q next = keep_future f (next q)
after_step f (handled q') q next = next q'
after_step f (raised e q') q next = stops e q'

abbrev pub each_future : {Q : Type 0} → (ℕ → Q → Step Q) → List ℕ → Q → Round Q
each_future step [] q = continues q []
each_future step (f ∷ fs) q = after_step f (step f q) q (each_future step fs)
