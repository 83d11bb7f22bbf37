-- ===== src/Discovery/Infer.antt =====
-- benchmark/cli.py: `_infer_selected_temperature`. The results that are on disk are the parameter
-- `stored`; `none` for one that is missing or cannot be read.
use csharp_llm_benchmark.Prelude.{
  String, Option, none, some, List, [], ◌∷◌, length, Bool, false, ◌==◌, nat_eq, string_eq, ◌>>=◌,
  if◌then◌else◌,
}
use csharp_llm_benchmark.Prelude.Numbers.{Numbers}
use csharp_llm_benchmark.Tasks.Model.{Task}
use csharp_llm_benchmark.Tasks.Select.{selected, not_found, select_discovery_tasks}
use csharp_llm_benchmark.Runner.Result.{TaskRunResult}
use csharp_llm_benchmark.Scorer.{TaskScore, score_task, score_benchmark}
use csharp_llm_benchmark.Discovery.{TemperatureRun, select_best_temperature_run}

module _ {N Meta : Type 0} (num : Numbers N)
    (stored : N → String → Option (TaskRunResult N Meta)) where
  -- The scores of the stored results at one temperature; `none` is an exception of the scoring.
  unfoldable pub stored_scores : N → List (Task N) → Option (List (TaskScore N Meta))
  stored_scores temperature [] = some []
  stored_scores temperature (task ∷ tasks) =
      let rest = stored_scores temperature tasks in
      elim (stored temperature task.id) [
        | none ↦ rest
        | some result ↦ do score ← score_task num task result; scores ← rest; some (score ∷ scores)
      ]

  unfoldable pub stored_runs : List (Task N) → List N → Option (List (TemperatureRun N Meta))
  unfolding stored_scores
  stored_runs tasks [] = some []
  stored_runs tasks (temperature ∷ temperatures) = do
    scores ← stored_scores temperature tasks
    runs ← stored_runs tasks temperatures
    some (
        if length scores == length tasks
        then record {
          temperature = temperature;
          score = score_benchmark num scores;
          task_scores = scores;
        }
          ∷ runs
        else runs)

  -- `none` outside for an exception, inside for no temperature. `evolution_tasks` is what
  -- `load_tasks` finds for the discovery of the evolution suite.
  unfoldable pub infer_selected_temperature :
      List (Task N) → List (Task N) → List N → Option (Option N)
  unfolding stored_runs
  infer_selected_temperature evolution_tasks tasks temperatures =
      elim (select_discovery_tasks
        (if starts_with_evolution tasks then evolution_tasks else tasks)) [
          | not_found missing ↦ some none
          | selected discovery_tasks ↦ do
            runs ← stored_runs discovery_tasks temperatures
            some (
                if length runs == length temperatures
                then (do run ← select_best_temperature_run num runs; some run.temperature)
                else none)
        ]
    where
      starts_with_evolution : List (Task N) → Bool
      starts_with_evolution [] = false
      starts_with_evolution (task ∷ rest) = task.suite == "evolution"
