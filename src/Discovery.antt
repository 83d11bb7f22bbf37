-- ===== src/Discovery.antt =====
-- The choice of a temperature: benchmark/cli.py, `_select_best_temperature_run`,
-- `_completed_task_scores`, `_build_discovery_reuse_map`, and the choice that
-- benchmark/report.py makes again in `_discovery_payload`.
pub mod Best
pub mod Reuse
pub mod Infer
use csharp_llm_benchmark.Prelude.{
  ℕ, suc, zero, String, Option, none, some, List, [], ◌∷◌, Bool, true, false, ◌==◌, string_eq,
  length, nat_eq, get_elem?, not, ◌>>=◌, if◌then◌else◌,
}
use csharp_llm_benchmark.Prelude.Numbers.{Numbers}
use csharp_llm_benchmark.Prelude.Order.{tuple_lt, max_from}
use csharp_llm_benchmark.Scorer.{TaskScore, BenchmarkScore}

pub record TemperatureRun (N Meta : Type 0) : Type 0 where
  pub temperature : N
  pub score : BenchmarkScore N Meta
  pub task_scores : List (TaskScore N Meta)

-- The scores that are there; `none` is the RuntimeError for one that is missing.
unfoldable pub completed_task_scores {ℓ} : {A : Type ℓ} → List (Option A) → Option (List A)
completed_task_scores [] = some []
completed_task_scores (none ∷ scores) = none
completed_task_scores (some s ∷ scores) = do rest ← completed_task_scores scores; some (s ∷ rest)

module _ {N Meta : Type 0} (num : Numbers N) where
  -- `(earned_points, final_score, -temperature)`
  abbrev pub run_key : TemperatureRun N Meta → List N
  run_key run = run.score.earned_points ∷ run.score.final_score ∷ num.neg run.temperature ∷ []

  abbrev pub is_better : TemperatureRun N Meta → TemperatureRun N Meta → Bool
  is_better a b = tuple_lt num (run_key b) (run_key a)

  -- `none` is the RuntimeError for no runs.
  unfoldable pub select_best_temperature_run :
      List (TemperatureRun N Meta) → Option (TemperatureRun N Meta)
  unfolding max_from
  select_best_temperature_run [] = none
  select_best_temperature_run (run ∷ runs) = some (max_from is_better run runs)

  -- The reports compare `(earned_points, -temperature)`.
  abbrev pub payload_key : TemperatureRun N Meta → List N
  payload_key run = run.score.earned_points ∷ num.neg run.temperature ∷ []

  abbrev pub is_better_in_payload : TemperatureRun N Meta → TemperatureRun N Meta → Bool
  is_better_in_payload a b = tuple_lt num (payload_key b) (payload_key a)

  -- The loop of `_discovery_payload`, on the best run so far in place of its index.
  unfoldable pub payload_loop :
      TemperatureRun N Meta → List (TemperatureRun N Meta) → TemperatureRun N Meta
  payload_loop best [] = best
  payload_loop best (run ∷ runs) =
      payload_loop (if is_better_in_payload run best then run else best) runs

  -- `none` is the IndexError for no runs. The loop begins with the first run, which it also visits.
  unfoldable pub payload_selected_temperature : List (TemperatureRun N Meta) → Option N
  unfolding payload_loop
  payload_selected_temperature [] = none
  payload_selected_temperature (run ∷ runs) = some (payload_loop run (run ∷ runs)).temperature

  -- `{ts.task_id: ts for ts in winning_run.task_scores}`, read at a key: the last score with it.
  unfoldable pub reused_score : String → List (TaskScore N Meta) → Option (TaskScore N Meta)
  reused_score id [] = none
  reused_score id (ts ∷ scores) = elim (reused_score id scores) [
    | some later ↦ some later
    | none ↦ if ts.task_id == id then some ts else none
  ]
