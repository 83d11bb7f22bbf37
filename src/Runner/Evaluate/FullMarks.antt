-- ===== src/Runner/Evaluate/FullMarks.antt =====
-- An evolution task whose evaluation has the status "passed" earns all of its points.
use mathlib.Core.Bool.{false≢true}
use csharp_llm_benchmark.Prelude.{
  ◌≡◌, refl, inl, inr, String, some, List, [], ◌∷◌, map, arith, Bool, true, false, ◌&&◌, ◌||◌, ◌==◌,
  string_eq, mem, All-of_mem, Option-cases, if◌then◌else◌,
}
use csharp_llm_benchmark.Prelude.Numbers.{Numbers, OrderLaws, RatioLaws}
use csharp_llm_benchmark.Tasks.Model.{Dict, keys, Task, TestGroup, available_points}
use csharp_llm_benchmark.Runner.Result.{CommandResult, GroupResult, TaskRunResult}
use csharp_llm_benchmark.Runner.Docker.{World, Machine, copy_results_from_container}
use csharp_llm_benchmark.Scorer.{TaskScore, group_passed, score_task}
use csharp_llm_benchmark.Scorer.Bounds.{IsWeighted}
use csharp_llm_benchmark.Scorer.Totals.{score_task_full}
use csharp_llm_benchmark.Runner.Groups.{
  Delivery, Setting, Groups, returned, settle_groups, all_tests, is_nil, groups_result,
  container_name, container_workdir, put_group, evaluate_group, evaluate_groups,
  evaluate_test_groups, no_groups,
}
use csharp_llm_benchmark.Runner.Evaluate.Settle.{SortLaw, expected, settled_passed}

status_passed :
    (infrastructure nil all_zero : Bool)
    → ◌≡◌ {A = String}
        (if infrastructure
          then "infrastructure_error"
          else if nil && all_zero
          then "passed"
          else "tests_failed")
        "passed"
    → nil ≡ true
status_passed true nil all_zero h =
    absurd (false≢true ((string_eq.beq_iff "infrastructure_error" "passed").1 h))
status_passed false true all_zero h = refl
status_passed false false all_zero h =
    absurd (false≢true ((string_eq.beq_iff "tests_failed" "passed").1 h))

module _ {N Meta Snapshot : Type 0} (w : World) (s : Setting N Snapshot) (task : Task N)
    (d : Delivery N Meta Snapshot) (law : SortLaw s.strings) where
  abbrev pub names : List TestGroup → List String
  names groups = map (λ g. g.name) groups

  mem-put :
      (x name : String) (value : GroupResult) (groups : Dict GroupResult)
      → mem x (keys (put_group w s task d name value groups)) ≡ (name == x || mem x (keys groups))
  unfolding put_group
  mem-put x name value [] = refl
  mem-put x name value ((k, v) ∷ groups) =
      ground (arith, mem-put x name value groups, string_eq.beq_iff k name)

  evaluate_group-keys :
      (x : String) (group : TestGroup) (g : Groups w s task d) (m : Machine)
      → mem x (keys (evaluate_group w s task d group g m).0.groups)
        ≡ (group.name == x || mem x (keys g.groups))
  unfolding evaluate_group
  evaluate_group-keys x group g m = mem-put x group.name _ g.groups

  mem-evaluate_groups :
      (x : String) (groups : List TestGroup) (g : Groups w s task d) (m : Machine)
      → (mem x (names groups) || mem x (keys g.groups)) ≡ true
      → mem x (keys (evaluate_groups w s task d groups g m).0.groups) ≡ true
  unfolding evaluate_groups
  mem-evaluate_groups x [] g m h = h
  mem-evaluate_groups x (group ∷ groups) g m h =
      let (g', m') = evaluate_group w s task d group g m in
      mem-evaluate_groups x groups g' m' (ground (arith, evaluate_group-keys x group g m))

  -- What the status "passed" says of the groups.
  passed_groups :
      (build copied : CommandResult) (g : Groups w s task d) (m : Machine)
      → (groups_result w s task d build g copied m).status ≡ "passed"
      → is_nil w s task d
          (all_tests w s task d (λ r. r.failed_tests) (settle_groups w s task d m g.groups))
        ≡ true
  unfolding groups_result
  passed_groups build copied g m h = status_passed _ _ _ h

  -- The groups at the end of the loop.
  looped : Machine → Groups w s task d
  looped m = (evaluate_groups w s task d task.test_groups (no_groups w s task d) m).0

  looped-keys :
      (m : Machine) (x : String)
      → mem x (names task.test_groups) ≡ true
      → mem x (keys (looped m).groups) ≡ true
  unfolding looped
  looped-keys m x h = mem-evaluate_groups x task.test_groups (no_groups w s task d) m (ground arith)

  returned_groups :
      (build : CommandResult) (m m' : Machine) (r : TaskRunResult N Meta)
      → evaluate_test_groups w s task d build m ≡ (returned r, m')
      → (copy : CommandResult) × (r ≡ groups_result w s task d build (looped m) copy m')
  unfolding evaluate_test_groups looped
  returned_groups build m m' r h =
      let (copied, m2) =
        copy_results_from_container w (container_name w s task d) (container_workdir w s task d)
          (evaluate_groups w s task d task.test_groups (no_groups w s task d) m).1 in
      elim (Option-cases copied) [
        | inl e ↦ absurd (ground arith)
        | inr (copy, e) ↦ (copy, ground arith)
      ]

  module _ (num : Numbers N) (laws : OrderLaws num) (ratios : RatioLaws num) where
    -- If the groups "feature" and "regression" are among the task's groups, its weights are sound,
    -- and its evaluation in test groups returns a result with the status "passed", then the score
    -- of that result is all the points that the task offers.
    pub passed_earns_all :
        (build : CommandResult) (m m' : Machine) (r : TaskRunResult N Meta)
        (score : TaskScore N Meta)
        → IsWeighted num laws task.score
        → task.suite ≡ "evolution"
        → mem "feature" (names task.test_groups) ≡ true
        → mem "regression" (names task.test_groups) ≡ true
        → evaluate_test_groups w s task d build m ≡ (returned r, m')
        → r.status ≡ "passed"
        → score_task num task r ≡ some score
        → score.earned_points ≡ available_points num task.score
    unfolding groups_result
    passed_earns_all build m m' r score weighted suite feature regression ran passed scored =
        score_task_full num laws ratios task r score weighted (rw passed)
          (λ other. absurd (other suite))
          (λ _. (
            All-of_mem _ _ (λ x e. group_has "feature" x feature e),
            All-of_mem _ _ (λ x e. group_has "regression" x regression e),
          ))
          scored
      where
        group_has :
            (name x : String)
            → mem name (names task.test_groups) ≡ true
            → mem x (expected w s task d law name) ≡ true
            → mem x (group_passed r.test_group_results name) ≡ true
        group_has name x listed wanted =
            let (copy, e) = returned_groups build m m' r ran in
            let finished = passed_groups build copy (looped m) m' (rw e at passed) in
            rw e (
              settled_passed w s task d law m' name x (looped m).groups (looped-keys m name listed)
                finished wanted)
