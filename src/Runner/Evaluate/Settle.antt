-- ===== src/Runner/Evaluate/Settle.antt =====
-- The tests that an evolution task's groups are said to have passed and failed.
use csharp_llm_benchmark.Prelude.{
  ◌<>◌, ◌≡◌, refl, inl, inr, String, some, List, [], ◌∷◌, arith, true, false, not, ◌&&◌, ◌||◌, ◌==◌,
  string_eq, mem, Bool-cases, if◌then◌else◌,
}
use csharp_llm_benchmark.Tasks.Model.{Dict, keys, Task}
use csharp_llm_benchmark.Runner.Result.{GroupResult}
use csharp_llm_benchmark.Runner.Docker.{World, Machine}
use csharp_llm_benchmark.Runner.Trx.{
  Strings, Results, add, union, minus, no_results, parse_trx_results,
}
use csharp_llm_benchmark.Scorer.{group_passed}
use csharp_llm_benchmark.Runner.Groups.{
  Delivery, Setting, is_missing, settle_group, settle_groups, all_tests, is_nil,
}

-- `sorted` keeps the members of a set.
pub record SortLaw (lib : Strings) : Type 0 where
  pub same_members : (x : String) (l : List String) → mem x (lib.sorted l) ≡ mem x l

mem-add : (x y : String) (l : List String) → mem x (add y l) ≡ (y == x || mem x l)
mem-add x y l = elim (Bool-cases (mem y l)) [
  | inl e ↦ elim (Bool-cases (y == x)) [
    | inl same ↦ let e' : y ≡ x = (string_eq.beq_iff y x).0 same in rw (e, same) (rw (← e') e)
    | inr other ↦ rw (e, other)
  ]
  | inr e ↦ rw e
]

mem-union : (x : String) (xs ys : List String) → mem x (union xs ys) ≡ (mem x xs || mem x ys)
mem-union x [] ys = refl
mem-union x (y ∷ xs) ys = ground (arith, mem-add x y (union xs ys), mem-union x xs ys)

mem-minus : (x : String) (xs ys : List String) → mem x (minus xs ys) ≡ (mem x xs && not (mem x ys))
mem-minus x [] ys = refl
mem-minus x (y ∷ xs) ys = elim (Bool-cases (y == x)) [
  | inl same ↦
      let e' : y ≡ x = (string_eq.beq_iff y x).0 same in
      rw (← e') (ground (arith, mem-minus y xs ys, string_eq.beq_iff y y))
  | inr other ↦ ground (arith, mem-minus x xs ys)
]

module _ {N Meta Snapshot : Type 0} (w : World) (s : Setting N Snapshot) (task : Task N)
    (d : Delivery N Meta Snapshot) (law : SortLaw s.strings) where
  -- The tests that the task expects of a group.
  abbrev pub expected : String → List String
  expected name = keys (if name == "feature" then task.score.tests else task.score.regression)

  -- A test of a group counts as passed exactly if the group's tests were run and the results say
  -- that it passed and not that it failed; it counts as failed exactly if the tests were run and
  -- the results say that it failed, or if it was expected and did not pass in a run. So no test
  -- counts as both, and each expected test counts as one of them.
  pub settle_group-mem :
      (name : String) (parsed : Results) (group : GroupResult) (x : String)
      → let ran = not (is_missing group.test_exit_code) in
        let settled = settle_group w s task d name parsed group in
        (mem x settled.passed_tests
          ≡ (ran && mem x parsed.passed && not (mem x settled.failed_tests)))
        × (mem x settled.failed_tests ≡ (
            ran && mem x parsed.failed
            || mem x (expected name) && not (ran && mem x parsed.passed)))
        × ((mem x settled.passed_tests && mem x settled.failed_tests) ≡ false)
        × ((not (mem x (expected name))
              || (mem x settled.passed_tests || mem x settled.failed_tests))
            ≡ true)
  unfolding settle_group
  settle_group-mem name parsed group x =
      let r : Results = if is_missing group.test_exit_code then no_results else parsed in
      let failed = union r.failed (minus (expected name) r.passed) in
      ground (
        arith,
        law.same_members x failed,
        law.same_members x (minus r.passed failed),
        mem-union x r.failed (minus (expected name) r.passed),
        mem-minus x (expected name) r.passed,
        mem-minus x r.passed failed,
      )

  pub no_member : (x : String) (l : List String) → is_nil w s task d l ≡ true → mem x l ≡ false
  no_member x [] h = refl
  no_member x (y ∷ l) h = absurd (cc)

  union-nil_inv :
      (xs ys : List String)
      → is_nil w s task d (union xs ys) ≡ true
      → (is_nil w s task d xs ≡ true) × (is_nil w s task d ys ≡ true)
  union-nil_inv [] ys h = (refl, h)
  union-nil_inv (x ∷ xs) ys h = absurd (
      ground
        (arith, no_member x (union (x ∷ xs) ys) h, mem-union x (x ∷ xs) ys, string_eq.beq_iff x x))

  -- Where no test of any group failed, each expected test of a group that ran is among those that
  -- the group passed.
  pub settled_passed :
      (m : Machine) (name x : String) (groups : Dict GroupResult)
      → mem name (keys groups) ≡ true
      → is_nil w s task d
          (all_tests w s task d (λ r. r.failed_tests) (settle_groups w s task d m groups))
        ≡ true
      → mem x (expected name) ≡ true
      → mem x (group_passed (some (settle_groups w s task d m groups)) name) ≡ true
  unfolding group_passed settle_groups
  settled_passed m name x [] k h e = absurd (cc)
  settled_passed m name x ((key, group) ∷ groups) k h e =
      let parsed = parse_trx_results s.strings (w.result_files m.events ("TestResults/" <> key)) in
      let settled = settle_group w s task d key parsed group in
      let (first, rest) =
        union-nil_inv settled.failed_tests
          (all_tests w s task d (λ r. r.failed_tests) (settle_groups w s task d m groups)) h in
      elim (Bool-cases (key == name)) [
        | inl same ↦
            let e' : key ≡ name = (string_eq.beq_iff key name).0 same in
            let (passes, fails, _, _) = settle_group-mem key parsed group x in
            let clean = no_member x settled.failed_tests first in
            let wanted : mem x (expected key) ≡ true = rw e' e in rw same (ground arith)
        | inr other ↦ rw other (settled_passed m name x groups (ground arith) rest e)
      ]
