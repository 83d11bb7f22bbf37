-- ===== src/Tasks/Select/Chosen.antt =====
-- Which tasks are selected for discovery.
use csharp_llm_benchmark.Prelude.{
  ◌≢◌, ◌≡◌, refl, ap, String, none, some, List, [], ◌∷◌, ◌++◌, map, arith, string_eq, All,
  Option-cases, inl, inr, ◌⊎◌, true, ◌==◌, all, Bool-cases,
}
use csharp_llm_benchmark.Tasks.Model.{Task}
use csharp_llm_benchmark.Tasks.Select.{
  selected, task_by_id, expected_ids, pick, settle, select_discovery_tasks,
}

module _ {N : Type 0} where
  -- The task is in the list, and no task behind it has its id.
  pub record IsLast (tasks : List (Task N)) (task : Task N) : Type 0 where
    pub before : List (Task N)
    pub after : List (Task N)
    pub split : tasks ≡ before ++ task ∷ after
    pub last : All (λ (t : Task N). t.id ≢ task.id) after

  task_by_id-none :
      (id : String) (tasks : List (Task N))
      → task_by_id id tasks ≡ none
      → All (λ (t : Task N). t.id ≢ id) tasks
  unfolding task_by_id
  task_by_id-none id [] h = tt
  task_by_id-none id (t ∷ tasks) h = elim (Option-cases (task_by_id id tasks)) [
    | inl e ↦ (λ k. ground (arith, string_eq.beq_iff t.id id), task_by_id-none id tasks e)
    | inr (later, e) ↦ absurd (ground arith)
  ]

  task_by_id-IsLast :
      (id : String) (tasks : List (Task N)) (task : Task N)
      → task_by_id id tasks ≡ some task
      → task.id ≡ id
      → IsLast tasks task
  unfolding task_by_id
  task_by_id-IsLast id [] task h own = absurd (cc)
  task_by_id-IsLast id (t ∷ tasks) task h own = elim (Option-cases (task_by_id id tasks)) [
    | inl e ↦
        let same : t ≡ task = ground arith in
        record {
          before = [];
          after = tasks;
          split = ap (λ (u : Task N). u ∷ tasks) same;
          last = rw own (task_by_id-none id tasks e);
        }
    | inr (later, e) ↦
        let rest = task_by_id-IsLast id tasks task (ground arith) own in
        record {
          before = t ∷ rest.before;
          after = rest.after;
          split = ap (λ (l : List (Task N)). t ∷ l) rest.split;
          last = rest.last;
        }
  ]

  task_by_id-id :
      (id : String) (tasks : List (Task N)) (task : Task N)
      → task_by_id id tasks ≡ some task
      → task.id ≡ id
  unfolding task_by_id
  task_by_id-id id [] task h = absurd (cc)
  task_by_id-id id (t ∷ tasks) task h = elim (Option-cases (task_by_id id tasks)) [
    | inl e ↦ ground (arith, string_eq.beq_iff t.id id)
    | inr (later, e) ↦ task_by_id-id id tasks task (ground arith)
  ]

  pick_lem :
      (tasks : List (Task N)) (ids : List String)
      → (pick tasks ids).1 ≡ []
      → (map (λ (t : Task N). t.id) (pick tasks ids).0 ≡ ids)
        × All (IsLast tasks) (pick tasks ids).0
  unfolding pick
  pick_lem tasks [] h = (refl, tt)
  pick_lem tasks (id ∷ ids) h = elim (Option-cases (task_by_id id tasks)) [
    | inl e ↦ absurd (cc (rw (e, pick) at h))
    | inr (task, e) ↦
        let (same, found) = pick_lem tasks ids (rw (e, pick) at h) in
        let own = task_by_id-id id tasks task e in
        rw (e, pick) (rw (own, same) refl, (task_by_id-IsLast id tasks task e own, found))
  ]

  -- The list has a task, and all its tasks are of the evolution suite.
  abbrev pub IsEvolution : List (Task N) → Type 0
  IsEvolution tasks = (tasks ≢ []) × All (λ (t : Task N). t.suite ≡ "evolution") tasks

  -- The ids of the tasks that are selected from a list.
  abbrev pub IsChoice : List (Task N) → List String → Type 0
  IsChoice tasks ids =
      (IsEvolution tasks
        × (ids
            ≡ "evolution-discovery-easy-001" ∷ "evolution-discovery-medium-001"
              ∷ "evolution-discovery-medium-002" ∷ "evolution-discovery-hard-001" ∷ []))
      ⊎ (¬ IsEvolution tasks
          × (ids
              ≡ "easy-003" ∷ "easy-006" ∷ "medium-006" ∷ "medium-009" ∷ "medium-011" ∷ "hard-007"
                ∷ "hard-013" ∷ []))

  all-All :
      (tasks : List (Task N))
      → all (λ (t : Task N). t.suite == "evolution") tasks ≡ true
      → All (λ (t : Task N). t.suite ≡ "evolution") tasks
  all-All [] h = tt
  all-All (t ∷ tasks) h =
      (ground (arith, string_eq.beq_iff t.suite "evolution"), all-All tasks (ground arith))

  All-all :
      (tasks : List (Task N))
      → All (λ (t : Task N). t.suite ≡ "evolution") tasks
      → all (λ (t : Task N). t.suite == "evolution") tasks ≡ true
  All-all [] h = refl
  All-all (t ∷ tasks) h = ground (arith, string_eq.beq_iff t.suite "evolution", All-all tasks h.1)

  expected_ids-IsChoice : (tasks : List (Task N)) → IsChoice tasks (expected_ids tasks)
  expected_ids-IsChoice [] = inr (λ e. e.0 refl, refl)
  expected_ids-IsChoice (t ∷ tasks) =
      elim (Bool-cases (all (λ (t : Task N). t.suite == "evolution") (t ∷ tasks))) [
        | inl e ↦ inl ((λ k. cc, all-All (t ∷ tasks) e), rw e refl)
        | inr e ↦ inr (λ k. cc (e, All-all (t ∷ tasks) k.1), rw e refl)
      ]

  -- The tasks that are selected for discovery are those with the seven fixed ids, in their order, or
  -- those with the four fixed ids of the evolution suite exactly if the list has a task and all its
  -- tasks are of that suite; each is the last task of the list with its id.
  pub select_discovery_tasks-ids :
      (tasks found : List (Task N))
      → select_discovery_tasks tasks ≡ selected found
      → IsChoice tasks (map (λ (t : Task N). t.id) found) × All (IsLast tasks) found
  unfolding select_discovery_tasks
  select_discovery_tasks-ids tasks found h =
      let (ids, last) = settled (pick tasks (expected_ids tasks)) refl h in
      (rw ids (expected_ids-IsChoice tasks), last)
    where
      settled :
          (p : List (Task N) × List String)
          → p ≡ pick tasks (expected_ids tasks)
          → settle p ≡ selected found
          → (map (λ (t : Task N). t.id) found ≡ expected_ids tasks) × All (IsLast tasks) found
      settled (l, []) e s =
          let same : (pick tasks (expected_ids tasks)).0 ≡ found = ground arith in
          rw (← same) (pick_lem tasks (expected_ids tasks) (cc))
      settled (l, id ∷ ids) e s = absurd (cc)
