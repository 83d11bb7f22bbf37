-- ===== src/Tasks/Select.antt =====
-- benchmark/tasks.py: `load_tasks` and `select_discovery_tasks`. The directories, the reading of a
-- task from its file and the methods of `str` and `sorted` are the parameter `TaskFiles`.
pub mod Chosen
use csharp_llm_benchmark.Prelude.{
  is_empty, String, Option, none, some, List, [], ◌∷◌, ◌++◌, map, select, mem, all, Bool, true,
  false, not, ◌&&◌, ◌||◌, ◌==◌, string_eq, ◌>>=◌, if◌then◌else◌,
}
use csharp_llm_benchmark.Tasks.Model.{Task}
use csharp_llm_benchmark.Tasks.Validate.{supported_suites}

abbrev pub default_difficulty_order : List String
default_difficulty_order = "easy" ∷ "medium" ∷ "hard" ∷ []

abbrev pub discovery_task_ids : List String
discovery_task_ids =
    "easy-003" ∷ "easy-006" ∷ "medium-006" ∷ "medium-009" ∷ "medium-011" ∷ "hard-007" ∷ "hard-013"
    ∷ []

abbrev pub evolution_discovery_task_ids : List String
evolution_discovery_task_ids =
    "evolution-discovery-easy-001" ∷ "evolution-discovery-medium-001"
    ∷ "evolution-discovery-medium-002" ∷ "evolution-discovery-hard-001" ∷ []

pub record TaskFiles (N : Type 0) : Type 0 where
  -- The directories below one, `none` for one that does not exist.
  pub directories : String → Option (List String)
  -- `none` for a directory without task.yaml, `some none` for one that cannot be read
  pub task_of : String → Option (Option (Task N))
  pub join : String → String → String
  pub sorted : List String → List String
  -- `s.strip().lower()`
  pub normal : String → String

-- What `select_discovery_tasks` returns, or the ids that its RuntimeError names.
pub data Selected (N : Type 0) : Type 0 where
  selected : List (Task N) → Selected N
  not_found : List String → Selected N

module _ {N : Type 0} where
  -- `{task.id: task for task in tasks}`, read at a key: the last task with it.
  unfoldable pub task_by_id : String → List (Task N) → Option (Task N)
  task_by_id id [] = none
  task_by_id id (task ∷ tasks) = elim (task_by_id id tasks) [
    | some later ↦ some later
    | none ↦ if task.id == id then some task else none
  ]

  -- `{task.suite for task in tasks} == {"evolution"}`
  abbrev pub is_evolution_list : List (Task N) → Bool
  is_evolution_list tasks =
      not (is_empty tasks) && all (λ (t : Task N). t.suite == "evolution") tasks

  abbrev pub expected_ids : List (Task N) → List String
  expected_ids tasks =
      if is_evolution_list tasks then evolution_discovery_task_ids else discovery_task_ids

  -- The loop over the expected ids: the tasks that are there and the ids that are missing.
  unfoldable pub pick : List (Task N) → List String → List (Task N) × List String
  pick tasks [] = ([], [])
  pick tasks (id ∷ ids) =
      let (found, missing) = pick tasks ids in
      elim (task_by_id id tasks) [
        | none ↦ (found, id ∷ missing)
        | some task ↦ (task ∷ found, missing)
      ]

  abbrev pub settle : List (Task N) × List String → Selected N
  settle (found, []) = selected found
  settle (found, id ∷ missing) = not_found (id ∷ missing)

  unfoldable pub select_discovery_tasks : List (Task N) → Selected N
  unfolding pick
  select_discovery_tasks tasks = settle (pick tasks (expected_ids tasks))

  module _ (files : TaskFiles N) where
    unfoldable pub load_directories : List String → Option (List (Task N))
    load_directories [] = some []
    load_directories (directory ∷ directories) =
        let rest = load_directories directories in
        elim (files.task_of directory) [
          | none ↦ rest
          | some none ↦ none
          | some (some task) ↦ do tasks ← rest; some (task ∷ tasks)
        ]

    unfoldable pub load_tasks_from_difficulty : String → String → Option (List (Task N))
    unfolding load_directories
    load_tasks_from_difficulty difficulty tasks_root = do
      directories ← files.directories (files.join tasks_root difficulty)
      load_directories (files.sorted directories)

    unfoldable pub is_all_difficulties : Option String → Bool
    is_all_difficulties none = true
    is_all_difficulties (some difficulty) = files.normal difficulty == "all"

    -- The known difficulties in their order, then the others.
    unfoldable pub order_difficulties : List String → List String
    order_difficulties discovered =
        select (λ d. mem d discovered) default_difficulty_order
        ++ files.sorted (select (λ d. not (mem d default_difficulty_order)) discovered)

    unfoldable pub discover_difficulties : String → Option (List String)
    unfolding order_difficulties
    discover_difficulties tasks_root = do
      names ← files.directories tasks_root
      some (order_difficulties (select (λ name. not (mem name supported_suites)) names))

    unfoldable pub load_difficulties : String → List String → Option (List (Task N))
    unfolding load_tasks_from_difficulty
    load_difficulties tasks_root [] = some []
    load_difficulties tasks_root (difficulty ∷ difficulties) = do
      first ← load_tasks_from_difficulty difficulty tasks_root
      rest ← load_difficulties tasks_root difficulties
      some (first ++ rest)

    abbrev pub has_role : Option String → Task N → Bool
    has_role none task = true
    has_role (some role) task = task.role == role

    -- `none` for no difficulty is never read: it stands for all of them.
    abbrev pub text_of : Option String → String
    text_of none = "None"
    text_of (some difficulty) = difficulty

    abbrev pub root_of : String → String → String
    root_of tasks_root suite =
        if suite == "evolution" then files.join tasks_root "evolution" else tasks_root

    unfoldable pub load_root : Option String → String → Option (List (Task N))
    unfolding discover_difficulties load_difficulties load_tasks_from_difficulty is_all_difficulties
    load_root difficulty root =
        let every = (do
          difficulties ← discover_difficulties root
          load_difficulties root difficulties) in
        let one = load_tasks_from_difficulty (text_of difficulty) root in
        if is_all_difficulties difficulty then every else one

    -- `load_tasks` for one suite; `none` is an exception.
    unfoldable pub load_suite :
        Option String → String → String → Option String → Option (List (Task N))
    unfolding load_root
    load_suite difficulty tasks_root suite role =
        let loaded = (do
          tasks ← load_root difficulty (root_of tasks_root suite)
          some (select (has_role role) tasks)) in
        if not (mem suite supported_suites) then none else loaded

    unfoldable pub load_suites :
        Option String → String → List String → Option String → Option (List (Task N))
    unfolding load_suite
    load_suites difficulty tasks_root [] role = some []
    load_suites difficulty tasks_root (suite ∷ suites) role = do
      first ← load_suite difficulty tasks_root suite role
      rest ← load_suites difficulty tasks_root suites role
      some (first ++ rest)

    unfoldable pub load_tasks :
        Option String → String → String → Option String → Option (List (Task N))
    unfolding load_suites load_suite
    load_tasks difficulty tasks_root suite role =
        if suite == "all"
        then load_suites difficulty tasks_root supported_suites role
        else load_suite difficulty tasks_root suite role
