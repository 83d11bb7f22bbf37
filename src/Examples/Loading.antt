-- ===== src/Examples/Loading.antt =====
-- The theorems on `select_discovery_tasks` and `restore_project` at small inputs.
use csharp_llm_benchmark.Prelude.{
  false, ℕ, ◌≡◌, refl, String, none, some, List, [], ◌∷◌, map, All, ◌==◌, string_eq,
}
use csharp_llm_benchmark.Tasks.Model.{Task}
use csharp_llm_benchmark.Tasks.Select.{selected, task_by_id, pick, select_discovery_tasks}
use csharp_llm_benchmark.Tasks.Select.Chosen.{IsLast, IsChoice, select_discovery_tasks-ids}
use csharp_llm_benchmark.Examples.Data.{evolution_task, plain_paths}
use csharp_llm_benchmark.Tasks.Paths.{relative_path}
use csharp_llm_benchmark.Tasks.Project.{
  Disk, ProjectSnapshot, Directory, put, is_editable, checked_file, copy_public_files, delete_files,
  write_files, restore_project,
}
use csharp_llm_benchmark.Tasks.Project.Trusted.{restore_project_trusted}

abbrev with_id : Task ℕ → String → Task ℕ
with_id task id = record task { id = id }

abbrev discovery_list : List (Task ℕ)
discovery_list =
    with_id evolution_task "evolution-discovery-easy-001"
    ∷ with_id evolution_task "evolution-discovery-medium-001"
    ∷ with_id evolution_task "evolution-discovery-medium-002"
    ∷ with_id evolution_task "evolution-discovery-hard-001"
    ∷ []

selects_list : select_discovery_tasks discovery_list ≡ selected discovery_list
unfolding select_discovery_tasks pick task_by_id
selects_list = refl

select_discovery_tasks-ids_example :
    IsChoice discovery_list (map (λ (t : Task ℕ). t.id) discovery_list)
    × All (IsLast discovery_list) discovery_list
select_discovery_tasks-ids_example =
    select_discovery_tasks-ids discovery_list discovery_list selects_list

-- A disk on which only App.cs is a source, and the template holds every path.
abbrev disk : Disk ℕ String
disk = record {
  paths = plain_paths;
  is_source = λ p. p == "App.cs";
  fnmatchcase = λ p pattern. p == pattern;
  leads_out = λ p. false;
  template = λ task p. some "template";
  task_fingerprint = λ task. "sha";
}

abbrev edited : ProjectSnapshot String
edited = record {
  files = record { path = "App.cs"; content = "delivered" } ∷ [];
  deleted_files = [];
  task_fingerprint = "sha";
}

abbrev restored : Directory String
restored =
    put disk evolution_task "App.cs" (some "delivered")
      (put disk evolution_task "App.csproj" (some "template") (λ p. none))

restores : restore_project disk evolution_task edited (λ p. none) ≡ some restored
unfolding restore_project copy_public_files delete_files write_files is_editable checked_file
    relative_path
restores = refl

restore_project_trusted_example :
    (edited.task_fingerprint ≡ disk.task_fingerprint evolution_task)
    × ((copied : Directory String) × (copy_public_files disk evolution_task
            evolution_task.public_files
            (λ p. none)
          ≡ some copied)
        × (restored "App.csproj" ≡ copied "App.csproj"))
restore_project_trusted_example =
    restore_project_trusted disk evolution_task "App.csproj" refl edited (λ p. none) restored
      restores
