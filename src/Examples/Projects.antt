-- ===== src/Examples/Projects.antt =====
-- A project that is captured from a small workspace and restored.
use csharp_llm_benchmark.Prelude.{
  Bool, false, true, ℕ, ◌≡◌, refl, String, none, some, [], ◌∷◌, All, ◌==◌, string_eq, if◌then◌else◌,
}
use csharp_llm_benchmark.Tasks.Model.{Task}
use csharp_llm_benchmark.Tasks.Paths.{relative_path}
use csharp_llm_benchmark.Tasks.Project.{
  ProjectFile, ProjectSnapshot, Directory, Disk, put, is_editable, checked_file, copy_public_files,
  restore_project,
}
use csharp_llm_benchmark.Tasks.Capture.{
  folder, last, also, Workspace, relative_paths, checked_path, check_public, take_files, walk,
  capture_project,
}
use csharp_llm_benchmark.Tasks.Capture.Restored.{IsRestored, capture_project-restore_project}
use csharp_llm_benchmark.Examples.Data.{evolution_task, plain_paths}

-- A task that gives a project file and two sources, of which all sources can be edited.
abbrev sources_task : Task ℕ
sources_task = record evolution_task {
  public_files = "App.csproj" ∷ "src/Old.cs" ∷ "src/App.cs" ∷ [];
  editable_files = "src/App.cs" ∷ "src/Old.cs" ∷ "src/New.cs" ∷ [];
}

abbrev starter : Disk ℕ String
starter = record {
  paths = plain_paths;
  is_source = λ p. true;
  fnmatchcase = λ p pattern. p == pattern;
  leads_out = λ p. false;
  template = λ task p. some "template";
  task_fingerprint = λ task. "sha";
}

-- src/Old.cs is deleted, src/New.cs is new, and what stands in src/bin is passed over.
abbrev edited_workspace : Workspace String
edited_workspace = record {
  directory = λ p.
      if p == "App.csproj"
      then some "template"
      else if p == "src/App.cs"
      then some "edited"
      else if p == "src/New.cs"
      then some "new"
      else none;
  leads_out = λ p. false;
  sources =
      folder
        (record { name = "New.cs"; is_linked = false }
          ∷ record { name = "App.cs"; is_linked = false }
          ∷ [])
        (also (record { name = "bin"; is_linked = false })
          (folder (record { name = "App.dll"; is_linked = false } ∷ []) last) last);
}

-- The order of texts, as far as the example needs it.
abbrev app_first : String → String → Bool
app_first a b = a == "src/App.cs"

abbrev delivery : ProjectSnapshot String
delivery = record {
  files =
      record { path = "src/App.cs"; content = "edited" }
      ∷ record { path = "src/New.cs"; content = "new" }
      ∷ [];
  deleted_files = "src/Old.cs" ∷ [];
  task_fingerprint = "sha";
}

captures : capture_project starter app_first sources_task edited_workspace ≡ some delivery
unfolding capture_project relative_paths check_public checked_path walk take_files is_editable
    relative_path
captures = refl

abbrev copy : Directory String
copy = put starter sources_task "src/App.cs" (some "template") (
    put starter sources_task "src/Old.cs" (some "template")
      (put starter sources_task "App.csproj" (some "template") (λ p. none)))

copies : copy_public_files starter sources_task sources_task.public_files (λ p. none) ≡ some copy
unfolding copy_public_files checked_file relative_path
copies = refl

normal_names :
    All
      (λ n. relative_path plain_paths n ≡ some n)
      ("App.csproj" ∷ "src/Old.cs" ∷ "src/App.cs" ∷ [])
unfolding relative_path
normal_names = (refl, (refl, (refl, tt)))

normal_files :
    All
      (λ (f : ProjectFile String).
        (relative_path plain_paths f.path ≡ some f.path) × (false ≡ false))
      delivery.files
unfolding relative_path
normal_files = ((refl, refl), ((refl, refl), tt))

capture_project-restore_project_example :
    (after : Directory String) × (restore_project starter sources_task delivery (λ p. none)
      ≡ some after)
    × All
        (λ (f : ProjectFile String). after f.path ≡ edited_workspace.directory f.path)
        delivery.files
    × All
        (IsRestored starter app_first sources_task edited_workspace delivery after)
        sources_task.public_files
capture_project-restore_project_example =
    capture_project-restore_project starter app_first sources_task edited_workspace delivery
      (λ p. none) copy captures normal_names (normal_files, (refl, (refl, tt))) copies
