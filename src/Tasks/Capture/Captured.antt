-- ===== src/Tasks/Capture/Captured.antt =====
-- What is known of a snapshot that `capture_project` returns.
use mathlib.Core.Path.{subst}
use csharp_llm_benchmark.Prelude.{
  ◌≡◌, refl, sym, ◌∙◌, String, some, List, mem, arith, Bool, false, Eq, string_eq, bind_inv, All,
  All-of_mem, mem_All, IsDistinct,
}
use csharp_llm_benchmark.Prelude.Sort.{
  sort, All-sort, mem-sort, IsDistinct-sort, to_set, mem-to_set, to_set-IsDistinct,
}
use csharp_llm_benchmark.Tasks.Model.{Task}
use csharp_llm_benchmark.Tasks.Paths.{relative_path}
use csharp_llm_benchmark.Tasks.Project.{ProjectFile, ProjectSnapshot, Disk}
use csharp_llm_benchmark.Tasks.Capture.{
  Workspace, relative_paths, checked_path, check_public, walk, path_lt, capture_project,
}
use csharp_llm_benchmark.Tasks.Capture.Checked.{
  relative_paths_normal, IsKept, IsDeleted, check_public-IsChecked,
}
use csharp_llm_benchmark.Tasks.Capture.Walked.{IsTaken, walk-IsTaken}

module _ {N Content : Type 0} ⦃same : Eq Content⦄ (disk : Disk N Content)
    (str_lt : String → String → Bool) (task : Task N) (workspace : Workspace Content) where
  -- What the capture of a project knows of it.
  abbrev pub IsCaptured : ProjectSnapshot Content → Type 0
  IsCaptured snapshot =
      (snapshot.task_fingerprint ≡ disk.task_fingerprint task)
      × All (IsTaken disk str_lt task workspace task.public_files) snapshot.files
      × All (IsKept disk str_lt task workspace snapshot.deleted_files) task.public_files
      × All (IsDeleted disk str_lt task workspace) snapshot.deleted_files
      × ((n : String) → mem n task.public_files ≡ false → mem n snapshot.deleted_files ≡ false)
      × IsDistinct snapshot.deleted_files

  abbrev in_set : List String → List String
  in_set names = sort str_lt (to_set names)

  mem-in_set : (n : String) (names : List String) → mem n (in_set names) ≡ mem n names
  mem-in_set n names = mem-sort str_lt n (to_set names) ∙ mem-to_set n names

  pub captured :
      (snapshot : ProjectSnapshot Content)
      → All (λ n. relative_path disk.paths n ≡ some n) task.public_files
      → capture_project disk str_lt task workspace ≡ some snapshot
      → IsCaptured snapshot
  unfolding capture_project
  captured snapshot normal h =
      let (public, e, h1) =
        bind_inv (relative_paths disk str_lt task workspace task.public_files) _ _ h in
      let (deleted, e1, h2) =
        bind_inv (check_public disk str_lt task workspace (in_set public)) _ _ h1 in
      let (src, e2, h3) = bind_inv (checked_path disk str_lt task workspace "src") _ _ h2 in
      let (files, e3, h4) =
        bind_inv (walk disk str_lt task workspace public src workspace.sources) _ _ h3 in
      finish public deleted src files
        (relative_paths_normal disk str_lt task workspace task.public_files public normal e) e1 e3
        (ground (arith, h4))
    where
      finish :
          (public deleted : List String) (src : String) (files : List (ProjectFile Content))
          → task.public_files ≡ public
          → check_public disk str_lt task workspace (in_set public) ≡ some deleted
          → walk disk str_lt task workspace public src workspace.sources ≡ some files
          → record {
            files = sort (path_lt disk str_lt task workspace) files;
            deleted_files = deleted;
            task_fingerprint = disk.task_fingerprint task;
          }
            ≡ snapshot
          → IsCaptured snapshot
      finish public deleted src files as_listed e1 e3 whole =
          let names = in_set task.public_files in
          let in_names = λ (n : String). mem-in_set n task.public_files in
          let (kept, gone, inside, distinct) =
            check_public-IsChecked disk str_lt task workspace names deleted
              (All-of_mem _ names (λ n m.
                mem_All (λ x. relative_path disk.paths x ≡ some x) task.public_files normal n
                  (sym (in_names n) ∙ m)))
              (subst (λ l. check_public disk str_lt task workspace (in_set l) ≡ some deleted)
                (sym as_listed) e1) in
          let taken =
            walk-IsTaken disk str_lt task workspace task.public_files src workspace.sources files (
              subst (λ l. walk disk str_lt task workspace l src workspace.sources ≡ some files)
                (sym as_listed) e3) in
          subst IsCaptured whole (
            refl,
            All-sort (path_lt disk str_lt task workspace)
                (IsTaken disk str_lt task workspace task.public_files) files taken,
            All-of_mem _ task.public_files (λ n m.
                mem_All (IsKept disk str_lt task workspace deleted) names kept n (in_names n ∙ m)),
            gone,
            λ n out. inside n (in_names n ∙ out),
            distinct (
                IsDistinct-sort str_lt (to_set task.public_files)
                  (to_set-IsDistinct task.public_files)),
          )
