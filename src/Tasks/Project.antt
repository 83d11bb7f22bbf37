-- ===== src/Tasks/Project.antt =====
-- benchmark/workspace.py: `is_editable`, `copy_public_files` and `restore_project`. A directory is a
-- function from paths to contents; `none` as a result is a ValueError or a file that is missing.
pub mod Trusted
pub mod Written
use csharp_llm_benchmark.Prelude.{
  String, Option, none, some, List, [], ◌∷◌, any, mem, Bool, true, false, not, ◌&&◌, ◌||◌, ◌==◌,
  string_eq, ◌>>=◌, if◌then◌else◌,
}
use csharp_llm_benchmark.Tasks.Model.{Task}
use csharp_llm_benchmark.Tasks.Paths.{PathLib, relative_path}

pub record ProjectFile (Content : Type 0) : Type 0 where
  pub path : String
  pub content : Content

pub record ProjectSnapshot (Content : Type 0) : Type 0 where
  pub files : List (ProjectFile Content)
  pub deleted_files : List String
  pub task_fingerprint : String

abbrev pub Directory : Type 0 → Type 0
Directory Content = String → Option Content

-- What Python and the file system answer.
pub record Disk (N Content : Type 0) : Type 0 where
  pub paths : PathLib
  -- `path.endswith(".cs") and path.startswith("src/")`, and `fnmatch.fnmatchcase`
  pub is_source : String → Bool
  pub fnmatchcase : String → String → Bool
  -- Whether a path leads through a link or out of the destination.
  pub leads_out : String → Bool
  -- The files of the template, with no content for a path that leads through a link or out of it.
  pub template : Task N → Directory Content
  pub task_fingerprint : Task N → String

module _ {N Content : Type 0} (disk : Disk N Content) (task : Task N) where
  abbrev pub matches : String → Bool
  matches path = disk.is_source path && any (disk.fnmatchcase path) task.editable_files

  unfoldable pub is_editable : String → Option Bool
  is_editable value = do path ← relative_path disk.paths value; some (matches path)

  unfoldable pub checked_file : String → Option String
  checked_file value = do
    name ← relative_path disk.paths value
    (if disk.leads_out name then none else some name)

  -- A file or directory that stands in the way is left out.
  abbrev pub put : String → Option Content → Directory Content → Directory Content
  put name content directory = λ path. if path == name then content else directory path

  unfoldable pub copy_public_files : List String → Directory Content → Option (Directory Content)
  unfolding checked_file
  copy_public_files [] directory = some directory
  copy_public_files (value ∷ values) directory = do
    name ← checked_file value
    content ← disk.template task name
    copy_public_files values (put name (some content) directory)

  -- The loop over the deleted files.
  unfoldable pub delete_files : List String → Directory Content → Option (Directory Content)
  unfolding is_editable checked_file
  delete_files [] directory = some directory
  delete_files (value ∷ values) directory = do
    editable ← is_editable value
    name ← checked_file value
    old ← directory name
    let rest = delete_files values (put name none directory)
    (if not editable || not (mem value task.public_files) then none else rest)

  -- The loop over the delivered files.
  unfoldable pub write_files :
      List String
      → List String
      → List (ProjectFile Content)
      → Directory Content
      → Option (Directory Content)
  unfolding is_editable checked_file
  write_files seen deleted [] directory = some directory
  write_files seen deleted (file ∷ files) directory = do
    editable ← is_editable file.path
    name ← checked_file file.path
    let rest = write_files (file.path ∷ seen) deleted files (put name (some file.content) directory)
    (if not editable || (mem file.path seen || mem file.path deleted) then none else rest)

  unfoldable pub restore_project :
      ProjectSnapshot Content → Directory Content → Option (Directory Content)
  unfolding copy_public_files delete_files write_files
  restore_project snapshot destination =
      let restored = (do
        copied ← copy_public_files task.public_files destination
        trimmed ← delete_files snapshot.deleted_files copied
        write_files [] snapshot.deleted_files snapshot.files trimmed) in
      if not (snapshot.task_fingerprint == disk.task_fingerprint task) then none else restored
