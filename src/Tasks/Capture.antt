-- ===== src/Tasks/Capture.antt =====
-- benchmark/workspace.py: `capture_project`, without the copy of a delivery that it may write. The
-- directory of the sources is a tree, which `os.walk` goes through from the top down; `none` is an
-- exception.
pub mod Checked
pub mod Walked
pub mod Captured
pub mod Restored
use csharp_llm_benchmark.Prelude.{
  String, ◌<>◌, Option, none, some, List, [], ◌∷◌, ◌++◌, any, mem, Bool, true, false, not, ◌&&◌,
  ◌||◌, Eq, ◌==◌, string_eq, ◌>>=◌, if◌then◌else◌,
}
use csharp_llm_benchmark.Prelude.Sort.{sort, to_set}
use csharp_llm_benchmark.Tasks.Model.{Task}
use csharp_llm_benchmark.Tasks.Paths.{PathLib, relative_path}
use csharp_llm_benchmark.Tasks.Project.{ProjectFile, ProjectSnapshot, Directory, Disk, is_editable}

-- An entry of a directory, and whether it is a link.
pub record Entry : Type 0 where
  pub name : String
  pub is_linked : Bool

mutual
  -- The files and the directories of a directory.
  pub data Folder : Type 0 where
    folder : List Entry → Folders → Folder

  pub data Folders : Type 0 where
    last : Folders
    also : Entry → Folder → Folders → Folders

pub record Workspace (Content : Type 0) : Type 0 where
  -- The contents of the files.
  pub directory : Directory Content
  -- Whether a path leads through a link or out of the workspace.
  pub leads_out : String → Bool
  pub sources : Folder

abbrev pub entries : Folders → List Entry
entries last = []
entries (also entry inner rest) = entry ∷ entries rest

abbrev pub is_pruned : String → Bool
is_pruned name = mem name ("bin" ∷ "obj" ∷ ".git" ∷ [])

module _ {Content : Type 0} ⦃same : Eq Content⦄ where
  -- A public file that cannot be edited must be there, as in the template.
  abbrev pub is_unchanged : Option Content → Option Content → Bool
  is_unchanged (some content) (some template) = content == template
  is_unchanged _ _ = false

  -- What a public file adds to the deleted ones.
  abbrev pub deleted_of : String → Bool → Option Content → Option Content → Option (List String)
  deleted_of name true none template = some (name ∷ [])
  deleted_of name true (some content) template = some []
  deleted_of name false content template = if is_unchanged content template then some [] else none

module _ {N Content : Type 0} ⦃same : Eq Content⦄ (disk : Disk N Content)
    (str_lt : String → String → Bool) (task : Task N) (workspace : Workspace Content) where
  -- `{relative_path(name) for name in ...}`
  unfoldable pub relative_paths : List String → Option (List String)
  relative_paths [] = some []
  relative_paths (value ∷ values) = do
    path ← relative_path disk.paths value
    paths ← relative_paths values
    some (path ∷ paths)

  unfoldable pub checked_path : String → Option String
  checked_path value = do
    name ← relative_path disk.paths value
    (if workspace.leads_out name then none else some name)

  -- The loop over the public files: those that were deleted.
  unfoldable pub check_public : List String → Option (List String)
  unfolding checked_path is_editable
  check_public [] = some []
  check_public (name ∷ names) = do
    path ← checked_path name
    editable ← is_editable disk task name
    own ← deleted_of name editable (workspace.directory path) (disk.template task path)
    deleted ← check_public names
    some (own ++ deleted)

  -- What a file adds to the delivered ones.
  abbrev pub file_of : List String → String → Bool → Option (List (ProjectFile Content))
  file_of public relative true = do
    content ← workspace.directory relative
    some (record { path = relative; content = content } ∷ [])
  file_of public relative false = if mem relative public then some [] else none

  -- The loop over the names of one directory.
  unfoldable pub take_files :
      List String → String → List Entry → Option (List (ProjectFile Content))
  unfolding is_editable
  take_files public at [] = some []
  take_files public at (entry ∷ names) = do
    let relative = at <> "/" <> entry.name
    editable ← is_editable disk task relative
    own ← file_of public relative editable
    files ← take_files public at names
    some (own ++ files)

  unfoldable mutual
    -- One round of `os.walk` and those that come of the directories that it leaves in `dirs`.
    pub walk : List String → String → Folder → Option (List (ProjectFile Content))
    walk public at (folder names dirs) = do
      own ←
          (if any (λ (e : Entry). e.is_linked) (entries dirs ++ names)
            then none
            else take_files public at names)
      inner ← walk_all public at dirs
      some (own ++ inner)

    pub walk_all : List String → String → Folders → Option (List (ProjectFile Content))
    walk_all public at last = some []
    walk_all public at (also entry inner rest) = do
      files ←
          (if is_pruned entry.name then some [] else walk public (at <> "/" <> entry.name) inner)
      others ← walk_all public at rest
      some (files ++ others)

  -- `sorted(files, key=lambda f: f.path)`
  abbrev pub path_lt : ProjectFile Content → ProjectFile Content → Bool
  path_lt a b = str_lt a.path b.path

  unfoldable pub capture_project : Option (ProjectSnapshot Content)
  unfolding relative_paths check_public checked_path walk
  capture_project = do
    public ← relative_paths task.public_files
    deleted ← check_public (sort str_lt (to_set public))
    src ← checked_path "src"
    files ← walk public src workspace.sources
    some (record {
      files = sort path_lt files;
      deleted_files = deleted;
      task_fingerprint = disk.task_fingerprint task;
    })
