-- ===== src/Tasks/Capture/Walked.antt =====
-- What the walk through the sources finds: the files that it takes are editable files of the
-- workspace.
use mathlib.Core.Path.{subst}
use csharp_llm_benchmark.Prelude.{
  ◌≡◌, String, ◌<>◌, none, some, List, [], ◌∷◌, ◌++◌, any, mem, arith, Bool, true, false, Eq,
  string_eq, bind_inv, Bool-cases, inl, inr, All, All-append, if◌then◌else◌,
}
use csharp_llm_benchmark.Tasks.Model.{Task}
use csharp_llm_benchmark.Tasks.Project.{ProjectFile, Disk, is_editable}
use csharp_llm_benchmark.Tasks.Capture.{
  Entry, Folder, folder, Folders, last, also, Workspace, entries, is_pruned, file_of, take_files,
  walk, walk_all,
}

module _ {N Content : Type 0} ⦃same : Eq Content⦄ (disk : Disk N Content)
    (str_lt : String → String → Bool) (task : Task N) (workspace : Workspace Content)
    (public : List String) where
  -- A file that is delivered is editable, with the content of the workspace.
  abbrev pub IsTaken : ProjectFile Content → Type 0
  IsTaken file =
      (is_editable disk task file.path ≡ some true)
      × (workspace.directory file.path ≡ some file.content)

  file_of-IsTaken :
      (relative : String) (editable : Bool) (own : List (ProjectFile Content))
      → is_editable disk task relative ≡ some editable
      → file_of disk str_lt task workspace public relative editable ≡ some own
      → All IsTaken own
  file_of-IsTaken relative true own e h =
      let (content, there, h1) = bind_inv (workspace.directory relative) _ _ h in
      let one : record { path = relative; content = content } ∷ [] ≡ own = ground (arith, h1) in
      subst (All IsTaken) one ((e, there), tt)
  file_of-IsTaken relative false own e h = elim (Bool-cases (mem relative public)) [
    | inr other ↦ absurd (cc (rw other at h))
    | inl known ↦
        let nothing : some [] ≡ some own = (rw known at h) in
        let empty : [] ≡ own = ground (arith, nothing) in subst (All IsTaken) empty tt
  ]

  take_files-IsTaken :
      (at : String) (names : List Entry) (files : List (ProjectFile Content))
      → take_files disk str_lt task workspace public at names ≡ some files
      → All IsTaken files
  unfolding take_files
  take_files-IsTaken at [] files h =
      let empty : [] ≡ files = ground (arith, h) in subst (All IsTaken) empty tt
  take_files-IsTaken at (entry ∷ names) files h =
      let relative = at <> "/" <> entry.name in
      let (editable, e, h1) = bind_inv (is_editable disk task relative) _ _ h in
      let (own, e1, h2) =
        bind_inv (file_of disk str_lt task workspace public relative editable) _ _ h1 in
      let (rest, e2, h3) =
        bind_inv (take_files disk str_lt task workspace public at names) _ _ h2 in
      let total : own ++ rest ≡ files = ground (arith, h3) in
      subst (All IsTaken) total (
        All-append IsTaken own rest (file_of-IsTaken relative editable own e e1)
          (take_files-IsTaken at names rest e2))

  -- One directory, whose own files are those of `take_files`.
  walk_one :
      (at : String) (names : List Entry) (dirs : Folders) (files : List (ProjectFile Content))
      → ((inner : List (ProjectFile Content))
          → walk_all disk str_lt task workspace public at dirs ≡ some inner
          → All IsTaken inner)
      → walk disk str_lt task workspace public at (folder names dirs) ≡ some files
      → All IsTaken files
  unfolding walk
  walk_one at names dirs files ih h =
      let (own, e, h1) =
        bind_inv
          (if any (λ (x : Entry). x.is_linked) (entries dirs ++ names)
            then none
            else take_files disk str_lt task workspace public at names)
          _ _ h in
      let (inner, e1, h2) = bind_inv (walk_all disk str_lt task workspace public at dirs) _ _ h1 in
      let total : own ++ inner ≡ files = ground (arith, h2) in
      subst (All IsTaken) total (All-append IsTaken own inner (taken own e) (ih inner e1))
    where
      taken :
          (own : List (ProjectFile Content))
          → (if any (λ (x : Entry). x.is_linked) (entries dirs ++ names)
              then none
              else take_files disk str_lt task workspace public at names)
            ≡ some own
          → All IsTaken own
      taken own e = elim (Bool-cases (any (λ (x : Entry). x.is_linked) (entries dirs ++ names))) [
        | inl linked ↦ absurd (cc (rw linked at e))
        | inr plain ↦ take_files-IsTaken at names own (rw plain at e)
      ]

  walk_all-IsTaken :
      (at : String) (dirs : Folders) (files : List (ProjectFile Content))
      → walk_all disk str_lt task workspace public at dirs ≡ some files
      → All IsTaken files
  unfolding walk
  walk_all-IsTaken at last files h =
      let empty : [] ≡ files = ground (arith, h) in subst (All IsTaken) empty tt
  walk_all-IsTaken at (also entry (folder names dirs) rest) files h =
      let below = at <> "/" <> entry.name in
      let (own, e, h1) =
        bind_inv
          (if is_pruned entry.name
            then some []
            else walk disk str_lt task workspace public below (folder names dirs))
          _ _ h in
      let (others, e1, h2) = bind_inv (walk_all disk str_lt task workspace public at rest) _ _ h1 in
      let total : own ++ others ≡ files = ground (arith, h2) in
      subst (All IsTaken) total (
        All-append IsTaken own others
          (taken own e (walk_one below names dirs own (λ inner. walk_all-IsTaken below dirs inner)))
          (walk_all-IsTaken at rest others e1))
    where
      taken :
          (own : List (ProjectFile Content))
          → (if is_pruned entry.name
              then some []
              else walk disk str_lt task workspace public
                  (at <> "/" <> entry.name)
                  (folder names dirs))
            ≡ some own
          → (walk disk str_lt task workspace public (at <> "/" <> entry.name) (folder names dirs)
                ≡ some own
              → All IsTaken own)
          → All IsTaken own
      taken own e ih = elim (Bool-cases (is_pruned entry.name)) [
        | inl pruned ↦
            let nothing : some [] ≡ some own = (rw pruned at e) in
            let empty : [] ≡ own = ground (arith, nothing) in subst (All IsTaken) empty tt
        | inr visited ↦ ih (rw visited at e)
      ]

  pub walk-IsTaken :
      (at : String) (sources : Folder) (files : List (ProjectFile Content))
      → walk disk str_lt task workspace public at sources ≡ some files
      → All IsTaken files
  walk-IsTaken at (folder names dirs) files =
      walk_one at names dirs files (walk_all-IsTaken at dirs)
