-- ===== src/Tasks/Project/Trusted.antt =====
-- A delivery cannot change a file that is not editable.
use csharp_llm_benchmark.Prelude.{
  ◌≡◌, sym, ap, ◌∙◌, String, Option, none, some, List, [], ◌∷◌, mem, arith, Bool, true, false, not,
  ◌||◌, ◌==◌, string_eq, bind_inv, Bool-cases, inl, inr,
}
use csharp_llm_benchmark.Tasks.Model.{Task}
use csharp_llm_benchmark.Tasks.Paths.{relative_path}
use csharp_llm_benchmark.Tasks.Project.{
  ProjectFile, ProjectSnapshot, Directory, Disk, matches, is_editable, checked_file, put,
  copy_public_files, delete_files, write_files, restore_project,
}

read_back : {C : Type 0} (d e : Directory C) → some d ≡ some e → (path : String) → e path ≡ d path
read_back d e h path = let same : d ≡ e = cc in ap (λ (f : Directory _). f path) (sym same)

module _ {N Content : Type 0} (disk : Disk N Content) (task : Task N) where
  -- The name that is written is the one that was found to be editable.
  same_name :
      (value name : String) (editable : Bool)
      → is_editable disk task value ≡ some editable
      → checked_file disk task value ≡ some name
      → matches disk task name ≡ editable
  unfolding is_editable checked_file
  same_name value name editable h k =
      let (path, e, m) = bind_inv (relative_path disk.paths value) _ _ h in
      let (path', e', m') = bind_inv (relative_path disk.paths value) _ _ k in ground arith

  module _ (path : String) (trusted : matches disk task path ≡ false) where
    kept :
        (name : String) (content : Option Content) (directory : Directory Content)
        → matches disk task name ≡ true
        → put disk task name content directory path ≡ directory path
    kept name content directory h = elim (Bool-cases (path == name)) [
      | inr e ↦ rw e
      | inl e ↦
          let same : path ≡ name = (string_eq.beq_iff path name).0 e in
          absurd (ground (arith, ap (matches disk task) same))
    ]

    write_files-kept :
        (seen deleted : List String) (files : List (ProjectFile Content))
        (directory after : Directory Content)
        → write_files disk task seen deleted files directory ≡ some after
        → after path ≡ directory path
    unfolding write_files
    write_files-kept seen deleted [] directory after h = read_back directory after h path
    write_files-kept seen deleted (file ∷ files) directory after h =
        let (editable, e, h1) = bind_inv (is_editable disk task file.path) _ _ h in
        let (name, e', h2) = bind_inv (checked_file disk task file.path) _ _ h1 in
        elim (Bool-cases (not editable || (mem file.path seen || mem file.path deleted))) [
          | inl bad ↦ absurd (cc (rw bad at h2))
          | inr good ↦
              let ok : matches disk task name ≡ true =
                same_name file.path name editable e e' ∙ ground arith in
              write_files-kept (file.path ∷ seen) deleted files _ after (rw good at h2)
              ∙ kept name (some file.content) directory ok
        ]

    delete_files-kept :
        (values : List String) (directory after : Directory Content)
        → delete_files disk task values directory ≡ some after
        → after path ≡ directory path
    unfolding delete_files
    delete_files-kept [] directory after h = read_back directory after h path
    delete_files-kept (value ∷ values) directory after h =
        let (editable, e, h1) = bind_inv (is_editable disk task value) _ _ h in
        let (name, e', h2) = bind_inv (checked_file disk task value) _ _ h1 in
        let (old, e'', h3) = bind_inv (directory name) _ _ h2 in
        elim (Bool-cases (not editable || not (mem value task.public_files))) [
          | inl bad ↦ absurd (cc (rw bad at h3))
          | inr good ↦
              let ok : matches disk task name ≡ true =
                same_name value name editable e e' ∙ ground arith in
              delete_files-kept values _ after (rw good at h3) ∙ kept name none directory ok
        ]

    -- Restoring a delivery fails, or its fingerprint is the task's and every path that is not
    -- editable holds what copying the task's public files leaves there: a delivery neither
    -- writes nor deletes such a file.
    pub restore_project_trusted :
        (snapshot : ProjectSnapshot Content) (destination after : Directory Content)
        → restore_project disk task snapshot destination ≡ some after
        → (snapshot.task_fingerprint ≡ disk.task_fingerprint task)
          × ((copied : Directory Content) × (copy_public_files disk task task.public_files
                  destination
                ≡ some copied)
              × (after path ≡ copied path))
    unfolding restore_project
    restore_project_trusted snapshot destination after h =
        elim (Bool-cases (snapshot.task_fingerprint == disk.task_fingerprint task)) [
          | inr other ↦ absurd (cc (rw other at h))
          | inl same ↦
              let (copied, e, h1) =
                bind_inv (copy_public_files disk task task.public_files destination) _ _
                  (rw same at h) in
              let (trimmed, e', h2) =
                bind_inv (delete_files disk task snapshot.deleted_files copied) _ _ h1 in
              (
                (string_eq.beq_iff _ _).0 same,
                (
                  copied,
                  e,
                  write_files-kept [] snapshot.deleted_files snapshot.files trimmed after h2
                      ∙ delete_files-kept snapshot.deleted_files copied trimmed e',
                ),
              )
        ]
