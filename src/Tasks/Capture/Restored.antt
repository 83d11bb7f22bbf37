-- ===== src/Tasks/Capture/Restored.antt =====
-- A project that is captured can be restored, and is then as in the workspace.
use mathlib.Core.Path.{subst}
use csharp_llm_benchmark.Prelude.{
  ◌≡◌, sym, ◌∙◌, String, none, some, mem, arith, Bool, true, false, Eq, ◌==◌, string_eq, Bool-cases,
  ◌⊎◌, inl, inr, All, All-of_mem, All-both, mem_All, IsDistinct,
}
use csharp_llm_benchmark.Tasks.Model.{Task}
use csharp_llm_benchmark.Tasks.Paths.{relative_path}
use csharp_llm_benchmark.Tasks.Project.{
  ProjectFile, ProjectSnapshot, Directory, Disk, matches, copy_public_files, restore_project,
}
use csharp_llm_benchmark.Tasks.Project.Written.{
  paths_of, paths_of-find, editable_normal, IsNormal, IsCopied, copy_public_files-IsCopied,
  delete_files-deleted, IsWritable, write_files-written,
}
use csharp_llm_benchmark.Tasks.Capture.{Workspace, capture_project}
use csharp_llm_benchmark.Tasks.Capture.Checked.{IsKept, IsDeleted}
use csharp_llm_benchmark.Tasks.Capture.Walked.{IsTaken}
use csharp_llm_benchmark.Tasks.Capture.Captured.{IsCaptured, captured}

module _ {N Content : Type 0} ⦃same : Eq Content⦄ (disk : Disk N Content)
    (str_lt : String → String → Bool) (task : Task N) (workspace : Workspace Content) where
  -- A public file is restored, or it is an editable one that the walk passed over, and then the
  -- template's.
  abbrev pub IsRestored : ProjectSnapshot Content → Directory Content → String → Type 0
  IsRestored snapshot after name =
      (after name ≡ workspace.directory name)
      ⊎ ((matches disk task name ≡ true)
          × (mem name (paths_of snapshot.files) ≡ false)
          × (after name ≡ disk.template task name))

  -- The paths of a snapshot that are safe, in their normal form, and those of other files.
  abbrev pub IsSafe : ProjectSnapshot Content → Type 0
  IsSafe snapshot =
      All (λ (f : ProjectFile Content). IsNormal disk task f.path) snapshot.files
      × IsDistinct (paths_of snapshot.files)

  module _ (snapshot : ProjectSnapshot Content)
      (known : IsCaptured disk str_lt task workspace snapshot) (safe : IsSafe snapshot) where
    -- A path of a file that is taken is editable and there.
    at_file :
        (path : String)
        → mem path (paths_of snapshot.files) ≡ true
        → (matches disk task path ≡ true) × ((c : Content) × (workspace.directory path ≡ some c))
    at_file path there =
        let (fp, taken, kept, gone, inside, distinct) = known in
        let (file, at, ((editable, content), normal)) =
          paths_of-find
            (λ f.
              IsTaken disk str_lt task workspace task.public_files f × IsNormal disk task f.path)
            snapshot.files path (All-both _ _ _ snapshot.files (λ f a b. (a, b)) taken safe.0)
            there in
        let allowed : some (matches disk task file.path) ≡ some true =
          sym (editable_normal disk task file.path normal.0) ∙ editable in
        (
          subst (λ p. matches disk task p ≡ true) at (ground (arith, allowed)),
          (file.content, subst (λ p. workspace.directory p ≡ some file.content) at content),
        )

    -- A path that is not editable, or is missing, is not written, and one that is there is not
    -- deleted.
    not_file_fixed :
        (path : String)
        → matches disk task path ≡ false
        → mem path (paths_of snapshot.files) ≡ false
    not_file_fixed path fixed = elim (Bool-cases (mem path (paths_of snapshot.files))) [
      | inr h ↦ h
      | inl h ↦ let (allowed, there) = at_file path h in absurd (ground (arith, allowed, fixed))
    ]

    not_file_gone :
        (path : String)
        → workspace.directory path ≡ none
        → mem path (paths_of snapshot.files) ≡ false
    not_file_gone path gone = elim (Bool-cases (mem path (paths_of snapshot.files))) [
      | inr h ↦ h
      | inl h ↦
          let (allowed, (c, there)) = at_file path h in
          let e : none ≡ some c = sym gone ∙ there in absurd (cc)
    ]

    facts_of :
        (path : String)
        → mem path snapshot.deleted_files ≡ true
        → IsDeleted disk str_lt task workspace path
    facts_of path =
        mem_All (IsDeleted disk str_lt task workspace) snapshot.deleted_files known.3 path

    not_deleted_fixed :
        (path : String) → matches disk task path ≡ false → mem path snapshot.deleted_files ≡ false
    not_deleted_fixed path fixed = elim (Bool-cases (mem path snapshot.deleted_files)) [
      | inr h ↦ h
      | inl h ↦ let (allowed, gone) = facts_of path h in absurd (ground (arith, allowed, fixed))
    ]

    not_deleted_there :
        (path : String) (c : Content)
        → workspace.directory path ≡ some c
        → mem path snapshot.deleted_files ≡ false
    not_deleted_there path c there = elim (Bool-cases (mem path snapshot.deleted_files)) [
      | inr h ↦ h
      | inl h ↦
          let (allowed, gone) = facts_of path h in
          let e : none ≡ some c = sym gone ∙ there in absurd (cc)
    ]

    deleted_public :
        (path : String) → mem path snapshot.deleted_files ≡ true → mem path task.public_files ≡ true
    deleted_public path h = elim (Bool-cases (mem path task.public_files)) [
      | inl there ↦ there
      | inr out ↦ absurd (ground (arith, h, known.4 path out))
    ]

    writable : All (IsWritable disk task snapshot.deleted_files) snapshot.files
    writable = All-both _ _ _ snapshot.files both known.1 safe.0
      where
        both :
            (f : ProjectFile Content)
            → IsTaken disk str_lt task workspace task.public_files f
            → IsNormal disk task f.path
            → IsWritable disk task snapshot.deleted_files f
        both f (editable, content) normal =
            let allowed : some (matches disk task f.path) ≡ some true =
              sym (editable_normal disk task f.path normal.0) ∙ editable in
            (normal, ground (arith, allowed), not_deleted_there f.path f.content content)

    -- What the three steps of a restoration leave at a public file.
    outcome :
        (copied trimmed after : Directory Content)
        → All (IsCopied disk task copied) task.public_files
        → ((path : String) → mem path snapshot.deleted_files ≡ false → trimmed path ≡ copied path)
        → All (λ n. trimmed n ≡ none) snapshot.deleted_files
        → ((path : String) → mem path (paths_of snapshot.files) ≡ false → after path ≡ trimmed path)
        → All (λ f. after f.path ≡ some f.content) snapshot.files
        → (name : String) → mem name task.public_files ≡ true
        → IsRestored snapshot after name
    outcome copied trimmed after copies kept gone rest written name public =
        elim (mem_All (IsKept disk str_lt task workspace snapshot.deleted_files) task.public_files
          known.2 name public) [
            | inl (fixed, as_template) ↦ inl (
                untouched (not_file_fixed name fixed) (not_deleted_fixed name fixed)
                ∙ sym as_template)
            | inr (editable, inl deleted) ↦
                let (matched, missing) = facts_of name deleted in
                inl (
                  rest name (not_file_gone name missing)
                  ∙ mem_All (λ n. trimmed n ≡ none) snapshot.deleted_files gone name deleted
                  ∙ sym missing)
            | inr (editable, inr (c, there)) ↦
                elim (Bool-cases (mem name (paths_of snapshot.files))) [
                  | inr passed ↦
                      inr (editable, passed, untouched passed (not_deleted_there name c there))
                  | inl delivered ↦ inl (rewritten delivered)
                ]
          ]
      where
        untouched :
            mem name (paths_of snapshot.files) ≡ false
            → mem name snapshot.deleted_files ≡ false
            → after name ≡ disk.template task name
        untouched outside alive =
            let (inside, (c, in_template, in_copy)) =
              mem_All (IsCopied disk task copied) task.public_files copies name public in
            rest name outside ∙ kept name alive ∙ in_copy ∙ sym in_template

        rewritten :
            mem name (paths_of snapshot.files) ≡ true → after name ≡ workspace.directory name
        rewritten delivered =
            let (file, at, ((editable, content), now)) =
              paths_of-find
                (λ f.
                  IsTaken disk str_lt task workspace task.public_files f
                  × (after f.path ≡ some f.content))
                snapshot.files name
                (All-both _ _ _ snapshot.files (λ f a b. (a, b)) known.1 written) delivered in
            subst (λ p. after p ≡ workspace.directory p) at (now ∙ sym content)

  -- A project is captured from a workspace. If the task's public files are named in normal form,
  -- and the paths of the captured files are in normal form, lead nowhere else in the destination
  -- and are different, then the project can be restored wherever the public files can be copied:
  -- every captured file is then as in the workspace, and so is every public file, those that were
  -- deleted included, except that an editable one that the walk passed over is the template's.
  pub capture_project-restore_project :
      (snapshot : ProjectSnapshot Content) (destination copied : Directory Content)
      → capture_project disk str_lt task workspace ≡ some snapshot
      → All (λ n. relative_path disk.paths n ≡ some n) task.public_files
      → IsSafe snapshot
      → copy_public_files disk task task.public_files destination ≡ some copied
      → (after : Directory Content) × (restore_project disk task snapshot destination ≡ some after)
        × All (λ f. after f.path ≡ workspace.directory f.path) snapshot.files
        × All (IsRestored snapshot after) task.public_files
  unfolding restore_project
  capture_project-restore_project snapshot destination copied h normal safe is_copied =
      let known : IsCaptured disk str_lt task workspace snapshot =
        captured disk str_lt task workspace snapshot normal h in
      let (outside, copies) =
        copy_public_files-IsCopied disk task task.public_files destination copied normal
          is_copied in
      let public = deleted_public snapshot known safe in
      let (trimmed, e1, kept, gone) =
        delete_files-deleted disk task snapshot.deleted_files copied
          (All-of_mem _ snapshot.deleted_files (λ n m.
            let (inside, there) = mem_All (IsCopied disk task copied) _ copies n (public n m) in
            let at_name =
              mem_All (λ x. relative_path disk.paths x ≡ some x) _ normal n (public n m) in
            ((at_name, inside), (facts_of snapshot known safe n m).0, public n m)))
          known.5
          (All-of_mem _ snapshot.deleted_files (λ n m.
            let (inside, (c, in_template, in_copy)) =
              mem_All (IsCopied disk task copied) _ copies n (public n m) in
            (c, in_copy))) in
      let (after, e2, rest, written) =
        write_files-written disk task snapshot.deleted_files snapshot.files trimmed
          (writable snapshot known safe) safe.1 in
      let print : (snapshot.task_fingerprint == disk.task_fingerprint task) ≡ true =
        (string_eq.beq_iff _ _).1 known.0 in
      (
        after,
        rw (print, is_copied, e1) e2,
        All-both _ _ _ snapshot.files (λ f a b. b ∙ sym a.1) known.1 written,
        All-of_mem _ task.public_files
            (outcome snapshot known safe copied trimmed after copies kept gone rest written),
      )
