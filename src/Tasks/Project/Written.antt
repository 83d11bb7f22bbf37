-- ===== src/Tasks/Project/Written.antt =====
-- What `copy_public_files`, `delete_files` and `write_files` leave in a directory, and that the last
-- two succeed on a delivery that is well-formed.
use csharp_llm_benchmark.Prelude.{
  ◌≡◌, refl, sym, ap, ◌∙◌, String, Option, none, some, List, [], ◌∷◌, map, mem, arith, true, false,
  ◌==◌, string_eq, bind_inv, Bool-cases, inl, inr, All, All-of_mem, mem_All, IsDistinct, differ_sym,
  mem-differs, if◌then◌else◌,
}
use csharp_llm_benchmark.Tasks.Model.{Task}
use csharp_llm_benchmark.Tasks.Paths.{relative_path}
use csharp_llm_benchmark.Tasks.Project.{
  ProjectFile, Directory, Disk, matches, is_editable, checked_file, put, copy_public_files,
  delete_files, write_files,
}

abbrev pub paths_of : {C : Type 0} → List (ProjectFile C) → List String
paths_of files = map (λ (f : ProjectFile _). f.path) files

-- The file that stands at a path.
pub paths_of-find :
    {C : Type 0}
    → (P : ProjectFile C → Type 0) (files : List (ProjectFile C)) (path : String) → All P files
    → mem path (paths_of files) ≡ true
    → (file : ProjectFile C) × (file.path ≡ path) × P file
paths_of-find P [] path h there = absurd (cc)
paths_of-find P (file ∷ files) path (p, h) there = elim (Bool-cases (file.path == path)) [
  | inl here ↦ (file, (string_eq.beq_iff file.path path).0 here, p)
  | inr other ↦ paths_of-find P files path h (ground (arith, there, other))
]

module _ {N Content : Type 0} (disk : Disk N Content) (task : Task N) where
  put_same :
      (name : String) (content : Option Content) (directory : Directory Content)
      → put disk task name content directory name ≡ content
  put_same name content directory = rw ((string_eq.beq_iff name name).1 refl) refl

  put_other :
      (name path : String) (content : Option Content) (directory : Directory Content)
      → (path == name) ≡ false
      → put disk task name content directory path ≡ directory path
  put_other name path content directory other = rw other refl

  -- A path that is safe, in its normal form, and that leads nowhere else.
  abbrev pub IsNormal : String → Type 0
  IsNormal path = (relative_path disk.paths path ≡ some path) × (disk.leads_out path ≡ false)

  checked_normal : (path : String) → IsNormal path → checked_file disk task path ≡ some path
  unfolding checked_file
  checked_normal path (normal, inside) = rw (normal, inside) refl

  pub editable_normal :
      (path : String)
      → relative_path disk.paths path ≡ some path
      → is_editable disk task path ≡ some (matches disk task path)
  unfolding is_editable
  editable_normal path normal = rw normal refl

  abbrev pub IsCopied : Directory Content → String → Type 0
  IsCopied copied name =
      (disk.leads_out name ≡ false)
      × ((c : Content) × (disk.template task name ≡ some c) × (copied name ≡ some c))

  checked_inv :
      (name checked : String)
      → relative_path disk.paths name ≡ some name
      → checked_file disk task name ≡ some checked
      → (name ≡ checked) × (disk.leads_out name ≡ false)
  unfolding checked_file
  checked_inv name checked normal h =
      let h1 : (if disk.leads_out name then none else some name) ≡ some checked =
        (rw normal at h) in
      elim (Bool-cases (disk.leads_out name)) [
        | inl out ↦ absurd (cc (rw out at h1))
        | inr inside ↦
            let same : some name ≡ some checked = (rw inside at h1) in
            (ground (arith, same), inside)
      ]

  pub copy_public_files-IsCopied :
      (names : List String) (directory copied : Directory Content)
      → All (λ n. relative_path disk.paths n ≡ some n) names
      → copy_public_files disk task names directory ≡ some copied
      → ((path : String) → mem path names ≡ false → copied path ≡ directory path)
        × All (IsCopied copied) names
  unfolding copy_public_files
  copy_public_files-IsCopied [] directory copied normal h =
      let same : directory ≡ copied = cc in
      (λ path outside. ap (λ (f : Directory Content). f path) (sym same), tt)
  copy_public_files-IsCopied (name ∷ names) directory copied (here, normal) h =
      let (checked, e, h1) = bind_inv (checked_file disk task name) _ _ h in
      let (same, inside) = checked_inv name checked here e in
      let (content, e', h2) = bind_inv (disk.template task checked) _ _ h1 in
      let (kept, all) =
        copy_public_files-IsCopied names (put disk task checked (some content) directory) copied
          normal h2 in
      let e'' : disk.template task name ≡ some content = (rw same e') in
      let first : IsCopied copied name = elim (Bool-cases (mem name names)) [
        | inl again ↦ mem_All (IsCopied copied) names all name again
        | inr once ↦ (
          inside,
          (content, e'', kept name once ∙ rw same (put_same checked (some content) directory)),
        )
      ] in
      (
        λ path outside.
            kept path (ground (arith, outside))
            ∙ put_other checked path (some content) directory
                (rw (← same) (differ_sym name path (ground (arith, outside)))),
        (first, all),
      )

  abbrev IsThere : Directory Content → String → Type 0
  IsThere directory name = (c : Content) × (directory name ≡ some c)

  -- A path that a delivery may delete.
  abbrev pub IsDeletable : String → Type 0
  IsDeletable name =
      IsNormal name × (matches disk task name ≡ true) × (mem name task.public_files ≡ true)

  pub delete_files-deleted :
      (names : List String) (directory : Directory Content)
      → All IsDeletable names
      → IsDistinct names
      → All (IsThere directory) names
      → (after : Directory Content) × (delete_files disk task names directory ≡ some after)
        × ((path : String) → mem path names ≡ false → after path ≡ directory path)
        × All (λ n. after n ≡ none) names
  unfolding delete_files
  delete_files-deleted [] directory ok distinct there = (directory, refl, λ path outside. refl, tt)
  delete_files-deleted (name ∷ names) directory (here, ok) (new, distinct) ((old, is_old), there) =
      let next : Directory Content = put disk task name none directory in
      let still : All (IsThere next) names = All-of_mem (IsThere next) names (λ other m.
        let (c, e) = mem_All (IsThere directory) names there other m in
        (c, put_other name other none directory (mem-differs name other names new m) ∙ e)) in
      let (after, e, kept, gone) = delete_files-deleted names next ok distinct still in
      let (normal, editable, public) = here in
      (
        after,
        rw (editable_normal name normal.0, checked_normal name normal, is_old, editable, public) e,
        λ path outside.
            kept path (ground (arith, outside))
            ∙ put_other name path none directory (differ_sym name path (ground (arith, outside))),
        (kept name new ∙ put_same name none directory, gone),
      )

  -- A file that a delivery may write, beside those that it deletes.
  abbrev pub IsWritable : List String → ProjectFile Content → Type 0
  IsWritable deleted file =
      IsNormal file.path × (matches disk task file.path ≡ true) × (mem file.path deleted ≡ false)

  unseen :
      (path : String) (seen : List String) (files : List (ProjectFile Content))
      → mem path (paths_of files) ≡ false
      → All (λ f. mem f.path seen ≡ false) files
      → All (λ f. mem f.path (path ∷ seen) ≡ false) files
  unseen path seen [] new h = tt
  unseen path seen (file ∷ files) new (here, h) =
      let other : (path == file.path) ≡ false = differ_sym file.path path (ground (arith, new)) in
      (ground (arith, here, other), unseen path seen files (ground (arith, new)) h)

  write_seen :
      (seen deleted : List String) (files : List (ProjectFile Content))
      (directory : Directory Content)
      → All (IsWritable deleted) files
      → All (λ f. mem f.path seen ≡ false) files
      → IsDistinct (paths_of files)
      → (after : Directory Content) × (write_files disk task seen deleted files directory
          ≡ some after)
        × ((path : String) → mem path (paths_of files) ≡ false → after path ≡ directory path)
        × All (λ f. after f.path ≡ some f.content) files
  unfolding write_files
  write_seen seen deleted [] directory ok fresh distinct =
      (directory, refl, λ path outside. refl, tt)
  write_seen seen deleted (file ∷ files) directory (here, ok) (first, fresh) (new, distinct) =
      let (normal, editable, alive) = here in
      let (after, e, kept, all) =
        write_seen (file.path ∷ seen) deleted files
          (put disk task file.path (some file.content) directory) ok
          (unseen file.path seen files new fresh) distinct in
      (
        after,
        rw
            (
              editable_normal file.path normal.0,
              checked_normal file.path normal,
              editable,
              first,
              alive,
            )
            e,
        λ path outside.
            kept path (ground (arith, outside))
            ∙ put_other file.path path (some file.content) directory
                (differ_sym file.path path (ground (arith, outside))),
        (kept file.path new ∙ put_same file.path (some file.content) directory, all),
      )

  pub write_files-written :
      (deleted : List String) (files : List (ProjectFile Content)) (directory : Directory Content)
      → All (IsWritable deleted) files
      → IsDistinct (paths_of files)
      → (after : Directory Content) × (write_files disk task [] deleted files directory
          ≡ some after)
        × ((path : String) → mem path (paths_of files) ≡ false → after path ≡ directory path)
        × All (λ f. after f.path ≡ some f.content) files
  write_files-written deleted files directory ok distinct =
      write_seen [] deleted files directory ok (none_seen files) distinct
    where
      none_seen : (l : List (ProjectFile Content)) → All (λ f. mem f.path [] ≡ false) l
      none_seen [] = tt
      none_seen (f ∷ l) = (refl, none_seen l)
