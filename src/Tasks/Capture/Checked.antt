-- ===== src/Tasks/Capture/Checked.antt =====
-- What the loop over the public files of `capture_project` finds out of a workspace.
use mathlib.Core.Path.{subst}
use csharp_llm_benchmark.Prelude.{
  ◌≡◌, refl, sym, ap, ◌∙◌, String, Option, none, some, List, [], ◌∷◌, ◌++◌, mem, arith, Bool, true,
  false, Eq, ◌==◌, string_eq, bind_inv, Bool-cases, ◌⊎◌, inl, inr, All, IsDistinct, if◌then◌else◌,
}
use csharp_llm_benchmark.Tasks.Model.{Task}
use csharp_llm_benchmark.Tasks.Paths.{relative_path}
use csharp_llm_benchmark.Tasks.Project.{Disk, matches, is_editable}
use csharp_llm_benchmark.Tasks.Project.Written.{editable_normal}
use csharp_llm_benchmark.Tasks.Capture.{
  Workspace, relative_paths, checked_path, is_unchanged, deleted_of, check_public,
}

module _ {N Content : Type 0} ⦃same : Eq Content⦄ (disk : Disk N Content)
    (str_lt : String → String → Bool) (task : Task N) (workspace : Workspace Content) where
  pub relative_paths_normal :
      (values paths : List String)
      → All (λ n. relative_path disk.paths n ≡ some n) values
      → relative_paths disk str_lt task workspace values ≡ some paths
      → values ≡ paths
  unfolding relative_paths
  relative_paths_normal [] paths normal h = ground (arith, h)
  relative_paths_normal (value ∷ values) paths (here, normal) h =
      let (path, e, h1) = bind_inv (relative_path disk.paths value) _ _ h in
      let (rest, e', h2) = bind_inv (relative_paths disk str_lt task workspace values) _ _ h1 in
      let ih : values ≡ rest = relative_paths_normal values rest normal e' in
      let first : some value ≡ some path = sym here ∙ e in
      let first' : value ≡ path = ground (arith, first) in
      let last : path ∷ rest ≡ paths = ground (arith, h2) in rw (first', ih) last

  checked_inv :
      (name path : String)
      → relative_path disk.paths name ≡ some name
      → checked_path disk str_lt task workspace name ≡ some path
      → name ≡ path
  unfolding checked_path
  checked_inv name path normal h =
      let h1 : (if workspace.leads_out name then none else some name) ≡ some path =
        (rw normal at h) in
      elim (Bool-cases (workspace.leads_out name)) [
        | inl out ↦ absurd (cc (rw out at h1))
        | inr inside ↦ let e : some name ≡ some path = (rw inside at h1) in ground (arith, e)
      ]

  -- A public file is not editable and as in the template, or editable and deleted or there.
  abbrev pub IsKept : List String → String → Type 0
  IsKept deleted name =
      ((matches disk task name ≡ false) × (workspace.directory name ≡ disk.template task name))
      ⊎ ((matches disk task name ≡ true)
          × ((mem name deleted ≡ true) ⊎ ((c : Content) × (workspace.directory name ≡ some c))))

  -- A deleted file is editable and missing.
  abbrev pub IsDeleted : String → Type 0
  IsDeleted name = (matches disk task name ≡ true) × (workspace.directory name ≡ none)

  unchanged : (own template : Option Content) → is_unchanged own template ≡ true → own ≡ template
  unchanged (some a) (some b) h = ap some ((same.beq_iff a b).0 h)
  unchanged (some a) none h = absurd (cc)
  unchanged none b h = absurd (cc)

  -- What one public file adds.
  own_cases :
      (name : String) (editable : Bool) (own template : Option Content) (deleted : List String)
      → deleted_of name editable own template ≡ some deleted
      → ((editable ≡ false) × (own ≡ template) × (deleted ≡ []))
        ⊎ ((editable ≡ true)
            × (((own ≡ none) × (deleted ≡ name ∷ []))
                ⊎ (((c : Content) × (own ≡ some c)) × (deleted ≡ []))))
  own_cases name true none template deleted h = inr (refl, inl (refl, ground (arith, h)))
  own_cases name true (some c) template deleted h = inr (refl, inr ((c, refl), ground (arith, h)))
  own_cases name false own template deleted h = elim (Bool-cases (is_unchanged own template)) [
    | inr other ↦ absurd (cc (rw other at h))
    | inl e ↦
        let empty : some [] ≡ some deleted = (rw e at h) in
        inl (refl, unchanged own template e, ground (arith, empty))
  ]

  -- Every public file is kept or deleted, and each deleted file is a public one, once.
  abbrev pub IsChecked : List String → List String → Type 0
  IsChecked names deleted =
      All (IsKept deleted) names
      × All IsDeleted deleted
      × ((n : String) → mem n names ≡ false → mem n deleted ≡ false)
      × (IsDistinct names → IsDistinct deleted)

  longer :
      (name : String) (deleted names : List String)
      → All (IsKept deleted) names
      → All (IsKept (name ∷ deleted)) names
  longer name deleted [] h = tt
  longer name deleted (n ∷ names) (inl k, h) = (inl k, longer name deleted names h)
  longer name deleted (n ∷ names) (inr (m, inl d), h) =
      (inr (m, inl (ground (arith, d))), longer name deleted names h)
  longer name deleted (n ∷ names) (inr (m, inr t), h) =
      (inr (m, inr t), longer name deleted names h)

  one_more :
      (name : String) (names own rest : List String) (editable : Bool)
      → matches disk task name ≡ editable
      → deleted_of name editable (workspace.directory name) (disk.template task name) ≡ some own
      → IsChecked names rest
      → IsChecked (name ∷ names) (own ++ rest)
  one_more name names own rest editable is_it h (kept, gone, inside, distinct) =
      elim (own_cases name editable (workspace.directory name) (disk.template task name) own h) [
        | inl (fixed, as_template, nothing) ↦
            subst (IsChecked (name ∷ names)) (ap (λ (l : List String). l ++ rest) (sym nothing)) (
              (inl (is_it ∙ fixed, as_template), kept),
              gone,
              λ n out. inside n (ground (arith, out)),
              λ d. distinct d.1,
            )
        | inr (open_to, inr (there, nothing)) ↦
            subst (IsChecked (name ∷ names)) (ap (λ (l : List String). l ++ rest) (sym nothing)) (
              (inr (is_it ∙ open_to, inr there), kept),
              gone,
              λ n out. inside n (ground (arith, out)),
              λ d. distinct d.1,
            )
        | inr (open_to, inl (missing, one)) ↦
            let self : (name == name) ≡ true = (string_eq.beq_iff name name).1 refl in
            subst (IsChecked (name ∷ names)) (ap (λ (l : List String). l ++ rest) (sym one)) (
              (inr (is_it ∙ open_to, inl (ground (arith, self))), longer name rest names kept),
              ((is_it ∙ open_to, missing), gone),
              λ n out.
                  let elsewhere : mem n names ≡ false = ground (arith, out) in
                  ground (arith, out, inside n elsewhere),
              λ d. (inside name d.0, distinct d.1),
            )
      ]

  pub check_public-IsChecked :
      (names deleted : List String)
      → All (λ n. relative_path disk.paths n ≡ some n) names
      → check_public disk str_lt task workspace names ≡ some deleted
      → IsChecked names deleted
  unfolding check_public
  check_public-IsChecked [] deleted normal h =
      let empty : [] ≡ deleted = ground (arith, h) in rw (← empty) (tt, tt, λ n out. refl, λ d. tt)
  check_public-IsChecked (name ∷ names) deleted (here, normal) h =
      let (path, e, h1) = bind_inv (checked_path disk str_lt task workspace name) _ _ h in
      let (editable, e1, h2) = bind_inv (is_editable disk task name) _ _ h1 in
      let (own, e2, h3) =
        bind_inv (deleted_of name editable (workspace.directory path) (disk.template task path)) _ _
          h2 in
      let (rest, e3, h4) = bind_inv (check_public disk str_lt task workspace names) _ _ h3 in
      let found : some (matches disk task name) ≡ some editable =
        sym (editable_normal disk task name here) ∙ e1 in
      finish path editable own rest (checked_inv name path here e) (ground (arith, found)) e2
        (check_public-IsChecked names rest normal e3) (ground (arith, h4))
    where
      finish :
          (path : String) (editable : Bool) (own rest : List String)
          → name ≡ path
          → matches disk task name ≡ editable
          → deleted_of name editable (workspace.directory path) (disk.template task path) ≡ some own
          → IsChecked names rest
          → own ++ rest ≡ deleted
          → IsChecked (name ∷ names) deleted
      finish path editable own rest at_name is_it e ih total =
          subst (IsChecked (name ∷ names)) total (
            one_more name names own rest editable is_it
              (subst
                (λ p.
                  deleted_of name editable (workspace.directory p) (disk.template task p)
                  ≡ some own)
                (sym at_name) e)
              ih)
