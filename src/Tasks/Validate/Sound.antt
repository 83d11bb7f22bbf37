-- ===== src/Tasks/Validate/Sound.antt =====
-- What a task list without validation errors guarantees, and that its tasks can always be scored.
use csharp_llm_benchmark.Prelude.{
  is_empty, ◌≡◌, refl, inl, inr, String, some, List, [], ◌∷◌, ◌++◌, map, arith, Bool, true, false,
  not, ◌||◌, ◌==◌, string_eq, mem, any, All, Bool-cases, Option-cases,
}
use csharp_llm_benchmark.Prelude.Numbers.{Numbers, OrderLaws, sum_from, sum}
use csharp_llm_benchmark.Tasks.Model.{Dict, values, Task}
use csharp_llm_benchmark.Tasks.Paths.{PathLib}
use csharp_llm_benchmark.Tasks.Validate.{
  TaskError, when, file_errors, evolution_errors, weight_errors, score_errors, role_errors,
  path_errors, suite_errors, task_errors, validate_from, validate_tasks,
}
use csharp_llm_benchmark.Runner.Result.{TaskRunResult}
use csharp_llm_benchmark.Scorer.{TaskScore, score_task}
use csharp_llm_benchmark.Scorer.Totals.{score_task_fails_iff}

append-nil_inv {ℓ} : {A : Type ℓ} (xs ys : List A) → xs ++ ys ≡ [] → (xs ≡ []) × (ys ≡ [])
append-nil_inv [] ys h = (refl, h)
append-nil_inv (x ∷ xs) ys h = absurd (cc)

map-nil_inv {ℓ κ} : {A : Type ℓ} {B : Type κ} (f : A → B) (xs : List A) → map f xs ≡ [] → xs ≡ []
map-nil_inv f [] h = refl
map-nil_inv f (x ∷ xs) h = absurd (cc)

when-nil_inv : (b : Bool) (e : TaskError) → when b e ≡ [] → b ≡ false
when-nil_inv true e h = absurd (cc)
when-nil_inv false e h = refl

module _ {N : Type 0} (num : Numbers N) (lib : PathLib) (exists : String → Bool) where
  -- No two tasks share an id, nor does one have an id of `seen`.
  abbrev pub HasDistinctIds : List String → List (Task N) → Type 0
  HasDistinctIds seen [] = Unit
  HasDistinctIds seen (task ∷ tasks) =
      (mem task.id seen ≡ false) × HasDistinctIds (task.id ∷ seen) tasks

  validate_from-nil_inv :
      (seen : List String) (tasks : List (Task N))
      → validate_from num lib exists seen tasks ≡ []
      → HasDistinctIds seen tasks × All (λ task. task_errors num lib exists task ≡ []) tasks
  unfolding validate_from
  validate_from-nil_inv seen [] h = (tt, tt)
  validate_from-nil_inv seen (task ∷ tasks) h =
      let (first, rest) =
        append-nil_inv _ (validate_from num lib exists (task.id ∷ seen) tasks) h in
      let (duplicate, errors) =
        append-nil_inv (when (mem task.id seen) TaskError.duplicate_id) _ (map-nil_inv _ _ first) in
      let (distinct, all) = validate_from-nil_inv (task.id ∷ seen) tasks rest in
      ((when-nil_inv _ _ duplicate, distinct), (errors, all))

  -- The parts of a task's errors that scoring depends on.
  pub record HasNoErrors (task : Task N) : Type 0 where
    pub suite : suite_errors num lib exists task ≡ []
    pub weights : weight_errors num lib exists task ≡ []
    pub score : score_errors num lib exists task ≡ []

  task_errors-nil_inv : (task : Task N) → task_errors num lib exists task ≡ [] → HasNoErrors task
  unfolding task_errors
  task_errors-nil_inv task h =
      let (_, h1) = append-nil_inv (file_errors num lib exists task) _ h in
      let (score, h2) = append-nil_inv (score_errors num lib exists task) _ h1 in
      let (_, h3) = append-nil_inv (role_errors num lib exists task) _ h2 in
      let (_, h4) = append-nil_inv (path_errors num lib exists task) _ h3 in
      let (suite, weights) = append-nil_inv (suite_errors num lib exists task) _ h4 in
      record { suite = suite; weights = weights; score = score }

  -- The weights of a validated task are finite and not negative, and those of its tests positive.
  pub record HasSoundWeights (task : Task N) : Type 0 where
    pub finite :
        any
          (λ w. not (num.finite w) || num.lt w (num.of_ℕ 0))
          (task.score.compile ∷ (values task.score.tests ++ values task.score.regression))
        ≡ false
    pub positive :
        any (λ w. num.le w (num.of_ℕ 0)) (values task.score.tests ++ values task.score.regression)
        ≡ false

  weight_errors-nil_inv :
      (task : Task N) → weight_errors num lib exists task ≡ [] → HasSoundWeights task
  unfolding weight_errors
  weight_errors-nil_inv task h =
      let tests = values task.score.tests ++ values task.score.regression in
      let (finite, positive) =
        append-nil_inv
          (when
            (any (λ w. not (num.finite w) || num.lt w (num.of_ℕ 0)) (task.score.compile ∷ tests))
            TaskError.weight_not_finite)
          _ h in
      record { finite = when-nil_inv _ _ finite; positive = when-nil_inv _ _ positive }

  suite_has_tests :
      (task : Task N)
      → (task.suite == "evolution") ≡ true
      → suite_errors num lib exists task ≡ []
      → (is_empty task.score.tests || is_empty task.score.regression) ≡ false
  unfolding suite_errors evolution_errors
  suite_has_tests task e h = ground arith

  any-append_inv :
      (p : N → Bool) (xs ys : List N)
      → any p (xs ++ ys) ≡ false
      → (any p xs ≡ false) × (any p ys ≡ false)
  any-append_inv p [] ys h = (refl, h)
  any-append_inv p (x ∷ xs) ys h =
      let (first, second) = any-append_inv p xs ys (ground arith) in (ground arith, second)

  module _ (laws : OrderLaws num) where
    sum_from-le :
        (a : N) (ws : List N)
        → num.le (num.of_ℕ 0) a ≡ true
        → any (λ w. not (num.finite w) || num.lt w (num.of_ℕ 0)) ws ≡ false
        → num.le a (sum_from num a ws) ≡ true
    sum_from-le a [] ha h = laws.le_refl a ha
    sum_from-le a (w ∷ ws) ha h =
        let hw : num.le (num.of_ℕ 0) w ≡ true =
          laws.le_of_not-lt w _ (ground arith) laws.finite_zero (ground arith) in
        let step = laws.le-add a w ha hw in
        laws.le_trans _ _ _ step
          (sum_from-le (num.add a w) ws (laws.le_trans _ _ _ ha step) (ground arith))

    -- A positive weight makes a total that is not zero.
    total_not_zero :
        (ws : Dict N)
        → is_empty ws ≡ false
        → any (λ w. not (num.finite w) || num.lt w (num.of_ℕ 0)) (values ws) ≡ false
        → any (λ w. num.le w (num.of_ℕ 0)) (values ws) ≡ false
        → num.same (sum num (values ws)) (num.of_ℕ 0) ≡ false
    total_not_zero [] e f p = absurd (cc)
    total_not_zero ((k, w) ∷ ws) e f p =
        elim (Bool-cases (num.same (sum num (w ∷ values ws)) (num.of_ℕ 0))) [
          | inr no_zero ↦ no_zero
          | inl zero ↦
              let hw : num.le (num.of_ℕ 0) w ≡ true =
                laws.le_of_not-lt w _ (ground arith) laws.finite_zero (ground arith) in
              let start = laws.le-add w (num.of_ℕ 0) hw laws.zero_le in
              let first : num.le w (num.add (num.of_ℕ 0) w) ≡ true =
                rw (laws.add_comm (num.of_ℕ 0) w laws.zero_le hw) start in
              let grows =
                sum_from-le (num.add (num.of_ℕ 0) w) (values ws) (laws.le_trans _ _ _ hw first)
                  (ground arith) in
              let bound =
                laws.le_trans _ _ _ first (laws.le_trans _ _ _ grows (laws.le_of_same _ _ zero)) in
              absurd (ground arith)
        ]

    module _ {Meta : Type 0} where
      validated_task :
          (task : Task N) (result : TaskRunResult N Meta)
          → HasNoErrors task
          → (s : TaskScore N Meta) × (score_task num task result ≡ some s)
      validated_task task result h = elim (Option-cases (score_task num task result)) [
        | inr found ↦ found
        | inl e ↦
            let raised = (score_task_fails_iff num task result).0 e in
            let w = weight_errors-nil_inv task h.weights in
            let suite : (task.suite == "evolution") ≡ true = ground arith in
            let tests = suite_has_tests task suite h.suite in
            let (finite, finite') =
              any-append_inv (λ w. not (num.finite w) || num.lt w (num.of_ℕ 0))
                (values task.score.tests) (values task.score.regression)
                (ground (arith, w.finite)) in
            let (positive, positive') =
              any-append_inv (λ w. num.le w (num.of_ℕ 0)) (values task.score.tests)
                (values task.score.regression) w.positive in
            let first = total_not_zero task.score.tests (ground arith) finite positive in
            let second = total_not_zero task.score.regression (ground arith) finite' positive' in
            absurd (ground arith)
      ]

      -- A list of tasks without validation errors has distinct ids, and scoring any of its tasks
      -- against any result never raises: no total of weights by which it divides is zero.
      pub validated_scores :
          (tasks : List (Task N)) (result : TaskRunResult N Meta)
          → validate_tasks num lib exists tasks ≡ []
          → HasDistinctIds [] tasks
            × All (λ task. (s : TaskScore N Meta) × (score_task num task result ≡ some s)) tasks
      unfolding validate_tasks
      validated_scores tasks result h =
          let (distinct, errors) = validate_from-nil_inv [] tasks h in (distinct, each tasks errors)
        where
          each :
              (l : List (Task N))
              → All (λ task. task_errors num lib exists task ≡ []) l
              → All (λ task. (s : TaskScore N Meta) × (score_task num task result ≡ some s)) l
          each [] h = tt
          each (task ∷ l) h =
              (validated_task task result (task_errors-nil_inv task h.0), each l h.1)
