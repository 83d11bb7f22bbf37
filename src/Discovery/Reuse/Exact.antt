-- ===== src/Discovery/Reuse/Exact.antt =====
-- Which stored results are reused, and what then stands in the list of scores.
use csharp_llm_benchmark.Prelude.{
  ℕ, ◌≡◌, refl, sym, ◌↔◌, ◌⊎◌, String, Option, none, some, List, set?, arith, Bool, true, false,
  ◌&&◌, ◌==◌, string_eq, Bool-cases, inl, inr, bind_inv,
}
use csharp_llm_benchmark.Prelude.Numbers.{Numbers}
use csharp_llm_benchmark.Tasks.Model.{Task}
use csharp_llm_benchmark.Runner.Result.{TaskRunResult}
use csharp_llm_benchmark.Scorer.{TaskScore, score_task}
use csharp_llm_benchmark.Discovery.Reuse.{
  is_other, differs, is_other_temperature, fill, is_foreign, with_temperature,
  load_existing_task_score,
}

is_other_iff :
    (actual : String) (expected : Option String)
    → (is_other actual expected ≡ false) ↔ ((expected ≡ none) ⊎ (expected ≡ some actual))
is_other_iff actual none = (λ h. inl refl, λ h. refl)
is_other_iff actual (some e) = (
  λ h. inr (ground (arith, string_eq.beq_iff actual e)),
  λ h. elim h [ inl k ↦ absurd (cc) | inr k ↦ ground (arith, string_eq.beq_iff actual e) ],
)

differs_iff :
    (actual : Option String) (expected : String)
    → (differs actual expected ≡ false) ↔ (actual ≡ some expected)
differs_iff none e = (λ h. absurd (cc), λ h. absurd (cc))
differs_iff (some a) e =
    (λ h. ground (arith, string_eq.beq_iff a e), λ h. ground (arith, string_eq.beq_iff a e))

and_iff : (a b : Bool) → ((a && b) ≡ false) ↔ ((a ≡ false) ⊎ (b ≡ false))
and_iff true b = (λ h. inr h, λ h. elim h [ inl k ↦ absurd (cc) | inr k ↦ k ])
and_iff false b = (λ h. inl refl, λ h. refl)

module _ {N : Type 0} (num : Numbers N) (fingerprint : Task N → String)
    (same_temperature : N → N → Bool) (expected_generator : Option String)
    (expected_temperature : N) where
  -- The temperature of a stored result counts as the expected one: it is missing, or near to it.
  abbrev pub IsTemperature : Option N → N → Type 0
  IsTemperature stored temperature =
      ((stored ≡ none) × (temperature ≡ expected_temperature))
      ⊎ ((stored ≡ some temperature) × (same_temperature temperature expected_temperature ≡ true))

  fill_lem :
      (stored : Option N)
      → is_other_temperature num fingerprint same_temperature expected_generator
          expected_temperature stored
        ≡ false
      → IsTemperature stored
          (fill num fingerprint same_temperature expected_generator expected_temperature stored)
  fill_lem none h = inl (refl, refl)
  fill_lem (some t) h = inr (refl, ground arith)

  near_temperature :
      (stored : Option N) (temperature : N)
      → IsTemperature stored temperature
      → (is_other_temperature num fingerprint same_temperature expected_generator
            expected_temperature stored
          ≡ false)
        × (fill num fingerprint same_temperature expected_generator expected_temperature stored
            ≡ temperature)
  near_temperature none t (inl (e, k)) = (refl, sym k)
  near_temperature (some s) t (inl (e, k)) = absurd (cc)
  near_temperature none t (inr (e, k)) = absurd (cc)
  near_temperature (some s) t (inr (e, k)) = let same : s ≡ t = cc in (rw same (rw k refl), same)

  module _ {Meta : Type 0} where
    -- What a stored result must satisfy to be reused for a task.
    pub record IsReusable (task : Task N) (result : TaskRunResult N Meta) : Type 0 where
      pub task_id : result.task_id ≡ task.id
      pub suite : result.suite ≡ task.suite
      pub generator : (expected_generator ≡ none) ⊎ (expected_generator ≡ some result.generator)
      pub fingerprint_kept :
          ((task.suite == "evolution") ≡ false)
          ⊎ (result.task_fingerprint ≡ some (fingerprint task))
      pub temperature : N
      pub is_temperature : IsTemperature result.temperature temperature

    is_foreign-IsReusable :
        (task : Task N) (result : TaskRunResult N Meta)
        → is_foreign num fingerprint same_temperature expected_generator expected_temperature task
            result
          ≡ false
        → (r : IsReusable task result) × (r.temperature
            ≡ fill num fingerprint same_temperature expected_generator expected_temperature
                result.temperature)
    unfolding is_foreign
    is_foreign-IsReusable task result h = (
      record {
        task_id = ground (arith, string_eq.beq_iff result.task_id task.id);
        suite = ground (arith, string_eq.beq_iff result.suite task.suite);
        generator = (is_other_iff result.generator expected_generator).0 (ground arith);
        fingerprint_kept = kept ((and_iff _ _).0 (ground arith));
        temperature =
            fill num fingerprint same_temperature expected_generator expected_temperature
              result.temperature;
        is_temperature = fill_lem result.temperature (ground arith);
      },
      refl,
    )
      where
        kept :
            (((task.suite == "evolution") ≡ false)
              ⊎ (differs result.task_fingerprint (fingerprint task) ≡ false))
            → ((task.suite == "evolution") ≡ false)
              ⊎ (result.task_fingerprint ≡ some (fingerprint task))
        kept (inl e) = inl e
        kept (inr e) = inr ((differs_iff _ _).0 e)

    IsReusable-is_foreign :
        (task : Task N) (result : TaskRunResult N Meta)
        → IsReusable task result
        → is_foreign num fingerprint same_temperature expected_generator expected_temperature task
            result
          ≡ false
    unfolding is_foreign
    IsReusable-is_foreign task result r =
        let generator = (is_other_iff result.generator expected_generator).1 r.generator in
        let kept = (and_iff _ _).1 (own r.fingerprint_kept) in
        let (near, _) = near_temperature result.temperature r.temperature r.is_temperature in
        let same_id : (result.task_id == task.id) ≡ true =
          (string_eq.beq_iff result.task_id task.id).1 r.task_id in
        let same_suite : (result.suite == task.suite) ≡ true =
          (string_eq.beq_iff result.suite task.suite).1 r.suite in
        rw (same_suite, generator, kept, same_id, near) refl
      where
        own :
            ((task.suite == "evolution") ≡ false)
              ⊎ (result.task_fingerprint ≡ some (fingerprint task))
            → ((task.suite == "evolution") ≡ false)
              ⊎ (differs result.task_fingerprint (fingerprint task) ≡ false)
        own (inl e) = inl e
        own (inr e) = inr ((differs_iff _ _).1 e)

    -- A stored result is reused exactly if it has the task's id and suite, the expected generator if
    -- one is expected, the task's fingerprint if the task is of the evolution suite, and no
    -- temperature or one that counts as the expected one, its score with the expected temperature
    -- filled in for a missing one can be computed, and the list of scores has the task's index,
    -- where this score then stands.
    pub load_existing_task_score_iff :
        (task : Task N) (result : TaskRunResult N Meta) (task_index : ℕ)
        (task_scores filled : List (Option (TaskScore N Meta)))
        → (load_existing_task_score num fingerprint same_temperature expected_generator
              expected_temperature task result task_index task_scores
            ≡ some filled)
          ↔ ((r : IsReusable task result) × (s : TaskScore N Meta) × (score_task num task
                  (record result { temperature = some r.temperature })
                ≡ some s)
              × (set? task_scores task_index (some s) ≡ some filled))
    unfolding load_existing_task_score
    load_existing_task_score_iff task result task_index task_scores filled = (
      λ h.
          elim (Bool-cases (
            is_foreign num fingerprint same_temperature expected_generator expected_temperature task
              result)) [
                | inl e ↦ absurd (cc (rw e at h))
                | inr e ↦
                    let (s, e1, h1) =
                      bind_inv
                        (score_task num task (
                          with_temperature num fingerprint same_temperature expected_generator
                            expected_temperature result))
                        _ _ (rw e at h) in
                    let (r, same) = is_foreign-IsReusable task result e in (r, s, rw same e1, h1)
              ],
      λ (r, s, e, k).
          let own = IsReusable-is_foreign task result r in
          let (_, same) = near_temperature result.temperature r.temperature r.is_temperature in
          rw (own, same, e) k,
    )
