-- ===== src/Campaign/Validate/Points.antt =====
-- The dictionary of the points that a summary must have.
use mathlib.Core.Path.{subst}
use csharp_llm_benchmark.Prelude.{
  suc, ◌≡◌, refl, sym, ap, ◌∙◌, String, some, List, [], ◌∷◌, map, mem, length, arith, Bool, true,
  false, ◌||◌, ◌==◌, string_eq, Bool-cases, ◌⊎◌, inl, inr, Any, IsDistinct, differ_sym,
  if◌then◌else◌,
}
use csharp_llm_benchmark.Tasks.Model.{Dict, keys}
use csharp_llm_benchmark.Campaign.Model.{TaskContract}
use csharp_llm_benchmark.Campaign.Validate.{at_key, put_key, points_from}

module _ {V : Type 0} where
  pub at_key-put_key :
      (key other : String) (value : V) (d : Dict V)
      → at_key other (put_key key value d) ≡ (if key == other then some value else at_key other d)
  at_key-put_key key other value [] = refl
  at_key-put_key key other value ((k, v) ∷ rest) = elim (Bool-cases (k == key)) [
    | inr e ↦ elim (Bool-cases (k == other)) [
      | inr e' ↦ rw (e, e') (at_key-put_key key other value rest)
      | inl e' ↦
          let same : k ≡ other = (string_eq.beq_iff k other).0 e' in
          let apart : (key == other) ≡ false =
            differ_sym other key (subst (λ z. (z == key) ≡ false) same e) in
          rw (e, e', apart) refl
    ]
    | inl e ↦
        let same : k ≡ key = (string_eq.beq_iff k key).0 e in
        let both : (k == other) ≡ (key == other) = ap (λ z. z == other) same in
        rw (e, both) (choose (key == other))
  ]
    where
      choose :
          (b : Bool)
          → (if b then some value else at_key other rest)
            ≡ (if b then some value else (if b then some v else at_key other rest))
      choose true = refl
      choose false = refl

  pub mem-put_key :
      (key other : String) (value : V) (d : Dict V)
      → mem other (keys (put_key key value d)) ≡ (key == other || mem other (keys d))
  mem-put_key key other value [] = refl
  mem-put_key key other value ((k, v) ∷ rest) = elim (Bool-cases (k == key)) [
    | inr e ↦ let ih = mem-put_key key other value rest in rw e (ground (arith, ih))
    | inl e ↦
        let same : k ≡ key = (string_eq.beq_iff k key).0 e in
        let both : (k == other) ≡ (key == other) = ap (λ z. z == other) same in
        rw e (ground (arith, both))
  ]

  pub put_key-IsDistinct :
      (key : String) (value : V) (d : Dict V)
      → IsDistinct (keys d)
      → IsDistinct (keys (put_key key value d))
  put_key-IsDistinct key value [] distinct = (refl, tt)
  put_key-IsDistinct key value ((k, v) ∷ rest) (new, distinct) = elim (Bool-cases (k == key)) [
    | inl e ↦ rw e (new, distinct)
    | inr e ↦ rw e (
      mem-put_key key k value rest ∙ ground (arith, new, differ_sym k key e),
      put_key-IsDistinct key value rest distinct,
    )
  ]

  -- A key that is there keeps its place.
  pub keys-put_key :
      (key : String) (value old : V) (d : Dict V)
      → at_key key d ≡ some old
      → keys (put_key key value d) ≡ keys d
  keys-put_key key value old [] h = absurd (cc)
  keys-put_key key value old ((k, v) ∷ rest) h = elim (Bool-cases (k == key)) [
    | inl e ↦ rw e refl
    | inr e ↦
        let there : at_key key rest ≡ some old = (rw e at h) in
        rw e (ap (λ (l : List String). k ∷ l) (keys-put_key key value old rest there))
  ]

  pub mem-at_key :
      (key : String) (d : Dict V) → mem key (keys d) ≡ true → (v : V) × (at_key key d ≡ some v)
  mem-at_key key [] h = absurd (cc)
  mem-at_key key ((k, v) ∷ rest) h = elim (Bool-cases (k == key)) [
    | inl e ↦ (v, rw e refl)
    | inr e ↦ rw e (mem-at_key key rest (ground (arith, h, e)))
  ]

  pub length-keys : (d : Dict V) → length (keys d) ≡ length d
  length-keys [] = refl
  length-keys ((k, v) ∷ rest) = ap suc (length-keys rest)

module _ {N : Type 0} where
  abbrev pub task_ids : List (TaskContract N) → List String
  task_ids tasks = map (λ (t : TaskContract N). t.id) tasks

  pub points_from-IsDistinct :
      (points : Dict N) (tasks : List (TaskContract N))
      → IsDistinct (keys points)
      → IsDistinct (keys (points_from points tasks))
  points_from-IsDistinct points [] d = d
  points_from-IsDistinct points (t ∷ tasks) d =
      points_from-IsDistinct (put_key t.id t.available_points points) tasks
        (put_key-IsDistinct t.id t.available_points points d)

  pub mem-points_from :
      (points : Dict N) (tasks : List (TaskContract N)) (n : String)
      → mem n (keys (points_from points tasks)) ≡ (mem n (keys points) || mem n (task_ids tasks))
  mem-points_from points [] n = ground arith
  mem-points_from points (t ∷ tasks) n =
      let ih = mem-points_from (put_key t.id t.available_points points) tasks n in
      ground (arith, ih, mem-put_key t.id n t.available_points points)

  pub at_key-points_from :
      (points : Dict N) (tasks : List (TaskContract N)) (n : String) (p : N)
      → at_key n (points_from points tasks) ≡ some p
      → (at_key n points ≡ some p) ⊎ Any (λ t. (t.id ≡ n) × (t.available_points ≡ p)) tasks
  at_key-points_from points [] n p h = inl h
  at_key-points_from points (t ∷ tasks) n p h =
      elim (at_key-points_from (put_key t.id t.available_points points) tasks n p h) [
        | inr later ↦ inr (inr later)
        | inl found ↦ elim (Bool-cases (t.id == n)) [
          | inl e ↦
              let put : (if t.id == n then some t.available_points else at_key n points) ≡ some p =
                sym (at_key-put_key t.id n t.available_points points) ∙ found in
              let here : some t.available_points ≡ some p = (rw e at put) in
              inr (inl ((string_eq.beq_iff t.id n).0 e, ground (arith, here)))
          | inr e ↦
              let put : (if t.id == n then some t.available_points else at_key n points) ≡ some p =
                sym (at_key-put_key t.id n t.available_points points) ∙ found in
              inl (rw e at put)
        ]
      ]
