-- ===== src/Queue/Futures.antt =====
-- The dictionaries of the queue, whose futures_of are futures, and the table of the scores.
use csharp_llm_benchmark.Prelude.{
  ℕ, suc, ◌+◌, ◌≡◌, refl, ◌≢◌, ◌⊎◌, inl, inr, Option, none, some, List, [], ◌∷◌, ◌++◌, length, mem,
  All, Any, get_elem?, set?, set?-none, get_elem?-set?, set?_cases, Bool, true, false, ◌==◌, nat_eq,
  ◌||◌, arith, ◌>>=◌, bind_inv,
}
use csharp_llm_benchmark.Queue.{pop_at, pop, futures_of, store}

-- What is popped is one entry less.
pub pop-length {ℓ} :
    {A : Type ℓ} (f : ℕ) (l : List (ℕ × A)) (a : A) (rest : List (ℕ × A))
    → pop f l ≡ some (a, rest)
    → length rest + 1 ≡ length l
pop-length f [] a rest h = absurd (cc)
pop-length {A = A} f ((g, b) ∷ l) a rest h = go (g == f) (pop f l) (pop-length f l) h
  where
    go :
        (c : Bool) (found : Option (A × List (ℕ × A)))
        → ((a' : A) (rest' : List (ℕ × A)) → found ≡ some (a', rest') → length rest' + 1 ≡ length l)
        → pop_at c (g, b) l found ≡ some (a, rest)
        → length rest + 1 ≡ suc (length l)
    go true found ih h = let same : l ≡ rest = ground arith in rw (← same) (omega arith)
    go false none ih h = absurd (cc)
    go false (some (b', others)) ih h =
        let same : (g, b) ∷ others ≡ rest = ground arith in
        let less = ih b' others refl in rw (← same) (omega (arith, less))

-- A key that is there can be popped.
pub mem-pop {ℓ} :
    {A : Type ℓ} (f : ℕ) (l : List (ℕ × A)) → mem f (futures_of l) ≡ true → pop f l ≢ none
mem-pop f [] m h = absurd (cc)
mem-pop {A = A} f ((g, b) ∷ l) m h = go (g == f) (pop f l) (mem-pop f l) m h
  where
    go :
        (c : Bool) (found : Option (A × List (ℕ × A)))
        → (mem f (futures_of l) ≡ true → found ≢ none)
        → (c || mem f (futures_of l)) ≡ true
        → pop_at c (g, b) l found ≢ none
    go true found ih m h = absurd (cc)
    go false none ih m h = ih m refl
    go false (some (b', others)) ih m h = absurd (cc)

pub mem-append :
    (f : ℕ) (xs ys : List ℕ) → mem f (xs ++ ys) ≡ true → (mem f xs ≡ true) ⊎ (mem f ys ≡ true)
mem-append f [] ys h = inr h
mem-append f (x ∷ xs) ys h = go (x == f) (mem-append f xs ys) h
  where
    go :
        (c : Bool)
        → (mem f (xs ++ ys) ≡ true → (mem f xs ≡ true) ⊎ (mem f ys ≡ true))
        → (c || mem f (xs ++ ys)) ≡ true
        → ((c || mem f xs) ≡ true) ⊎ (mem f ys ≡ true)
    go true deeper h = inl refl
    go false deeper h = deeper h

-- What holds of some value still does after a pop, unless it is the value that was popped.
pub pop-Any {ℓ} :
    {A : Type ℓ} (P : A → Type 0) (f : ℕ) (l : List (ℕ × A)) (a : A) (rest : List (ℕ × A))
    → pop f l ≡ some (a, rest)
    → Any (λ e. P e.1) l
    → P a ⊎ Any (λ e. P e.1) rest
pop-Any P f [] a rest h p = absurd (cc)
pop-Any {A = A} P f ((g, b) ∷ l) a rest h p = go (g == f) (pop f l) (pop-Any P f l) h p
  where
    go :
        (c : Bool) (found : Option (A × List (ℕ × A)))
        → ((a' : A) (rest' : List (ℕ × A))
            → found ≡ some (a', rest')
            → Any (λ e. P e.1) l
            → P a' ⊎ Any (λ e. P e.1) rest')
        → pop_at c (g, b) l found ≡ some (a, rest)
        → P b ⊎ Any (λ e. P e.1) l
        → P a ⊎ Any (λ e. P e.1) rest
    go true found ih h p =
        let same : b ≡ a = ground arith in
        let others : l ≡ rest = ground arith in rw (← same, ← others) p
    go false none ih h p = absurd (cc)
    go false (some (b', others)) ih h (inl p) =
        let same : (g, b) ∷ others ≡ rest = ground arith in rw (← same) (inr (inl p))
    go false (some (b', others)) ih h (inr p) =
        let same : (g, b) ∷ others ≡ rest = ground arith in
        let value : b' ≡ a = ground arith in
        elim (ih b' others refl p) [
          | inl here ↦ rw (← value) (inl here)
          | inr there ↦ rw (← same) (inr (inr there))
        ]

pub pop-All {ℓ} :
    {A : Type ℓ} (P : A → Type 0) (f : ℕ) (l : List (ℕ × A)) (a : A) (rest : List (ℕ × A))
    → pop f l ≡ some (a, rest)
    → All (λ e. P e.1) l
    → P a × All (λ e. P e.1) rest
pop-All P f [] a rest h p = absurd (cc)
pop-All {A = A} P f ((g, b) ∷ l) a rest h p = go (g == f) (pop f l) (pop-All P f l) h
  where
    go :
        (c : Bool) (found : Option (A × List (ℕ × A)))
        → ((a' : A) (rest' : List (ℕ × A))
            → found ≡ some (a', rest')
            → All (λ e. P e.1) l
            → P a' × All (λ e. P e.1) rest')
        → pop_at c (g, b) l found ≡ some (a, rest)
        → P a × All (λ e. P e.1) rest
    go true found ih h =
        let same : b ≡ a = ground arith in
        let others : l ≡ rest = ground arith in rw (← same, ← others) p
    go false none ih h = absurd (cc)
    go false (some (b', others)) ih h =
        let same : (g, b) ∷ others ≡ rest = ground arith in
        let value : b' ≡ a = ground arith in
        let (here, there) = ih b' others refl p.1 in rw (← same, ← value) (here, (p.0, there))

-- `scores[t][i]`
abbrev pub cell {ℓ} : {A : Type ℓ} → ℕ → ℕ → List (List (Option A)) → Option (Option A)
cell t i scores = do row ← get_elem? scores t; get_elem? row i

pub cell-store {ℓ} :
    {A : Type ℓ} (t i : ℕ) (score : A) (scores after : List (List (Option A)))
    → store t i score scores ≡ some after
    → cell t i after ≡ some (some score)
unfolding store
cell-store t i score scores after h =
    let (row, found, h1) = bind_inv (get_elem? scores t) _ _ h in
    let (filled, written, h2) = bind_inv (set? row i (some score)) _ _ h1 in
    rw (get_elem?-set? scores after t filled h2, ◌>>=◌)
      (get_elem?-set? row filled i (some score) written)

-- A score that is stored stands in its own cell and leaves each other as it was.
pub store_cases {ℓ} :
    {A : Type ℓ} (t i : ℕ) (score : A) (scores after : List (List (Option A)))
    → store t i score scores ≡ some after
    → (t' i' : ℕ)
    → ((t ≡ t') × (i ≡ i') × (cell t' i' after ≡ some (some score)))
      ⊎ (cell t' i' after ≡ cell t' i' scores)
unfolding store
store_cases t i score scores after h t' i' =
    let (row, found, h1) = bind_inv (get_elem? scores t) _ _ h in
    let (filled, written, h2) = bind_inv (set? row i (some score)) _ _ h1 in
    elim (set?_cases scores t filled after h2 t') [
      | inr same ↦ inr (rw same refl)
      | inl (here, e) ↦ elim (set?_cases row i (some score) filled written i') [
        | inl (there, e') ↦ inl (here, there, rw (e, ◌>>=◌) e')
        | inr same ↦ inr (rw (e, ← here, found, ◌>>=◌) same)
      ]
    ]

-- Only a cell that is not there cannot be written.
pub store-none {ℓ} :
    {A : Type ℓ} (t i : ℕ) (score : A) (scores : List (List (Option A)))
    → store t i score scores ≡ none
    → cell t i scores ≡ none
unfolding store
store-none {A = A} t i score scores h = go (get_elem? scores t) refl h
  where
    inner :
        (row : List (Option A)) (filled : Option (List (Option A)))
        → get_elem? scores t ≡ some row
        → set? row i (some score) ≡ filled
        → (filled >>= (λ w. set? scores t w)) ≡ none
        → get_elem? row i ≡ none
    inner row none e e' h = set?-none row i (some score) e'
    inner row (some w) e e' h = absurd (cc (e, set?-none scores t w h))

    go :
        (found : Option (List (Option A)))
        → get_elem? scores t ≡ found
        → (do row ← found; filled ← set? row i (some score); set? scores t filled) ≡ none
        → (do row ← found; get_elem? row i) ≡ none
    go none e h = refl
    go (some row) e h = inner row (set? row i (some score)) e refl h
