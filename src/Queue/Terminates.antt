-- ===== src/Queue/Terminates.antt =====
-- The queue comes to an end.
use csharp_llm_benchmark.Prelude.{
  ℕ, zero, suc, ◌+◌, ◌*◌, ◌≡◌, refl, ◌≢◌, ◌⊎◌, inl, inr, ◌<◌, Option, List, [], ◌∷◌, ◌++◌, length,
  mem, Bool, true, false, nat_eq, arith, if◌then◌else◌,
}
use csharp_llm_benchmark.Prelude.Numbers.{Numbers}
use csharp_llm_benchmark.Scorer.{TaskScore}
use csharp_llm_benchmark.Queue.{
  PendingGeneration, Pool, Queue, Event, Step, ignored, handled, raised, Round, continues, stops,
  finished, out_of_fuel, futures_of, each_future,
}
use csharp_llm_benchmark.Queue.Rounds.{
  queue_more, queue_more_generations, complete_generation, complete_evaluation, then_evaluations,
  round, is_idle, after_round, rounds, after_start, start, run_generation_queue,
}
use csharp_llm_benchmark.Queue.Futures.{mem-pop, mem-append}
use csharp_llm_benchmark.Queue.Loop.{
  AfterStep, AfterLoop, AnyFailure, HasProgressed, each_future-HasProgressed,
}
use csharp_llm_benchmark.Queue.Progress.{
  left, queue_more-left, complete_generation-left, complete_evaluation-left, queue_more_acts,
  generation_ignored, evaluation_ignored,
}

-- Documented behaviour of `wait`: it returns one of the futures that it is given, or more.
pub record WaitLaws {N Meta Generated : Type 0} (pool : Pool N Meta Generated) : Type 0 where
  pub first : List Event → ℕ → List ℕ → ℕ
  pub others : List Event → ℕ → List ℕ → List ℕ
  pub returned :
      (events : List Event) (f : ℕ) (fs : List ℕ)
      → pool.wait events (f ∷ fs) ≡ first events f fs ∷ others events f fs
  pub given : (events : List Event) (f : ℕ) (fs : List ℕ) → mem (first events f fs) (f ∷ fs) ≡ true

module _ {N Meta Generated : Type 0} (num : Numbers N) (pool : Pool N Meta Generated)
    (generation_workers : ℕ) where
  module _ (laws : WaitLaws pool) where
    -- What `wait` returns begins with a future that is in one of the dictionaries.
    waited :
        (q : Queue N Meta Generated)
        → is_idle num pool generation_workers
            (futures_of q.active_generations)
            (futures_of q.pending)
          ≡ false
        → (f : ℕ) × (more : List ℕ) × (pool.wait q.events
              (futures_of q.pending ++ futures_of q.active_generations)
            ≡ f ∷ more)
          × ((mem f (futures_of q.pending) ≡ true)
              ⊎ (mem f (futures_of q.active_generations) ≡ true))
    waited q busy = go (futures_of q.pending) (futures_of q.active_generations) busy
      where
        go :
            (ps gs : List ℕ)
            → is_idle num pool generation_workers gs ps ≡ false
            → (f : ℕ) × (more : List ℕ) × (pool.wait q.events (ps ++ gs) ≡ f ∷ more)
              × ((mem f ps ≡ true) ⊎ (mem f gs ≡ true))
        go [] [] busy = absurd (cc)
        go [] (g ∷ gs) busy = (
          laws.first q.events g gs,
          laws.others q.events g gs,
          laws.returned q.events g gs,
          inr (laws.given q.events g gs),
        )
        go (p ∷ ps) gs busy = (
          laws.first q.events p (ps ++ gs),
          laws.others q.events p (ps ++ gs),
          laws.returned q.events p (ps ++ gs),
          mem-append _ (p ∷ ps) gs (laws.given q.events p (ps ++ gs)),
        )

    round-left :
        (q : Queue N Meta Generated)
        → is_idle num pool generation_workers
            (futures_of q.active_generations)
            (futures_of q.pending)
          ≡ false
        → AfterLoop
            (λ q'. left num pool generation_workers q' < left num pool generation_workers q)
            AnyFailure
            (round num pool generation_workers q)
    unfolding round
    round-left q busy =
        let (f, more, e, known) = waited q busy in
        rw (e) (
          first f more known
            (each_future (complete_generation num pool generation_workers) (f ∷ more) q)
            (each_future-HasProgressed (complete_generation num pool generation_workers)
              (left num pool generation_workers)
              (complete_generation-left num pool generation_workers) (f ∷ more) q))
      where
        second :
            (q1 : Queue N Meta Generated) (rest : List ℕ) (r : Round (Queue N Meta Generated))
            → left num pool generation_workers q1 < left num pool generation_workers q
            → HasProgressed
                (complete_evaluation num pool generation_workers)
                (left num pool generation_workers)
                rest
                q1
                r
            → AfterLoop
                (λ q'. left num pool generation_workers q' < left num pool generation_workers q)
                AnyFailure
                r
        second q1 rest (continues q2 _) less (inl lesser) = omega (arith, less, lesser)
        second q1 rest (continues q2 _) less (inr (same, _, _)) = rw same less
        second q1 rest (stops e q2) less p = tt

        known_ignored :
            (f : ℕ)
            → (mem f (futures_of q.pending) ≡ true)
              ⊎ (mem f (futures_of q.active_generations) ≡ true)
            → complete_generation num pool generation_workers f q ≡ ignored
            → complete_evaluation num pool generation_workers f q ≢ ignored
        known_ignored f (inl m) g e =
            mem-pop f q.pending m (evaluation_ignored num pool generation_workers f q e)
        known_ignored f (inr m) g e =
            mem-pop f q.active_generations m (generation_ignored num pool generation_workers f q g)

        only_second :
            (f : ℕ) (more : List ℕ) (r : Round (Queue N Meta Generated))
            → (mem f (futures_of q.pending) ≡ true)
              ⊎ (mem f (futures_of q.active_generations) ≡ true)
            → complete_generation num pool generation_workers f q ≡ ignored
            → HasProgressed
                (complete_evaluation num pool generation_workers)
                (left num pool generation_workers)
                (f ∷ more)
                q
                r
            → AfterLoop
                (λ q'. left num pool generation_workers q' < left num pool generation_workers q)
                AnyFailure
                r
        only_second f more (continues q2 _) known i (inl less) = less
        only_second f more (continues q2 _) known i (inr (_, _, (i', _))) =
            absurd (known_ignored f known i i')
        only_second f more (stops e q2) known i p = tt

        first :
            (f : ℕ) (more : List ℕ)
            → (mem f (futures_of q.pending) ≡ true)
              ⊎ (mem f (futures_of q.active_generations) ≡ true)
            → (r : Round (Queue N Meta Generated))
            → HasProgressed
                (complete_generation num pool generation_workers)
                (left num pool generation_workers)
                (f ∷ more)
                q
                r
            → AfterLoop
                (λ q'. left num pool generation_workers q' < left num pool generation_workers q)
                AnyFailure
                (then_evaluations num pool generation_workers r)
        first f more known (stops e q1) p = tt
        first f more known (continues q1 rest) (inl less) = second q1 rest _ less (
            each_future-HasProgressed (complete_evaluation num pool generation_workers)
              (left num pool generation_workers)
              (complete_evaluation-left num pool generation_workers) rest q1)
        first f more known (continues q1 rest) (inr (same, all, (i, _))) =
            rw (same, all)
              (only_second f more _ known i (
                each_future-HasProgressed (complete_evaluation num pool generation_workers)
                  (left num pool generation_workers)
                  (complete_evaluation-left num pool generation_workers) (f ∷ more) q))

    rounds_enough :
        (fuel : ℕ) (q : Queue N Meta Generated)
        → left num pool generation_workers q < fuel
        → rounds num pool generation_workers fuel q ≢ out_of_fuel
    unfolding rounds
    rounds_enough zero q less h = absurd (omega (arith, less))
    rounds_enough (suc fuel) q less h =
        go
          (is_idle num pool generation_workers (futures_of q.active_generations)
            (futures_of q.pending))
          refl h (rounds_enough fuel)
      where
        next :
            (r : Round (Queue N Meta Generated))
            → AfterLoop
                (λ q'. left num pool generation_workers q' < left num pool generation_workers q)
                AnyFailure
                r
            → ((q' : Queue N Meta Generated)
                → left num pool generation_workers q' < fuel
                → rounds num pool generation_workers fuel q' ≢ out_of_fuel)
            → after_round num pool generation_workers r (rounds num pool generation_workers fuel)
              ≢ out_of_fuel
        next (continues q' rest) lesser ih h = ih q' (omega (arith, less, lesser)) h
        next (stops e q') lesser ih h = absurd (cc)

        go :
            (idle : Bool)
            → is_idle num pool generation_workers
                (futures_of q.active_generations)
                (futures_of q.pending)
              ≡ idle
            → (if idle
                then finished q
                else after_round num pool generation_workers
                    (round num pool generation_workers q)
                    (rounds num pool generation_workers fuel))
              ≡ out_of_fuel
            → ((q' : Queue N Meta Generated)
                → left num pool generation_workers q' < fuel
                → rounds num pool generation_workers fuel q' ≢ out_of_fuel)
            → ⊥
        go true e h ih = absurd (cc)
        go false e h ih = next _ (round-left q e) ih h

    -- If `wait` returns one or more of the futures that it is given, then the queue comes to an end:
    -- the fuel is enough for any tasks, scores, executors and number of workers.
    pub run_generation_queue_ends :
        (queued : List (PendingGeneration N)) (scores : List (List (Option (TaskScore N Meta))))
        → run_generation_queue num pool generation_workers queued scores ≢ out_of_fuel
    unfolding run_generation_queue queue_more_generations
    run_generation_queue_ends queued scores h =
        go
          (queue_more num pool generation_workers queued
            (start num pool generation_workers queued scores))
          (queue_more_acts num pool generation_workers queued
            (start num pool generation_workers queued scores))
          (queue_more-left num pool generation_workers queued
            (start num pool generation_workers queued scores))
          h
      where
        go :
            (st : Step (Queue N Meta Generated))
            → st ≢ ignored
            → AfterStep
                (λ q. left num pool generation_workers q ≡ 2 * (length queued + 0) + 0)
                AnyFailure
                st
            → after_start num pool generation_workers (2 * length queued + 1) st ≢ out_of_fuel
        go ignored acts same h = acts refl
        go (handled q) acts same h = rounds_enough (2 * length queued + 1) q (omega (arith, same)) h
        go (raised e q) acts same h = absurd (cc)
