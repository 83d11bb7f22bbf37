-- ===== src/Queue/Runs.antt =====
-- The outer loop of the queue: what each step keeps, a whole run keeps.
use csharp_llm_benchmark.Prelude.{
  ℕ, zero, suc, ◌+◌, ◌*◌, ◌≡◌, refl, Option, List, length, Bool, true, false, if◌then◌else◌,
}
use csharp_llm_benchmark.Prelude.Numbers.{Numbers}
use csharp_llm_benchmark.Scorer.{TaskScore}
use csharp_llm_benchmark.Queue.{
  PendingGeneration, Pool, Queue, Failure, Step, ignored, handled, raised, Round, continues, stops,
  Run, finished, failed, out_of_fuel, futures_of,
}
use csharp_llm_benchmark.Queue.Rounds.{
  queue_more, queue_more_generations, complete_generation, complete_evaluation, then_evaluations,
  round, is_idle, after_round, rounds, after_start, start, run_generation_queue,
}
use csharp_llm_benchmark.Queue.Loop.{AfterStep, AfterLoop, each_future-AfterLoop}

module _ {N Meta Generated : Type 0} (num : Numbers N) (pool : Pool N Meta Generated)
    (generation_workers : ℕ) (P : Queue N Meta Generated → Type 0)
    (E : Failure → Queue N Meta Generated → Type 0) where
  abbrev pub AfterRun : Run (Queue N Meta Generated) → Type 0
  AfterRun (finished q) =
      P q
      × (is_idle num pool generation_workers (futures_of q.active_generations)
            (futures_of q.pending)
          ≡ true)
  AfterRun (failed e q) = E e q
  AfterRun out_of_fuel = Unit

  module _
      (generations : (f : ℕ) (q : Queue N Meta Generated)
        → P q
        → AfterStep P E (complete_generation num pool generation_workers f q))
      (evaluations : (f : ℕ) (q : Queue N Meta Generated)
        → P q
        → AfterStep P E (complete_evaluation num pool generation_workers f q)) where
    round-AfterLoop :
        (q : Queue N Meta Generated) → P q → AfterLoop P E (round num pool generation_workers q)
    unfolding round
    round-AfterLoop q p =
        let completed = pool.wait q.events _ in
        go _ (
          each_future-AfterLoop (complete_generation num pool generation_workers) P E generations
            completed q p)
      where
        go :
            (r : Round (Queue N Meta Generated))
            → AfterLoop P E r
            → AfterLoop P E (then_evaluations num pool generation_workers r)
        go (continues q1 rest) h =
            each_future-AfterLoop (complete_evaluation num pool generation_workers) P E evaluations
              rest q1 h
        go (stops e q1) h = h

    rounds-AfterRun :
        (fuel : ℕ) (q : Queue N Meta Generated)
        → P q
        → AfterRun (rounds num pool generation_workers fuel q)
    unfolding rounds
    rounds-AfterRun zero q p = tt
    rounds-AfterRun (suc fuel) q p =
        go
          (is_idle num pool generation_workers (futures_of q.active_generations)
            (futures_of q.pending))
          refl
          (next (round num pool generation_workers q) (round-AfterLoop q p) (rounds-AfterRun fuel))
      where
        next :
            (r : Round (Queue N Meta Generated))
            → AfterLoop P E r
            → ((q' : Queue N Meta Generated)
                → P q'
                → AfterRun (rounds num pool generation_workers fuel q'))
            → AfterRun (
                after_round num pool generation_workers r (rounds num pool generation_workers fuel))
        next (continues q' rest) h ih = ih q' h
        next (stops e q') h ih = h

        go :
            (idle : Bool)
            → is_idle num pool generation_workers
                (futures_of q.active_generations)
                (futures_of q.pending)
              ≡ idle
            → AfterRun (
                after_round num pool generation_workers
                  (round num pool generation_workers q)
                  (rounds num pool generation_workers fuel))
            → AfterRun (
                if idle
                then finished q
                else after_round num pool generation_workers
                    (round num pool generation_workers q)
                    (rounds num pool generation_workers fuel))
        go true e h = (p, e)
        go false e h = h

    pub run_generation_queue-AfterRun :
        (queued : List (PendingGeneration N)) (scores : List (List (Option (TaskScore N Meta))))
        → AfterStep P E (
            queue_more num pool generation_workers queued
              (start num pool generation_workers queued scores))
        → AfterRun (run_generation_queue num pool generation_workers queued scores)
    unfolding run_generation_queue queue_more_generations
    run_generation_queue-AfterRun queued scores h = go _ h
      where
        go :
            (st : Step (Queue N Meta Generated))
            → AfterStep P E st
            → AfterRun (after_start num pool generation_workers (2 * length queued + 1) st)
        go ignored h = tt
        go (handled q) h = rounds-AfterRun (2 * length queued + 1) q h
        go (raised e q) h = h
