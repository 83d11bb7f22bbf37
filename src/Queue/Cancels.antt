-- ===== src/Queue/Cancels.antt =====
-- What a failure leaves behind.
use csharp_llm_benchmark.Prelude.{
  ℕ, ◌≡◌, refl, ◌⊎◌, inl, inr, Option, none, List, [], ◌∷◌, All, Any, Bool, true, false, arith,
  if◌then◌else◌,
}
use csharp_llm_benchmark.Prelude.Numbers.{Numbers}
use csharp_llm_benchmark.Scorer.{TaskScore}
use csharp_llm_benchmark.Queue.{
  PendingGeneration, PendingEvaluation, Pool, Queue, Event, future_cancelled, runner_cancelled,
  Failure, generation_failed, evaluation_failed, interrupted, Run, finished, failed, out_of_fuel,
}
use csharp_llm_benchmark.Queue.Rounds.{
  cancel_generations, cancel_evaluations, cancel_all_pending_work, queue_more, run_generation_queue,
  start,
}
use csharp_llm_benchmark.Queue.Loop.{AfterStep}
use csharp_llm_benchmark.Queue.Steps.{
  OnFailure, queue_more-AfterStep, complete_generation-AfterStep, complete_evaluation-AfterStep,
}
use csharp_llm_benchmark.Queue.Runs.{AfterRun, run_generation_queue-AfterRun}

module _ {N Meta Generated : Type 0} (num : Numbers N) (pool : Pool N Meta Generated) where
  abbrev Happened : Event → List Event → Type 0
  Happened e events = Any (λ x. x ≡ e) events

  -- The runner is cancelled, and so is each future, but for a generation that was done.
  pub record IsCancelled (q : Queue N Meta Generated) : Type 0 where
    pub runner : Any (λ x. x ≡ runner_cancelled) q.events
    pub evaluations : All (λ p. Any (λ x. x ≡ future_cancelled p.0) q.events) q.pending
    pub generations :
        All
          (λ g.
            Any (λ x. x ≡ future_cancelled g.0) q.events
            ⊎ ((events : List Event) × (pool.is_done events g.0 ≡ true)))
          q.active_generations

  -- The cause of a failure, and what was done about it.
  abbrev pub IsHandled : Failure → Queue N Meta Generated → Type 0
  IsHandled (generation_failed f) q =
      IsCancelled q × ((g : PendingGeneration N) × (pool.generate f g ≡ none))
  IsHandled (evaluation_failed f) q =
      IsCancelled q × ((e : PendingEvaluation N Generated) × (pool.evaluate f e ≡ none))
  IsHandled interrupted q = Unit

  module _ (generation_workers : ℕ) where
    after_evaluations :
        (e : Event) (ps : List (ℕ × PendingEvaluation N Generated)) (events : List Event)
        → Happened e events
        → Happened e (cancel_evaluations num pool generation_workers ps events)
    after_evaluations e [] events h = h
    after_evaluations e ((f, p) ∷ ps) events h = after_evaluations e ps _ (inr h)

    evaluations_cancelled :
        (ps : List (ℕ × PendingEvaluation N Generated)) (events : List Event)
        → All
            (λ p.
              Happened
                (future_cancelled p.0)
                (cancel_evaluations num pool generation_workers ps events))
            ps
    evaluations_cancelled [] events = tt
    evaluations_cancelled ((f, p) ∷ ps) events =
        (after_evaluations (future_cancelled f) ps _ (inl refl), evaluations_cancelled ps _)

    after_generations :
        (e : Event) (gs : List (ℕ × PendingGeneration N)) (events : List Event)
        → Happened e events
        → Happened e (cancel_generations num pool generation_workers gs events)
    after_generations e [] events h = h
    after_generations e ((f, g) ∷ gs) events h =
        after_generations e gs _ (go (pool.is_done events f))
      where
        go : (c : Bool) → Happened e (if c then events else future_cancelled f ∷ events)
        go true = h
        go false = inr h

    generations_cancelled :
        (ps : List (ℕ × PendingEvaluation N Generated)) (gs : List (ℕ × PendingGeneration N))
        (events : List Event)
        → All
            (λ g.
              Any
                (λ x. x ≡ future_cancelled g.0)
                (runner_cancelled
                  ∷ cancel_evaluations num pool generation_workers ps
                      (cancel_generations num pool generation_workers gs events))
              ⊎ ((seen : List Event) × (pool.is_done seen g.0 ≡ true)))
            gs
    generations_cancelled ps [] events = tt
    generations_cancelled ps ((f, g) ∷ gs) events =
        (go (pool.is_done events f) refl, generations_cancelled ps gs _)
      where
        go :
            (c : Bool)
            → pool.is_done events f ≡ c
            → Any
                (λ x. x ≡ future_cancelled f)
                (runner_cancelled
                  ∷ cancel_evaluations num pool generation_workers ps (
                      cancel_generations num pool generation_workers gs
                        (if c then events else future_cancelled f ∷ events)))
              ⊎ ((seen : List Event) × (pool.is_done seen f ≡ true))
        go true e = inr (events, e)
        go false e = inl (inr (after_evaluations _ ps _ (after_generations _ gs _ (inl refl))))

    cancel_all_pending_work-IsCancelled :
        (q : Queue N Meta Generated)
        → IsCancelled (cancel_all_pending_work num pool generation_workers q)
    unfolding cancel_all_pending_work
    cancel_all_pending_work-IsCancelled q = record {
      runner = inl refl;
      evaluations = later q.pending _ (evaluations_cancelled q.pending _);
      generations = generations_cancelled q.pending q.active_generations q.events;
    }
      where
        later :
            (ps : List (ℕ × PendingEvaluation N Generated)) (events : List Event)
            → All (λ p. Happened (future_cancelled p.0) events) ps
            → All (λ p. Happened (future_cancelled p.0) (runner_cancelled ∷ events)) ps
        later [] events h = tt
        later (p ∷ ps) events h = (inr h.0, later ps events h.1)

    failures : OnFailure num pool generation_workers IsHandled
    failures = record {
      mkdir = λ g q e. tt;
      generation = λ f g q e. (cancel_all_pending_work-IsCancelled q, (g, e));
      evaluation = λ f p q e. (cancel_all_pending_work-IsCancelled q, (p, e));
      write = λ p r q e. tt;
    }

    -- If a generation or an evaluation ends the queue by an exception, then the runner has been
    -- cancelled, and so has each pending evaluation and each active generation, but for those
    -- generations that were done; and that future's result is an exception.
    pub run_generation_queue_cancels :
        (queued : List (PendingGeneration N)) (scores : List (List (Option (TaskScore N Meta))))
        (e : Failure) (q : Queue N Meta Generated)
        → run_generation_queue num pool generation_workers queued scores ≡ failed e q
        → IsHandled e q
    run_generation_queue_cancels queued scores e q h =
        go (run_generation_queue num pool generation_workers queued scores) h (
          run_generation_queue-AfterRun num pool generation_workers (λ q. Unit) IsHandled
            (λ f q p.
              complete_generation-AfterStep num pool generation_workers (λ q. Unit) IsHandled
                failures f q (λ g active generated popped e. more q.waiting _))
            (λ f q p.
              complete_evaluation-AfterStep num pool generation_workers (λ q. Unit) IsHandled
                failures f q (λ e pending result score scores popped r c t. tt)
                (λ e pending result popped t. tt) (λ e pending score popped t. tt))
            queued scores (more queued (start num pool generation_workers queued scores)))
      where
        more :
            (waiting : List (PendingGeneration N)) (q : Queue N Meta Generated)
            → AfterStep (λ q. Unit) IsHandled (queue_more num pool generation_workers waiting q)
        more waiting q =
            queue_more-AfterStep num pool generation_workers (λ q. Unit) IsHandled failures
              (λ g rest q free p. tt) waiting q tt

        go :
            (r : Run (Queue N Meta Generated))
            → r ≡ failed e q
            → AfterRun num pool generation_workers (λ q. Unit) IsHandled r
            → IsHandled e q
        go (finished q') h p = absurd (cc)
        go (failed e' q') h p =
            let one : e' ≡ e = ground arith in
            let two : q' ≡ q = ground arith in rw (← one, ← two) p
        go out_of_fuel h p = absurd (cc)
