-- ===== src/Requests/Flow.antt =====
-- What the pool of src/req_aggr/mod.rs passes on, over any order of rounds and calls.
use mathlib.Core.List.{append_assoc, append-nil}
use hot_iron_oxide.Base.{◌≡◌, List, [], ◌∷◌, ◌++◌, ◌∙◌, sym, ap}
use hot_iron_oxide.Atlas.{Atlas}
use hot_iron_oxide.Requests.{Pool, default_pool, drain, run_round, take_pool_requests}

module _ ⦃atlas : Atlas⦄ where
  open atlas use {Request, digest_default}

  -- A round of the thread, with the batches that it finds, or a call that takes the pool.
  pub data Event : Type 0 where
    round : List Request → List (List Request) → Event
    take : Event

  all_of : List (List Request) → List Request
  all_of [] = []
  all_of (batch ∷ batches) = batch ++ all_of batches

  -- What arrives in an order of events.
  pub arrived : List Event → List Request
  unfolding all_of
  arrived [] = []
  arrived (round first more ∷ events) = (first ++ all_of more) ++ arrived events
  arrived (take ∷ events) = arrived events

  -- The pools that the calls return, and the last pool.
  pub run : Pool → List Event → List Pool × Pool
  run pool [] = ([], pool)
  run pool (round first more ∷ events) = run (run_round pool first more) events
  run pool (take ∷ events) =
      let (taken, rest) = take_pool_requests pool in
      let later = run rest events in (taken ∷ later.0, later.1)

  pub contents : List Pool → List Request
  contents [] = []
  contents (pool ∷ pools) = pool.requests ++ contents pools

  drain_lem :
      (xs : List Request) (batches : List (List Request)) → drain xs batches ≡ xs ++ all_of batches
  unfolding drain all_of
  drain_lem xs [] = sym (append-nil xs)
  drain_lem xs (batch ∷ batches) = drain_lem (xs ++ batch) batches ∙ append_assoc xs batch _

  -- Over any order of rounds and calls, the requests in the pools that the calls returned, followed
  -- by those still in the pool, are those that were in the pool at first followed by those that
  -- arrived, in their order: none is lost, doubled or reordered.
  pub contents-run :
      (pool : Pool) (events : List Event)
      → contents (run pool events).0 ++ (run pool events).1.requests
        ≡ pool.requests ++ arrived events
  unfolding contents run arrived run_round take_pool_requests
  contents-run pool [] = sym (append-nil pool.requests)
  contents-run pool (round first more ∷ events) =
      contents-run (run_round pool first more) events
      ∙ rw (drain_lem first more) (append_assoc pool.requests _ _)
  contents-run pool (take ∷ events) =
      append_assoc pool.requests _ _ ∙ ap (◌++◌ pool.requests) (contents-run default_pool events)
