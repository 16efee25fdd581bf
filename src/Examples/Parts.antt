-- ===== src/Examples/Parts.antt =====
-- The theorems on quorums, views, digests, requests, queues, logs and signals, applied to small data.
use hot_iron_oxide.Base.{
  suc, ◌+◌, ◌≤◌, ◌<◌, ◌≡◌, refl, ◌↔◌, true, false, List, [], ◌∷◌, ◌++◌, Returns, count_option,
  arith,
}
use hot_iron_oxide.Examples.{toy, vote_of, header}
use hot_iron_oxide.Quorum.{get_n_for_f, get_f_for_n, get_quorum_for_n}
use hot_iron_oxide.Quorum.Bounds.{get_f_for_n_greatest}
use hot_iron_oxide.Quorum.Intersection.{Intersects, get_quorum_for_n-Intersects}
use hot_iron_oxide.View.{new_from_quorum}
use hot_iron_oxide.View.Rotation.{IsWellFormed, new_from_quorum-IsWellFormed}
use hot_iron_oxide.Requests.{default_pool}
use hot_iron_oxide.Requests.Flow.{Event, round, take, run, contents, arrived, contents-run}
use hot_iron_oxide.HotIron.Messages.{VoteType}
use hot_iron_oxide.HotIron.Queue.{
  DecisionState, HotStuffTboQueue, default_queue, queue_message, get_message_for,
}
use hot_iron_oxide.HotIron.Queue.Filing.{
  IsFiled, default_queue-IsFiled, queue_message-IsFiled, kind,
}
use hot_iron_oxide.HotIron.Queue.Delivery.{get_message_for-Fits, Fits}
use hot_iron_oxide.HotIron.Queue.Conservation.{pending, pending-get_message_for}

get_f_for_n_greatest_example : Returns (get_f_for_n 6) λ f.
    (get_n_for_f f ≤ 6) × (6 < get_n_for_f (suc f)) × Returns (get_quorum_for_n 6) (λ q. q + f ≤ 6)
get_f_for_n_greatest_example = get_f_for_n_greatest 6 (omega arith)

get_quorum_for_n-Intersects_example : Intersects 6 3 1 ↔ (6 ≡ get_n_for_f 1)
unfolding get_quorum_for_n get_f_for_n
get_quorum_for_n-Intersects_example = get_quorum_for_n-Intersects 6 3 1 refl refl

new_from_quorum-IsWellFormed_example :
    Returns
      (new_from_quorum 5 (0 ∷ 1 ∷ 2 ∷ 3 ∷ []))
      λ view. IsWellFormed view × (view.seq ≡ 5) × (view.members ≡ 0 ∷ 1 ∷ 2 ∷ 3 ∷ [])
new_from_quorum-IsWellFormed_example =
    new_from_quorum-IsWellFormed 5 (0 ∷ 1 ∷ 2 ∷ 3 ∷ []) (omega arith)

abbrev events : List Event
events = round (3 ∷ []) ((4 ∷ 5 ∷ []) ∷ []) ∷ take ∷ round (6 ∷ []) [] ∷ []

contents-run_example :
    contents (run default_pool events).0 ++ (run default_pool events).1.requests
    ≡ default_pool.requests ++ arrived events
contents-run_example = contents-run default_pool events

abbrev queued : HotStuffTboQueue
queued = queue_message default_queue (vote_of 2 (VoteType.prepare_vote header))

queued-IsFiled : IsFiled queued
queued-IsFiled =
    queue_message-IsFiled default_queue (vote_of 2 (VoteType.prepare_vote header))
      default_queue-IsFiled

pending-get_message_for_example :
    let (message, rest) = get_message_for queued true (DecisionState.pre_commit false 0) in
    count_option (λ m. true) message + pending (λ m. true) rest ≡ pending (λ m. true) queued
pending-get_message_for_example =
    pending-get_message_for (λ m. true) queued true (DecisionState.pre_commit false 0)

get_message_for-Fits_example :
    Fits false (DecisionState.pre_commit false 0) (kind (vote_of 2 (VoteType.prepare_vote header)))
unfolding get_message_for queue_message default_queue
get_message_for-Fits_example =
    get_message_for-Fits queued false (DecisionState.pre_commit false 0)
      (vote_of 2 (VoteType.prepare_vote header)) queued-IsFiled refl
