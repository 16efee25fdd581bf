-- ===== src/Examples/Decisions.antt =====
-- The theorems on a decision, applied to the leader of four nodes and to a follower.
use hot_iron_oxide.Base.{
  ◌≡◌, refl, Bool, false, none, some, [], ok, panic, Returns, arith, ℕ_discrete,
}
use hot_iron_oxide.Examples.{toy, toy_encoding, four, vote_of, proposal_of, header}
use hot_iron_oxide.Tree.{DecisionNode, default_handler, safe_node}
use hot_iron_oxide.Requests.{default_pool}
use hot_iron_oxide.HotIron.Messages.{QcType, Qc, VoteType, ProposalType}
use hot_iron_oxide.HotIron.Queue.{DecisionState, Message}
use hot_iron_oxide.HotIron.Log.{done}
use hot_iron_oxide.HotIron.Decision.{
  World, Processed, message_ignored, counts, is_leader, new_decision, poll, can_be_finalized,
}
use hot_iron_oxide.HotIron.Decision.Replica.{
  process_message_replica, is_extension_of_known_node, finalize_decision,
}
use hot_iron_oxide.HotIron.Decision.Dispatch.{
  process_message, process_message_prepare, process_message_pre_commit, process_message_commit,
  process_message_decide,
}
use hot_iron_oxide.HotIron.Decision.Consistency.{IsConsistent}
use hot_iron_oxide.HotIron.Decision.Totality.{Stable}
use hot_iron_oxide.HotIron.Decision.Progress.{
  Advances, Sends, process_message-Moves, process_message-Sends,
}
use hot_iron_oxide.HotIron.Decision.Phases.{AwaitsVote}
use hot_iron_oxide.HotIron.Decision.Counting.{process_message-Counts}
use hot_iron_oxide.HotIron.Decision.History.{
  Reached, new_world, after_poll, reached-Returns, finalize_decision-Returns,
}

-- The leader, with two of the three votes of a quorum.
abbrev pub leading : World
leading = record {
  decision = record (new_decision four 0) { current_state = DecisionState.prepare false 2 };
  handler = default_handler;
  pool = default_pool;
  sent = [];
}

abbrev pub third_vote : Message
third_vote = vote_of 3 (VoteType.new_view none)

pub leading-IsConsistent : IsConsistent leading.decision
unfolding new_decision is_leader ℕ_discrete
leading-IsConsistent = record { occupied = omega arith; metric = λ h. refl; log = λ h. refl }

process_message-Moves_example : Returns (process_message leading third_vote) (Advances leading)
process_message-Moves_example = process_message-Moves leading third_vote leading-IsConsistent

process_message-Sends_example :
    Returns (process_message leading third_vote) (Sends leading third_vote)
process_message-Sends_example = process_message-Sends leading third_vote leading-IsConsistent

process_message-Counts_example :
    Returns
      (process_message leading third_vote)
      (λ r. (sent' : Bool) × (counts r.0.decision.current_state ≡ some (sent', 3)))
unfolding new_decision is_leader ℕ_discrete
process_message-Counts_example =
    process_message-Counts leading third_vote
      (record { vote_type = VoteType.new_view none; signature = 3 }) false 2 leading-IsConsistent
      refl refl refl AwaitsVote.prepare refl

-- A follower, after its first poll and the four proposals of its leader.
abbrev certificate : Qc
certificate = record {
  qc_type = QcType.prepare_vote;
  view_seq = 0;
  decision_node = header;
  signature = 3;
}

abbrev pub node : DecisionNode
node = record { decision_header = header; client_commands = [] }

abbrev started : World
started =
    after_poll (new_world four 1) (poll (new_world four 1).decision (new_world four 1).handler)

started-Reached : Reached (new_world four 1) started
started-Reached = Reached.polled Reached.start

reached-Returns_example :
    Returns
      (process_message started (proposal_of (ProposalType.prepare node certificate)))
      (Stable started)
reached-Returns_example =
    reached-Returns four 1 (omega arith) started
      (proposal_of (ProposalType.prepare node certificate)) started-Reached

-- What processing a message gives, of which it is known that there is no panic.
abbrev step_of : World → Message → Processed
step_of w m = elim (process_message w m) [ ok r ↦ r | panic e ↦ (w, done message_ignored) ]

step_of_lem :
    (w : World) (m : Message)
    → Returns (process_message w m) (Stable w)
    → process_message w m ≡ ok (step_of w m)
step_of_lem w m (r, e, s) = rw (step_of, e) refl

step_of-Reached :
    (w : World) (m : Message)
    → Reached (new_world four 1) w
    → Reached (new_world four 1) (step_of w m).0
step_of-Reached w m run =
    Reached.message run m _ (step_of_lem w m (reached-Returns four 1 (omega arith) w m run))

abbrev prepared : World
prepared = (step_of started (proposal_of (ProposalType.prepare node certificate))).0

abbrev pre_committed : World
pre_committed = (step_of prepared (proposal_of (ProposalType.pre_commit certificate))).0

abbrev committed : World
committed = (step_of pre_committed (proposal_of (ProposalType.commit certificate))).0

abbrev decided : World
decided = (step_of committed (proposal_of (ProposalType.decide certificate))).0

decided-Reached : Reached (new_world four 1) decided
decided-Reached = step_of-Reached committed _ (
    step_of-Reached pre_committed _
      (step_of-Reached prepared _ (step_of-Reached started _ started-Reached)))

finalize_decision-Returns_example : Returns (finalize_decision decided.decision) (λ p.
    (node : DecisionNode) × (decided.decision.decision_log.current_proposal ≡ some node)
    × (node.decision_header.previous_block ≡ none)
    × (p.seq ≡ four.seq)
    × (p.batch ≡ node.client_commands)
    × (p.batch_digest ≡ node.decision_header.current_block_digest))
unfolding process_message can_be_finalized ℕ_discrete poll new_decision is_leader
    process_message_prepare process_message_replica safe_node default_handler
    is_extension_of_known_node process_message_pre_commit process_message_commit
    process_message_decide
finalize_decision-Returns_example =
    finalize_decision-Returns four 1 (omega arith) decided decided-Reached refl
