-- ===== src/HotIron/Decision.antt =====
-- src/hot_iron/protocol/decision/mod.rs: one decision, as a state machine over the messages that a
-- node receives. This file has the state, the queries
-- and `poll`; the children have the processing of messages.
--
-- A call takes the decision together with what it writes besides (the certificates that the
-- protocol shares, the pool of requests, what is handed to the network), and returns all of it.
pub mod Leader
pub mod Replica
pub mod Dispatch
pub mod Polling
pub mod Phases
pub mod Consistency
pub mod Rules
pub mod Totality
pub mod Progress
pub mod Counting
pub mod Proposal
pub mod History
use hot_iron_oxide.Base.{
  ℕ, ◌+◌, ◌≡◌, Bool, true, false, not, ◌&&◌, Option, none, some, List, [], ◌∷◌, ◌++◌, Run, ok,
  panic, unreachable, wrong_metric, expect_failed, ◌>>=◌, leb, ite, push_back, refl, if_rule,
  if◌then◌else◌,
}
use hot_iron_oxide.Atlas.{Atlas, StoredMessage}
use hot_iron_oxide.View
use hot_iron_oxide.View.{View}
use hot_iron_oxide.Tree.{
  DecisionNodeHeader, DecisionNode, create_leaf, create_root, DecisionHandler, safe_node,
  install_latest_prepare_qc,
}
use hot_iron_oxide.Requests.{Pool, take_pool_requests}
use hot_iron_oxide.HotIron.Messages.{
  Qc, qc_certificate, VoteType, VoteMessage, ProposalType, ProposalMessage, ProposalTypes,
  HotFeOxMsgType, HotFeOxMsg, proposal, vote, VoteEncoding, get_partial_signature_for_message,
  Outgoing,
}
use hot_iron_oxide.HotIron.Queue.{
  DecisionState, Message, HotStuffTboQueue, default_queue, queue_message, should_poll,
  get_message_for,
}
use hot_iron_oxide.HotIron.Log.{
  Result, done, failed, VoteAcceptError, VoteStoreError, NewViewAcceptError, NewViewGenerateError,
  MsgDecisionLog, MsgLeaderDecisionLog, DecisionLog, as_leader, default_leader_log,
  default_replica_log, log_accept_vote, log_generate_qc, get_high_qc, create_new_qc,
}

-- `ConsensusDecisionMetric`, without the instants that it records: whose metrics they are.
pub data ConsensusDecisionMetric : Type 0 where
  leader replica : ConsensusDecisionMetric

pub data DecisionFinalizationResult : Type 0 where
  finalized next_view not_final : DecisionFinalizationResult

-- The fields of the states in which votes are counted.
abbrev pub counts : DecisionState → Option (Bool × ℕ)
counts (DecisionState.prepare sent received) = some (sent, received)
counts (DecisionState.pre_commit sent received) = some (sent, received)
counts (DecisionState.commit sent received) = some (sent, received)
counts (DecisionState.decide sent received) = some (sent, received)
counts _ = none

abbrev pub with_counts : DecisionState → Bool → ℕ → DecisionState
with_counts (DecisionState.prepare _ _) sent received = DecisionState.prepare sent received
with_counts (DecisionState.pre_commit _ _) sent received = DecisionState.pre_commit sent received
with_counts (DecisionState.commit _ _) sent received = DecisionState.commit sent received
with_counts (DecisionState.decide _ _) sent received = DecisionState.decide sent received
with_counts state sent received = state

module _ ⦃atlas : Atlas⦄ where
  open atlas use {SeqNo, NodeId, node_discrete, digest_discrete, Digest, Request}

  pub record HsDecision : Type 0 where
    pub view : View
    pub node_id : NodeId
    pub current_state : DecisionState
    pub decision_queue : HotStuffTboQueue
    pub msg_decision_log : MsgDecisionLog
    pub decision_log : DecisionLog
    pub consensus_metric : ConsensusDecisionMetric

  pub data DecisionPollResult : Type 0 where
    try_propose : DecisionPollResult
    recv : DecisionPollResult
    next_message : Message → DecisionPollResult
    decided : DecisionPollResult

  pub data DecisionResult : Type 0 where
    duplicate_vote : NodeId → DecisionResult
    message_ignored : DecisionResult
    message_queued : DecisionResult
    decision_progressed : Option Qc → Option DecisionNodeHeader → Message → DecisionResult
    decided : Option Qc → Message → DecisionResult

  pub data DecisionError : Type 0 where
    prepare_message_with_empty_qc : DecisionError
    no_qc_available : DecisionError
    vote_accept_error : VoteAcceptError → DecisionError
    vote_store_error : VoteStoreError → DecisionError
    new_view_accept_error : NewViewAcceptError → DecisionError
    new_view_generate_error : NewViewGenerateError → DecisionError
    invalid_state : DecisionError
    no_leader_message_log : DecisionError
    invalid_decision_node : DecisionError

  pub record World : Type 0 where
    pub decision : HsDecision
    pub handler : DecisionHandler Qc
    pub pool : Pool
    pub sent : List Outgoing

  abbrev pub Processed : Type 0
  Processed = World × Result DecisionError DecisionResult

  -- Is the node the leader of the view, as a test.
  unfoldable pub is_leader : HsDecision → Bool
  is_leader d = ite (node_discrete d.view.leader d.node_id) true false

  unfoldable pub new_decision : View → NodeId → HsDecision
  new_decision view node_id =
      let leads = ite (node_discrete view.leader node_id) true false in
      record {
        view = view;
        node_id = node_id;
        current_state = DecisionState.init;
        decision_queue = default_queue;
        msg_decision_log =
            if leads
            then MsgDecisionLog.leader default_leader_log
            else MsgDecisionLog.replica default_replica_log;
        decision_log = record { current_proposal = none };
        consensus_metric =
            if leads then ConsensusDecisionMetric.leader else ConsensusDecisionMetric.replica;
      }

  unfoldable pub queue : HsDecision → Message → HsDecision
  queue d message = record d { decision_queue = queue_message d.decision_queue message }

  unfoldable pub can_be_finalized : HsDecision → DecisionFinalizationResult
  can_be_finalized d = elim d.current_state [
    | DecisionState.finally ↦ DecisionFinalizationResult.finalized
    | DecisionState.next_view ↦ DecisionFinalizationResult.next_view
    | _ ↦ DecisionFinalizationResult.not_final
  ]

  unfoldable pub next_view_received : HsDecision → HsDecision
  next_view_received d = record d { current_state = DecisionState.next_view }

  abbrev pub in_state : World → DecisionState → World
  in_state w state = record w { decision = record w.decision { current_state = state } }

  abbrev pub transmit : World → Outgoing → World
  transmit w message = record w { sent = push_back w.sent message }

  module _ ⦃encoding : VoteEncoding⦄ where
    -- The vote that a thread of the pool signs and sends to the leader.
    unfoldable pub signed_vote : HsDecision → VoteType → Outgoing
    signed_vote d vote_type =
        let seq = d.view.seq in
        Outgoing.send
          (record {
            curr_view = seq;
            message = vote (record {
              vote_type = vote_type;
              signature = get_partial_signature_for_message seq vote_type;
            });
          })
          d.view.leader

    -- The arm of `poll` for the phases, under its guard.
    poll_queue : HsDecision → HsDecision × DecisionPollResult
    poll_queue d =
        if should_poll d.decision_queue
        then (let (message, rest) =
              get_message_for d.decision_queue (is_leader d) d.current_state in
            (
              record d { decision_queue = rest },
              elim message [ none ↦ recv | some m ↦ next_message m ],
            ))
        else (d, recv)

    poll_state :
        DecisionState
        → HsDecision
        → DecisionHandler Qc
        → HsDecision × List Outgoing × DecisionPollResult
    poll_state DecisionState.init d handler = (
      record d { current_state = DecisionState.prepare false 0 },
      signed_vote d (VoteType.new_view handler.latest_qc) ∷ [],
      recv,
    )
    poll_state DecisionState.finally d handler = (d, [], decided)
    poll_state DecisionState.next_view d handler = (d, [], recv)
    poll_state _ d handler = let (d', result) = poll_queue d in (d', [], result)

    -- The decision, what is sent, and the result.
    unfoldable pub poll :
        HsDecision → DecisionHandler Qc → HsDecision × List Outgoing × DecisionPollResult
    unfolding poll_state poll_queue
    poll d handler = poll_state d.current_state d handler
