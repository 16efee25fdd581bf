-- ===== src/Chained/Decision.antt =====
-- src/chained/protocol/decision/mod.rs: one decision of the chain. This file has its state, how it is
-- made and advanced, and `poll`; the child modules have the processing of messages. Its metrics
-- (src/chained/metrics.rs) are whose they are, which decides whether asking for them panics.
pub mod Handling
pub mod Polling
pub mod Advance
pub mod Conduct
pub mod Roles
pub mod Leading
pub mod Totality
use hot_iron_oxide.Base.{
  ℕ, ◌≡◌, Bool, true, false, not, ◌&&◌, ◌||◌, Option, none, some, List, [], ◌∷◌, ite, Run, ok,
  panic, wrong_metric, ◌>>=◌, ltb, ◌==◌, if◌then◌else◌,
}
use hot_iron_oxide.Atlas.{Atlas}
use hot_iron_oxide.View.{View, next_view}
use hot_iron_oxide.Tree.{
  DecisionNodeHeader, DecisionHandler, install_latest_prepare_qc, install_latest_locked_qc,
}
use hot_iron_oxide.Requests.{Pool}
use hot_iron_oxide.HotIron.Log.{Result, done, failed}
use hot_iron_oxide.Chained.Messages.{
  ChainedQc, ChainedDecisionNode, Message, ChainEncoding, IronChainMessageType, sign_new_view,
  from_previous_qc, from_empty, Outgoing,
}
use hot_iron_oxide.Chained.Log.{
  DecisionLog, NewViewGenerateError, default_new_view_store, default_vote_store,
}
use hot_iron_oxide.Chained.Queue.{
  ChainedHotStuffMsgQueue, default_queue, should_poll, queue_message, pop_message,
}

-- In `prepare`: how many votes for the new view were received, and was the proposal made.
pub data ChainedDecisionState : Type 0 where
  init : ChainedDecisionState
  prepare : ℕ → Bool → ChainedDecisionState
  pre_commit commit decide finalized : ChainedDecisionState

-- The order that `Ord` derives: by the place of the variant, then by its fields.
abbrev pub rank : ChainedDecisionState → ℕ
rank ChainedDecisionState.init = 0
rank (ChainedDecisionState.prepare _ _) = 1
rank ChainedDecisionState.pre_commit = 2
rank ChainedDecisionState.commit = 3
rank ChainedDecisionState.decide = 4
rank ChainedDecisionState.finalized = 5

abbrev pub lt_state : ChainedDecisionState → ChainedDecisionState → Bool
lt_state (ChainedDecisionState.prepare n b) (ChainedDecisionState.prepare m c) =
    ltb n m || ((n == m) && (not b && c))
lt_state s t = ltb (rank s) (rank t)

-- `ConsensusMetricType`
pub data ConsensusMetricType : Type 0 where
  replica_consensus next_leader leader : ConsensusMetricType

abbrev pub as_leader_decision : ConsensusMetricType → Run {0} Unit
as_leader_decision ConsensusMetricType.leader = ok tt
as_leader_decision _ = panic wrong_metric

abbrev pub as_next_leader_decision : ConsensusMetricType → Run {0} Unit
as_next_leader_decision ConsensusMetricType.next_leader = ok tt
as_next_leader_decision _ = panic wrong_metric

pub data FinalizeDecisionError : Type 0 where
  failed_to_finalize_decision_missing_digest : FinalizeDecisionError

module _ ⦃atlas : Atlas⦄ where
  open atlas use {SeqNo, NodeId, node_discrete, Digest}

  pub data ChainedDecisionResult : Type 0 where
    proposal_generated : DecisionNodeHeader → Message → ChainedDecisionResult
    vote_generated : ChainedDecisionNode → Message → ChainedDecisionResult
    message_ignored : ChainedDecisionResult
    message_queued : ChainedDecisionResult
    message_processed : Message → ChainedDecisionResult
    next_leader_messages : Message → ChainedQc → ChainedDecisionResult

  pub data ChainedDecisionPollResult : Type 0 where
    exec : Message → ChainedDecisionPollResult
    receive_msg : ChainedDecisionPollResult
    decided : ChainedDecisionPollResult

  pub record ChainedDecision : Type 0 where
    pub view : View
    pub node_id : NodeId
    pub state : ChainedDecisionState
    pub decision_node_digest : Option Digest
    pub decision_qc : Option ChainedQc
    pub msg_queue : ChainedHotStuffMsgQueue
    pub decision_log : DecisionLog
    pub metrics : ConsensusMetricType

  abbrev pub same_node : NodeId → NodeId → Bool
  same_node a b = ite (node_discrete a b) true false

  -- The log and the metrics of the node in a view whose next leader is given.
  abbrev pub role_log : View → NodeId → NodeId → DecisionLog × ConsensusMetricType
  role_log view next_primary node_id =
      if same_node node_id view.leader
      then (DecisionLog.leader default_new_view_store, ConsensusMetricType.leader)
      else if same_node node_id next_primary
      then (DecisionLog.next_leader default_vote_store, ConsensusMetricType.next_leader)
      else (DecisionLog.replica, ConsensusMetricType.replica_consensus)

  -- The leader does not ask for the next view.
  unfoldable pub next_primary : View → NodeId → Run NodeId
  next_primary view node_id =
      if same_node node_id view.leader then ok node_id else do next ← next_view view; ok next.leader

  unfoldable pub new_internal : View → NodeId → ChainedDecisionState → Run ChainedDecision
  unfolding next_primary
  new_internal view node_id state = do
    next ← next_primary view node_id
    ok (record {
      view = view;
      node_id = node_id;
      state = state;
      decision_node_digest = none;
      decision_qc = none;
      msg_queue = default_queue;
      decision_log = (role_log view next node_id).0;
      metrics = (role_log view next node_id).1;
    })

  -- `ChainedDecision::new`
  unfoldable pub new_decision : View → NodeId → Run ChainedDecision
  unfolding new_internal
  new_decision view node_id = new_internal view node_id (ChainedDecisionState.prepare 0 false)

  unfoldable pub new_first_view : View → NodeId → Run ChainedDecision
  unfolding new_decision new_internal
  new_first_view view node_id =
      if same_node view.leader node_id
      then new_decision view node_id
      else new_internal view node_id ChainedDecisionState.init

  -- What reaching a state installs in the handler.
  abbrev pub install_for :
      ChainedDecisionState
      → Option ChainedQc
      → DecisionHandler ChainedQc
      → DecisionHandler ChainedQc
  install_for ChainedDecisionState.pre_commit (some qc) handler =
      install_latest_prepare_qc handler qc
  install_for ChainedDecisionState.commit (some qc) handler = install_latest_locked_qc handler qc
  install_for state qc handler = handler

  unfoldable pub advance_state :
      ChainedDecision
      → ChainedDecisionState
      → DecisionHandler ChainedQc
      → ChainedDecision × DecisionHandler ChainedQc
  advance_state d state handler =
      if lt_state d.state state
      then (record d { state = state }, install_for state d.decision_qc handler)
      else (d, handler)

  unfoldable pub is_leader : ChainedDecision → Bool
  is_leader d = same_node d.node_id d.view.leader

  unfoldable pub is_next_leader : ChainedDecision → Run Bool
  is_next_leader d = do next ← next_view d.view; ok (same_node d.node_id next.leader)

  -- `ChainedDecision::queue_message`
  unfoldable pub queue : ChainedDecision → Message → ChainedDecision
  queue d message = record d { msg_queue = queue_message d.msg_queue message }

  unfoldable pub finalize : ChainedDecision → Result FinalizeDecisionError Digest
  finalize d = elim d.decision_node_digest [
    | none ↦ failed failed_to_finalize_decision_missing_digest
    | some digest ↦ done digest
  ]

  module _ ⦃encoding : ChainEncoding⦄ where
    unfoldable pub generate_and_send_new_view_message :
        ChainedDecision → Option ChainedQc → Outgoing
    generate_and_send_new_view_message d previous =
        let signature = sign_new_view d.view.seq previous in
        Outgoing.send
          (record {
            seq_no = d.view.seq;
            message = IronChainMessageType.new_view (elim previous [
              | some qc ↦ from_previous_qc qc signature
              | none ↦ from_empty signature
            ]);
          })
          d.view.leader

    unfoldable pub poll_queue : ChainedDecision → ChainedDecision × ChainedDecisionPollResult
    poll_queue d =
        let (popped, rest) = pop_message d.msg_queue in
        if should_poll d.msg_queue
        then (
          record d { msg_queue = rest },
          elim popped [ some message ↦ exec message | none ↦ receive_msg ],
        )
        else (d, receive_msg)

    -- The decision, what is sent, and the result.
    unfoldable pub poll :
        ChainedDecision
        → DecisionHandler ChainedQc
        → ChainedDecision × List Outgoing × ChainedDecisionPollResult
    unfolding poll_queue
    poll d handler = elim d.state [
      | ChainedDecisionState.init ↦ (
        record d { state = ChainedDecisionState.prepare 0 false },
        generate_and_send_new_view_message d handler.latest_locked_qc ∷ [],
        receive_msg,
      )
      | ChainedDecisionState.finalized ↦ (d, [], decided)
      | _ ↦ ((poll_queue d).0, [], (poll_queue d).1)
    ]
