-- ===== src/HotIron/Decision/Replica.antt =====
-- The processing of a proposal by any replica: `process_message_replica`, the rule by which it takes
-- a node, and `finalize_decision`, of src/hot_iron/protocol/decision/mod.rs.
use hot_iron_oxide.Base.{
  Bool, true, false, Option, none, some, List, map, Run, ok, panic, unreachable, expect_failed, ite,
  if◌then◌else◌,
}
use hot_iron_oxide.Atlas.{Atlas}
use hot_iron_oxide.Tree.{DecisionNodeHeader, DecisionNode, safe_node, install_latest_prepare_qc}
use hot_iron_oxide.HotIron.Messages.{
  Qc, qc_certificate, VoteType, ProposalType, proposal, vote, VoteEncoding,
}
use hot_iron_oxide.HotIron.Queue.{DecisionState, Message}
use hot_iron_oxide.HotIron.Log.{done, failed}
use hot_iron_oxide.HotIron.Decision.{
  HsDecision, World, Processed, in_state, transmit, signed_vote, decision_progressed, decided,
  invalid_decision_node,
}

module _ ⦃atlas : Atlas⦄ where
  open atlas use {
    SeqNo, NodeId, Digest, digest_discrete, Request, request_digest, request_from, request_seq,
    request_session,
  }

  unfoldable pub is_extension_of_known_node : DecisionNodeHeader → Option Qc → Bool
  is_extension_of_known_node node locked_qc = elim node.previous_block [
    | none ↦ elim locked_qc [ none ↦ true | some _ ↦ false ]
    | some prev ↦ elim locked_qc [
      | none ↦ false
      | some latest_qc ↦
          ite (digest_discrete prev latest_qc.decision_node.current_block_digest) true false
    ]
  ]

  module _ ⦃encoding : VoteEncoding⦄ where
    -- The end of `process_message_replica`: a vote is sent, or the decision is made.
    unfoldable pub respond :
        World → Message → Option VoteType → Qc → Option DecisionNodeHeader → Processed
    respond w message (some vote_type) qc header = (
      transmit w (signed_vote w.decision vote_type),
      done (decision_progressed (some qc) header message),
    )
    respond w message none qc header = (w, done (decided (some qc) message))

    -- The phase `Prepare`: the node is taken if it is safe.
    unfoldable pub prepare_node : World → Message → DecisionNode → Qc → Processed
    unfolding respond
    prepare_node w message node qc =
        if safe_node qc_certificate is_extension_of_known_node w.handler node qc
        then respond
            (record w {
              decision = record (w.decision) {
                decision_log = record { current_proposal = some node };
                current_state = DecisionState.pre_commit false 0;
              };
              handler = install_latest_prepare_qc w.handler qc;
            })
            message (some (VoteType.prepare_vote node.decision_header)) qc (some qc.decision_node)
        else (w, failed invalid_decision_node)

    -- The phases after it take any of the later proposals; the dispatch has seen to the order.
    unfoldable pub later_phase : World → Message → ProposalType → Run Processed
    unfolding respond
    later_phase w message (ProposalType.prepare node qc) = panic unreachable
    later_phase w message (ProposalType.pre_commit qc) = ok (
        respond (in_state w (DecisionState.commit false 0)) message
          (some (VoteType.pre_commit_vote qc.decision_node)) qc none)
    later_phase w message (ProposalType.commit qc) = ok (
        respond (in_state w (DecisionState.decide false 0)) message
          (some (VoteType.commit_vote qc.decision_node)) qc none)
    later_phase w message (ProposalType.decide qc) =
        ok (respond (in_state w DecisionState.finally) message none qc none)

    unfoldable pub first_phase : World → Message → ProposalType → Run Processed
    unfolding prepare_node
    first_phase w message (ProposalType.prepare node qc) = ok (prepare_node w message node qc)
    first_phase w message _ = panic unreachable

    unfoldable pub replica_phase : DecisionState → World → Message → ProposalType → Run Processed
    unfolding first_phase later_phase
    replica_phase (DecisionState.prepare _ _) w message p = first_phase w message p
    replica_phase (DecisionState.pre_commit _ _) w message p = later_phase w message p
    replica_phase (DecisionState.commit _ _) w message p = later_phase w message p
    replica_phase (DecisionState.decide _ _) w message p = later_phase w message p
    replica_phase _ w message p = panic unreachable

    unfoldable pub process_message_replica : World → Message → Run Processed
    unfolding replica_phase first_phase prepare_node later_phase
    process_message_replica w message = elim message.message.message [
      | vote _ ↦ panic unreachable
      | proposal p ↦ replica_phase w.decision.current_state w message p.proposal_type
    ]

  -- What `ClientRqInfo::new` is given, and the parts of a `ProtocolConsensusDecision`.
  pub record ClientRqInfo : Type 0 where
    pub digest : Digest
    pub sender : NodeId
    pub seq_no : SeqNo
    pub session : SeqNo

  pub record ProtocolConsensusDecision : Type 0 where
    pub seq : SeqNo
    pub batch : List Request
    pub client_rqs : List ClientRqInfo
    pub batch_digest : Digest

  unfoldable pub finalize_decision : HsDecision → Run ProtocolConsensusDecision
  finalize_decision d = elim d.decision_log.current_proposal [
    | none ↦ panic expect_failed
    | some node ↦ ok (record {
      seq = d.view.seq;
      batch = node.client_commands;
      client_rqs =
          map
            (λ cmd. record {
              digest = request_digest cmd;
              sender = request_from cmd;
              seq_no = request_seq cmd;
              session = request_session cmd;
            })
            node.client_commands;
      batch_digest = node.decision_header.current_block_digest;
    })
  ]
