-- ===== src/HotIron/Proof.antt =====
-- src/hot_iron/protocol/proof/mod.rs, and the calls of src/hot_iron/loggable_protocol.rs on it: the
-- proof of a decision, made of what was stored and taken apart for storage.
pub mod Storage
use hot_iron_oxide.Base.{Option, none, some, List, [], ◌∷◌, map, ite}
use hot_iron_oxide.Base.Map
use hot_iron_oxide.Base.Map.{Map}
use hot_iron_oxide.Atlas.{Atlas}
use hot_iron_oxide.Tree.{DecisionNodeHeader, DecisionNodeHeader-discrete, DecisionNode}
use hot_iron_oxide.HotIron.Messages.{
  QcType, QcType-discrete, Qc, VoteType, ProposalType, HotFeOxMsgType, proposal, vote,
}
use hot_iron_oxide.HotIron.Queue.{Message}
use hot_iron_oxide.HotIron.Log.{Result, done, failed}
use hot_iron_oxide.HotIron.Decision.Replica.{ProtocolConsensusDecision}

pub data ProofFromStorageError : Type 0 where
  failed_to_obtain_prepare_proposal : ProofFromStorageError
  miss_matching_decision_header : ProofFromStorageError

-- The names under which messages are stored.
pub data MessageTypeName : Type 0 where
  vote_new_view vote_prepare vote_pre_commit vote_commit : MessageTypeName
  proposal_prepare proposal_pre_commit proposal_commit proposal_decide : MessageTypeName

abbrev pub message_types : List MessageTypeName
message_types =
    vote_new_view ∷ proposal_prepare ∷ vote_prepare ∷ proposal_pre_commit ∷ vote_pre_commit
    ∷ proposal_commit ∷ vote_commit ∷ proposal_decide ∷ []

module _ ⦃atlas : Atlas⦄ where
  pub record Proof : Type 0 where
    pub decision_node : DecisionNode
    pub qcs : Map QcType Qc
    pub messages : List Message

  -- `collect` into a map, from the map collected so far.
  abbrev pub collect_qcs : Map QcType Qc → List Qc → Map QcType Qc
  collect_qcs qcs [] = qcs
  collect_qcs qcs (qc ∷ rest) = collect_qcs (Map.insert QcType-discrete qc.qc_type qc qcs) rest

  -- The filters and the `map` of the iterator, on one message.
  abbrev pub prepared_node : Message → Option DecisionNode
  prepared_node message = elim message.message.message [
    | vote _ ↦ none
    | proposal p ↦ elim p.proposal_type [ ProposalType.prepare node _ ↦ some node | _ ↦ none ]
  ]

  -- Its first item.
  abbrev pub first_prepared : List Message → Option DecisionNode
  first_prepared [] = none
  first_prepared (message ∷ messages) =
      let rest = first_prepared messages in
      elim (prepared_node message) [ some node ↦ some node | none ↦ rest ]

  unfoldable pub new_from_storage :
      DecisionNodeHeader → List Qc → List Message → Result ProofFromStorageError Proof
  new_from_storage decision_header qcs messages = elim (first_prepared messages) [
    | none ↦ failed failed_to_obtain_prepare_proposal
    | some node ↦
        ite (DecisionNodeHeader-discrete node.decision_header decision_header)
          (done (record { decision_node = node; qcs = collect_qcs [] qcs; messages = messages }))
          (failed miss_matching_decision_header)
  ]

  unfoldable pub decompose_proof : Proof → DecisionNodeHeader × List Qc × List Message
  decompose_proof proof =
      (proof.decision_node.decision_header, map (λ e. e.1) proof.qcs, proof.messages)

  unfoldable pub get_type_for_message : HotFeOxMsgType → MessageTypeName
  get_type_for_message (proposal msg) = elim msg.proposal_type [
    | ProposalType.prepare _ _ ↦ proposal_prepare
    | ProposalType.pre_commit _ ↦ proposal_pre_commit
    | ProposalType.commit _ ↦ proposal_commit
    | ProposalType.decide _ ↦ proposal_decide
  ]
  get_type_for_message (vote msg) = elim msg.vote_type [
    | VoteType.new_view _ ↦ vote_new_view
    | VoteType.prepare_vote _ ↦ vote_prepare
    | VoteType.pre_commit_vote _ ↦ vote_pre_commit
    | VoteType.commit_vote _ ↦ vote_commit
  ]

  -- The requests are those of the node; whose they are is left out, as in the source.
  unfoldable pub get_requests_in_proof : Proof → ProtocolConsensusDecision
  get_requests_in_proof proof = record {
    seq = proof.decision_node.decision_header.view_no;
    batch = proof.decision_node.client_commands;
    client_rqs = [];
    batch_digest = proof.decision_node.decision_header.current_block_digest;
  }
