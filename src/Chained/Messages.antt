-- ===== src/Chained/Messages.antt =====
-- The certificate of src/chained/mod.rs, the node of src/chained/chained_decision_tree.rs and the
-- messages of src/chained/messages/mod.rs, with their signing (src/crypto/mod.rs).
use hot_iron_oxide.Base.{ℕ, Option, none, some, List, ite}
use hot_iron_oxide.Atlas.{Atlas, StoredMessage}
use hot_iron_oxide.View.{View}
use hot_iron_oxide.Tree.{
  DecisionNodeHeader, DecisionNodeHeader-discrete, DecisionNode, QuorumCertificate, create_leaf,
  create_blank_branch_node, create_root,
}

module _ ⦃atlas : Atlas⦄ where
  open atlas use {
    SeqNo, seq_discrete, prev, NodeId, Digest, digest_discrete, Request, PartialSignature,
    CombinedSignature, combined_discrete, partially_sign,
  }

  pub record ChainedQc : Type 0 where
    pub seq_no : SeqNo
    pub decision_node : DecisionNodeHeader
    pub signature : CombinedSignature

  pub ChainedQc-discrete : Discrete ChainedQc
  ChainedQc-discrete = hlevel (seq_discrete, DecisionNodeHeader-discrete, combined_discrete)

  pub OptionChainedQc-discrete : Discrete (Option ChainedQc)
  OptionChainedQc-discrete = hlevel ChainedQc-discrete

  abbrev pub chained_certificate : QuorumCertificate ChainedQc
  chained_certificate = record {
    sequence_number = λ qc. qc.seq_no;
    decision_node = λ qc. qc.decision_node;
  }

  pub record ChainedDecisionNode : Type 0 where
    pub node : DecisionNode
    pub justify : Option ChainedQc

  unfoldable pub create_chained_root : View → Digest → List Request → ChainedDecisionNode
  create_chained_root view digest client_commands = record {
    node = create_root view digest client_commands;
    justify = none;
  }

  -- A leaf if the certificate is for the previous node, and of the view just before; otherwise a
  -- branch with the blank digest in the place of its parent's.
  unfoldable pub create_chained_leaf :
      SeqNo → DecisionNodeHeader → Digest → List Request → ChainedQc → ChainedDecisionNode
  create_chained_leaf view_seq previous_node client_command_digest client_commands justify =
      let branch = create_blank_branch_node view_seq client_command_digest client_commands in
      record {
        node =
            ite
              (digest_discrete previous_node.current_block_digest
                justify.decision_node.current_block_digest)
              (ite (seq_discrete justify.decision_node.view_no (prev view_seq))
                (create_leaf previous_node client_command_digest client_commands) branch)
              branch;
        justify = some justify;
      }

  pub record VoteDetails : Type 0 where
    pub node : DecisionNodeHeader
    pub justify : Option ChainedQc

  pub VoteDetails-discrete : Discrete VoteDetails
  VoteDetails-discrete = hlevel (DecisionNodeHeader-discrete, OptionChainedQc-discrete)

  pub record VoteMessage : Type 0 where
    pub vote_details : VoteDetails
    pub signature : PartialSignature

  pub record NewViewMessage : Type 0 where
    pub qc : Option ChainedQc
    pub signature : PartialSignature

  pub record ProposalMessage : Type 0 where
    pub proposal : ChainedDecisionNode

  pub data IronChainMessageType : Type 0 where
    proposal : ProposalMessage → IronChainMessageType
    vote : VoteMessage → IronChainMessageType
    new_view : NewViewMessage → IronChainMessageType

  pub record IronChainMessage : Type 0 where
    pub seq_no : SeqNo
    pub message : IronChainMessageType

  abbrev pub Message : Type 0
  Message = StoredMessage IronChainMessage

  -- `bincode` and `serde`, which are not in the repository: the bytes of a view number with the
  -- details of a vote, and with the certificate of a new view.
  pub record ChainEncoding : Type 0 where
    pub encode_vote : SeqNo → VoteDetails → List ℕ
    pub encode_new_view : SeqNo → Option ChainedQc → List ℕ

  -- `get_partial_signature_for_message`, at its two types of message.
  module _ ⦃encoding : ChainEncoding⦄ where
    unfoldable pub sign_vote : SeqNo → VoteDetails → PartialSignature
    sign_vote view details = partially_sign (encoding.encode_vote view details)

    unfoldable pub sign_new_view : SeqNo → Option ChainedQc → PartialSignature
    sign_new_view view previous = partially_sign (encoding.encode_new_view view previous)

  -- `NewViewMessage::from_previous_qc` and `from_empty`
  abbrev pub from_previous_qc : ChainedQc → PartialSignature → NewViewMessage
  from_previous_qc qc signature = record { qc = some qc; signature = signature }

  abbrev pub from_empty : PartialSignature → NewViewMessage
  from_empty signature = record { qc = none; signature = signature }

  -- What is handed to the network: a message to one node, or to all of a list.
  pub data Outgoing : Type 0 where
    send : IronChainMessage → NodeId → Outgoing
    broadcast_signed : IronChainMessage → List NodeId → Outgoing
