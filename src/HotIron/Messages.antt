-- ===== src/HotIron/Messages.antt =====
-- The certificates of src/hot_iron/protocol/mod.rs and the messages of src/hot_iron/messages/mod.rs,
-- with the signing of votes of src/crypto/mod.rs and src/serialize/mod.rs.
use hot_iron_oxide.Base.{ℕ, Option, List}
use hot_iron_oxide.Atlas.{Atlas}
use hot_iron_oxide.Tree.{
  DecisionNodeHeader, DecisionNodeHeader-discrete, DecisionNode, QuorumCertificate,
}

pub data QcType : Type 0 where
  prepare_vote pre_commit_vote commit_vote : QcType

pub QcType-discrete : Discrete QcType
QcType-discrete = hlevel

-- The discriminants that `EnumDiscriminants` derives.
pub data VoteTypes : Type 0 where
  new_view prepare_vote pre_commit_vote commit_vote : VoteTypes

pub data ProposalTypes : Type 0 where
  prepare pre_commit commit decide : ProposalTypes

module _ ⦃atlas : Atlas⦄ where
  open atlas use {
    SeqNo, seq_discrete, NodeId, PartialSignature, CombinedSignature, combined_discrete,
    CombinationError, partially_sign, combine_signatures,
  }

  pub record Qc : Type 0 where
    pub qc_type : QcType
    pub view_seq : SeqNo
    pub decision_node : DecisionNodeHeader
    pub signature : CombinedSignature

  pub Qc-discrete : Discrete Qc
  Qc-discrete =
      hlevel (QcType-discrete, seq_discrete, DecisionNodeHeader-discrete, combined_discrete)

  pub OptionQc-discrete : Discrete (Option Qc)
  OptionQc-discrete = hlevel Qc-discrete

  abbrev pub qc_certificate : QuorumCertificate Qc
  qc_certificate = record {
    sequence_number = λ qc. qc.view_seq;
    decision_node = λ qc. qc.decision_node;
  }

  pub data VoteType : Type 0 where
    new_view : Option Qc → VoteType
    prepare_vote : DecisionNodeHeader → VoteType
    pre_commit_vote : DecisionNodeHeader → VoteType
    commit_vote : DecisionNodeHeader → VoteType

  pub record VoteMessage : Type 0 where
    pub vote_type : VoteType
    pub signature : PartialSignature

  pub data ProposalType : Type 0 where
    prepare : DecisionNode → Qc → ProposalType
    pre_commit : Qc → ProposalType
    commit : Qc → ProposalType
    decide : Qc → ProposalType

  pub record ProposalMessage : Type 0 where
    pub proposal_type : ProposalType

  pub data HotFeOxMsgType : Type 0 where
    proposal : ProposalMessage → HotFeOxMsgType
    vote : VoteMessage → HotFeOxMsgType

  pub record HotFeOxMsg : Type 0 where
    pub curr_view : SeqNo
    pub message : HotFeOxMsgType

  abbrev pub vote_types : VoteType → VoteTypes
  vote_types (VoteType.new_view qc) = VoteTypes.new_view
  vote_types (VoteType.prepare_vote node) = VoteTypes.prepare_vote
  vote_types (VoteType.pre_commit_vote node) = VoteTypes.pre_commit_vote
  vote_types (VoteType.commit_vote node) = VoteTypes.commit_vote

  abbrev pub proposal_types : ProposalType → ProposalTypes
  proposal_types (ProposalType.prepare node qc) = ProposalTypes.prepare
  proposal_types (ProposalType.pre_commit qc) = ProposalTypes.pre_commit
  proposal_types (ProposalType.commit qc) = ProposalTypes.commit
  proposal_types (ProposalType.decide qc) = ProposalTypes.decide

  -- `bincode` and `serde`, which are not in the repository: the bytes of the view number and vote.
  pub record VoteEncoding : Type 0 where
    pub encode_to_vec : SeqNo → VoteType → List ℕ

  module _ ⦃encoding : VoteEncoding⦄ where
    unfoldable pub get_partial_signature_for_message : SeqNo → VoteType → PartialSignature
    get_partial_signature_for_message view vote_msg =
        partially_sign (encoding.encode_to_vec view vote_msg)

  -- What the threads and the network of a node are given to send: a message to one node, or to
  -- all of a list.
  pub data Outgoing : Type 0 where
    send : HotFeOxMsg → NodeId → Outgoing
    broadcast : HotFeOxMsg → List NodeId → Outgoing
