-- ===== src/Chained/Proof.antt =====
-- src/chained/proof/mod.rs and the composing of proofs in src/chained/loggable_protocol.rs: the proof
-- of a decision is its proposal and the certificates of its four phases.
pub mod Composing
use hot_iron_oxide.Base.{ℕ, zero, suc, ◌≡◌, Option, none, some, List, [], ◌∷◌, map, ite}
use hot_iron_oxide.Base.Map
use hot_iron_oxide.Base.Map.{Map}
use hot_iron_oxide.Atlas.{Atlas}
use hot_iron_oxide.Tree.{DecisionNodeHeader, DecisionNodeHeader-discrete}
use hot_iron_oxide.HotIron.Log.{Result, done, failed}
use hot_iron_oxide.Chained.Messages.{
  ChainedQc, ChainedDecisionNode, ProposalMessage, IronChainMessageType, Message, proposal, vote,
  new_view,
}
use hot_iron_oxide.Chained.Tree.{header_of}
use hot_iron_oxide.Chained.Protocol.{ConsensusDecision}

pub data ProofQcType : Type 0 where
  pre_prepare prepare commit decide : ProofQcType

pub ProofQcType-discrete : Discrete ProofQcType
ProofQcType-discrete = hlevel

-- The names under which messages are stored.
pub data MessageTypeName : Type 0 where
  vote_generic proposal_generic new_view_generic : MessageTypeName

abbrev pub message_types : List MessageTypeName
message_types = vote_generic ∷ proposal_generic ∷ new_view_generic ∷ []

module _ ⦃atlas : Atlas⦄ where
  open atlas use {SeqNo, seq_discrete, index, request_info}

  unfoldable pub get_type_for_message : IronChainMessageType → MessageTypeName
  get_type_for_message (proposal _) = proposal_generic
  get_type_for_message (vote _) = vote_generic
  get_type_for_message (new_view _) = new_view_generic

  pub data IronChainComposeError : Type 0 where
    no_proposal_message_found : IronChainComposeError
    decision_node_does_not_match_header :
        DecisionNodeHeader → DecisionNodeHeader → IronChainComposeError
    qc_decision_node_does_not_match_header : IronChainComposeError
    decision_node_does_not_match_sequence_number : SeqNo → SeqNo → IronChainComposeError
    qc_older_than_decision : SeqNo → SeqNo → IronChainComposeError
    qc_newer_than_decision : SeqNo → SeqNo → IronChainComposeError

  pub record ChainedProof : Type 0 where
    pub decision_node : ChainedDecisionNode
    pub proposal_message : Message
    pub qcs : Map ProofQcType ChainedQc

  -- `find` of the first proposal, with its node.
  abbrev pub find_proposal : List Message → Option (ChainedDecisionNode × Message)
  find_proposal [] = none
  find_proposal (m ∷ messages) =
      let rest = find_proposal messages in
      elim m.message.message [
        | proposal p ↦ some (p.proposal, m)
        | vote _ ↦ rest
        | new_view _ ↦ rest
      ]

  unfoldable pub get_decision_header :
      DecisionNodeHeader
      → List Message
      → Result IronChainComposeError (ChainedDecisionNode × Message)
  get_decision_header header messages = elim (find_proposal messages) [
    | none ↦ failed no_proposal_message_found
    | some (node, message) ↦
        ite (seq_discrete message.message.seq_no header.view_no)
          (ite (DecisionNodeHeader-discrete (header_of node) header) (done (node, message))
            (failed (decision_node_does_not_match_header header (header_of node))))
          (failed
            (decision_node_does_not_match_sequence_number header.view_no message.message.seq_no))
  ]

  abbrev pub nth_phase : ℕ → Option ProofQcType
  nth_phase zero = some ProofQcType.pre_prepare
  nth_phase (suc zero) = some ProofQcType.prepare
  nth_phase (suc (suc zero)) = some ProofQcType.commit
  nth_phase (suc (suc (suc zero))) = some ProofQcType.decide
  nth_phase (suc (suc (suc (suc n)))) = none

  -- The phase that a certificate of the number is of, for a decision of the other number.
  unfoldable pub phase_of : SeqNo → SeqNo → Result IronChainComposeError ProofQcType
  phase_of seq decision_seq = elim (index seq decision_seq) [
    | none ↦ failed (qc_older_than_decision seq decision_seq)
    | some n ↦ elim (nth_phase n) [
      | none ↦ failed (qc_newer_than_decision seq decision_seq)
      | some phase ↦ done phase
    ]
  ]

  -- The closure of `get_qcs_index_from_vec`, on one certificate.
  unfoldable pub index_qc :
      DecisionNodeHeader
      → ChainedQc
      → Map ProofQcType ChainedQc
      → Result IronChainComposeError (Map ProofQcType ChainedQc)
  unfolding phase_of
  index_qc decision qc indexed_qcs =
      ite (DecisionNodeHeader-discrete qc.decision_node decision)
        (elim (phase_of qc.seq_no decision.view_no) [
          | failed error ↦ failed error
          | done phase ↦ done (Map.insert ProofQcType-discrete phase qc indexed_qcs)
        ])
        (failed qc_decision_node_does_not_match_header)

  -- `get_qcs_index_from_vec`, from the map so far.
  unfoldable pub index_qcs :
      DecisionNodeHeader
      → List ChainedQc
      → Map ProofQcType ChainedQc
      → Result IronChainComposeError (Map ProofQcType ChainedQc)
  unfolding index_qc
  index_qcs decision [] indexed_qcs = done indexed_qcs
  index_qcs decision (qc ∷ qcs) indexed_qcs =
      let rest = index_qcs decision qcs in
      elim (index_qc decision qc indexed_qcs) [
        | failed error ↦ failed error
        | done more ↦ rest more
      ]

  unfoldable pub get_qcs_index_from_vec :
      List ChainedQc → DecisionNodeHeader → Result IronChainComposeError (Map ProofQcType ChainedQc)
  unfolding index_qcs
  get_qcs_index_from_vec qcs decision = index_qcs decision qcs []

  -- `init_proof_from`; `init_proof_from_scm` does the same with messages that are shared.
  unfoldable pub init_proof_from :
      DecisionNodeHeader → List ChainedQc → List Message → Result IronChainComposeError ChainedProof
  unfolding get_decision_header get_qcs_index_from_vec
  init_proof_from decision_node_header qcs messages =
      elim (get_decision_header decision_node_header messages) [
        | failed error ↦ failed error
        | done (decision_node, proposal_message) ↦
            elim (get_qcs_index_from_vec qcs decision_node_header) [
              | failed error ↦ failed error
              | done indexed_qcs ↦ done (record {
                decision_node = decision_node;
                proposal_message = proposal_message;
                qcs = indexed_qcs;
              })
            ]
      ]

  unfoldable pub decompose_proof : ChainedProof → DecisionNodeHeader × List ChainedQc × List Message
  decompose_proof proof =
      (header_of proof.decision_node, map (λ e. e.1) proof.qcs, proof.proposal_message ∷ [])

  unfoldable pub get_requests_in_proof : ChainedProof → ConsensusDecision
  get_requests_in_proof proof =
      let node = proof.decision_node.node in
      record {
        seq = node.decision_header.view_no;
        batch = node.client_commands;
        client_rqs = map request_info node.client_commands;
        batch_digest = node.decision_header.current_block_digest;
      }

  -- How many client commands the proof holds.
  unfoldable pub contained_messages : ChainedProof → ℕ
  contained_messages proof = (header_of proof.decision_node).contained_client_commands

  -- `verify_proof` of the serializer takes every proof as it is.
  unfoldable pub verify_proof : ChainedProof → ChainedProof
  verify_proof proof = proof
