-- ===== src/Tree.antt =====
-- src/decision_tree/mod.rs: the nodes that are decided, chained by their digests, and the store of
-- the latest certificates. Integers are hashed in little-endian bytes.
pub mod Digests
use hot_iron_oxide.Base.{
  ℕ, zero, suc, ◌/◌, ◌%◌, ◌≡◌, Bool, true, false, ◌&&◌, Option, none, some, List, [], ◌∷◌, ◌++◌,
  length, ite, ℕ_discrete,
}
use hot_iron_oxide.Atlas.{Atlas}
use hot_iron_oxide.View.{View}

-- `to_le_bytes` of an integer of the given width in bytes.
unfoldable pub to_le_bytes : ℕ → ℕ → List ℕ
to_le_bytes zero n = []
to_le_bytes (suc w) n = (n % 256) ∷ to_le_bytes w (n / 256)

module _ ⦃atlas : Atlas⦄ where
  open atlas use {
    SeqNo, seq_discrete, seq_le, next, into_u32, Digest, digest_discrete, digest_bytes,
    digest_blank, Context, context_new, context_update, context_finish, Request,
  }

  pub record DecisionNodeHeader : Type 0 where
    pub view_no : SeqNo
    pub previous_block : Option Digest
    pub current_block_digest : Digest
    pub contained_client_commands : ℕ

  pub DecisionNodeHeader-discrete : Discrete DecisionNodeHeader
  DecisionNodeHeader-discrete = hlevel (seq_discrete, digest_discrete, ℕ_discrete)

  unfoldable pub previous_bytes : Option Digest → List ℕ
  previous_bytes none = digest_bytes digest_blank
  previous_bytes (some d) = digest_bytes d

  -- `Context::new`, the updates in the source's order, and `finish`.
  unfoldable pub calculate_node_header_digest : SeqNo → Option Digest → Digest → ℕ → Digest
  unfolding previous_bytes
  calculate_node_header_digest view_seq previous_block client_rq_digest contained_client_commands =
      let c₁ = context_update context_new (to_le_bytes 4 (into_u32 view_seq)) in
      let c₂ = context_update c₁ (previous_bytes previous_block) in
      let c₃ = context_update c₂ (digest_bytes client_rq_digest) in
      let c₄ = context_update c₃ (to_le_bytes 8 contained_client_commands) in context_finish c₄

  unfoldable pub initialize_header_from_previous :
      Digest → DecisionNodeHeader → ℕ → DecisionNodeHeader
  initialize_header_from_previous client_command_digest previous contained_commands = record {
    view_no = next previous.view_no;
    previous_block = some previous.current_block_digest;
    current_block_digest =
        calculate_node_header_digest (next previous.view_no) (some previous.current_block_digest)
          client_command_digest contained_commands;
    contained_client_commands = contained_commands;
  }

  unfoldable pub initialize_root_node : View → Digest → ℕ → DecisionNodeHeader
  initialize_root_node view client_command_digest contained_commands = record {
    view_no = view.seq;
    previous_block = none;
    current_block_digest =
        calculate_node_header_digest view.seq none client_command_digest contained_commands;
    contained_client_commands = contained_commands;
  }

  -- `DecisionNodeHeader::new`. The source computes a block digest here too, and does not use it.
  unfoldable pub new_header : SeqNo → Option Digest → Digest → ℕ → DecisionNodeHeader
  new_header view_no previous_block current_block_digest contained_client_commands =
      let block_digest =
        calculate_node_header_digest view_no previous_block current_block_digest
          contained_client_commands in
      record {
        view_no = view_no;
        previous_block = previous_block;
        current_block_digest = current_block_digest;
        contained_client_commands = contained_client_commands;
      }

  pub record DecisionNode : Type 0 where
    pub decision_header : DecisionNodeHeader
    pub client_commands : List Request

  unfoldable pub create_leaf : DecisionNodeHeader → Digest → List Request → DecisionNode
  unfolding initialize_header_from_previous
  create_leaf previous_node client_command_digest client_commands = record {
    decision_header =
        initialize_header_from_previous client_command_digest previous_node
          (length client_commands);
    client_commands = client_commands;
  }

  unfoldable pub create_blank_branch_node : SeqNo → Digest → List Request → DecisionNode
  unfolding new_header
  create_blank_branch_node seq_no digest client_commands = record {
    decision_header = new_header seq_no (some digest_blank) digest (length client_commands);
    client_commands = client_commands;
  }

  unfoldable pub create_root : View → Digest → List Request → DecisionNode
  unfolding initialize_root_node
  create_root view digest client_commands = record {
    decision_header = initialize_root_node view digest (length client_commands);
    client_commands = client_commands;
  }

  unfoldable pub extends_from : DecisionNode → DecisionNodeHeader → Bool
  extends_from node prev_node = elim node.decision_header.previous_block [
    | none ↦ true
    | some digest ↦ ite (digest_discrete digest prev_node.current_block_digest) true false
  ]

  -- `TQuorumCertificate`: what the handler asks of a certificate.
  pub record QuorumCertificate (QC : Type 0) : Type 0 where
    pub sequence_number : QC → SeqNo
    pub decision_node : QC → DecisionNodeHeader

  pub record DecisionHandler (QC : Type 0) : Type 0 where
    pub latest_qc : Option QC
    pub latest_prepare_qc : Option QC
    pub latest_locked_qc : Option QC

-- `DecisionHandler<QC>` with its `DecisionExtensionVerifier`, a function here.
module _ ⦃atlas : Atlas⦄ {QC : Type 0} where
  unfoldable pub default_handler : DecisionHandler QC
  default_handler = record { latest_qc = none; latest_prepare_qc = none; latest_locked_qc = none }

  unfoldable pub safe_node :
      QuorumCertificate QC
      → (DecisionNodeHeader → Option QC → Bool)
      → DecisionHandler QC
      → DecisionNode
      → QC
      → Bool
  safe_node cert is_extension_of_known_node handler node qc = elim handler.latest_locked_qc [
    | none ↦ is_extension_of_known_node node.decision_header none
    | some locked_qc ↦
        is_extension_of_known_node node.decision_header (some locked_qc)
        && atlas.seq_le (cert.sequence_number locked_qc) (cert.sequence_number qc)
  ]

  unfoldable pub install_latest_qc : DecisionHandler QC → QC → DecisionHandler QC
  install_latest_qc handler qc = record handler { latest_qc = some qc }

  unfoldable pub install_latest_prepare_qc : DecisionHandler QC → QC → DecisionHandler QC
  install_latest_prepare_qc handler qc = record handler { latest_prepare_qc = some qc }

  unfoldable pub install_latest_locked_qc : DecisionHandler QC → QC → DecisionHandler QC
  install_latest_locked_qc handler qc = record handler { latest_locked_qc = some qc }
