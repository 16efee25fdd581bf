-- ===== src/HotIron/Log.antt =====
-- src/hot_iron/protocol/log/mod.rs: the votes and certificates of one decision.
pub mod Votes
pub mod Certificates
use mathlib.Core.List.{map}
use hot_iron_oxide.Base.{
  ℕ, ◌≡◌, refl, ◌⊎◌, inl, inr, Bool, true, false, Option, none, some, List, [], Run, ok, panic,
  unreachable, ◌>>=◌, length, leb,
}
use hot_iron_oxide.Base.Map
use hot_iron_oxide.Base.Map.{Map}
use hot_iron_oxide.Base.Maximum.{max_by_key}
use hot_iron_oxide.Atlas.{Atlas}
use hot_iron_oxide.View.{View}
use hot_iron_oxide.Tree.{DecisionNodeHeader, DecisionNodeHeader-discrete, DecisionNode}
use hot_iron_oxide.HotIron.Messages.{
  QcType, Qc, OptionQc-discrete, VoteType, VoteMessage, ProposalType, ProposalMessage,
  ProposalTypes,
}

-- `Result<A, E>`
pub data Result {ℓ} (E A : Type ℓ) : Type ℓ where
  done : A → Result E A
  failed : E → Result E A

pub Result-cases {ℓ} :
    {E A : Type ℓ} (r : Result E A) → ((e : E) × (r ≡ failed e)) ⊎ ((a : A) × (r ≡ done a))
Result-cases (done a) = inr (a, refl)
Result-cases (failed e) = inl (e, refl)

pub done_injective {ℓ} : {E A : Type ℓ} {a b : A} (r : Result E A) → r ≡ done a → r ≡ done b → a ≡ b
done_injective r h k = cc

pub data NewViewAcceptError : Type 0 where
  wrong_message_type : NewViewAcceptError

pub data VoteAcceptError : Type 0 where
  new_view_accept_error : NewViewAcceptError → VoteAcceptError

pub data ProposalAcceptError : Type 0 where
  prepare_proposal_not_acceptable : ProposalAcceptError

module _ ⦃atlas : Atlas⦄ where
  open atlas use {
    SeqNo, seq_le, seq_zero, next, NodeId, node_discrete, PartialSignature, CombinedSignature,
    CombinationError, combine_signatures,
  }

  pub data VoteStoreError : Type 0 where
    no_decision_node : VoteStoreError
    failed_to_create_combined_signature : CombinationError → VoteStoreError

  pub data NewViewGenerateError : Type 0 where
    failed_to_generate_high_qc : NewViewGenerateError
    failed_to_combine_partial_signatures : CombinationError → NewViewGenerateError
    not_enough_votes : NewViewGenerateError

  abbrev pub Votes : Type 0
  Votes = Map NodeId PartialSignature

  pub record VoteStore : Type 0 where
    pub vote_type : QcType
    pub decision_nodes : Map DecisionNodeHeader Votes

  pub record NewViewStore : Type 0 where
    pub new_view : Map (Option Qc) Votes

  pub record MsgLeaderDecisionLog : Type 0 where
    pub high_qc : NewViewStore
    pub prepare_qc : VoteStore
    pub pre_commit_qc : VoteStore
    pub commit_qc : VoteStore

  pub record MsgReplicaDecisionLog : Type 0 where
    pub prepare_qc : Option Qc
    pub locked_qc : Option Qc

  pub data MsgDecisionLog : Type 0 where
    leader : MsgLeaderDecisionLog → MsgDecisionLog
    replica : MsgReplicaDecisionLog → MsgDecisionLog

  pub record DecisionLog : Type 0 where
    pub current_proposal : Option DecisionNode

  abbrev pub as_leader : MsgDecisionLog → Option MsgLeaderDecisionLog
  as_leader (leader log) = some log
  as_leader (replica log) = none

  -- Was the voter new under the key, and the map with its vote.
  module _ {K : Type 0} (dec : Discrete K) where
    unfoldable pub accept : NodeId → K → PartialSignature → Map K Votes → Bool × Map K Votes
    unfolding Map.get_or_default
    accept voter key vote_signature m =
        let votes = Map.get_or_default dec key [] m in
        (
          elim (Map.get node_discrete voter votes) [ none ↦ true | some previous ↦ false ],
          Map.insert dec key (Map.insert node_discrete voter vote_signature votes) m,
        )

  unfoldable pub new_vote_store : QcType → VoteStore
  new_vote_store vote_type = record { vote_type = vote_type; decision_nodes = [] }

  -- `VoteStore::accept_vote`
  unfoldable pub accept_vote :
      VoteStore → NodeId → DecisionNodeHeader → PartialSignature → Bool × VoteStore
  unfolding accept
  accept_vote store voter voted_node vote_signature =
      let (is_new, nodes) =
        accept DecisionNodeHeader-discrete voter voted_node vote_signature store.decision_nodes in
      (is_new, record store { decision_nodes = nodes })

  -- `VoteStore::generate_qc`, which the source leaves unchanged
  unfoldable pub store_generate_qc : VoteStore → View → Result VoteStoreError Qc
  store_generate_qc store view = elim (max_by_key leb (λ e. length e.1) store.decision_nodes) [
    | none ↦ failed no_decision_node
    | some (node, votes) ↦ elim (combine_signatures votes) [
      | inl error ↦ failed (failed_to_create_combined_signature error)
      | inr signature ↦ done (record {
        qc_type = store.vote_type;
        view_seq = view.seq;
        decision_node = node;
        signature = signature;
      })
    ]
  ]

  -- `Option<SeqNo>` in the order that Rust derives: `None` first.
  abbrev pub option_seq_le : Option SeqNo → Option SeqNo → Bool
  option_seq_le none b = true
  option_seq_le (some a) none = false
  option_seq_le (some a) (some b) = seq_le a b

  abbrev pub option_seq : Option Qc → Option SeqNo
  option_seq none = none
  option_seq (some qc) = some qc.view_seq

  -- `NewViewStore::accept_new_view`
  unfoldable pub accept_new_view :
      NewViewStore → NodeId → VoteMessage → Result NewViewAcceptError (Bool × NewViewStore)
  unfolding accept
  accept_new_view store voter vote_message = elim vote_message.vote_type [
    | VoteType.new_view qc ↦
        let (is_new, views) =
          accept OptionQc-discrete voter qc vote_message.signature store.new_view in
        done (is_new, record { new_view = views })
    | _ ↦ failed wrong_message_type
  ]

  unfoldable pub get_high_qc : NewViewStore → Option Qc
  get_high_qc store = elim (max_by_key option_seq_le (λ e. option_seq e.0) store.new_view) [
    | none ↦ none
    | some (qc, votes) ↦ qc
  ]

  unfoldable pub create_new_qc : NewViewStore → DecisionNodeHeader → Result NewViewGenerateError Qc
  create_new_qc store decision_node_header =
      elim (max_by_key option_seq_le (λ e. option_seq e.0) store.new_view) [
        | none ↦ failed not_enough_votes
        | some (qc, votes) ↦ elim (combine_signatures votes) [
          | inl error ↦ failed (failed_to_combine_partial_signatures error)
          | inr signature ↦ done (record {
            qc_type = QcType.prepare_vote;
            view_seq = elim qc [ none ↦ seq_zero | some high ↦ next high.view_seq ];
            decision_node = decision_node_header;
            signature = signature;
          })
        ]
      ]

  unfoldable pub default_leader_log : MsgLeaderDecisionLog
  unfolding new_vote_store
  default_leader_log = record {
    high_qc = record { new_view = [] };
    prepare_qc = new_vote_store QcType.prepare_vote;
    pre_commit_qc = new_vote_store QcType.pre_commit_vote;
    commit_qc = new_vote_store QcType.commit_vote;
  }

  unfoldable pub default_replica_log : MsgReplicaDecisionLog
  default_replica_log = record { prepare_qc = none; locked_qc = none }

  -- `MsgLeaderDecisionLog::accept_vote`
  unfoldable pub log_accept_vote :
      MsgLeaderDecisionLog
      → NodeId
      → VoteMessage
      → Result VoteAcceptError (Bool × MsgLeaderDecisionLog)
  unfolding accept_new_view accept_vote
  log_accept_vote log sender vote = elim vote.vote_type [
    | VoteType.new_view qc ↦ elim (accept_new_view log.high_qc sender vote) [
      | failed error ↦ failed (new_view_accept_error error)
      | done (is_new, store) ↦ done (is_new, record log { high_qc = store })
    ]
    | VoteType.prepare_vote node ↦
        let (is_new, store) = accept_vote log.prepare_qc sender node vote.signature in
        done (is_new, record log { prepare_qc = store })
    | VoteType.pre_commit_vote node ↦
        let (is_new, store) = accept_vote log.pre_commit_qc sender node vote.signature in
        done (is_new, record log { pre_commit_qc = store })
    | VoteType.commit_vote node ↦
        let (is_new, store) = accept_vote log.commit_qc sender node vote.signature in
        done (is_new, record log { commit_qc = store })
  ]

  -- `MsgLeaderDecisionLog::generate_qc`
  unfoldable pub log_generate_qc :
      MsgLeaderDecisionLog → View → ProposalTypes → Run (Result VoteStoreError Qc)
  unfolding store_generate_qc
  log_generate_qc log view ProposalTypes.prepare = panic unreachable
  log_generate_qc log view ProposalTypes.pre_commit = ok (store_generate_qc log.prepare_qc view)
  log_generate_qc log view ProposalTypes.commit = ok (store_generate_qc log.pre_commit_qc view)
  log_generate_qc log view ProposalTypes.decide = ok (store_generate_qc log.commit_qc view)

  -- `MsgReplicaDecisionLog::accept_proposal`
  unfoldable pub accept_proposal :
      MsgReplicaDecisionLog → ProposalType → Result ProposalAcceptError MsgReplicaDecisionLog
  accept_proposal log (ProposalType.prepare node qc) = failed prepare_proposal_not_acceptable
  accept_proposal log (ProposalType.pre_commit qc) = done (record log { prepare_qc = some qc })
  accept_proposal log (ProposalType.commit locked_qc) =
      done (record log { locked_qc = some locked_qc })
  accept_proposal log (ProposalType.decide qc) = done log
