-- ===== src/Chained/Log.antt =====
-- src/chained/protocol/log/mod.rs: the votes that one decision collects, and the certificates made
-- of them.
pub mod Quorums
use hot_iron_oxide.Base.{
  ℕ, ◌≡◌, ◌⊎◌, inl, inr, Bool, true, false, Option, none, some, List, [], Run, ok, panic,
  unreachable, ◌>>=◌, length, leb, ltb, if◌then◌else◌,
}
use hot_iron_oxide.Base.Map
use hot_iron_oxide.Base.Map.{Map}
use hot_iron_oxide.Base.Maximum.{max_by_key}
use hot_iron_oxide.Atlas.{Atlas}
use hot_iron_oxide.View.{View, quorum}
use hot_iron_oxide.HotIron.Log.{Result, done, failed, Votes, option_seq_le}
use hot_iron_oxide.Chained.Messages.{
  ChainedQc, OptionChainedQc-discrete, VoteDetails, VoteDetails-discrete, VoteMessage,
  NewViewMessage,
}

pub data NewViewQcError : Type 0 where
  no_votes_received : NewViewQcError

module _ ⦃atlas : Atlas⦄ where
  open atlas use {
    SeqNo, seq_le, seq_zero, NodeId, node_discrete, PartialSignature, CombinationError,
    combine_signatures,
  }

  pub data ChainedQcGenerateError : Type 0 where
    failed_to_combine_partial_signatures : CombinationError → ChainedQcGenerateError
    not_enough_votes : ChainedQcGenerateError

  pub data NewViewGenerateError : Type 0 where
    failed_to_generate_high_qc : NewViewGenerateError
    failed_to_combine_partial_signatures : CombinationError → NewViewGenerateError
    not_enough_votes : NewViewGenerateError
    failed_to_generate_qc : ChainedQcGenerateError → NewViewGenerateError
    failed_to_generate_new_view_qc : NewViewQcError → NewViewGenerateError

  pub record NewViewStore : Type 0 where
    pub new_view : Map (Option ChainedQc) Votes

  pub record VoteStore : Type 0 where
    pub votes : Map VoteDetails Votes
    pub proposed : Bool

  pub data DecisionLog : Type 0 where
    leader : NewViewStore → DecisionLog
    next_leader : VoteStore → DecisionLog
    replica : DecisionLog

  abbrev pub as_mut_leader : DecisionLog → Run NewViewStore
  as_mut_leader (DecisionLog.leader log) = ok log
  as_mut_leader (DecisionLog.next_leader log) = panic unreachable
  as_mut_leader DecisionLog.replica = panic unreachable

  abbrev pub as_mut_next_leader : DecisionLog → Run VoteStore
  as_mut_next_leader (DecisionLog.leader log) = panic unreachable
  as_mut_next_leader (DecisionLog.next_leader log) = ok log
  as_mut_next_leader DecisionLog.replica = panic unreachable

  abbrev pub default_new_view_store : NewViewStore
  default_new_view_store = record { new_view = [] }

  abbrev pub default_vote_store : VoteStore
  default_vote_store = record { votes = []; proposed = false }

  -- `entry(key).or_default().entry(voter)`: the first signature of a voter under a key is kept, and
  -- a further one is refused. With it, the voters under the key afterwards.
  module _ {K : Type 0} (dec : Discrete K) where
    unfoldable pub accept_first :
        NodeId → K → PartialSignature → Map K Votes → Option ℕ × Map K Votes
    accept_first voter key signature m =
        let votes = Map.get_or_default dec key [] m in
        let added = Map.insert node_discrete voter signature votes in
        elim (Map.get node_discrete voter votes) [
          | some previous ↦ (none, m)
          | none ↦ (some (length added), Map.insert dec key added m)
        ]

  -- `NewViewStore::accept_new_view`
  unfoldable pub accept_new_view : NewViewStore → NodeId → NewViewMessage → Bool × NewViewStore
  unfolding accept_first
  accept_new_view store voter vote_message =
      let (accepted, views) =
        accept_first OptionChainedQc-discrete voter vote_message.qc vote_message.signature
          store.new_view in
      (elim accepted [ none ↦ false | some _ ↦ true ], record { new_view = views })

  abbrev pub qc_seq : Option ChainedQc → Option SeqNo
  qc_seq none = none
  qc_seq (some qc) = some qc.seq_no

  -- `NewViewQCResult`
  pub record NewViewQcResult : Type 0 where
    pub high_qc : Option ChainedQc
    pub signatures : Votes

  -- `NewViewStore::get_high_qc`
  unfoldable pub get_high_qc : NewViewStore → Result NewViewQcError NewViewQcResult
  get_high_qc store = elim (max_by_key option_seq_le (λ e. qc_seq e.0) store.new_view) [
    | none ↦ failed no_votes_received
    | some (qc, votes) ↦ done (record { high_qc = qc; signatures = votes })
  ]

  -- `VoteStore::accept_vote`
  unfoldable pub accept_vote : VoteStore → NodeId → VoteMessage → Option ℕ × VoteStore
  unfolding accept_first
  accept_vote store voter vote_message =
      let (count, votes) =
        accept_first VoteDetails-discrete voter vote_message.vote_details vote_message.signature
          store.votes in
      (count, record store { votes = votes })

  abbrev pub justify_seq : VoteDetails → SeqNo
  justify_seq details = elim details.justify [ none ↦ seq_zero | some qc ↦ qc.seq_no ]

  unfoldable pub get_high_justify_qc : VoteStore → Option VoteDetails
  get_high_justify_qc store = elim (max_by_key seq_le (λ e. justify_seq e.0) store.votes) [
    | none ↦ none
    | some (details, votes) ↦ some details
  ]

  abbrev pub is_proposed : VoteStore → Bool
  is_proposed store = store.proposed

  abbrev pub set_proposed : VoteStore → Bool → VoteStore
  set_proposed store proposed = record store { proposed = proposed }

  -- `VoteStore::get_quorum_qc`, once the most voted details and the quorum are known.
  unfoldable pub certify : View → VoteDetails → Votes → ℕ → Result ChainedQcGenerateError ChainedQc
  certify view details votes needed =
      if ltb (length votes) needed
      then failed ChainedQcGenerateError.not_enough_votes
      else elim (combine_signatures votes) [
        | inl error ↦ failed (ChainedQcGenerateError.failed_to_combine_partial_signatures error)
        | inr signature ↦
            done (record { seq_no = view.seq; decision_node = details.node; signature = signature })
      ]

  unfoldable pub get_quorum_qc : VoteStore → View → Run (Result ChainedQcGenerateError ChainedQc)
  unfolding certify
  get_quorum_qc store view = elim (max_by_key leb (λ e. length e.1) store.votes) [
    | none ↦ ok (failed ChainedQcGenerateError.not_enough_votes)
    | some (details, votes) ↦ do needed ← quorum view; ok (certify view details votes needed)
  ]
