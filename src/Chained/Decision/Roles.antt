-- ===== src/Chained/Decision/Roles.antt =====
-- What the leader and the next leader of src/chained/protocol/decision/mod.rs take from their logs,
-- and the nodes that they make.
use hot_iron_oxide.Base.{
  ℕ, ◌≡◌, refl, Bool, ok, length, leb, Ends, Ends-bind, if_rule, option_rule, ite_rule, Option,
  none, some,
}
use hot_iron_oxide.Base.Maximum.{max_by_key}
use hot_iron_oxide.Atlas.{Atlas}
use hot_iron_oxide.View.{View, quorum}
use hot_iron_oxide.View.Rotation.{IsWellFormed, quorum_reachable}
use hot_iron_oxide.Tree.{
  DecisionHandler, install_latest_prepare_qc, DecisionNode, create_root, create_leaf,
  create_blank_branch_node,
}
use hot_iron_oxide.Requests.{Pool}
use hot_iron_oxide.HotIron.Log.{Result, done, failed}
use hot_iron_oxide.Chained.Messages.{
  ChainedQc, create_chained_root, create_chained_leaf, IronChainMessageType, VoteMessage,
  NewViewMessage, ProposalMessage, proposal, vote, new_view,
}
use hot_iron_oxide.Chained.Log.{
  DecisionLog, VoteStore, as_mut_leader, as_mut_next_leader, get_quorum_qc, get_high_justify_qc,
  justify_seq,
}
use hot_iron_oxide.Chained.Decision.{
  ChainedDecisionState, ConsensusMetricType, as_leader_decision, as_next_leader_decision,
}
use hot_iron_oxide.Chained.Decision.Handling.{decision_node_for, install_high_justify}
use hot_iron_oxide.Chained.Decision.Conduct.{log_role}

pub prepare_rule {ℓ κ} :
    {A : Type ℓ} (P : A → Type κ) (s : ChainedDecisionState) {f : ℕ → Bool → A} {n : A}
    → ((received : ℕ) (proposed : Bool)
        → s ≡ ChainedDecisionState.prepare received proposed
        → P (f received proposed))
    → P n
    → P (elim s [ ChainedDecisionState.prepare received proposed ↦ f received proposed | _ ↦ n ])
prepare_rule P ChainedDecisionState.init g h = h
prepare_rule P (ChainedDecisionState.prepare r p) g h = g r p refl
prepare_rule P ChainedDecisionState.pre_commit g h = h
prepare_rule P ChainedDecisionState.commit g h = h
prepare_rule P ChainedDecisionState.decide g h = h
prepare_rule P ChainedDecisionState.finalized g h = h

pub result_rule {ℓ μ ν} :
    {E A : Type ℓ} {B : Type μ} (P : B → Type ν) (r : Result E A) {f : E → B} {g : A → B}
    → ((e : E) → P (f e))
    → ((a : A) → r ≡ done a → P (g a))
    → P (elim r [ failed e ↦ f e | done a ↦ g a ])
result_rule P (failed e) h k = h e
result_rule P (done a) h k = k a refl

module _ ⦃atlas : Atlas⦄ where
  open atlas use {SeqNo, seq_le, NodeId, seq_discrete, digest_discrete, prev}

  pub kind_rule {ℓ κ} :
      {A : Type ℓ} (P : A → Type κ) (t : IronChainMessageType) {f : ProposalMessage → A}
      {g : VoteMessage → A} {k : NewViewMessage → A}
      → ((p : ProposalMessage) → t ≡ proposal p → P (f p))
      → ((v : VoteMessage) → t ≡ vote v → P (g v))
      → ((n : NewViewMessage) → P (k n))
      → P (elim t [ proposal p ↦ f p | vote v ↦ g v | new_view n ↦ k n ])
  kind_rule P (proposal p) hp hv hn = hp p refl
  kind_rule P (vote v) hp hv hn = hv v refl
  kind_rule P (new_view n) hp hv hn = hn n

  -- The node made on a certificate, or on none, carries it, and the requests of the pool.
  pub decision_node_for-justify :
      (view : View) (pool : Pool) (qc : Option ChainedQc)
      → (decision_node_for view pool qc).justify ≡ qc
  unfolding decision_node_for create_chained_root create_chained_leaf
  decision_node_for-justify view pool none = refl
  decision_node_for-justify view pool (some qc) = refl

  pub decision_node_for-commands :
      (view : View) (pool : Pool) (qc : Option ChainedQc)
      → (decision_node_for view pool qc).node.client_commands ≡ pool.requests
  unfolding decision_node_for create_chained_root create_chained_leaf create_root create_leaf
      create_blank_branch_node
  decision_node_for-commands view pool none = refl
  decision_node_for-commands view pool (some qc) =
      let P = λ (node : DecisionNode). node.client_commands ≡ pool.requests in
      let header = qc.decision_node in
      ite_rule P (digest_discrete header.current_block_digest header.current_block_digest)
        (λ _. ite_rule P (seq_discrete header.view_no (prev view.seq)) (λ _. refl) (λ _. refl))
        (λ _. refl)

  pub as_mut_leader-Ends :
      (log : DecisionLog)
      → log_role log ≡ ConsensusMetricType.leader
      → Ends (λ _. Unit {0}) (as_mut_leader log)
  as_mut_leader-Ends (DecisionLog.leader log) h = tt
  as_mut_leader-Ends (DecisionLog.next_leader log) h = cc
  as_mut_leader-Ends DecisionLog.replica h = cc

  pub as_mut_next_leader-Ends :
      (log : DecisionLog)
      → log_role log ≡ ConsensusMetricType.next_leader
      → Ends (λ _. Unit {0}) (as_mut_next_leader log)
  as_mut_next_leader-Ends (DecisionLog.leader log) h = cc
  as_mut_next_leader-Ends (DecisionLog.next_leader log) h = tt
  as_mut_next_leader-Ends DecisionLog.replica h = cc

  pub install_high_justify-locked :
      (store : VoteStore) (handler : DecisionHandler ChainedQc)
      → (install_high_justify store handler).latest_locked_qc ≡ handler.latest_locked_qc
  unfolding install_high_justify install_latest_prepare_qc
  install_high_justify-locked store handler =
      let Same = λ (r : DecisionHandler ChainedQc). r.latest_locked_qc ≡ handler.latest_locked_qc in
      option_rule Same (get_high_justify_qc store) (λ _. refl)
        λ details _.
          option_rule Same handler.latest_locked_qc (λ _. refl)
            λ locked _.
              if_rule Same (seq_le (justify_seq details) locked.seq_no) (λ _. refl)
                λ _. option_rule Same details.justify (λ _. refl) λ _ _. refl

  pub quorum-Ends : (view : View) → IsWellFormed view → Ends (λ q. quorum view ≡ ok q) (quorum view)
  quorum-Ends view w = let (q, run, _) = quorum_reachable w in rw run refl

  pub get_quorum_qc-Ends :
      (store : VoteStore) (view : View)
      → IsWellFormed view
      → Ends (λ _. Unit {0}) (get_quorum_qc store view)
  unfolding get_quorum_qc
  get_quorum_qc-Ends store view w =
      option_rule (Ends (λ _. Unit {0})) (max_by_key leb (λ e. length e.1) store.votes) (λ _. tt)
        λ _ _. Ends-bind (λ q. quorum view ≡ ok q) _ _ _ (quorum-Ends view w) λ _ _. tt

  pub as_leader-Ends :
      {metrics : ConsensusMetricType}
      → metrics ≡ ConsensusMetricType.leader
      → Ends (λ _. Unit {0}) (as_leader_decision metrics)
  as_leader-Ends e = rw e tt

  pub as_next_leader-Ends :
      {metrics : ConsensusMetricType}
      → metrics ≡ ConsensusMetricType.next_leader
      → Ends (λ _. Unit {0}) (as_next_leader_decision metrics)
  as_next_leader-Ends e = rw e tt
