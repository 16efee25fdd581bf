-- ===== src/HotIron/Decision/Rules.antt =====
-- Rules by which statements about the processing of a message are proved, for the leader and for a
-- replica (src/hot_iron/protocol/decision/mod.rs).
use hot_iron_oxide.Base.{
  ℕ, ◌+◌, ◌≤◌, ◌<◌, ◌≡◌, ◌≢◌, ap, refl, Bool, true, false, ◌&&◌, none, some, Run, ok, Ends, arith,
  length, if_rule, option_rule, if◌then◌else◌, ◌>>=◌, leb,
}
use hot_iron_oxide.Atlas.{Atlas}
use hot_iron_oxide.Requests.{Pool, default_pool, take_pool_requests}
use hot_iron_oxide.Tree.{DecisionNode, create_leaf, create_root}
use hot_iron_oxide.View
use hot_iron_oxide.View.{View}
use hot_iron_oxide.HotIron.Messages.{
  VoteTypes, VoteType, VoteMessage, ProposalTypes, ProposalType, ProposalMessage, proposal, vote,
  vote_types, proposal_types, VoteEncoding, Qc,
}
use hot_iron_oxide.HotIron.Queue.{DecisionState, Message}
use hot_iron_oxide.HotIron.Log.{
  Result, done, failed, VoteAcceptError, MsgDecisionLog, MsgLeaderDecisionLog, log_generate_qc,
  create_new_qc, get_high_qc,
}
use hot_iron_oxide.HotIron.Decision.{
  ConsensusDecisionMetric, World, Processed, is_leader, counts, DecisionError, queue,
  message_ignored, message_queued, decision_progressed, vote_accept_error, new_view_generate_error,
  vote_store_error,
}
use hot_iron_oxide.HotIron.Decision.Consistency.{IsConsistent, quorum_total, keeps_votes-leader}
use hot_iron_oxide.HotIron.Decision.Leader.{
  announce, propose_node, propose_qc, propose, counted, logged, after_vote, collect,
  process_message_leader,
}
use hot_iron_oxide.HotIron.Decision.Replica.{
  prepare_node, later_phase, replica_phase, process_message_replica,
}
use hot_iron_oxide.HotIron.Decision.Dispatch.{is_from_leader, process_message}
use hot_iron_oxide.HotIron.Decision.Phases.{AwaitsVote, AwaitsProposal, process_message_rule}

result_rule {ℓ κ} :
    {E A : Type 0} {B : Type ℓ} (P : B → Type κ) (r : Result E A) {f : E → B} {g : A → B}
    → ((e : E) → P (f e))
    → ((a : A) → r ≡ done a → P (g a))
    → P (elim r [ failed e ↦ f e | done a ↦ g a ])
result_rule P (failed e) hf hg = hf e
result_rule P (done a) hf hg = hg a refl

module _ ⦃atlas : Atlas⦄ where
  -- A leader that has its log and metrics counts the vote it is given, in every phase.
  pub process_message_leader_lem :
      (w : World) (m : Message) (v : VoteMessage) (log : MsgLeaderDecisionLog) (sent : Bool) (n : ℕ)
      → m.message.message ≡ vote v
      → counts w.decision.current_state ≡ some (sent, n)
      → w.decision.consensus_metric ≡ ConsensusDecisionMetric.leader
      → w.decision.msg_decision_log ≡ MsgDecisionLog.leader log
      → process_message_leader w m ≡ collect w m v log sent (n + 1)
  unfolding process_message_leader
  process_message_leader_lem w m v log sent n e c k l = ground arith

  awaits-counts :
      {s : DecisionState} {t : VoteTypes}
      → AwaitsVote s t
      → (b : Bool) × (n : ℕ) × (counts s ≡ some (b, n))
  awaits-counts AwaitsVote.prepare = (_, _, refl)
  awaits-counts AwaitsVote.pre_commit = (_, _, refl)
  awaits-counts AwaitsVote.commit = (_, _, refl)
  awaits-counts AwaitsVote.decide = (_, _, refl)

  -- The proposal that is due after a quorum of votes of a type: for a new view a node with the
  -- requests of the pool and the certificate of the new view votes; after that the proposal of the
  -- next phase, with the certificate of the votes that the log has for it.
  pub data Due (w : World) (log : MsgLeaderDecisionLog) : VoteTypes → ProposalType → Type 0 where
    new_view :
        (node : DecisionNode) (qc : Qc)
        → node.client_commands ≡ w.pool.requests
        → create_new_qc log.high_qc node.decision_header ≡ done qc
        → Due w log VoteTypes.new_view (ProposalType.prepare node qc)
    prepare_vote :
        (qc : Qc)
        → log_generate_qc log w.decision.view ProposalTypes.pre_commit ≡ ok (done qc)
        → Due w log VoteTypes.prepare_vote (ProposalType.pre_commit qc)
    pre_commit_vote :
        (qc : Qc)
        → log_generate_qc log w.decision.view ProposalTypes.commit ≡ ok (done qc)
        → Due w log VoteTypes.pre_commit_vote (ProposalType.commit qc)
    commit_vote :
        (qc : Qc)
        → log_generate_qc log w.decision.view ProposalTypes.decide ≡ ok (done qc)
        → Due w log VoteTypes.commit_vote (ProposalType.decide qc)

  -- A proposal fails, or the one that is due is announced; it leaves the world as it was but for the
  -- pool.
  module _ (P : Processed → Type 0) (w : World) (m : Message) (log : MsgLeaderDecisionLog)
      (fails : (pool : Pool) (e : DecisionError) → P (record w { pool = pool }, failed e)) where
    propose_node_rule :
        ((pool : Pool) (node : DecisionNode) (qc : Qc)
          → node.client_commands ≡ w.pool.requests
          → create_new_qc log.high_qc node.decision_header ≡ done qc
          → P (announce (record w { pool = pool }) m (ProposalType.prepare node qc)))
        → P (propose_node w m log)
    unfolding propose_node take_pool_requests create_leaf create_root
    propose_node_rule announces =
        let node : DecisionNode = elim (get_high_qc log.high_qc) [
          | some qc ↦ create_leaf qc.decision_node w.pool.digest w.pool.requests
          | none ↦ create_root w.decision.view w.pool.digest w.pool.requests
        ] in
        let has : node.client_commands ≡ w.pool.requests =
          option_rule (λ (n : DecisionNode). n.client_commands ≡ w.pool.requests)
            (get_high_qc log.high_qc)
            {n = create_root w.decision.view w.pool.digest w.pool.requests}
            {f = λ qc. create_leaf qc.decision_node w.pool.digest w.pool.requests} (λ _. refl)
            (λ _ _. refl) in
        result_rule P (create_new_qc log.high_qc node.decision_header)
          (λ e. fails default_pool (new_view_generate_error e))
          (λ qc made. announces default_pool node qc has made)

    propose_qc_rule :
        (t : ProposalTypes) (build : Qc → ProposalType)
        → t ≢ ProposalTypes.prepare
        → ((qc : Qc)
            → log_generate_qc log w.decision.view t ≡ ok (done qc)
            → P (announce w m (build qc)))
        → Ends P (propose_qc w m log t build)
    unfolding propose_qc log_generate_qc
    propose_qc_rule ProposalTypes.prepare build h announces = absurd (h refl)
    propose_qc_rule _ build h announces =
        result_rule P _ (λ e. fails w.pool (vote_store_error e))
          (λ qc made. announces qc (ap ok made))

    pub propose_rule :
        (vt : VoteType)
        → ((pool : Pool) (pt : ProposalType)
            → Due w log (vote_types vt) pt
            → P (announce (record w { pool = pool }) m pt))
        → Ends P (propose w m log vt)
    unfolding propose
    propose_rule (VoteType.new_view q) announces =
        propose_node_rule
          (λ pool node qc has made. announces pool _ (Due.new_view node qc has made))
    propose_rule (VoteType.prepare_vote n) announces =
        propose_qc_rule ProposalTypes.pre_commit ProposalType.pre_commit (λ h. cc)
          (λ qc made. announces w.pool _ (Due.prepare_vote qc made))
    propose_rule (VoteType.pre_commit_vote n) announces =
        propose_qc_rule ProposalTypes.commit ProposalType.commit (λ h. cc)
          (λ qc made. announces w.pool _ (Due.pre_commit_vote qc made))
    propose_rule (VoteType.commit_vote n) announces =
        propose_qc_rule ProposalTypes.decide ProposalType.decide (λ h. cc)
          (λ qc made. announces w.pool _ (Due.commit_vote qc made))

  -- The three outcomes of a vote that the leader awaits.
  module _ (P : Processed → Type 0) (w : World) (m : Message) (v : VoteMessage) where
    -- The vote is counted, but not accepted by the log.
    abbrev pub Unaccepted : Type 0
    Unaccepted =
        (sent : Bool) (n : ℕ) (e : VoteAcceptError)
        → counts w.decision.current_state ≡ some (sent, n)
        → P (counted w sent (n + 1), failed (vote_accept_error e))

    -- It is counted and accepted, and no proposal is due: there is no quorum, or one was made.
    abbrev pub Recorded : Type 0
    Recorded =
        (sent : Bool) (n : ℕ) (log : MsgLeaderDecisionLog)
        → counts w.decision.current_state ≡ some (sent, n)
        → ((q : ℕ) → View.quorum w.decision.view ≡ ok q → q ≤ n + 1 → sent ≡ true)
        → P (
          logged w sent (n + 1) log,
          done (if sent then message_ignored else decision_progressed none none m),
        )

    -- It makes the quorum, and no proposal was made: one is tried.
    abbrev pub Proposing : Type 0
    Proposing =
        (n q : ℕ) (log : MsgLeaderDecisionLog)
        → counts w.decision.current_state ≡ some (false, n)
        → View.quorum w.decision.view ≡ ok q
        → q ≤ n + 1
        → Ends P (propose (logged w true (n + 1) log) m log v.vote_type)

    after_vote_rule :
        (sent : Bool) (n : ℕ) (r : Result VoteAcceptError (Bool × MsgLeaderDecisionLog))
        → 0 < length w.decision.view.members
        → counts w.decision.current_state ≡ some (sent, n)
        → Unaccepted
        → Recorded
        → Proposing
        → Ends P (after_vote w m v.vote_type sent (n + 1) r)
    unfolding after_vote
    after_vote_rule sent n (failed error) h c x y z = x sent n error c
    after_vote_rule true n (done (is_new, log)) h c x y z =
        let (q, e) = quorum_total w.decision.view h in
        rw (e, ◌>>=◌)
          (if_rule (Ends P) (leb q (n + 1) && false) (λ t. absurd (ground arith))
            (λ _. y true n log c (λ _ _ _. refl)))
    after_vote_rule false n (done (is_new, log)) h c x y z =
        let (q, e) = quorum_total w.decision.view h in
        rw (e, ◌>>=◌)
          (if_rule (Ends P) (leb q (n + 1) && true) (λ t. z n q log c e (ground arith))
            (λ few. y false n log c (λ p is enough. absurd (ground (arith, few, is, e, enough)))))

    pub leader_rule :
        IsConsistent w.decision
        → m.message.message ≡ vote v
        → is_leader w.decision ≡ true
        → AwaitsVote w.decision.current_state (vote_types v.vote_type)
        → Unaccepted
        → Recorded
        → Proposing
        → Ends P (process_message_leader w m)
    unfolding collect
    leader_rule c e l a x y z =
        let (log, k) = keeps_votes-leader w.decision.msg_decision_log (c.log l) in
        let (sent, n, s) = awaits-counts a in
        rw (process_message_leader_lem w m v log sent n e s (c.metric l) k)
          (after_vote_rule sent n _ c.occupied s x y z)

-- What a replica does with an awaited proposal, in each phase.
pub replica_phase_rule :
    ⦃atlas : Atlas⦄ ⦃encoding : VoteEncoding⦄ (P : DecisionState → Run Processed → Type 0)
    (w : World) (m : Message)
    → ((b : Bool) (n : ℕ) (node : DecisionNode) (qc : Qc)
        → P (DecisionState.prepare b n) (ok (prepare_node w m node qc)))
    → ((b : Bool) (n : ℕ) (qc : Qc)
        → P (DecisionState.pre_commit b n) (later_phase w m (ProposalType.pre_commit qc)))
    → ((b : Bool) (n : ℕ) (qc : Qc)
        → P (DecisionState.commit b n) (later_phase w m (ProposalType.commit qc)))
    → ((b : Bool) (n : ℕ) (qc : Qc)
        → P (DecisionState.decide b n) (later_phase w m (ProposalType.decide qc)))
    → (s : DecisionState) (t : ProposalTypes) (pt : ProposalType) → AwaitsProposal s t
    → t ≡ proposal_types pt
    → P s (replica_phase s w m pt)
unfolding replica_phase
replica_phase_rule P w m a b c d _ _ (ProposalType.prepare x q) AwaitsProposal.prepare e = a _ _ x q
replica_phase_rule P w m a b c d _ _ _ AwaitsProposal.prepare e = cc
replica_phase_rule P w m a b c d _ _ (ProposalType.pre_commit q) AwaitsProposal.pre_commit e =
    b _ _ q
replica_phase_rule P w m a b c d _ _ _ AwaitsProposal.pre_commit e = cc
replica_phase_rule P w m a b c d _ _ (ProposalType.commit q) AwaitsProposal.commit e = c _ _ q
replica_phase_rule P w m a b c d _ _ _ AwaitsProposal.commit e = cc
replica_phase_rule P w m a b c d _ _ (ProposalType.decide q) AwaitsProposal.decide e = d _ _ q
replica_phase_rule P w m a b c d _ _ _ AwaitsProposal.decide e = cc

pub process_message_replica_lem :
    ⦃atlas : Atlas⦄ ⦃encoding : VoteEncoding⦄ (w : World) (m : Message) (p : ProposalMessage)
    → m.message.message ≡ proposal p
    → process_message_replica w m ≡ replica_phase w.decision.current_state w m p.proposal_type
unfolding process_message_replica
process_message_replica_lem w m p e = ground arith

-- The rule for all messages, of a decision that is consistent: the message is ignored or kept, or it
-- is a vote that the leader awaits, or a proposal that the replica awaits.
module _ ⦃atlas : Atlas⦄ ⦃encoding : VoteEncoding⦄ (P : Processed → Type 0) (w : World)
    (m : Message) (consistent : IsConsistent w.decision) where
  pub process_rule :
      P (w, done message_ignored)
      → P (record w { decision = queue w.decision m }, done message_queued)
      → ((v : VoteMessage) → is_leader w.decision ≡ true → Unaccepted P w m v)
      → ((v : VoteMessage) → is_leader w.decision ≡ true → Recorded P w m v)
      → ((v : VoteMessage)
          → is_leader w.decision ≡ true
          → m.message.message ≡ vote v
          → AwaitsVote w.decision.current_state (vote_types v.vote_type)
          → Proposing P w m v)
      → ((p : ProposalMessage)
          → m.message.message ≡ proposal p
          → is_from_leader w m ≡ true
          → AwaitsProposal w.decision.current_state (proposal_types p.proposal_type)
          → Ends P (replica_phase w.decision.current_state w m p.proposal_type))
      → Ends P (process_message w m)
  process_rule i k x y z r =
      process_message_rule (Ends P) w m i k
        (λ v e l a. leader_rule P w m v consistent e l a (x v l) (y v l) (z v l e a))
        (λ p e f a. rw (process_message_replica_lem w m p e) (r p e f a))
