-- ===== src/Chained/Decision/Conduct.antt =====
-- What processing a message does to a decision of src/chained/protocol/decision/mod.rs: it returns,
-- keeps the decision's role, and sends what the role may send.
use hot_iron_oxide.Base.{
  ℕ, ◌+◌, ◌≤◌, ◌≡◌, refl, sym, ◌∙◌, ap, Bool, true, false, Option, none, some, ok, push_back,
}
use hot_iron_oxide.Atlas.{Atlas}
use hot_iron_oxide.View.{View, next_view, quorum}
use hot_iron_oxide.View.Rotation.{IsWellFormed}
use hot_iron_oxide.Tree.{safe_node}
use hot_iron_oxide.Chained.Messages.{
  ChainedQc, chained_certificate, ChainedDecisionNode, ChainEncoding, Message, Outgoing, proposal,
  vote, sign_vote,
}
use hot_iron_oxide.Chained.Tree.{header_of, PendingDecisionNodes, is_extension_of_known_node}
use hot_iron_oxide.Chained.Log.{DecisionLog, NewViewStore, NewViewQcResult, get_high_qc}
use hot_iron_oxide.HotIron.Log.{done}
use hot_iron_oxide.Requests.{default_pool}
use hot_iron_oxide.Chained.Decision.{
  ChainedDecision, ChainedDecisionState, ConsensusMetricType, is_leader, same_node,
  proposal_generated, vote_generated,
}
use hot_iron_oxide.Chained.Decision.Handling.{World, Processed}

module _ ⦃atlas : Atlas⦄ where
  open atlas use {SeqNo, seq_le, NodeId}

  abbrev pub role_of : Bool → Bool → ConsensusMetricType
  role_of true leads_next = ConsensusMetricType.leader
  role_of false true = ConsensusMetricType.next_leader
  role_of false false = ConsensusMetricType.replica_consensus

  abbrev pub log_role : DecisionLog → ConsensusMetricType
  log_role (DecisionLog.leader log) = ConsensusMetricType.leader
  log_role (DecisionLog.next_leader log) = ConsensusMetricType.next_leader
  log_role DecisionLog.replica = ConsensusMetricType.replica_consensus

  -- The log and the metrics of the decision are those of its node's role, and no node leads both
  -- the view and the next.
  pub record IsConsistent (d : ChainedDecision) : Type 0 where
    pub well : IsWellFormed d.view
    pub next : View
    pub is_next : next_view d.view ≡ ok next
    pub metrics : d.metrics ≡ role_of (is_leader d) (same_node d.node_id next.leader)
    pub log : log_role d.decision_log ≡ d.metrics
    pub single : is_leader d ≡ true → same_node d.node_id next.leader ≡ false

  -- The state stays, or one more message for the new view is counted.
  pub data Counted : ChainedDecisionState → ChainedDecisionState → Type 0 where
    same : {s : ChainedDecisionState} → Counted s s
    one_more :
        (received : ℕ) (proposed : Bool)
        → Counted
            (ChainedDecisionState.prepare received proposed)
            (ChainedDecisionState.prepare (received + 1) proposed)

  -- The certificate that a node carries, or else the one before.
  abbrev pub carried : ChainedDecisionNode → Option ChainedQc → Option ChainedQc
  carried node before = elim node.justify [ none ↦ before | some qc ↦ some qc ]

  -- What the decision keeps of the proposal that it voted for stays.
  pub record SameProposal (w : World) (r : Processed) : Type 0 where
    pub digest : r.0.decision.decision_node_digest ≡ w.decision.decision_node_digest
    pub qc : r.0.decision.decision_qc ≡ w.decision.decision_qc

  -- The leader's proposal, with a quorum of messages for the new view counted: a node with the
  -- requests of the pool, which takes them, and on the highest certificate of those messages.
  pub record Proposes (w : World) (m : Message) (r : Processed) : Type 0 where
    pub received : ℕ
    pub needed : ℕ
    pub node : ChainedDecisionNode
    pub log : NewViewStore
    pub high : NewViewQcResult
    pub leads : is_leader w.decision ≡ true
    pub state : w.decision.state ≡ ChainedDecisionState.prepare received false
    pub is_quorum : quorum w.decision.view ≡ ok needed
    pub enough : needed ≤ received + 1
    pub state_after : r.0.decision.state ≡ ChainedDecisionState.prepare (received + 1) true
    pub logged : r.0.decision.decision_log ≡ DecisionLog.leader log
    pub highest : get_high_qc log ≡ done high
    pub justify : node.justify ≡ high.high_qc
    pub commands : node.node.client_commands ≡ w.pool.requests
    pub taken : r.0.pool ≡ default_pool
    pub proposal_kept : SameProposal w r
    pub answer : r.1 ≡ done (proposal_generated (header_of node) m)
    pub sent :
        r.0.sent
        ≡ push_back w.sent (
            Outgoing.broadcast_signed
              (record {
                seq_no = w.decision.view.seq;
                message = proposal (record { proposal = node });
              })
              w.decision.view.members)

  module _ ⦃encoding : ChainEncoding⦄ where
    -- The vote for a proposal of the view, which carries no certificate or is safe: to the leader of
    -- the next view, signed, for the node and its certificate; both are kept.
    pub record Votes (w : World) (pending : PendingDecisionNodes) (m : Message) (r : Processed)
        : Type 0 where
      pub node : ChainedDecisionNode
      pub next : View
      pub is_proposal : m.message.message ≡ proposal (record { proposal = node })
      pub of_view : m.message.seq_no ≡ w.decision.view.seq
      pub safe :
          (qc : ChainedQc)
          → node.justify ≡ some qc
          → safe_node chained_certificate
              (is_extension_of_known_node pending)
              w.handler
              node.node
              qc
            ≡ true
      pub is_next : next_view w.decision.view ≡ ok next
      pub digest : r.0.decision.decision_node_digest ≡ some (header_of node).current_block_digest
      pub qc : r.0.decision.decision_qc ≡ carried node w.decision.decision_qc
      pub state : r.0.decision.state ≡ w.decision.state
      pub pool : r.0.pool ≡ w.pool
      pub answer : r.1 ≡ done (vote_generated node m)
      pub sent :
          r.0.sent
          ≡ push_back w.sent (
              Outgoing.send
                (record {
                  seq_no = w.decision.view.seq;
                  message = vote (record {
                    vote_details = record { node = header_of node; justify = node.justify };
                    signature =
                        sign_vote w.decision.view.seq
                          (record { node = header_of node; justify = node.justify });
                  });
                })
                next.leader)

    pub data Sends (w : World) (pending : PendingDecisionNodes) (m : Message)
        : Processed → Type 0 where
      nothing :
          {r : Processed}
          → r.0.sent ≡ w.sent
          → r.0.pool ≡ w.pool
          → SameProposal w r
          → Counted w.decision.state r.0.decision.state
          → Sends w pending m r
      proposes : {r : Processed} → Proposes w m r → Sends w pending m r
      votes : {r : Processed} → Votes w pending m r → Sends w pending m r

    -- What is kept: the view, the node and its role, and the locked certificate.
    pub record Conducts (w : World) (pending : PendingDecisionNodes) (m : Message) (r : Processed)
        : Type 0 where
      pub view : r.0.decision.view ≡ w.decision.view
      pub node_id : r.0.decision.node_id ≡ w.decision.node_id
      pub metrics : r.0.decision.metrics ≡ w.decision.metrics
      pub log : log_role r.0.decision.decision_log ≡ log_role w.decision.decision_log
      pub locked : r.0.handler.latest_locked_qc ≡ w.handler.latest_locked_qc
      pub sends : Sends w pending m r

    pub Conducts-IsConsistent :
        (w : World) (pending : PendingDecisionNodes) (m : Message) (r : Processed)
        → Conducts w pending m r
        → IsConsistent w.decision
        → IsConsistent r.0.decision
    unfolding is_leader
    Conducts-IsConsistent w pending m r c h =
        let leads : is_leader r.0.decision ≡ is_leader w.decision =
          rw (is_leader, c.view, c.node_id) refl in
        let leads_next : same_node r.0.decision.node_id h.next.leader
            ≡ same_node w.decision.node_id h.next.leader =
          ap (λ n. same_node n h.next.leader) c.node_id in
        record {
          well = rw c.view h.well;
          next = h.next;
          is_next = rw c.view h.is_next;
          metrics = c.metrics ∙ h.metrics ∙ rw (leads, leads_next) refl;
          log = c.log ∙ h.log ∙ sym c.metrics;
          single = λ k. leads_next ∙ h.single (sym leads ∙ k);
        }
