-- ===== src/HotIron/Decision/Totality.antt =====
-- That a decision (src/hot_iron/protocol/decision/mod.rs) never panics, and what no message changes.
use hot_iron_oxide.Base.{
  ◌≡◌, refl, ◌∙◌, sym, ℕ, ◌+◌, Bool, true, Ends, Returns, Ends-Returns, arith,
}
use hot_iron_oxide.Atlas.{Atlas}
use hot_iron_oxide.Tree.{DecisionNode, install_latest_prepare_qc}
use hot_iron_oxide.HotIron.Messages.{Qc, VoteMessage, ProposalType, proposal_types, VoteEncoding}
use hot_iron_oxide.HotIron.Queue.{DecisionState, Message}
use hot_iron_oxide.HotIron.Log.{MsgLeaderDecisionLog}
use hot_iron_oxide.HotIron.Decision.{World, Processed, is_leader, queue}
use hot_iron_oxide.HotIron.Decision.Leader.{announce, logged}
use hot_iron_oxide.HotIron.Decision.Replica.{prepare_node, later_phase, replica_phase}
use hot_iron_oxide.HotIron.Decision.Dispatch.{process_message}
use hot_iron_oxide.HotIron.Decision.Phases.{AwaitsProposal}
use hot_iron_oxide.HotIron.Decision.Consistency.{keeps_votes, IsConsistent}
use hot_iron_oxide.HotIron.Decision.Rules.{
  propose_rule, replica_phase_rule, Proposing, process_rule,
}

module _ ⦃atlas : Atlas⦄ where
  -- What processing a message leaves as it was.
  pub record Stable (w : World) (r : Processed) : Type 0 where
    pub view : r.0.decision.view ≡ w.decision.view
    pub node_id : r.0.decision.node_id ≡ w.decision.node_id
    pub metric : r.0.decision.consensus_metric ≡ w.decision.consensus_metric
    pub log : keeps_votes r.0.decision.msg_decision_log ≡ keeps_votes w.decision.msg_decision_log
    pub latest_qc : r.0.handler.latest_qc ≡ w.handler.latest_qc
    pub latest_locked_qc : r.0.handler.latest_locked_qc ≡ w.handler.latest_locked_qc

  pub Stable-IsConsistent :
      (w : World) (r : Processed) → Stable w r → IsConsistent w.decision → IsConsistent r.0.decision
  unfolding is_leader
  Stable-IsConsistent w r s c =
      let leads : is_leader r.0.decision ≡ is_leader w.decision = rw (s.view, s.node_id) refl in
      record {
        occupied = rw s.view c.occupied;
        metric = λ h. s.metric ∙ c.metric (sym leads ∙ h);
        log = λ h. s.log ∙ c.log (sym leads ∙ h);
      }

  of_logged :
      (w : World) (sent : Bool) (received : ℕ) (log : MsgLeaderDecisionLog)
      → keeps_votes w.decision.msg_decision_log ≡ true
      → (r : Processed) → Stable (logged w sent received log) r
      → Stable w r
  of_logged w sent received log h r s = record {
    view = s.view;
    node_id = s.node_id;
    metric = s.metric;
    log = s.log ∙ sym h;
    latest_qc = s.latest_qc;
    latest_locked_qc = s.latest_locked_qc;
  }

  proposing-Stable :
      (w : World) (m : Message) (v : VoteMessage)
      → keeps_votes w.decision.msg_decision_log ≡ true
      → Proposing (Stable w) w m v
  unfolding announce
  proposing-Stable w m v h n q log c e l =
      propose_rule (Stable w) (logged w true (n + 1) log) m log (λ pool e'. ground arith)
        v.vote_type (λ pool pt _. ground arith)

  module _ ⦃encoding : VoteEncoding⦄ where
    prepare_node-Stable :
        (w : World) (m : Message) (node : DecisionNode) (qc : Qc)
        → Stable w (prepare_node w m node qc)
    unfolding prepare_node install_latest_prepare_qc
    prepare_node-Stable w m node qc = ground arith

    replica_phase-Stable :
        (w : World) (m : Message) (s : DecisionState) (pt : ProposalType)
        → AwaitsProposal s (proposal_types pt)
        → Ends (Stable w) (replica_phase s w m pt)
    unfolding later_phase
    replica_phase-Stable w m s pt a =
        replica_phase_rule (λ _. Ends (Stable w)) w m
          (λ b n node qc. prepare_node-Stable w m node qc) (λ b n qc. ground arith)
          (λ b n qc. ground arith) (λ b n qc. ground arith) s (proposal_types pt) pt a refl

    pub process_message-Ends :
        (w : World) (m : Message) → IsConsistent w.decision → Ends (Stable w) (process_message w m)
    unfolding queue
    process_message-Ends w m c =
        process_rule (Stable w) w m c (ground arith) (ground arith) (λ v l sent n e k. ground arith)
          (λ v l sent n log k _. of_logged w sent (n + 1) log (c.log l) _ (ground arith))
          (λ v l _ _. proposing-Stable w m v (c.log l))
          (λ p e f a. replica_phase-Stable w m w.decision.current_state p.proposal_type a)

    -- Processing a message never panics, whatever the message, if the decision is consistent: each
    -- `unreachable!` is unreachable. It keeps the view, the node, the roles of the log and of the
    -- metrics, and the certificates that the protocol calls the latest and the locked one.
    pub process_message-Stable :
        (w : World) (m : Message)
        → IsConsistent w.decision
        → Returns (process_message w m) (Stable w)
    process_message-Stable w m c = Ends-Returns _ (process_message-Ends w m c)

    -- What is processed leaves a consistent decision consistent.
    pub process_message-IsConsistent :
        (w : World) (m : Message)
        → IsConsistent w.decision
        → Returns (process_message w m) (λ r. IsConsistent r.0.decision)
    process_message-IsConsistent w m c =
        let (r, e, s) = process_message-Stable w m c in (r, e, Stable-IsConsistent w r s c)
