-- ===== src/Chained/Decision/Totality.antt =====
-- That a decision of src/chained/protocol/decision/mod.rs returns from every message of its view, and
-- what it does.
use hot_iron_oxide.Base.{
  ◌≡◌, refl, sym, ◌∙◌, ap, subst, inl, inr, true, Option, some, ok, arith, Returns, Ends, Ends-bind,
  Ends-mono, Ends-Returns, if_rule, option_rule, Bool-cases, some_injective,
}
use hot_iron_oxide.Atlas.{Atlas}
use hot_iron_oxide.Tree.{safe_node}
use hot_iron_oxide.Chained.Messages.{
  ChainedQc, chained_certificate, ChainedDecisionNode, Message, ChainEncoding, proposal,
}
use hot_iron_oxide.Chained.Tree.{PendingDecisionNodes, is_extension_of_known_node}
use hot_iron_oxide.Chained.Decision.{ConsensusMetricType, is_leader, is_next_leader, same_node}
use hot_iron_oxide.Chained.Decision.Handling.{
  World, is_of_view, send_vote, accept_proposal, process_message_replica, process_message,
}
use hot_iron_oxide.Chained.Decision.Conduct.{
  role_of, log_role, IsConsistent, Sends, carried, Conducts, Conducts-IsConsistent,
}
use hot_iron_oxide.Chained.Decision.Leading.{
  ignored, process_message_leader-Conducts, process_message_next_leader-Conducts,
}
use hot_iron_oxide.Chained.Decision.Roles.{kind_rule}

module _ ⦃atlas : Atlas⦄ ⦃encoding : ChainEncoding⦄ where
  module _ (w : World) (pending : PendingDecisionNodes) (m : Message)
      (h : IsConsistent w.decision) where
    accept_proposal-Conducts :
        (node : ChainedDecisionNode) (qc : Option ChainedQc)
        → m.message.message ≡ proposal (record { proposal = node })
        → m.message.seq_no ≡ w.decision.view.seq
        → ((qc : ChainedQc)
            → node.justify ≡ some qc
            → safe_node chained_certificate
                (is_extension_of_known_node pending)
                w.handler
                node.node
                qc
              ≡ true)
        → qc ≡ carried node w.decision.decision_qc
        → Ends (Conducts w pending m) (accept_proposal w m node qc)
    unfolding accept_proposal send_vote
    accept_proposal-Conducts node qc is_proposal of_view safe keeps =
        simp (accept_proposal, send_vote, h.is_next)
          (record {
            view = refl;
            node_id = refl;
            metrics = refl;
            log = refl;
            locked = refl;
            sends = Sends.votes (record {
              node = node;
              next = h.next;
              is_proposal = is_proposal;
              of_view = of_view;
              safe = safe;
              is_next = h.is_next;
              digest = refl;
              qc = keeps;
              state = refl;
              pool = refl;
              answer = refl;
              sent = refl;
            });
          })

    is_of_view-true : is_of_view w m ≡ true → m.message.seq_no ≡ w.decision.view.seq
    is_of_view-true e = ground arith

    process_message_replica-Conducts :
        Ends (Conducts w pending m) (process_message_replica w pending m)
    unfolding process_message_replica
    process_message_replica-Conducts =
        kind_rule (Ends (Conducts w pending m)) m.message.message
          (λ p is_proposal.
            if_rule (Ends (Conducts w pending m)) (is_of_view w m)
              (λ of_view.
                option_rule (Ends (Conducts w pending m)) p.proposal.justify
                  (λ none_given.
                    accept_proposal-Conducts p.proposal w.decision.decision_qc is_proposal
                      (is_of_view-true of_view) (λ qc e. cc) (rw none_given refl))
                  λ qc given.
                    if_rule (Ends (Conducts w pending m))
                      (safe_node chained_certificate (is_extension_of_known_node pending) w.handler
                        p.proposal.node qc)
                      (λ safe.
                        accept_proposal-Conducts p.proposal (some qc) is_proposal
                          (is_of_view-true of_view)
                          (λ q e.
                            subst
                              (λ c.
                                safe_node chained_certificate (is_extension_of_known_node pending)
                                  w.handler p.proposal.node c
                                ≡ true)
                              (some_injective (sym given ∙ e)) safe)
                          (rw given refl))
                      (λ _. ignored w pending m))
              (λ _. ignored w pending m))
          (λ _ _. ignored w pending m) (λ _. ignored w pending m)

    is_next_leader-Ends :
        Ends
          (λ b.
            (is_next_leader w.decision ≡ ok b) × (b ≡ same_node w.decision.node_id h.next.leader))
          (is_next_leader w.decision)
    unfolding is_next_leader
    is_next_leader-Ends = simp (is_next_leader, h.is_next) (refl, refl)

    leader_log :
        is_leader w.decision ≡ true → log_role w.decision.decision_log ≡ ConsensusMetricType.leader
    leader_log leads =
        h.log ∙ h.metrics ∙ ap (λ b. role_of b (same_node w.decision.node_id h.next.leader)) leads

    next_leader_log :
        same_node w.decision.node_id h.next.leader ≡ true
        → log_role w.decision.decision_log ≡ ConsensusMetricType.next_leader
    next_leader_log next = elim (Bool-cases (is_leader w.decision)) [
      | inl leads ↦ absurd (ground (arith, h.single leads))
      | inr follows ↦ h.log ∙ h.metrics ∙ rw (follows, next) refl
    ]

    -- A decision whose log and metrics are those of its node's role, in a well-formed view, where no
    -- node leads both the view and the next, returns from each message of its view. It stays such a
    -- decision of the same view, and the locked certificate stays. It sends nothing, and then its
    -- state stays or counts one more message for the new view, and neither the digest and the
    -- certificate of its proposal nor the pool of requests change; or the leader sends its one
    -- proposal, with a quorum of new view messages counted, of a node with the requests of the pool
    -- on the highest certificate of those messages; or it sends its signed vote for the node of a
    -- proposal that carries no certificate or is safe, to the leader of the next view, and keeps the
    -- digest of the node and the certificate.
    pub process_message-Conducts :
        m.message.seq_no ≡ w.decision.view.seq
        → Returns
            (process_message w pending m)
            λ r. Conducts w pending m r × IsConsistent r.0.decision
    unfolding process_message
    process_message-Conducts of_view =
        let P = Ends (Conducts w pending m) in
        let in_view : is_of_view w m ≡ true = ground arith in
        let other =
          Ends-bind _ (Conducts w pending m) (is_next_leader w.decision)
            (λ _. process_message_replica w pending m) is_next_leader-Ends
            λ _ _. process_message_replica-Conducts in
        let ends =
          kind_rule P m.message.message (λ _ _. other)
            (λ v is_vote.
              Ends-bind _ (Conducts w pending m) (is_next_leader w.decision) _ is_next_leader-Ends
                λ leads (runs, same).
                  if_rule P leads
                    (λ e.
                      process_message_next_leader-Conducts w pending m h v is_vote in_view
                        (runs ∙ ap ok e) (next_leader_log (sym same ∙ e)))
                    (λ _. process_message_replica-Conducts))
            (λ _.
              if_rule P (is_leader w.decision)
                (λ leads. process_message_leader-Conducts w pending m h leads (leader_log leads))
                (λ _. other)) in
        Ends-Returns (process_message w pending m) (
          Ends-mono (process_message w pending m)
            (λ r c. (c, Conducts-IsConsistent w pending m r c h)) ends)
