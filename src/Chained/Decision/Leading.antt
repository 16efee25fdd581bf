-- ===== src/Chained/Decision/Leading.antt =====
-- That the leader and the next leader of src/chained/protocol/decision/mod.rs process their messages
-- as they may.
use hot_iron_oxide.Base.{
  ℕ, ◌+◌, ◌≡◌, refl, sym, ◌∙◌, ap, subst, Bool, true, not, ◌&&◌, ok, arith, leb, Ends, Ends-bind,
  if_rule, option_rule,
}
use hot_iron_oxide.Atlas.{Atlas}
use hot_iron_oxide.View.{quorum}
use hot_iron_oxide.Tree.{DecisionHandler, install_latest_prepare_qc}
use hot_iron_oxide.Requests.{take_pool_requests}
use hot_iron_oxide.HotIron.Log.{Result}
use hot_iron_oxide.Chained.Messages.{ChainedQc, Message, VoteMessage, ChainEncoding, vote}
use hot_iron_oxide.Chained.Tree.{PendingDecisionNodes}
use hot_iron_oxide.Chained.Log.{
  DecisionLog, NewViewGenerateError, NewViewStore, VoteStore, accept_new_view, accept_vote,
  get_high_qc, set_proposed, is_proposed,
}
use hot_iron_oxide.Chained.Queue.{ChainedHotStuffMsgQueue}
use hot_iron_oxide.Chained.Decision.{
  ChainedDecisionState, ConsensusMetricType, ChainedDecisionResult, is_leader, is_next_leader,
  queue,
}
use hot_iron_oxide.Chained.Decision.Handling.{
  World, is_of_view, with_log, ignore, decision_node_for, generate_and_send_proposal, propose,
  count_new_view, process_message_leader, complete_node, count_vote, process_message_next_leader,
}
use hot_iron_oxide.Chained.Decision.Conduct.{log_role, IsConsistent, Counted, Sends, Conducts}
use hot_iron_oxide.Chained.Decision.Roles.{
  prepare_rule, result_rule, kind_rule, decision_node_for-justify, decision_node_for-commands,
  as_mut_leader-Ends, as_mut_next_leader-Ends, install_high_justify-locked, quorum-Ends,
  get_quorum_qc-Ends, as_leader-Ends, as_next_leader-Ends,
}

module _ ⦃atlas : Atlas⦄ where
  open atlas use {SeqNo, seq_le, NodeId, seq_discrete, digest_discrete, prev}

  module _ ⦃encoding : ChainEncoding⦄ (w : World) (pending : PendingDecisionNodes)
      (m : Message) where
    -- The log, the state and the queue may change, and the certificates but for the locked one.
    pub written :
        (log : DecisionLog) (state : ChainedDecisionState) (q : ChainedHotStuffMsgQueue)
        (handler : DecisionHandler ChainedQc)
        (result : Result NewViewGenerateError ChainedDecisionResult)
        → log_role log ≡ log_role w.decision.decision_log
        → handler.latest_locked_qc ≡ w.handler.latest_locked_qc
        → Counted w.decision.state state
        → Conducts w pending m (
          record w {
            decision = record (w.decision) { decision_log = log; state = state; msg_queue = q };
            handler = handler;
          },
          result,
        )
    written log state q handler result role same counted = record {
      view = refl;
      node_id = refl;
      metrics = refl;
      log = role;
      locked = same;
      sends = Sends.nothing refl refl (record { digest = refl; qc = refl }) counted;
    }

    pub ignored : Ends (Conducts w pending m) (ignore w)
    ignored = written _ _ _ _ _ refl refl Counted.same

    module _ (h : IsConsistent w.decision) where
      count_new_view-Conducts :
          (log : NewViewStore)
          → is_leader w.decision ≡ true
          → log_role w.decision.decision_log ≡ ConsensusMetricType.leader
          → Ends (Conducts w pending m) (count_new_view (with_log w (DecisionLog.leader log)) m log)
      unfolding count_new_view propose generate_and_send_proposal queue take_pool_requests
      count_new_view-Conducts log leads is_log =
          prepare_rule (Ends (Conducts w pending m)) w.decision.state
            (λ received proposed at.
              Ends-bind (λ _. Unit {0}) (Conducts w pending m) _ _
                (as_leader-Ends (sym h.log ∙ is_log))
                λ _ _.
                  Ends-bind (λ q. quorum w.decision.view ≡ ok q) (Conducts w pending m) _ _
                    (quorum-Ends w.decision.view h.well)
                    λ needed is_quorum.
                      if_rule (Ends (Conducts w pending m))
                        (leb needed (received + 1) && not proposed)
                        (λ enough.
                          result_rule (Ends (Conducts w pending m)) (get_high_qc log)
                            (λ error.
                              written _ _ _ _ _ (sym is_log) refl (one_more received proposed at))
                            (λ high is_high. record {
                              view = refl;
                              node_id = refl;
                              metrics = refl;
                              log = sym is_log;
                              locked = refl;
                              sends = Sends.proposes (record {
                                received = received;
                                needed = needed;
                                node = decision_node_for w.decision.view w.pool high.high_qc;
                                log = log;
                                high = high;
                                leads = leads;
                                state =
                                    at ∙ ap (ChainedDecisionState.prepare received) (ground arith);
                                is_quorum = is_quorum;
                                enough = ground arith;
                                state_after = refl;
                                logged = refl;
                                highest = is_high;
                                justify =
                                    decision_node_for-justify w.decision.view w.pool high.high_qc;
                                commands =
                                    decision_node_for-commands w.decision.view w.pool high.high_qc;
                                taken = refl;
                                proposal_kept = record { digest = refl; qc = refl };
                                answer = refl;
                                sent = refl;
                              });
                            }))
                        (λ _. written _ _ _ _ _ (sym is_log) refl (one_more received proposed at)))
            (written _ _ _ _ _ (sym is_log) refl Counted.same)
        where
          one_more :
              (received : ℕ) (proposed : Bool)
              → w.decision.state ≡ ChainedDecisionState.prepare received proposed
              → Counted w.decision.state (ChainedDecisionState.prepare (received + 1) proposed)
          one_more received proposed at =
              subst (λ s. Counted s (ChainedDecisionState.prepare (received + 1) proposed)) (sym at)
                (Counted.one_more received proposed)

      pub process_message_leader-Conducts :
          is_leader w.decision ≡ true
          → log_role w.decision.decision_log ≡ ConsensusMetricType.leader
          → Ends (Conducts w pending m) (process_message_leader w m)
      unfolding process_message_leader
      process_message_leader-Conducts leads is_log =
          kind_rule (Ends (Conducts w pending m)) m.message.message (λ _ _. ignored)
            (λ _ _. ignored)
            λ n.
              if_rule (Ends (Conducts w pending m)) (is_of_view w m)
                (λ _.
                  Ends-bind (λ _. Unit {0}) (Conducts w pending m) _ _
                    (as_mut_leader-Ends w.decision.decision_log is_log)
                    λ log _.
                      let (accepted, log') = accept_new_view log m.from n in
                      if_rule (Ends (Conducts w pending m)) accepted
                        (λ _. count_new_view-Conducts log' leads is_log)
                        (λ _. written _ _ _ _ _ (sym is_log) refl Counted.same))
                (λ _. ignored)

      count_vote-Conducts :
          (log : VoteStore) (votes : ℕ)
          → log_role w.decision.decision_log ≡ ConsensusMetricType.next_leader
          → Ends
              (Conducts w pending m)
              (count_vote (with_log w (DecisionLog.next_leader log)) m log votes)
      unfolding count_vote complete_node install_latest_prepare_qc
      count_vote-Conducts log votes is_log =
          Ends-bind (λ q. quorum w.decision.view ≡ ok q) (Conducts w pending m) _ _
            (quorum-Ends w.decision.view h.well)
            λ needed _.
              if_rule (Ends (Conducts w pending m)) (leb needed votes && not (is_proposed log))
                (λ _.
                  Ends-bind (λ _. Unit {0}) (Conducts w pending m) _ _
                    (get_quorum_qc-Ends (set_proposed log true) w.decision.view h.well)
                    λ result _.
                      result_rule (Ends (Conducts w pending m)) result
                        (λ error. written _ _ _ _ _ (sym is_log) refl Counted.same)
                        (λ qc _.
                          written _ _ _ _ _ (sym is_log)
                            (install_high_justify-locked (set_proposed log true) _) Counted.same))
                (λ _. written _ _ _ _ _ (sym is_log) refl Counted.same)

      pub process_message_next_leader-Conducts :
          (v : VoteMessage)
          → m.message.message ≡ vote v
          → is_of_view w m ≡ true
          → is_next_leader w.decision ≡ ok true
          → log_role w.decision.decision_log ≡ ConsensusMetricType.next_leader
          → Ends (Conducts w pending m) (process_message_next_leader w m)
      unfolding process_message_next_leader
      process_message_next_leader-Conducts v is_vote of_view leads is_log =
          simp (process_message_next_leader, is_vote, leads, of_view)
            (Ends-bind (λ _. Unit {0}) (Conducts w pending m) _ _
              (as_mut_next_leader-Ends w.decision.decision_log is_log)
              λ log _.
                let (accepted, log') = accept_vote log m.from v in
                option_rule (Ends (Conducts w pending m)) accepted
                  (λ _. written _ _ _ _ _ (sym is_log) refl Counted.same)
                  λ votes _.
                    Ends-bind (λ _. Unit {0}) (Conducts w pending m) _ _
                      (as_next_leader-Ends (sym h.log ∙ is_log))
                      λ _ _. count_vote-Conducts log' votes is_log)
