-- ===== src/Chained/Protocol/Reception.antt =====
-- What the protocol of src/chained/protocol/mod.rs does with a message for one of its decisions.
use hot_iron_oxide.Base.{
  ℕ, ◌<◌, ◌≡◌, refl, ◌∙◌, ap, some, ok, arith, length, get_elem?, get_elem?-lt, option_rule,
}
use hot_iron_oxide.Atlas.{Atlas}
use hot_iron_oxide.Tree.{DecisionHandler}
use hot_iron_oxide.HotIron.Log.{Result, done, failed}
use hot_iron_oxide.Chained.Messages.{ChainedQc, ChainedDecisionNode, Message, ChainEncoding}
use hot_iron_oxide.Chained.Tree.{insert_node}
use hot_iron_oxide.Chained.Decision.{
  ChainedDecision, ChainedDecisionResult, vote_generated, proposal_generated, message_ignored,
  message_processed, next_leader_messages,
}
use hot_iron_oxide.Chained.Decision.Conduct.{IsConsistent, Conducts}
use hot_iron_oxide.Chained.Log.{NewViewGenerateError}
use hot_iron_oxide.Chained.Decision
use hot_iron_oxide.Chained.Decision.Handling.{
  World, handle_previous_node_completed_leader, generate_and_send_proposal,
}
use hot_iron_oxide.Chained.Decision.Totality.{process_message-Conducts}
use hot_iron_oxide.Chained.Protocol
use hot_iron_oxide.Chained.Protocol.{
  ChainedHotStuffProtocol, IronChainDecision, Finalized, finalize,
}
use hot_iron_oxide.Chained.Protocol.Handling.{
  IronChainProcessError, IronChainResult, handle_vote_generated, propose_next, after_processing,
  of_world, world_of, process_message, signal,
}
use hot_iron_oxide.Chained.Protocol.Alike.{
  Alike-refl, Alike-set, Alike-IsPipeline, get_decision-there,
}
use hot_iron_oxide.Chained.Protocol.Pipeline.{IsPipeline}
use hot_iron_oxide.Chained.Protocol.Voting.{Settles, chain_new_node-Settles}

module _ ⦃atlas : Atlas⦄ where
  open atlas use {SeqNo}

  module _ (Voted : ChainedDecisionNode → Type 0) (p : ChainedHotStuffProtocol)
      (handler : DecisionHandler ChainedQc) (i : ℕ) (q : ChainedHotStuffProtocol)
      (handler' : DecisionHandler ChainedQc) (pipeline : IsPipeline q)
      (same_pending : q.pending_nodes ≡ p.pending_nodes) (view : q.curr_view ≡ p.curr_view)
      (locked : handler'.latest_locked_qc ≡ handler.latest_locked_qc)
      (inside : i < length q.decision_list) where
    signal-IsPipeline : (seq : SeqNo) → IsPipeline (signal q seq)
    signal-IsPipeline seq =
        Alike-IsPipeline q (signal q seq) pipeline refl refl (Alike-refl q.decision_list)

    handle_vote_generated-Settles :
        (node : ChainedDecisionNode) (m : Message)
        → Voted node
        → Settles Voted p handler i (handle_vote_generated q handler' i node m)
    unfolding handle_vote_generated
    handle_vote_generated-Settles node m v =
        let nodes = insert_node q.pending_nodes node in
        let q' = record q { pending_nodes = nodes } in
        option_rule (Settles Voted p handler i) (get_elem? q.decision_list i)
          (λ _. Settles.quiet pipeline view locked)
          (λ d _.
            chain_new_node-Settles Voted p handler i q' handler'
              (Alike-IsPipeline q q' pipeline refl refl (Alike-refl q.decision_list)) node _ v
              inside (ap (λ n. insert_node n node) same_pending))

    propose_next-Settles :
        (seq : SeqNo) (qc : ChainedQc) (result : Result IronChainProcessError IronChainResult)
        → Settles Voted p handler i
            (ok (some (propose_next (signal q seq) handler' seq qc, handler', result)))
    unfolding propose_next handle_previous_node_completed_leader
    propose_next-Settles seq qc result =
        option_rule (λ q'. Settles Voted p handler i (ok (some (q', handler', result))))
          (Protocol.get_decision (signal q seq) seq)
          (λ _. Settles.quiet (signal-IsPipeline seq) view locked)
          (λ (j, d) e.
            Settles.quiet
              (Alike-IsPipeline (signal q seq) _ (signal-IsPipeline seq) refl refl (
                Alike-set q.decision_list j d _ (get_decision-there (signal q seq) seq j d e).1 refl
                  refl))
              view locked)

    after_processing-Settles :
        (seq : SeqNo) (result : ChainedDecisionResult)
        → ((node : ChainedDecisionNode) (m : Message) → result ≡ vote_generated node m → Voted node)
        → Settles Voted p handler i (after_processing q handler' i seq result)
    unfolding after_processing
    after_processing-Settles seq (vote_generated node m) v =
        handle_vote_generated-Settles node m (v node m refl)
    after_processing-Settles seq (proposal_generated header m) v =
        Settles.quiet pipeline view locked
    after_processing-Settles seq ChainedDecisionResult.message_queued v =
        Settles.quiet (signal-IsPipeline seq) view locked
    after_processing-Settles seq (message_processed m) v =
        Settles.quiet (signal-IsPipeline seq) view locked
    after_processing-Settles seq message_ignored v = Settles.quiet pipeline view locked
    after_processing-Settles seq (next_leader_messages m qc) v =
        propose_next-Settles (atlas.next seq) qc _

  module _ ⦃encoding : ChainEncoding⦄ (p : ChainedHotStuffProtocol)
      (handler : DecisionHandler ChainedQc) (message : Message) (i : ℕ) (d : ChainedDecision) where
    -- The decision answers the message with a vote for the node.
    abbrev pub Votes : ChainedDecisionNode → Type 0
    Votes node =
        (w : World) × (m : Message) × (Decision.Handling.process_message (world_of p handler d)
            p.pending_nodes message
          ≡ ok (w, done (vote_generated node m)))

    -- In a pipeline of well-formed views, a message for one of the decisions, whose log and metrics
    -- are those of its node's role, is handled without a panic and leaves such a pipeline; and
    -- unless the decision votes, the current view and the locked certificate stay. There is a panic
    -- only after the decision votes for a node that has a certificate or a previous block, and only
    -- if there are fewer than three decisions before it, or some pending node is not linked (a root
    -- without a certificate, or with a certificate for its parent).
    pub process_message-Settles :
        IsPipeline p
        → Protocol.get_decision p message.message.seq_no ≡ some (i, d)
        → message.message.seq_no ≡ d.view.seq
        → IsConsistent d
        → Settles Votes p handler i (process_message p handler message)
    unfolding process_message Protocol.get_decision
    process_message-Settles h found of_view consistent =
        let (index, there) = get_decision-there p message.message.seq_no i d found in
        let (r, run, (conducts, _)) =
          process_message-Conducts (world_of p handler d) p.pending_nodes message consistent
            of_view in
        rw (process_message, index, there, run) (by_result there r run conducts)
      where
        by_result :
            get_elem? p.decision_list i ≡ some d
            → (r : Decision.Handling.Processed)
            → Decision.Handling.process_message (world_of p handler d) p.pending_nodes message
              ≡ ok r
            → Conducts (world_of p handler d) p.pending_nodes message r
            → Settles Votes p handler i (elim r.1 [
              | failed error ↦ ok (
                  some (
                    of_world p i r.0,
                    r.0.handler,
                    failed (IronChainProcessError.new_view_error error),
                  ))
              | done result ↦ after_processing (of_world p i r.0) r.0.handler i d.view.seq result
            ])
        by_result there (w, result) run conducts =
            let alike =
              Alike-set p.decision_list i d w.decision there conducts.view conducts.node_id in
            let q = of_world p i w in
            let k = Alike-IsPipeline p q h refl refl alike in answered result refl k
          where
            answered :
                (result' : Result NewViewGenerateError ChainedDecisionResult)
                → result ≡ result'
                → IsPipeline (of_world p i w)
                → Settles Votes p handler i (elim result' [
                  | failed error ↦ ok (
                      some (
                        of_world p i w,
                        w.handler,
                        failed (IronChainProcessError.new_view_error error),
                      ))
                  | done result ↦ after_processing (of_world p i w) w.handler i d.view.seq result
                ])
            answered (failed error) is k = Settles.quiet k refl conducts.locked
            answered (done answer) is k =
                let inside : i < length (of_world p i w).decision_list =
                  omega (arith, h.full, k.full, get_elem?-lt p.decision_list i d there) in
                after_processing-Settles Votes p handler i (of_world p i w) w.handler k refl refl
                  conducts.locked inside d.view.seq answer
                  λ node m e. (w, m, run ∙ ap (λ a. ok (w, a)) (is ∙ ap done e))
