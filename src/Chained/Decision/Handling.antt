-- ===== src/Chained/Decision/Handling.antt =====
-- The processing of a message by a decision of the chain: `process_message` and the methods of the
-- leader, of the next leader and of a replica, of src/chained/protocol/decision/mod.rs.
use hot_iron_oxide.Base.{
  ℕ, ◌+◌, Bool, true, false, not, ◌&&◌, Option, none, some, List, ite, Run, ok, panic, unreachable,
  ◌>>=◌, leb, push_back, if◌then◌else◌,
}
use hot_iron_oxide.Atlas.{Atlas}
use hot_iron_oxide.View.{View, next_view, quorum}
use hot_iron_oxide.Tree.{DecisionNodeHeader, DecisionHandler, safe_node, install_latest_prepare_qc}
use hot_iron_oxide.Requests.{Pool, take_pool_requests}
use hot_iron_oxide.HotIron.Log.{Result, done, failed}
use hot_iron_oxide.Chained.Messages.{
  ChainedQc, chained_certificate, ChainedDecisionNode, create_chained_root, create_chained_leaf,
  VoteDetails, IronChainMessage, Message, ChainEncoding, sign_vote, Outgoing, proposal, vote,
  new_view,
}
use hot_iron_oxide.Chained.Tree.{PendingDecisionNodes, header_of, is_extension_of_known_node}
use hot_iron_oxide.Chained.Log.{
  DecisionLog, NewViewStore, VoteStore, NewViewGenerateError, as_mut_leader, as_mut_next_leader,
  accept_new_view, get_high_qc, accept_vote, get_high_justify_qc, get_quorum_qc, is_proposed,
  set_proposed, justify_seq,
}
use hot_iron_oxide.Chained.Decision.{
  ChainedDecision, ChainedDecisionState, ChainedDecisionResult, as_leader_decision,
  as_next_leader_decision, is_leader, is_next_leader, queue, proposal_generated, vote_generated,
  message_ignored, message_queued, message_processed, next_leader_messages,
}

module _ ⦃atlas : Atlas⦄ where
  open atlas use {SeqNo, seq_discrete, seq_le, NodeId}

  -- The decision with what its methods write besides: the certificates, the pool of requests, and
  -- what is handed to the network.
  pub record World : Type 0 where
    pub decision : ChainedDecision
    pub handler : DecisionHandler ChainedQc
    pub pool : Pool
    pub sent : List Outgoing

  abbrev pub Processed : Type 0
  Processed = World × Result NewViewGenerateError ChainedDecisionResult

  abbrev pub in_state : World → ChainedDecisionState → World
  in_state w state = record w { decision = record w.decision { state = state } }

  abbrev pub with_log : World → DecisionLog → World
  with_log w log = record w { decision = record w.decision { decision_log = log } }

  abbrev pub transmit : World → Outgoing → World
  transmit w message = record w { sent = push_back w.sent message }

  -- The guard of the arms: the message has the number of the decision.
  abbrev pub is_of_view : World → Message → Bool
  is_of_view w message = ite (seq_discrete message.message.seq_no w.decision.view.seq) true false

  abbrev pub ignore : World → Run Processed
  ignore w = ok (w, done message_ignored)

  unfoldable pub decision_node_for : View → Pool → Option ChainedQc → ChainedDecisionNode
  decision_node_for view pool none = create_chained_root view pool.digest pool.requests
  decision_node_for view pool (some qc) =
      create_chained_leaf view.seq qc.decision_node pool.digest pool.requests qc

  unfoldable pub generate_and_send_proposal : World → Option ChainedQc → World × DecisionNodeHeader
  unfolding decision_node_for
  generate_and_send_proposal w previous_high_qc =
      let view = w.decision.view in
      let (taken, rest) = take_pool_requests w.pool in
      let decision_node = decision_node_for view taken previous_high_qc in
      let message : IronChainMessage = record {
        seq_no = view.seq;
        message = proposal (record { proposal = decision_node });
      } in
      (
        transmit (record w { pool = rest }) (Outgoing.broadcast_signed message view.members),
        header_of decision_node,
      )

  unfoldable pub handle_previous_node_completed_leader :
      World → ChainedQc → World × DecisionNodeHeader
  unfolding generate_and_send_proposal
  handle_previous_node_completed_leader w previous_high_qc =
      generate_and_send_proposal w (some previous_high_qc)

  -- The leader has a quorum of votes for the new view: it proposes on the highest certificate.
  unfoldable pub propose : World → Message → NewViewStore → ℕ → Run Processed
  unfolding generate_and_send_proposal
  propose w message log received = elim (get_high_qc log) [
    | failed error ↦ ok (w, failed (NewViewGenerateError.failed_to_generate_new_view_qc error))
    | done result ↦
        let (w', header) =
          generate_and_send_proposal (in_state w (ChainedDecisionState.prepare received true))
            result.high_qc in
        ok (w', done (proposal_generated header message))
  ]

  -- What follows a new vote for the view, which is in the log.
  unfoldable pub count_new_view : World → Message → NewViewStore → Run Processed
  unfolding propose
  count_new_view w message log = elim w.decision.state [
    | ChainedDecisionState.prepare received proposed ↦ do
      _ ← as_leader_decision w.decision.metrics
      needed ← quorum w.decision.view
      (let counted = in_state w (ChainedDecisionState.prepare (received + 1) proposed) in
          if leb needed (received + 1) && not proposed
          then propose counted message log (received + 1)
          else ok (counted, done (message_processed message)))
    | _ ↦ ok (record w { decision = queue w.decision message }, done message_queued)
  ]

  unfoldable pub process_message_leader : World → Message → Run Processed
  unfolding count_new_view
  process_message_leader w message = elim message.message.message [
    | new_view m ↦
        if is_of_view w message
        then (do
          log ← as_mut_leader w.decision.decision_log
          (let (accepted, log') = accept_new_view log message.from m in
              if accepted
              then count_new_view (with_log w (DecisionLog.leader log')) message log'
              else ignore (with_log w (DecisionLog.leader log'))))
        else ignore w
    | _ ↦ ignore w
  ]

  -- Once the certificate is made, a higher one among those that the votes carry is installed.
  unfoldable pub install_high_justify :
      VoteStore → DecisionHandler ChainedQc → DecisionHandler ChainedQc
  install_high_justify store handler = elim (get_high_justify_qc store) [
    | none ↦ handler
    | some details ↦ elim handler.latest_locked_qc [
      | none ↦ handler
      | some latest_locked_qc ↦
          if seq_le (justify_seq details) latest_locked_qc.seq_no
          then handler
          else elim details.justify [
            | none ↦ handler
            | some justify ↦ install_latest_prepare_qc handler justify
          ]
    ]
  ]

  unfoldable pub complete_node : World → Message → VoteStore → Run Processed
  unfolding install_high_justify
  complete_node w message store = get_quorum_qc store w.decision.view >>= λ result. elim result [
    | failed error ↦ ok (w, failed (NewViewGenerateError.failed_to_generate_qc error))
    | done qc ↦ ok (
      record w { handler = install_high_justify store (install_latest_prepare_qc w.handler qc) },
      done (next_leader_messages message qc),
    )
  ]

  -- What follows a new vote for a node, which is in the log; so many nodes gave the same vote.
  unfoldable pub count_vote : World → Message → VoteStore → ℕ → Run Processed
  unfolding complete_node
  count_vote w message log vote_count = do
    needed ← quorum w.decision.view
    if leb needed vote_count && not (is_proposed log)
        then complete_node (with_log w (DecisionLog.next_leader (set_proposed log true))) message
            (set_proposed log true)
        else ok (w, done (message_processed message))

  unfoldable pub process_message_next_leader : World → Message → Run Processed
  unfolding count_vote
  process_message_next_leader w message = elim message.message.message [
    | vote m ↦ is_next_leader w.decision >>= λ leads.
        if is_of_view w message && leads
        then (do
          log ← as_mut_next_leader w.decision.decision_log
          (let (accepted, log') = accept_vote log message.from m in
              let w' = with_log w (DecisionLog.next_leader log') in
              elim accepted [
                | none ↦ ignore w'
                | some votes ↦ do
                  _ ← as_next_leader_decision w.decision.metrics
                  count_vote w' message log' votes
              ]))
        else panic unreachable
    | _ ↦ panic unreachable
  ]

  module _ ⦃encoding : ChainEncoding⦄ where
    -- The vote that a thread of the pool signs and sends to the leader of the next view.
    unfoldable pub send_vote : World → ChainedDecisionNode → Run Outgoing
    send_vote w node = do
      next ← next_view w.decision.view
      (let details : VoteDetails = record { node = header_of node; justify = node.justify } in
          let seq = w.decision.view.seq in
          ok (
            Outgoing.send
              (record {
                seq_no = seq;
                message =
                    vote (record { vote_details = details; signature = sign_vote seq details });
              })
              next.leader))

    -- A proposal that was found to be safe, or that carries no certificate.
    unfoldable pub accept_proposal :
        World → Message → ChainedDecisionNode → Option ChainedQc → Run Processed
    unfolding send_vote
    accept_proposal w message node decision_qc = do
      sent ← send_vote w node
      (let decision = record (w.decision) {
        decision_qc = decision_qc;
        decision_node_digest = some (header_of node).current_block_digest;
      } in
          ok (transmit (record w { decision = decision }) sent, done (vote_generated node message)))

    unfoldable pub process_message_replica : World → PendingDecisionNodes → Message → Run Processed
    unfolding accept_proposal
    process_message_replica w pending message = elim message.message.message [
      | proposal m ↦
          if is_of_view w message
          then elim m.proposal.justify [
            | none ↦ accept_proposal w message m.proposal w.decision.decision_qc
            | some qc ↦
                if safe_node chained_certificate (is_extension_of_known_node pending) w.handler
                  m.proposal.node qc
                then accept_proposal w message m.proposal (some qc)
                else ignore w
          ]
          else ignore w
      | _ ↦ ignore w
    ]

    -- The arms of `process_message`: by role, and by the kind of the message.
    unfoldable pub process_message : World → PendingDecisionNodes → Message → Run Processed
    unfolding process_message_leader process_message_next_leader process_message_replica
    process_message w pending message = elim message.message.message [
      | new_view _ ↦
          if is_leader w.decision
          then process_message_leader w message
          else (do _ ← is_next_leader w.decision; process_message_replica w pending message)
      | vote _ ↦ is_next_leader w.decision >>= λ leads.
          if leads
          then process_message_next_leader w message
          else process_message_replica w pending message
      | proposal _ ↦ do _ ← is_next_leader w.decision; process_message_replica w pending message
    ]
