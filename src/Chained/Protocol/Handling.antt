-- ===== src/Chained/Protocol/Handling.antt =====
-- How the protocol of src/chained/protocol/mod.rs polls its decisions, queues the messages and hands
-- them to the decisions.
use hot_iron_oxide.Base.{
  ℕ, zero, suc, Option, none, some, List, [], ◌∷◌, ◌++◌, Run, ok, panic, todo, ◌>>=◌, length,
  get_elem?, set, ◌⊎◌, inl, inr, if◌then◌else◌,
}
use hot_iron_oxide.Atlas.{Atlas}
use hot_iron_oxide.Tree.{DecisionHandler}
use hot_iron_oxide.HotIron.Log.{Result, done, failed}
use hot_iron_oxide.HotIron.Signals.{pop_signalled, push_signalled}
use hot_iron_oxide.Chained.Messages.{ChainedQc, ChainedDecisionNode, Message, ChainEncoding}
use hot_iron_oxide.Chained.Tree.{header_of, insert_node}
use hot_iron_oxide.Chained.Log.{NewViewGenerateError}
use hot_iron_oxide.Chained.Decision
use hot_iron_oxide.Chained.Decision.{
  ChainedDecision, ChainedDecisionResult, ChainedDecisionPollResult, queue, proposal_generated,
  vote_generated, message_ignored, message_processed, next_leader_messages,
}
use hot_iron_oxide.Chained.Decision.Handling
use hot_iron_oxide.Chained.Decision.Handling.{World, handle_previous_node_completed_leader}
use hot_iron_oxide.Chained.Protocol
use hot_iron_oxide.Chained.Protocol.{
  ChainedHotStuffProtocol, IronChainDecision, FinalizeDecisionsError, Finalized, sequence_number,
  can_finalize, finalize,
}
use hot_iron_oxide.Chained.Protocol.Chain.{Chained, ChainConstructionError, node_chain}

module _ ⦃atlas : Atlas⦄ where
  open atlas use {SeqNo, next, index}

  -- `OPExecResult` and `OPPollResult`; the decisions ahead are always ignored.
  pub data IronChainResult : Type 0 where
    message_dropped message_queued message_processed_no_update : IronChainResult
    progressed_decision : List IronChainDecision → IronChainResult

  pub data IronChainPollResult : Type 0 where
    receive_msg : IronChainPollResult
    exec : Message → IronChainPollResult
    progressed_decision : List IronChainDecision → IronChainPollResult

  pub data IronChainProcessError : Type 0 where
    process_chain : ChainConstructionError → IronChainProcessError
    finalize_decisions : FinalizeDecisionsError → IronChainProcessError
    new_view_error : NewViewGenerateError → IronChainProcessError
    get_decision : ℕ → IronChainProcessError

  -- The protocol with the handler of certificates, which its owner keeps.
  abbrev pub Processed : Type 0
  Processed =
      ChainedHotStuffProtocol
      × DecisionHandler ChainedQc
      × Result IronChainProcessError IronChainResult

  abbrev pub Polled : Type 0
  Polled = ChainedHotStuffProtocol × Result FinalizeDecisionsError IronChainPollResult

  unfoldable pub queue_message : ChainedHotStuffProtocol → Message → Run ChainedHotStuffProtocol
  queue_message p message = elim (index message.message.seq_no (sequence_number p)) [
    | none ↦ ok p
    | some i ↦ elim (get_elem? p.decision_list i) [
      | none ↦ panic todo
      | some d ↦ ok (record p {
        decision_list = set p.decision_list i (queue d message);
        signals = push_signalled p.signals message.message.seq_no;
      })
    ]
  ]

  -- What follows the chain: if it is complete then nodes are decided.
  unfoldable pub conclude_chain :
      ChainedHotStuffProtocol → IronChainDecision → Chained → Run (Option Processed)
  conclude_chain p decision_information ((decisions, handler), failed links) = ok (
      some (
        record p { decision_list = decisions },
        handler,
        done (progressed_decision (decision_information ∷ [])),
      ))
  conclude_chain p decision_information ((decisions, handler), done _) =
      finalize (record p { decision_list = decisions }) >>= λ finalized. elim finalized [
        | none ↦ ok none
        | some (p', result) ↦ elim result [
          | failed error ↦ ok (some (p', handler, failed (finalize_decisions error)))
          | done decided ↦
              ok (some (p', handler, done (progressed_decision (decision_information ∷ decided))))
        ]
      ]

  -- The new node is pending; its chain may decide nodes.
  unfoldable pub chain_new_node :
      ChainedHotStuffProtocol
      → DecisionHandler ChainedQc
      → ℕ
      → ChainedDecisionNode
      → IronChainDecision
      → Run (Option Processed)
  unfolding conclude_chain
  chain_new_node p handler decision_index node decision_information =
      node_chain p.pending_nodes (header_of node) decision_index (p.decision_list, handler)
      >>= conclude_chain p decision_information

  unfoldable pub handle_vote_generated :
      ChainedHotStuffProtocol
      → DecisionHandler ChainedQc
      → ℕ
      → ChainedDecisionNode
      → Message
      → Run (Option Processed)
  unfolding chain_new_node
  handle_vote_generated p handler decision_index node message =
      elim (get_elem? p.decision_list decision_index) [
        | none ↦ ok (some (p, handler, failed (IronChainProcessError.get_decision decision_index)))
        | some decision ↦
            chain_new_node (record p { pending_nodes = insert_node p.pending_nodes node }) handler
              decision_index node
              (IronChainDecision.decision_info_from_metadata_and_messages decision.view.seq
                (header_of node) node.justify message)
      ]

  abbrev pub world_of :
      ChainedHotStuffProtocol → DecisionHandler ChainedQc → ChainedDecision → World
  world_of p handler d = record {
    decision = d;
    handler = handler;
    pool = p.request_aggr;
    sent = p.sent;
  }

  abbrev pub of_world : ChainedHotStuffProtocol → ℕ → World → ChainedHotStuffProtocol
  of_world p i w = record p {
    decision_list = set p.decision_list i w.decision;
    request_aggr = w.pool;
    sent = w.sent;
  }

  abbrev pub signal : ChainedHotStuffProtocol → SeqNo → ChainedHotStuffProtocol
  signal p seq = record p { signals = push_signalled p.signals seq }

  -- The leader of the next view proposes in it, on the certificate that it has made.
  unfoldable pub propose_next :
      ChainedHotStuffProtocol
      → DecisionHandler ChainedQc
      → SeqNo
      → ChainedQc
      → ChainedHotStuffProtocol
  propose_next p handler next_decision qc = elim (Protocol.get_decision p next_decision) [
    | none ↦ p
    | some (i, d) ↦ of_world p i (handle_previous_node_completed_leader (world_of p handler d) qc).0
  ]

  -- What follows the processing by the decision with the number and the place.
  unfoldable pub after_processing :
      ChainedHotStuffProtocol
      → DecisionHandler ChainedQc
      → ℕ
      → SeqNo
      → ChainedDecisionResult
      → Run (Option Processed)
  unfolding handle_vote_generated propose_next
  after_processing p handler i decision_seq result = elim result [
    | proposal_generated proposal_header message ↦
        let info =
          IronChainDecision.decision_info_from_metadata_and_messages decision_seq proposal_header
            none message in
        ok (some (p, handler, done (progressed_decision (info ∷ []))))
    | vote_generated node message ↦ handle_vote_generated p handler i node message
    | ChainedDecisionResult.message_queued ↦
        ok (some (signal p decision_seq, handler, done IronChainResult.message_queued))
    | message_processed _ ↦
        ok (some (signal p decision_seq, handler, done message_processed_no_update))
    | message_ignored ↦ ok (some (p, handler, done message_dropped))
    | next_leader_messages message qc ↦
        let next_decision = next decision_seq in
        ok (
          some (
            propose_next (signal p next_decision) handler next_decision qc,
            handler,
            done message_processed_no_update,
          ))
  ]

  module _ ⦃encoding : ChainEncoding⦄ where
    unfoldable pub process_message :
        ChainedHotStuffProtocol → DecisionHandler ChainedQc → Message → Run (Option Processed)
    unfolding after_processing
    process_message p handler message = elim (index message.message.seq_no (sequence_number p)) [
      | none ↦ ok (some (p, handler, done message_dropped))
      | some i ↦ elim (get_elem? p.decision_list i) [
        | none ↦ panic todo
        | some d ↦
            Decision.Handling.process_message (world_of p handler d) p.pending_nodes message
            >>= λ (w, result). elim result [
              | failed error ↦ ok (some (of_world p i w, w.handler, failed (new_view_error error)))
              | done r ↦ after_processing (of_world p i w) w.handler i d.view.seq r
            ]
      ]
    ]

    -- The arm of a final decision: what was finalized, or `inl` to go on.
    unfoldable pub poll_finalize :
        ChainedHotStuffProtocol → Run (Option (ChainedHotStuffProtocol ⊎ Polled))
    poll_finalize p =
        if can_finalize p
        then (finalize p >>= λ finalized. elim finalized [
          | none ↦ ok none
          | some (p', result) ↦ elim result [
            | failed error ↦ ok (some (inr (p', failed error)))
            | done decided ↦ elim decided [
              | [] ↦ ok (some (inl p'))
              | x ∷ xs ↦
                  ok (some (inr (p', done (IronChainPollResult.progressed_decision (x ∷ xs)))))
            ]
          ]
        ])
        else ok (some (inl p))

    -- The `while` of `poll`, on fuel; `none` when it is spent.
    unfoldable pub poll_loop :
        ℕ → ChainedHotStuffProtocol → DecisionHandler ChainedQc → Run (Option Polled)
    unfolding poll_finalize
    poll_loop zero p handler = ok none
    poll_loop (suc fuel) p handler =
        let again = poll_loop fuel in
        let (popped, rest) = pop_signalled p.signals in
        let p' = record p { signals = rest } in
        elim popped [
          | none ↦ ok (some (p', done IronChainPollResult.receive_msg))
          | some seq ↦ elim (Protocol.get_decision p' seq) [
            | none ↦ again p' handler
            | some (i, d) ↦
                let (d', sent, result) = Decision.poll d handler in
                let polled = record p' {
                  decision_list = set p'.decision_list i d';
                  sent = p'.sent ++ sent;
                } in
                elim result [
                  | ChainedDecisionPollResult.receive_msg ↦
                      ok (some (polled, done IronChainPollResult.receive_msg))
                  | ChainedDecisionPollResult.exec message ↦
                      ok (some (signal polled seq, done (IronChainPollResult.exec message)))
                  | ChainedDecisionPollResult.decided ↦ poll_finalize polled >>= λ r. elim r [
                    | none ↦ ok none
                    | some (inl p'') ↦ again p'' handler
                    | some (inr answer) ↦ ok (some answer)
                  ]
                ]
          ]
        ]

    -- Each turn takes a signal away, so one turn more than there are signals is enough.
    unfoldable pub poll : ChainedHotStuffProtocol → DecisionHandler ChainedQc → Run (Option Polled)
    unfolding poll_loop
    poll p handler = poll_loop (suc (length p.signals.signaled_seq_no)) p handler
