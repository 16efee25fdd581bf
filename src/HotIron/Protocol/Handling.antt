-- ===== src/HotIron/Protocol/Handling.antt =====
-- src/hot_iron/protocol/hotstuff.rs: `poll` and `process_message`. A result `none` is of a loop whose
-- fuel is spent; HotIron/Protocol/Fuel.antt shows that it never happens.
use hot_iron_oxide.Base.{
  ℕ, zero, suc, Option, none, some, ◌∷◌, [], ◌++◌, Run, ok, panic, index_out_of_bounds, ◌>>=◌,
  length, get_elem?, set, if◌then◌else◌,
}
use hot_iron_oxide.Atlas.{Atlas}
use hot_iron_oxide.HotIron.Messages.{VoteEncoding}
use hot_iron_oxide.HotIron.Queue.{Message}
use hot_iron_oxide.HotIron.Log.{Result, done, failed}
use hot_iron_oxide.HotIron.Signals.{pop_signalled, push_signalled}
use hot_iron_oxide.HotIron.Decision
use hot_iron_oxide.HotIron.Decision.{
  HsDecision, World, Processed, DecisionPollResult, DecisionResult, DecisionError,
}
use hot_iron_oxide.HotIron.Decision.Dispatch
use hot_iron_oxide.HotIron.Protocol.{
  HotStuffProtocol, HotIronResult, HotIronPollResult, sequence_number, can_finalize, queue_message,
  finalize_decisions, turn_into_decision,
}

module _ ⦃atlas : Atlas⦄ where
  open atlas use {index}

  abbrev pub Polled : Type 0
  Polled = Option (HotStuffProtocol × HotIronPollResult)

  -- What `poll` does once no decision is signalled.
  unfoldable pub poll_finalize : HotStuffProtocol → Run Polled
  poll_finalize p =
      if can_finalize p
      then (finalize_decisions p >>= λ finalized. ok (elim finalized [
        | none ↦ none
        | some (p', decisions) ↦ some (p', HotIronPollResult.progressed_decision decisions)
      ]))
      else ok (some (p, HotIronPollResult.receive_msg))

  -- What the call gives: the protocol, and the result or the error.
  abbrev pub Handled : Type 0
  Handled = Option (HotStuffProtocol × Result DecisionError HotIronResult)

  -- The protocol as its decision `i` leaves it.
  abbrev pub of_world : HotStuffProtocol → ℕ → World → HotStuffProtocol
  of_world p i w = record p {
    decisions = set p.decisions i w.decision;
    decision_handler = w.handler;
    request_aggr = w.pool;
    sent = w.sent;
  }

  abbrev pub world_of : HotStuffProtocol → HsDecision → World
  world_of p d = record {
    decision = d;
    handler = p.decision_handler;
    pool = p.request_aggr;
    sent = p.sent;
  }

  -- The match on the decision's result.
  unfoldable pub conclude : HotStuffProtocol → HsDecision → DecisionResult → Run Handled
  conclude p d Decision.message_ignored = ok (some (p, done HotIronResult.message_dropped))
  conclude p d (Decision.duplicate_vote _) = ok (some (p, done HotIronResult.message_dropped))
  conclude p d Decision.message_queued = ok (some (p, done HotIronResult.message_queued))
  conclude p d (Decision.decision_progressed qc node_header message) = ok (
      some (
        p,
        done (
            HotIronResult.progressed_decision
              (turn_into_decision d.view.seq qc node_header message ∷ [])),
      ))
  conclude p d (Decision.decided qc message) = finalize_decisions p >>= λ finalized.
      ok (elim finalized [
        | none ↦ none
        | some (p', decisions) ↦ some (
          p',
          done (
              HotIronResult.progressed_decision
                (turn_into_decision d.view.seq qc none message ∷ decisions)),
        )
      ])

  module _ ⦃encoding : VoteEncoding⦄ where
    unfoldable pub poll_loop : ℕ → HotStuffProtocol → Run Polled
    unfolding poll_finalize
    poll_loop zero p = ok none
    poll_loop (suc fuel) p =
        let again = poll_loop fuel in
        let (signalled, signals) = pop_signalled p.signal_queue in
        let p' = record p { signal_queue = signals } in
        elim signalled [
          | none ↦ poll_finalize p'
          | some seq ↦ elim (index seq (sequence_number p')) [
            | none ↦ again p'
            | some i ↦ elim (get_elem? p'.decisions i) [
              | none ↦ panic index_out_of_bounds
              | some d ↦
                  let (d', sent, poll_result) = Decision.poll d p'.decision_handler in
                  let polled = record p' {
                    decisions = set p'.decisions i d';
                    sent = p'.sent ++ sent;
                  } in
                  let signalled_again = record polled {
                    signal_queue = push_signalled polled.signal_queue seq;
                  } in
                  elim poll_result [
                    | Decision.next_message message ↦
                        ok (some (signalled_again, HotIronPollResult.exec message))
                    | Decision.try_propose ↦
                        ok (some (signalled_again, HotIronPollResult.receive_msg))
                    | _ ↦ again polled
                  ]
            ]
          ]
        ]

    -- Each turn pops a number, and none is signalled in a turn that another follows, so one turn
    -- more than there are numbers is enough.
    unfoldable pub poll : HotStuffProtocol → Run Polled
    unfolding poll_loop
    poll p = poll_loop (suc (length p.signal_queue.signaled_seq_no)) p

    -- What follows `decision.process_message`, whose error `?` returns.
    unfoldable pub after_processing : HotStuffProtocol → ℕ → Processed → Run Handled
    unfolding conclude
    after_processing p i (w, failed error) = ok (some (of_world p i w, failed error))
    after_processing p i (w, done result) = conclude (of_world p i w) w.decision result

    unfoldable pub process_message : HotStuffProtocol → Message → Run Handled
    unfolding after_processing
    process_message p message = elim (index message.message.curr_view (sequence_number p)) [
      | none ↦ ok (some (p, done HotIronResult.message_dropped))
      | some i ↦ elim (get_elem? p.decisions i) [
        | none ↦ do p' ← queue_message p message; ok (some (p', done HotIronResult.message_queued))
        | some d ↦ do r ← Dispatch.process_message (world_of p d) message; after_processing p i r
      ]
    ]
