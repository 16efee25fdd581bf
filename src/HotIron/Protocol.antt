-- ===== src/HotIron/Protocol.antt =====
-- src/hot_iron/protocol/hotstuff.rs: the protocol that owns the decisions, and hands them their
-- messages. What a call would write into the node's network is appended to `sent`.
pub mod Handling
pub mod Fuel
pub mod Readiness
pub mod Reception
use hot_iron_oxide.Base.{
  ℕ, zero, suc, ◌≡◌, Bool, true, false, Option, none, some, List, [], ◌∷◌, ◌++◌, Run, ok, panic,
  todo, expect_failed, index_out_of_bounds, ◌>>=◌, length, get_elem?, set, back, push_back,
  pop_front, if◌then◌else◌,
}
use hot_iron_oxide.Atlas.{Atlas}
use hot_iron_oxide.View.{View, with_new_seq}
use hot_iron_oxide.Tree.{DecisionNodeHeader, DecisionHandler, default_handler}
use hot_iron_oxide.Requests.{Pool, default_pool}
use hot_iron_oxide.HotIron.Messages.{Qc, VoteEncoding, Outgoing}
use hot_iron_oxide.HotIron.Queue.{Message}
use hot_iron_oxide.HotIron.Log.{Result, done, failed}
use hot_iron_oxide.HotIron.Signals.{Signals, default_signals, pop_signalled, push_signalled}
use hot_iron_oxide.HotIron.Decision.{
  HsDecision, World, DecisionPollResult, DecisionResult, DecisionError, DecisionFinalizationResult,
  new_decision, queue, can_be_finalized, next_view_received, poll,
}
use hot_iron_oxide.HotIron.Decision.Replica.{ProtocolConsensusDecision, finalize_decision}
use hot_iron_oxide.HotIron.Decision.Dispatch.{process_message}

module _ ⦃atlas : Atlas⦄ where
  open atlas use {SeqNo, NodeId, next, index}

  pub record HotStuffProtocol : Type 0 where
    pub node_id : NodeId
    pub decisions : List HsDecision
    pub decision_handler : DecisionHandler Qc
    pub request_aggr : Pool
    pub sent : List Outgoing
    pub current_view : View
    pub signal_queue : Signals

  -- `Decision` of atlas_core, as the calls that build one.
  pub data HotIronDecision : Type 0 where
    completed_decision : SeqNo → ProtocolConsensusDecision → HotIronDecision
    decision_info_from_metadata_and_messages :
        SeqNo → DecisionNodeHeader → Option Qc → Message → HotIronDecision
    partial_decision_info : SeqNo → Qc → Message → HotIronDecision
    decision_info_from_message : SeqNo → Message → HotIronDecision

  -- `OPExecResult` and `OPPollResult`; the decisions ahead are always ignored.
  pub data HotIronResult : Type 0 where
    message_dropped message_queued : HotIronResult
    progressed_decision : List HotIronDecision → HotIronResult

  pub data HotIronPollResult : Type 0 where
    exec : Message → HotIronPollResult
    receive_msg : HotIronPollResult
    progressed_decision : List HotIronDecision → HotIronPollResult

  unfoldable pub new_protocol : NodeId → View → HotStuffProtocol
  new_protocol node_id view = record {
    node_id = node_id;
    decisions = push_back [] (new_decision view node_id);
    decision_handler = default_handler;
    request_aggr = default_pool;
    sent = [];
    current_view = view;
    signal_queue = push_signalled default_signals view.seq;
  }

  abbrev pub sequence_number : HotStuffProtocol → SeqNo
  sequence_number p = p.current_view.seq

  -- The `for` of `install_seq_no`: as many decisions as there were, at the numbers that follow.
  unfoldable pub refill : ℕ → NodeId → View → SeqNo → Run (List HsDecision)
  refill zero node_id new_view seq_no = ok []
  refill (suc n) node_id new_view seq_no = do
    view ← with_new_seq new_view (next seq_no)
    rest ← refill n node_id new_view (next seq_no)
    ok (new_decision view node_id ∷ rest)

  unfoldable pub install_seq_no : HotStuffProtocol → SeqNo → Run HotStuffProtocol
  unfolding refill
  install_seq_no p seq_no = do
    current_view ← with_new_seq p.current_view seq_no
    new_view ←
        with_new_seq (elim (back p.decisions) [ none ↦ current_view | some d ↦ d.view ]) seq_no
    decisions ← refill (length p.decisions) p.node_id new_view seq_no
    ok (record p { current_view = current_view; decisions = decisions })

  unfoldable pub install_view : HotStuffProtocol → View → HotStuffProtocol
  install_view p view = record p { current_view = view }

  unfoldable pub handle_next_view_for_decision : HotStuffProtocol → SeqNo → HotStuffProtocol
  handle_next_view_for_decision p seq_no = elim (index seq_no (sequence_number p)) [
    | none ↦ p
    | some i ↦ elim (get_elem? p.decisions i) [
      | none ↦ p
      | some d ↦ record p { decisions = set p.decisions i (next_view_received d) }
    ]
  ]

  abbrev pub any_final : List HsDecision → Bool
  any_final [] = false
  any_final (item ∷ items) =
      let rest = any_final items in
      elim (can_be_finalized item) [
        | DecisionFinalizationResult.finalized ↦ true
        | DecisionFinalizationResult.next_view ↦ rest
        | DecisionFinalizationResult.not_final ↦ false
      ]

  unfoldable pub can_finalize : HotStuffProtocol → Bool
  can_finalize p = any_final p.decisions

  -- `HotStuffProtocol::queue`
  unfoldable pub queue_message : HotStuffProtocol → Message → Run HotStuffProtocol
  queue_message p message = elim (index message.message.curr_view (sequence_number p)) [
    | none ↦ ok p
    | some i ↦ elim (get_elem? p.decisions i) [
      | none ↦ panic todo
      | some d ↦ ok (record p {
        decisions = set p.decisions i (queue d message);
        signal_queue = push_signalled p.signal_queue message.message.curr_view;
      })
    ]
  ]

  unfoldable pub next_seq_no : HotStuffProtocol → Run HotStuffProtocol
  next_seq_no p = do
    view ← with_new_seq p.current_view (next (sequence_number p))
    ok (record p { current_view = view })

  -- The decision popped, and what is left.
  unfoldable pub pop_front_decision : HotStuffProtocol → Run (HsDecision × HotStuffProtocol)
  unfolding next_seq_no
  pop_front_decision p = elim p.decisions [
    | [] ↦ panic expect_failed
    | popped_decision ∷ rest ↦
        (next_seq_no (record p { decisions = rest }) >>= λ p'.
        with_new_seq (elim (back rest) [ none ↦ popped_decision.view | some d ↦ d.view ])
          (sequence_number p')
        >>= λ next_view. ok (
          popped_decision,
          record p' {
            decisions = push_back rest (new_decision next_view p.node_id);
            signal_queue = push_signalled p'.signal_queue (sequence_number p');
          },
        ))
  ]

  -- The `while` of `finalize_decisions`, on fuel; `none` when it is spent.
  unfoldable pub finalize_loop :
      ℕ
      → HotStuffProtocol
      → List HotIronDecision
      → Run (Option (HotStuffProtocol × List HotIronDecision))
  finalize_loop zero p decisions = ok none
  finalize_loop (suc fuel) p decisions =
      let again = finalize_loop fuel in
      if can_finalize p
      then (pop_front_decision p >>= λ (popped, p'). finalize_decision popped >>= λ decision.
          again p' (push_back decisions (HotIronDecision.completed_decision decision.seq decision)))
      else ok (some (p, decisions))

  -- Each turn pops a decision, so one turn more than there are decisions is enough.
  unfoldable pub finalize_decisions :
      HotStuffProtocol → Run (Option (HotStuffProtocol × List HotIronDecision))
  unfolding finalize_loop
  finalize_decisions p = finalize_loop (suc (length p.decisions)) p []

  unfoldable pub turn_into_decision :
      SeqNo → Option Qc → Option DecisionNodeHeader → Message → HotIronDecision
  turn_into_decision seq qc metadata message = elim metadata [
    | some header ↦ HotIronDecision.decision_info_from_metadata_and_messages seq header qc message
    | none ↦ elim qc [
      | some q ↦ HotIronDecision.partial_decision_info seq q message
      | none ↦ HotIronDecision.decision_info_from_message seq message
    ]
  ]
