-- ===== src/Chained/Protocol.antt =====
-- src/chained/protocol/mod.rs: the protocol that owns the pipeline of decisions. This file has its
-- state, the installing of views, and the finalizing of the decisions at the front; the child
-- modules have the chain of certificates, polling and the processing of messages.
pub mod Alike
pub mod Voting
pub mod Reception
pub mod Chain
pub mod Handling
pub mod Links
pub mod Downward
pub mod Following
pub mod Commit
pub mod Reaching
pub mod Pipeline
pub mod Waiting
pub mod Turns
pub mod Polling
pub mod Popping
pub mod Finalizing
pub mod Installing
pub mod Totality
use hot_iron_oxide.Base.{
  ℕ, zero, suc, ◌-◌, ◌≡◌, Bool, true, false, Option, none, some, List, [], ◌∷◌, ◌++◌, map, Run, ok,
  panic, expect_failed, ◌>>=◌, leb, length, get_elem?, back, push_back, if◌then◌else◌,
}
use hot_iron_oxide.Atlas.{Atlas}
use hot_iron_oxide.View.{View, next_view, with_new_seq}
use hot_iron_oxide.Tree.{DecisionNodeHeader}
use hot_iron_oxide.Requests.{Pool}
use hot_iron_oxide.HotIron.Log.{Result, done, failed}
use hot_iron_oxide.HotIron.Signals.{Signals, default_signals, push_signalled, clear}
use hot_iron_oxide.Chained.Messages.{ChainedQc, ChainedDecisionNode, Message, Outgoing}
use hot_iron_oxide.Chained.Tree.{PendingDecisionNodes, default_nodes, remove_node}
use hot_iron_oxide.Chained.Decision
use hot_iron_oxide.Chained.Decision.{
  ChainedDecision, ChainedDecisionState, FinalizeDecisionError, new_decision, new_first_view,
}

-- `PROTOCOL_PHASES`
abbrev pub protocol_phases : ℕ
protocol_phases = 4

module _ ⦃atlas : Atlas⦄ where
  open atlas use {SeqNo, NodeId, next, index, Digest, Request, RequestInfo, request_info}

  pub record ChainedHotStuffProtocol : Type 0 where
    pub node_id : NodeId
    pub request_aggr : Pool
    pub decision_list : List ChainedDecision
    pub signals : Signals
    pub pending_nodes : PendingDecisionNodes
    pub curr_view : View
    pub last_decided_view : Option View
    pub sent : List Outgoing

  -- `ProtocolConsensusDecision` of atlas_core: its number, requests, their clients and the digest.
  pub record ConsensusDecision : Type 0 where
    pub seq : SeqNo
    pub batch : List Request
    pub client_rqs : List RequestInfo
    pub batch_digest : Digest

  pub data IronChainDecision : Type 0 where
    completed_decision : SeqNo → ConsensusDecision → IronChainDecision
    decision_info_from_metadata_and_messages :
        SeqNo → DecisionNodeHeader → Option ChainedQc → Message → IronChainDecision

  pub data FinalizeDecisionsError : Type 0 where
    failed_to_finalize_decision : FinalizeDecisionError → FinalizeDecisionsError
    failed_to_get_node : Digest → FinalizeDecisionsError

  pub data InstallViewError : Type 0 where
    view_in_past : View → View → InstallViewError

  -- Decisions for the view and those that follow it; the first may be the node's first at all.
  unfoldable pub make_decisions : ℕ → Bool → View → NodeId → Run (List ChainedDecision)
  make_decisions zero is_first view node_id = ok []
  make_decisions (suc n) is_first view node_id = do
    following ← next_view view
    decision ← if is_first then new_first_view view node_id else new_decision view node_id
    rest ← make_decisions n false following node_id
    ok (decision ∷ rest)

  unfoldable pub new_protocol : NodeId → Pool → View → Run ChainedHotStuffProtocol
  unfolding make_decisions
  new_protocol node_id rq_aggr curr_view = do
    decisions ← make_decisions protocol_phases true curr_view node_id
    ok (record {
      node_id = node_id;
      request_aggr = rq_aggr;
      decision_list = decisions;
      signals = push_signalled default_signals curr_view.seq;
      pending_nodes = default_nodes;
      curr_view = curr_view;
      last_decided_view = none;
      sent = [];
    })

  abbrev pub sequence_number : ChainedHotStuffProtocol → SeqNo
  sequence_number p = p.curr_view.seq

  -- Where the decision with the number stands in the list, if it does.
  unfoldable pub get_decision : ChainedHotStuffProtocol → SeqNo → Option (ℕ × ChainedDecision)
  get_decision p seq_no = elim (index seq_no (sequence_number p)) [
    | none ↦ none
    | some i ↦ elim (get_elem? p.decision_list i) [ none ↦ none | some d ↦ some (i, d) ]
  ]

  abbrev pub drop_front {ℓ} : {A : Type ℓ} → ℕ → List A → List A
  drop_front zero xs = xs
  drop_front (suc n) [] = []
  drop_front (suc n) (x ∷ xs) = drop_front n xs

  -- What is kept of the list, and how many decisions are made.
  abbrev pub decisions_kept : List ChainedDecision → ℕ → List ChainedDecision × ℕ
  decisions_kept decisions i =
      if leb (length decisions) i then ([], protocol_phases) else (drop_front i decisions, i)

  unfoldable pub install_view :
      ChainedHotStuffProtocol → View → Run (Result InstallViewError ChainedHotStuffProtocol)
  unfolding make_decisions
  install_view p view = elim (index view.seq (sequence_number p)) [
    | none ↦ ok (failed (view_in_past view p.curr_view))
    | some i ↦ do
      decisions ← make_decisions (decisions_kept p.decision_list i).1 true view p.node_id
      ok (
          done (record p {
            decision_list = (decisions_kept p.decision_list i).0 ++ decisions;
            signals = push_signalled (clear p.signals) view.seq;
            curr_view = view;
          }))
  ]

  abbrev pub is_finalized : ChainedDecisionState → Bool
  is_finalized ChainedDecisionState.finalized = true
  is_finalized _ = false

  unfoldable pub can_finalize : ChainedHotStuffProtocol → Bool
  can_finalize p = elim p.decision_list [ [] ↦ false | d ∷ _ ↦ is_finalized d.state ]

  unfoldable pub populate_decision : ChainedHotStuffProtocol → Run ChainedHotStuffProtocol
  populate_decision p = do
    view ←
        with_new_seq p.curr_view
          (next (elim (back p.decision_list) [ none ↦ sequence_number p | some d ↦ d.view.seq ]))
    decision ← new_decision view p.node_id
    ok (record p { decision_list = push_back p.decision_list decision })

  -- The decision popped, and what is left.
  unfoldable pub pop_decision :
      ChainedHotStuffProtocol → Run (ChainedDecision × ChainedHotStuffProtocol)
  unfolding populate_decision
  pop_decision p = elim p.decision_list [
    | [] ↦ panic expect_failed
    | decision ∷ rest ↦ do
      view ← next_view p.curr_view
      p' ← populate_decision (record p { decision_list = rest; curr_view = view })
      ok (decision, p')
  ]

  unfoldable pub completed : SeqNo → List Request → Digest → IronChainDecision
  completed decision_seq commands digest =
      IronChainDecision.completed_decision decision_seq (record {
        seq = decision_seq;
        batch = commands;
        client_rqs = map request_info commands;
        batch_digest = digest;
      })

  -- What a decision that was popped gives: its node is taken out of the pending ones.
  unfoldable pub complete_decision :
      ChainedDecision
      → ChainedHotStuffProtocol
      → ChainedHotStuffProtocol × Result FinalizeDecisionsError IronChainDecision
  unfolding completed
  complete_decision decision p =
      let p' = record p { last_decided_view = some decision.view } in
      elim (Decision.finalize decision) [
        | failed error ↦ (p', failed (failed_to_finalize_decision error))
        | done digest ↦
            let (removed, rest) = remove_node p'.pending_nodes digest in
            let p'' = record p' { pending_nodes = rest } in
            elim removed [
              | none ↦ (p'', failed (failed_to_get_node digest))
              | some node ↦
                  (p'', done (completed decision.view.seq node.node.client_commands digest))
            ]
      ]

  abbrev pub Finalized : Type 0
  Finalized = ChainedHotStuffProtocol × Result FinalizeDecisionsError (List IronChainDecision)

  -- The `while` of `finalize`, on fuel; `none` when it is spent.
  unfoldable pub finalize_loop :
      ℕ → ChainedHotStuffProtocol → List IronChainDecision → Run (Option Finalized)
  unfolding complete_decision
  finalize_loop zero p finalized = ok none
  finalize_loop (suc fuel) p finalized =
      let again = finalize_loop fuel in
      if can_finalize p
      then (pop_decision p >>= λ (decision, p').
          let (p'', result) = complete_decision decision p' in
          elim result [
            | failed error ↦ ok (some (p'', failed error))
            | done decided ↦ again p'' (push_back finalized decided)
          ])
      else ok (some (p, done finalized))

  -- A new decision is never final, so each turn pops one of those that were there.
  unfoldable pub finalize : ChainedHotStuffProtocol → Run (Option Finalized)
  unfolding finalize_loop
  finalize p = finalize_loop (suc (length p.decision_list)) p []
