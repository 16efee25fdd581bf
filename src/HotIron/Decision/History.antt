-- ===== src/HotIron/Decision/History.antt =====
-- What holds of a decision at all times: the runs of a decision, as sequences of the calls that the
-- protocol makes of it, and the invariants of the decision over them
-- (src/hot_iron/protocol/decision/mod.rs).
use hot_iron_oxide.Base.{
  ◌≡◌, refl, ◌∙◌, ◌<◌, ap, ◌++◌, true, Option, none, some, [], ok, Ends-ok, Returns, List, length,
  arith,
}
use hot_iron_oxide.Atlas.{Atlas}
use hot_iron_oxide.Tree.{DecisionNode, DecisionHandler, default_handler, safe_node}
use hot_iron_oxide.Requests.{Pool, default_pool}
use hot_iron_oxide.View.{View}
use hot_iron_oxide.HotIron.Messages.{Qc, qc_certificate, VoteEncoding, Outgoing}
use hot_iron_oxide.HotIron.Queue.{DecisionState, Message, HotStuffTboQueue}
use hot_iron_oxide.HotIron.Decision.{
  HsDecision, World, Processed, is_leader, poll, next_view_received, new_decision, can_be_finalized,
  DecisionFinalizationResult, DecisionPollResult,
}
use hot_iron_oxide.HotIron.Decision.Replica.{is_extension_of_known_node, finalize_decision}
use hot_iron_oxide.HotIron.Decision.Dispatch.{process_message}
use hot_iron_oxide.HotIron.Decision.Consistency.{IsConsistent, new_decision-IsConsistent}
use hot_iron_oxide.HotIron.Decision.Polling.{poll_rule}
use hot_iron_oxide.HotIron.Decision.Proposal.{is_prepared, Holds, process_message-Holds}
use hot_iron_oxide.HotIron.Decision.Totality.{
  Stable, Stable-IsConsistent, process_message-Ends, process_message-Stable,
}

module _ ⦃atlas : Atlas⦄ ⦃encoding : VoteEncoding⦄ where
  abbrev pub after_poll : World → HsDecision × List Outgoing × DecisionPollResult → World
  after_poll w r = record w { decision = r.0; sent = w.sent ++ r.1 }

  -- A run of a decision: messages, polls, the end of its view, and new requests, in any order.
  pub data Reached (v : World) : World → Type 0 where
    start : Reached v v
    message :
        {w : World}
        → Reached v w
        → (m : Message) (r : Processed) → process_message w m ≡ ok r
        → Reached v r.0
    polled : {w : World} → Reached v w → Reached v (after_poll w (poll w.decision w.handler))
    next_view :
        {w : World}
        → Reached v w
        → Reached v (record w { decision = next_view_received w.decision })
    requests : {w : World} → Reached v w → (pool : Pool) → Reached v (record w { pool = pool })

  abbrev pub new_world : View → atlas.NodeId → World
  new_world view node_id = record {
    decision = new_decision view node_id;
    handler = default_handler;
    pool = default_pool;
    sent = [];
  }

  abbrev pub IsRoot : DecisionNode → Type 0
  IsRoot node = node.decision_header.previous_block ≡ none

  -- The invariant of the runs of a decision of `view`.
  pub record IsSound (view : View) (w : World) : Type 0 where
    pub of_view : w.decision.view ≡ view
    pub consistent : IsConsistent w.decision
    pub unlocked : w.handler.latest_locked_qc ≡ none
    pub holds : Holds IsRoot w.decision

  safe_node-IsRoot :
      (handler : DecisionHandler Qc) (node : DecisionNode) (qc : Qc)
      → handler.latest_locked_qc ≡ none
      → safe_node qc_certificate is_extension_of_known_node handler node qc ≡ true
      → IsRoot node
  unfolding safe_node is_extension_of_known_node
  safe_node-IsRoot handler node qc u h =
      unlocked handler.latest_locked_qc node.decision_header.previous_block u h
    where
      unlocked :
          (locked : Option Qc) (previous : Option atlas.Digest)
          → locked ≡ none
          → safe_node qc_certificate is_extension_of_known_node
              (record handler { latest_locked_qc = locked })
              (record node {
                decision_header = record node.decision_header { previous_block = previous };
              })
              qc
            ≡ true
          → previous ≡ none
      unlocked locked none u h = refl
      unlocked none (some p) u h = cc
      unlocked (some l) (some p) u h = cc

  finalized_prepared :
      (d : HsDecision)
      → can_be_finalized d ≡ DecisionFinalizationResult.finalized
      → is_prepared d.current_state ≡ true
  unfolding can_be_finalized
  finalized_prepared d h = ground arith

  with_state-IsConsistent :
      (d : HsDecision) (s : DecisionState) (q : HotStuffTboQueue)
      → IsConsistent d
      → IsConsistent (record d { current_state = s; decision_queue = q })
  unfolding is_leader
  with_state-IsConsistent d s q c = record { occupied = c.occupied; metric = c.metric; log = c.log }

  module _ (view : View) where
    pub message-IsSound :
        (w : World) (m : Message) (r : Processed)
        → IsSound view w
        → process_message w m ≡ ok r
        → IsSound view r.0
    message-IsSound w m r s e =
        let st = Ends-ok (Stable w) e (process_message-Ends w m s.consistent) in
        record {
          of_view = st.view ∙ s.of_view;
          consistent = Stable-IsConsistent w r st s.consistent;
          unlocked = st.latest_locked_qc ∙ s.unlocked;
          holds =
              Ends-ok (λ r. Holds IsRoot r.0.decision) e
                (process_message-Holds IsRoot w m
                  (λ node qc. safe_node-IsRoot w.handler node qc s.unlocked) s.holds s.consistent);
        }

    poll-IsSound :
        (w : World) → IsSound view w → IsSound view (after_poll w (poll w.decision w.handler))
    poll-IsSound w s =
        poll_rule (λ r. IsSound view (after_poll w r)) w.decision w.handler
          (λ e. record {
            of_view = s.of_view;
            consistent = with_state-IsConsistent w.decision _ _ s.consistent;
            unlocked = s.unlocked;
            holds = record { taken = λ h. cc; every = s.holds.every };
          })
          (λ q result. record {
            of_view = s.of_view;
            consistent = with_state-IsConsistent w.decision _ q s.consistent;
            unlocked = s.unlocked;
            holds = record { taken = s.holds.taken; every = s.holds.every };
          })

    pub new_decision-IsSound :
        (w : World) (node_id : atlas.NodeId)
        → 0 < length view.members
        → w.decision ≡ new_decision view node_id
        → w.handler.latest_locked_qc ≡ none
        → IsSound view w
    unfolding new_decision
    new_decision-IsSound w node_id h e u = record {
      of_view = rw e refl;
      consistent = rw e (new_decision-IsConsistent view node_id h);
      unlocked = u;
      holds = rw e (record { taken = λ h. cc; every = λ node h. cc });
    }

    new_world-IsSound :
        (node_id : atlas.NodeId) → 0 < length view.members → IsSound view (new_world view node_id)
    unfolding default_handler
    new_world-IsSound node_id h = new_decision-IsSound (new_world view node_id) node_id h refl refl

    next_view-IsSound :
        (w : World)
        → IsSound view w
        → IsSound view (record w { decision = next_view_received w.decision })
    unfolding next_view_received
    next_view-IsSound w s = record {
      of_view = s.of_view;
      consistent = with_state-IsConsistent w.decision _ _ s.consistent;
      unlocked = s.unlocked;
      holds = record { taken = λ h. cc; every = s.holds.every };
    }

    reached-IsSound : {v w : World} → Reached v w → IsSound view v → IsSound view w
    reached-IsSound start s = s
    reached-IsSound (message run m r e) s = message-IsSound _ m r (reached-IsSound run s) e
    reached-IsSound (polled run) s = poll-IsSound _ (reached-IsSound run s)
    reached-IsSound (next_view {w} run) s = next_view-IsSound w (reached-IsSound run s)
    reached-IsSound (requests {w} run pool) s =
        let c = reached-IsSound run s in
        record {
          of_view = c.of_view;
          consistent = c.consistent;
          unlocked = c.unlocked;
          holds = c.holds;
        }

    pub finalize_sound :
        (w : World)
        → IsSound view w
        → can_be_finalized w.decision ≡ DecisionFinalizationResult.finalized
        → Returns (finalize_decision w.decision) (λ p.
          (node : DecisionNode) × (w.decision.decision_log.current_proposal ≡ some node)
          × (node.decision_header.previous_block ≡ none)
          × (p.seq ≡ view.seq)
          × (p.batch ≡ node.client_commands)
          × (p.batch_digest ≡ node.decision_header.current_block_digest))
    unfolding finalize_decision
    finalize_sound w s h =
        let (node, e) = s.holds.taken (finalized_prepared w.decision h) in
        rw e (
          _,
          refl,
          (node, refl, s.holds.every node e, ap (λ (v : View). v.seq) s.of_view, refl, refl),
        )

    module _ (node_id : atlas.NodeId) (occupied : 0 < length view.members) where
      -- In every run of a new decision, whose view has members, on the certificates that a protocol
      -- starts with, the next message of any kind is processed without a panic.
      pub reached-Returns :
          (w : World) (m : Message)
          → Reached (new_world view node_id) w
          → Returns (process_message w m) (Stable w)
      reached-Returns w m run =
          process_message-Stable w m
            (reached-IsSound run (new_world-IsSound node_id occupied)).consistent

      -- In every run of a new decision, whose view has members, on the certificates that a
      -- protocol starts with: if the decision can be finalized, then `finalize_decision` does not
      -- panic, and gives the sequence number of the view, and the commands and the digest of the
      -- node that was taken, which has no previous block.
      pub finalize_decision-Returns :
          (w : World)
          → Reached (new_world view node_id) w
          → can_be_finalized w.decision ≡ DecisionFinalizationResult.finalized
          → Returns (finalize_decision w.decision) (λ p.
            (node : DecisionNode) × (w.decision.decision_log.current_proposal ≡ some node)
            × (node.decision_header.previous_block ≡ none)
            × (p.seq ≡ view.seq)
            × (p.batch ≡ node.client_commands)
            × (p.batch_digest ≡ node.decision_header.current_block_digest))
      finalize_decision-Returns w run h =
          finalize_sound w (reached-IsSound run (new_world-IsSound node_id occupied)) h
