-- ===== src/Chained/Decision/Polling.antt =====
-- What polling a decision, in src/chained/protocol/decision/mod.rs, leaves and gives.
use mathlib.Core.List.{Memᴰ}
use hot_iron_oxide.Base.{◌≡◌, ◌≢◌, refl, subst, none, some, List, [], ◌∷◌, if_rule}
use hot_iron_oxide.Atlas.{Atlas}
use hot_iron_oxide.Tree.{DecisionHandler}
use hot_iron_oxide.Chained.Messages.{ChainedQc, Message, ChainEncoding}
use hot_iron_oxide.Chained.Queue
use hot_iron_oxide.Chained.Queue.{pop_message}
use hot_iron_oxide.Chained.Decision
use hot_iron_oxide.Chained.Decision.{
  ChainedDecision, ChainedDecisionState, ChainedDecisionPollResult, poll_queue,
}

module _ ⦃atlas : Atlas⦄ ⦃encoding : ChainEncoding⦄ where
  -- Polling a decision: what stays, and where a message that it gives comes from.
  pub record Keeps (d e : ChainedDecision) (result : ChainedDecisionPollResult) : Type 0 where
    pub same_view : e.view ≡ d.view
    pub same_node : e.node_id ≡ d.node_id
    pub no_more :
        (m : Message) → Memᴰ m e.msg_queue.pending_messages → Memᴰ m d.msg_queue.pending_messages
    pub from_queue :
        (m : Message)
        → result ≡ ChainedDecisionPollResult.exec m
        → Memᴰ m d.msg_queue.pending_messages

  Keeps-same :
      (d e : ChainedDecision) (result : ChainedDecisionPollResult)
      → e.view ≡ d.view
      → e.node_id ≡ d.node_id
      → e.msg_queue ≡ d.msg_queue
      → ((m : Message) → result ≢ ChainedDecisionPollResult.exec m)
      → Keeps d e result
  Keeps-same d e result view node queue never = record {
    same_view = view;
    same_node = node;
    no_more = λ m h. subst (λ q. Memᴰ m q.pending_messages) queue h;
    from_queue = λ m h. absurd (never m h);
  }

  -- `poll_queue` where these messages are queued.
  abbrev popping : ChainedDecision → List Message → ChainedDecision × ChainedDecisionPollResult
  popping d ms =
      let (popped, rest) = pop_message (record d.msg_queue { pending_messages = ms }) in
      (
        record d { msg_queue = rest },
        elim popped [
          | some message ↦ ChainedDecisionPollResult.exec message
          | none ↦ ChainedDecisionPollResult.receive_msg
        ],
      )

  poll_queue-Keeps : (d : ChainedDecision) → Keeps d (poll_queue d).0 (poll_queue d).1
  unfolding poll_queue pop_message
  poll_queue-Keeps d =
      if_rule {A = ChainedDecision × ChainedDecisionPollResult} (λ r. Keeps d r.0 r.1)
        (Queue.should_poll d.msg_queue) (λ _. by_list d.msg_queue.pending_messages)
        (λ _. Keeps-same d d ChainedDecisionPollResult.receive_msg refl refl refl (λ m e. cc))
    where
      by_list :
          (ms : List Message)
          → Keeps
              (record d { msg_queue = record d.msg_queue { pending_messages = ms } })
              (popping d ms).0
              (popping d ms).1
      by_list [] = record {
        same_view = refl;
        same_node = refl;
        no_more = λ m h. h;
        from_queue = λ m h. cc;
      }
      by_list (x ∷ xs) = record {
        same_view = refl;
        same_node = refl;
        no_more = λ m h. Memᴰ.tail h;
        from_queue = λ m h. Memᴰ.head cc;
      }

  pub poll-Keeps :
      (d : ChainedDecision) (handler : DecisionHandler ChainedQc)
      → Keeps d (Decision.poll d handler).0 (Decision.poll d handler).2
  unfolding Decision.poll
  poll-Keeps d handler = by_state d.state
    where
      in_state : ChainedDecisionState → ChainedDecision
      in_state s = record d { state = s }

      by_state :
          (s : ChainedDecisionState)
          → Keeps
              (in_state s)
              (Decision.poll (in_state s) handler).0
              (Decision.poll (in_state s) handler).2
      by_state ChainedDecisionState.init = Keeps-same _ _ _ refl refl refl (λ m h. cc)
      by_state ChainedDecisionState.finalized = Keeps-same _ _ _ refl refl refl (λ m h. cc)
      by_state (ChainedDecisionState.prepare n b) = poll_queue-Keeps _
      by_state ChainedDecisionState.pre_commit = poll_queue-Keeps _
      by_state ChainedDecisionState.commit = poll_queue-Keeps _
      by_state ChainedDecisionState.decide = poll_queue-Keeps _
