-- ===== src/Chained/Queue.antt =====
-- src/chained/protocol/msg_queue/mod.rs: the messages that a decision keeps for later.
use hot_iron_oxide.Base.{Bool, true, false, Option, none, some, List, [], push_back, pop_front}
use hot_iron_oxide.Atlas.{Atlas}
use hot_iron_oxide.Chained.Messages.{Message}

module _ ⦃atlas : Atlas⦄ where
  pub record ChainedHotStuffMsgQueue : Type 0 where
    pub get_queue : Bool
    pub pending_messages : List Message

  unfoldable pub default_queue : ChainedHotStuffMsgQueue
  default_queue = record { get_queue = false; pending_messages = [] }

  abbrev pub should_poll : ChainedHotStuffMsgQueue → Bool
  should_poll q = q.get_queue

  unfoldable pub queue_message : ChainedHotStuffMsgQueue → Message → ChainedHotStuffMsgQueue
  queue_message q message = record {
    get_queue = true;
    pending_messages = push_back q.pending_messages message;
  }

  -- The message popped, and the queue afterwards: finding none clears the flag.
  unfoldable pub pop_message : ChainedHotStuffMsgQueue → Option Message × ChainedHotStuffMsgQueue
  pop_message q =
      let (popped, rest) = pop_front q.pending_messages in
      (
        popped,
        elim popped [
          | none ↦ record { get_queue = false; pending_messages = rest }
          | some _ ↦ record q { pending_messages = rest }
        ],
      )
