-- ===== src/HotIron/Queue.antt =====
-- src/hot_iron/protocol/msg_queue/mod.rs: the messages a decision keeps for a later phase.
pub mod Filing
pub mod Delivery
pub mod Conservation
use hot_iron_oxide.Base.{
  ◌≡◌, Bool, true, false, Option, none, some, List, [], push_back, pop_front, ℕ,
}
use hot_iron_oxide.Atlas.{Atlas, StoredMessage}
use hot_iron_oxide.HotIron.Messages.{
  VoteTypes, ProposalTypes, HotFeOxMsgType, HotFeOxMsg, proposal, vote, vote_types, proposal_types,
}

-- `EnumMap`: a value for each constructor.
pub record VoteQueues {ℓ} (A : Type ℓ) : Type ℓ where
  pub new_view : List A
  pub prepare_vote : List A
  pub pre_commit_vote : List A
  pub commit_vote : List A

pub record ProposalQueues {ℓ} (A : Type ℓ) : Type ℓ where
  pub prepare : List A
  pub pre_commit : List A
  pub commit : List A
  pub decide : List A

module _ {ℓ} {A : Type ℓ} where
  abbrev pub vote_queue : VoteQueues A → VoteTypes → List A
  vote_queue q VoteTypes.new_view = q.new_view
  vote_queue q VoteTypes.prepare_vote = q.prepare_vote
  vote_queue q VoteTypes.pre_commit_vote = q.pre_commit_vote
  vote_queue q VoteTypes.commit_vote = q.commit_vote

  abbrev pub set_vote_queue : VoteQueues A → VoteTypes → List A → VoteQueues A
  set_vote_queue q VoteTypes.new_view xs = record q { new_view = xs }
  set_vote_queue q VoteTypes.prepare_vote xs = record q { prepare_vote = xs }
  set_vote_queue q VoteTypes.pre_commit_vote xs = record q { pre_commit_vote = xs }
  set_vote_queue q VoteTypes.commit_vote xs = record q { commit_vote = xs }

  abbrev pub proposal_queue : ProposalQueues A → ProposalTypes → List A
  proposal_queue q ProposalTypes.prepare = q.prepare
  proposal_queue q ProposalTypes.pre_commit = q.pre_commit
  proposal_queue q ProposalTypes.commit = q.commit
  proposal_queue q ProposalTypes.decide = q.decide

  abbrev pub set_proposal_queue : ProposalQueues A → ProposalTypes → List A → ProposalQueues A
  set_proposal_queue q ProposalTypes.prepare xs = record q { prepare = xs }
  set_proposal_queue q ProposalTypes.pre_commit xs = record q { pre_commit = xs }
  set_proposal_queue q ProposalTypes.commit xs = record q { commit = xs }
  set_proposal_queue q ProposalTypes.decide xs = record q { decide = xs }

-- `DecisionState` of src/hot_iron/protocol/decision/mod.rs. The fields of a phase say whether this
-- node, as the leader, has made its proposal in it, and how many votes it has received.
pub data DecisionState : Type 0 where
  init : DecisionState
  prepare : Bool → ℕ → DecisionState
  pre_commit : Bool → ℕ → DecisionState
  commit : Bool → ℕ → DecisionState
  decide : Bool → ℕ → DecisionState
  finally : DecisionState
  next_view : DecisionState

module _ ⦃atlas : Atlas⦄ where
  abbrev pub Message : Type 0
  Message = StoredMessage HotFeOxMsg

  pub record HotStuffTboQueue : Type 0 where
    pub get_queue : Bool
    pub vote_messages : VoteQueues Message
    pub proposal_messages : ProposalQueues Message

  unfoldable pub default_queue : HotStuffTboQueue
  default_queue = record {
    get_queue = false;
    vote_messages = record {
      new_view = [];
      prepare_vote = [];
      pre_commit_vote = [];
      commit_vote = [];
    };
    proposal_messages = record { prepare = []; pre_commit = []; commit = []; decide = [] };
  }

  push_to : HotFeOxMsgType → Message → HotStuffTboQueue → HotStuffTboQueue
  push_to (proposal p) message q =
      let type = proposal_types p.proposal_type in
      record q {
        get_queue = true;
        proposal_messages =
            set_proposal_queue q.proposal_messages type
              (push_back (proposal_queue q.proposal_messages type) message);
      }
  push_to (vote v) message q =
      let type = vote_types v.vote_type in
      record q {
        get_queue = true;
        vote_messages =
            set_vote_queue q.vote_messages type
              (push_back (vote_queue q.vote_messages type) message);
      }

  unfoldable pub queue_message : HotStuffTboQueue → Message → HotStuffTboQueue
  unfolding push_to
  queue_message q message = push_to message.message.message message q

  abbrev pub should_poll : HotStuffTboQueue → Bool
  should_poll q = q.get_queue

  pub pop_vote : HotStuffTboQueue → VoteTypes → Option Message × HotStuffTboQueue
  pop_vote q type =
      let (front, rest) = pop_front (vote_queue q.vote_messages type) in
      (front, record q { vote_messages = set_vote_queue q.vote_messages type rest })

  pub pop_proposal : HotStuffTboQueue → ProposalTypes → Option Message × HotStuffTboQueue
  pop_proposal q type =
      let (front, rest) = pop_front (proposal_queue q.proposal_messages type) in
      (front, record q { proposal_messages = set_proposal_queue q.proposal_messages type rest })

  unfoldable pub get_message_for_type :
      HotStuffTboQueue → Bool → ProposalTypes → VoteTypes → Option Message × HotStuffTboQueue
  unfolding pop_vote pop_proposal
  get_message_for_type q true proposal_type vote_type =
      let (front, q') = pop_proposal q proposal_type in
      elim front [ some message ↦ (some message, q') | none ↦ pop_vote q' vote_type ]
  get_message_for_type q false proposal_type vote_type = pop_vote q vote_type

  message_for_state : HotStuffTboQueue → Bool → DecisionState → Option Message × HotStuffTboQueue
  message_for_state q is_leader (DecisionState.prepare _ _) =
      get_message_for_type q is_leader ProposalTypes.prepare VoteTypes.new_view
  message_for_state q is_leader (DecisionState.pre_commit _ _) =
      get_message_for_type q is_leader ProposalTypes.pre_commit VoteTypes.prepare_vote
  message_for_state q is_leader (DecisionState.commit _ _) =
      get_message_for_type q is_leader ProposalTypes.commit VoteTypes.pre_commit_vote
  message_for_state q is_leader (DecisionState.decide _ _) =
      get_message_for_type q is_leader ProposalTypes.decide VoteTypes.new_view
  message_for_state q is_leader _ = (none, q)

  -- A poll that finds nothing clears the flag.
  mark_drained : Option Message × HotStuffTboQueue → Option Message × HotStuffTboQueue
  mark_drained (none, q) = (none, record q { get_queue = false })
  mark_drained (some message, q) = (some message, q)

  unfoldable pub get_message_for :
      HotStuffTboQueue → Bool → DecisionState → Option Message × HotStuffTboQueue
  unfolding message_for_state get_message_for_type mark_drained
  get_message_for q is_leader decision_state =
      mark_drained (message_for_state q is_leader decision_state)
