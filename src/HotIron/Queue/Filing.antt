-- ===== src/HotIron/Queue/Filing.antt =====
-- Which of its queues src/hot_iron/protocol/msg_queue/mod.rs keeps a message in.
use hot_iron_oxide.Base.{
  ◌≡◌, refl, some, List, [], ◌∷◌, All, All-append, All-pop_front, pop_front-All,
}
use hot_iron_oxide.Atlas.{Atlas}
use hot_iron_oxide.HotIron.Messages.{
  VoteTypes, ProposalTypes, HotFeOxMsgType, proposal, vote, vote_types, proposal_types,
}
use hot_iron_oxide.HotIron.Queue.{
  VoteQueues, ProposalQueues, vote_queue, set_vote_queue, proposal_queue, set_proposal_queue,
  Message, HotStuffTboQueue, default_queue, push_to, queue_message, pop_vote, pop_proposal,
}

-- What a message is about, in both enumerations at once.
pub data Kind : Type 0 where
  votes : VoteTypes → Kind
  proposes : ProposalTypes → Kind

module _ {ℓ} {A : Type ℓ} where
  vote_queue-set {κ} :
      (P : VoteTypes → List A → Type κ) (q : VoteQueues A) (t : VoteTypes) (xs : List A)
      → P t xs
      → ((u : VoteTypes) → P u (vote_queue q u))
      → (u : VoteTypes) → P u (vote_queue (set_vote_queue q t xs) u)
  vote_queue-set P q VoteTypes.new_view xs new old VoteTypes.new_view = new
  vote_queue-set P q VoteTypes.prepare_vote xs new old VoteTypes.prepare_vote = new
  vote_queue-set P q VoteTypes.pre_commit_vote xs new old VoteTypes.pre_commit_vote = new
  vote_queue-set P q VoteTypes.commit_vote xs new old VoteTypes.commit_vote = new
  vote_queue-set P q _ xs new old u = old u

  proposal_queue-set {κ} :
      (P : ProposalTypes → List A → Type κ) (q : ProposalQueues A) (t : ProposalTypes) (xs : List A)
      → P t xs
      → ((u : ProposalTypes) → P u (proposal_queue q u))
      → (u : ProposalTypes) → P u (proposal_queue (set_proposal_queue q t xs) u)
  proposal_queue-set P q ProposalTypes.prepare xs new old ProposalTypes.prepare = new
  proposal_queue-set P q ProposalTypes.pre_commit xs new old ProposalTypes.pre_commit = new
  proposal_queue-set P q ProposalTypes.commit xs new old ProposalTypes.commit = new
  proposal_queue-set P q ProposalTypes.decide xs new old ProposalTypes.decide = new
  proposal_queue-set P q _ xs new old u = old u

module _ ⦃atlas : Atlas⦄ where
  abbrev pub kind_of_type : HotFeOxMsgType → Kind
  kind_of_type (proposal p) = proposes (proposal_types p.proposal_type)
  kind_of_type (vote v) = votes (vote_types v.vote_type)

  abbrev pub kind : Message → Kind
  kind m = kind_of_type m.message.message

  -- Every message stands in the queue of its kind.
  pub record IsFiled (q : HotStuffTboQueue) : Type 0 where
    pub of_votes : (t : VoteTypes) → All (λ m. kind m ≡ votes t) (vote_queue q.vote_messages t)
    pub of_proposals :
        (t : ProposalTypes) → All (λ m. kind m ≡ proposes t) (proposal_queue q.proposal_messages t)

  pub default_queue-IsFiled : IsFiled default_queue
  unfolding default_queue
  default_queue-IsFiled = record {
    of_votes = elim [
      | VoteTypes.new_view ↦ tt
      | VoteTypes.prepare_vote ↦ tt
      | VoteTypes.pre_commit_vote ↦ tt
      | VoteTypes.commit_vote ↦ tt
    ];
    of_proposals = elim [
      | ProposalTypes.prepare ↦ tt
      | ProposalTypes.pre_commit ↦ tt
      | ProposalTypes.commit ↦ tt
      | ProposalTypes.decide ↦ tt
    ];
  }

  push_to-IsFiled :
      (type : HotFeOxMsgType) (m : Message) (q : HotStuffTboQueue)
      → kind m ≡ kind_of_type type
      → IsFiled q
      → IsFiled (push_to type m q)
  unfolding push_to
  push_to-IsFiled (proposal p) m q e f = record {
    of_votes = f.of_votes;
    of_proposals =
        proposal_queue-set (λ t. All (λ m. kind m ≡ proposes t)) q.proposal_messages _ _
          (All-append _ _ (m ∷ []) (f.of_proposals (proposal_types p.proposal_type)) (e, tt))
          f.of_proposals;
  }
  push_to-IsFiled (vote v) m q e f = record {
    of_votes =
        vote_queue-set (λ t. All (λ m. kind m ≡ votes t)) q.vote_messages _ _
          (All-append _ _ (m ∷ []) (f.of_votes (vote_types v.vote_type)) (e, tt)) f.of_votes;
    of_proposals = f.of_proposals;
  }

  -- A message that is queued goes to the queue of its kind.
  pub queue_message-IsFiled :
      (q : HotStuffTboQueue) (m : Message) → IsFiled q → IsFiled (queue_message q m)
  unfolding queue_message
  queue_message-IsFiled q m f = push_to-IsFiled m.message.message m q refl f

  pub pop_vote-IsFiled :
      (q : HotStuffTboQueue) (t : VoteTypes) → IsFiled q → IsFiled (pop_vote q t).1
  unfolding pop_vote
  pop_vote-IsFiled q t f = record {
    of_votes =
        vote_queue-set (λ u. All (λ m. kind m ≡ votes u)) q.vote_messages t _
          (All-pop_front _ (vote_queue q.vote_messages t) (f.of_votes t)) f.of_votes;
    of_proposals = f.of_proposals;
  }

  pub pop_proposal-IsFiled :
      (q : HotStuffTboQueue) (t : ProposalTypes) → IsFiled q → IsFiled (pop_proposal q t).1
  unfolding pop_proposal
  pop_proposal-IsFiled q t f = record {
    of_votes = f.of_votes;
    of_proposals =
        proposal_queue-set (λ u. All (λ m. kind m ≡ proposes u)) q.proposal_messages t _
          (All-pop_front _ (proposal_queue q.proposal_messages t) (f.of_proposals t))
          f.of_proposals;
  }

  pub pop_vote-kind :
      (q : HotStuffTboQueue) (t : VoteTypes) {m : Message}
      → IsFiled q
      → (pop_vote q t).0 ≡ some m
      → kind m ≡ votes t
  unfolding pop_vote
  pop_vote-kind q t f e =
      pop_front-All (λ m. kind m ≡ votes t) (vote_queue q.vote_messages t) (f.of_votes t) e

  pub pop_proposal-kind :
      (q : HotStuffTboQueue) (t : ProposalTypes) {m : Message}
      → IsFiled q
      → (pop_proposal q t).0 ≡ some m
      → kind m ≡ proposes t
  unfolding pop_proposal
  pop_proposal-kind q t f e =
      pop_front-All (λ m. kind m ≡ proposes t) (proposal_queue q.proposal_messages t)
        (f.of_proposals t) e
