-- ===== src/HotIron/Queue/Conservation.antt =====
-- The queue of src/hot_iron/protocol/msg_queue/mod.rs neither loses a message nor makes one up.
use hot_iron_oxide.Base.{
  ℕ, ◌+◌, ◌≡◌, refl, Bool, true, false, Option, none, some, List, [], ◌∷◌, arith, to_nat, count_if,
  count_option, count_if-append, count_if-pop_front, pop_front, push_back,
}
use hot_iron_oxide.Atlas.{Atlas}
use hot_iron_oxide.HotIron.Messages.{
  VoteTypes, ProposalTypes, HotFeOxMsgType, proposal, vote, vote_types, proposal_types,
}
use hot_iron_oxide.HotIron.Queue.{
  VoteQueues, ProposalQueues, vote_queue, set_vote_queue, proposal_queue, set_proposal_queue,
  DecisionState, Message, HotStuffTboQueue, push_to, queue_message, pop_vote, pop_proposal,
  get_message_for_type, message_for_state, mark_drained, get_message_for,
}

module _ {ℓ} {A : Type ℓ} (p : A → Bool) where
  of_votes : VoteQueues A → ℕ
  of_votes q =
      count_if p q.new_view
      + count_if p q.prepare_vote
      + count_if p q.pre_commit_vote
      + count_if p q.commit_vote

  of_proposals : ProposalQueues A → ℕ
  of_proposals q =
      count_if p q.prepare + count_if p q.pre_commit + count_if p q.commit + count_if p q.decide

  of_votes-set :
      (q : VoteQueues A) (t : VoteTypes) (xs : List A)
      → of_votes (set_vote_queue q t xs) + count_if p (vote_queue q t) ≡ of_votes q + count_if p xs
  unfolding of_votes
  of_votes-set q VoteTypes.new_view xs = omega arith
  of_votes-set q VoteTypes.prepare_vote xs = omega arith
  of_votes-set q VoteTypes.pre_commit_vote xs = omega arith
  of_votes-set q VoteTypes.commit_vote xs = omega arith

  of_proposals-set :
      (q : ProposalQueues A) (t : ProposalTypes) (xs : List A)
      → of_proposals (set_proposal_queue q t xs) + count_if p (proposal_queue q t)
        ≡ of_proposals q + count_if p xs
  unfolding of_proposals
  of_proposals-set q ProposalTypes.prepare xs = omega arith
  of_proposals-set q ProposalTypes.pre_commit xs = omega arith
  of_proposals-set q ProposalTypes.commit xs = omega arith
  of_proposals-set q ProposalTypes.decide xs = omega arith

module _ ⦃atlas : Atlas⦄ (p : Message → Bool) where
  -- How many of the kept messages pass the test, in all the queues together.
  pub pending : HotStuffTboQueue → ℕ
  pending q = of_votes p q.vote_messages + of_proposals p q.proposal_messages

  pending-push_to :
      (type : HotFeOxMsgType) (m : Message) (q : HotStuffTboQueue)
      → pending (push_to type m q) ≡ pending q + to_nat (p m)
  unfolding pending push_to
  pending-push_to (proposal t) m q =
      let k = proposal_types t.proposal_type in
      let old = proposal_queue q.proposal_messages k in
      omega (
        arith,
        of_proposals-set p q.proposal_messages k (push_back old m),
        count_if-append p old (m ∷ []),
      )
  pending-push_to (vote t) m q =
      let k = vote_types t.vote_type in
      let old = vote_queue q.vote_messages k in
      omega
        (arith, of_votes-set p q.vote_messages k (push_back old m), count_if-append p old (m ∷ []))

  -- Queueing a message adds it, once: of the messages that pass a test, there is one more if it does.
  pub pending-queue_message :
      (q : HotStuffTboQueue) (m : Message) → pending (queue_message q m) ≡ pending q + to_nat (p m)
  unfolding queue_message
  pending-queue_message q m = pending-push_to m.message.message m q

  -- What was handed out, and what is kept.
  abbrev total : Option Message × HotStuffTboQueue → ℕ
  total r = count_option p r.0 + pending r.1

  total-pop_vote : (q : HotStuffTboQueue) (t : VoteTypes) → total (pop_vote q t) ≡ pending q
  unfolding pop_vote pending
  total-pop_vote q t =
      let old = vote_queue q.vote_messages t in
      omega (arith, of_votes-set p q.vote_messages t (pop_front old).1, count_if-pop_front p old)

  total-pop_proposal :
      (q : HotStuffTboQueue) (t : ProposalTypes) → total (pop_proposal q t) ≡ pending q
  unfolding pop_proposal pending
  total-pop_proposal q t =
      let old = proposal_queue q.proposal_messages t in
      omega (
        arith,
        of_proposals-set p q.proposal_messages t (pop_front old).1,
        count_if-pop_front p old,
      )

  total_leader :
      (front : Option Message) (q : HotStuffTboQueue) (v : VoteTypes)
      → total (elim front [ some m ↦ (some m, q) | none ↦ pop_vote q v ]) ≡ total (front, q)
  total_leader (some m) q v = refl
  total_leader none q v = omega (arith, total-pop_vote q v)

  total-get_message_for_type :
      (q : HotStuffTboQueue) (l : Bool) (t : ProposalTypes) (v : VoteTypes)
      → total (get_message_for_type q l t v) ≡ pending q
  unfolding get_message_for_type
  total-get_message_for_type q true t v =
      omega
        (arith, total_leader (pop_proposal q t).0 (pop_proposal q t).1 v, total-pop_proposal q t)
  total-get_message_for_type q false t v = total-pop_vote q v

  total-mark_drained : (r : Option Message × HotStuffTboQueue) → total (mark_drained r) ≡ total r
  unfolding mark_drained pending
  total-mark_drained (none, q) = refl
  total-mark_drained (some m, q) = refl

  total-message_for_state :
      (q : HotStuffTboQueue) (l : Bool) (s : DecisionState)
      → total (message_for_state q l s) ≡ pending q
  unfolding message_for_state
  total-message_for_state q l (DecisionState.prepare _ _) = total-get_message_for_type q l _ _
  total-message_for_state q l (DecisionState.pre_commit _ _) = total-get_message_for_type q l _ _
  total-message_for_state q l (DecisionState.commit _ _) = total-get_message_for_type q l _ _
  total-message_for_state q l (DecisionState.decide _ _) = total-get_message_for_type q l _ _
  total-message_for_state q l _ = omega arith

  -- Polling loses nothing: of the messages that pass the test, those handed out and those kept
  -- make up those that were there.
  pub pending-get_message_for :
      (q : HotStuffTboQueue) (l : Bool) (s : DecisionState)
      → count_option p (get_message_for q l s).0 + pending (get_message_for q l s).1 ≡ pending q
  unfolding get_message_for
  pending-get_message_for q l s =
      omega (arith, total-mark_drained (message_for_state q l s), total-message_for_state q l s)
