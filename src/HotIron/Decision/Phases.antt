-- ===== src/HotIron/Decision/Phases.antt =====
-- The phases of a decision (src/hot_iron/protocol/decision/mod.rs): which vote and which proposal
-- each of them waits for, and the rule by which statements about `process_message` are proved.
use hot_iron_oxide.Base.{ℕ, ◌≡◌, refl, Bool, true, Run, if_rule, and_right}
use hot_iron_oxide.Atlas.{Atlas}
use hot_iron_oxide.HotIron.Messages.{
  VoteTypes, VoteType, VoteMessage, ProposalTypes, ProposalType, ProposalMessage, HotFeOxMsgType,
  proposal, vote, vote_types, proposal_types, VoteEncoding,
}
use hot_iron_oxide.HotIron.Queue.{DecisionState, Message}
use hot_iron_oxide.HotIron.Decision.{World, Processed, is_leader}
use hot_iron_oxide.HotIron.Decision.Leader.{process_message_leader}
use hot_iron_oxide.HotIron.Decision.Replica.{process_message_replica}
use hot_iron_oxide.HotIron.Decision.Dispatch.{
  ignore, keep, is_from_leader, process_message_prepare_leader, process_message_pre_commit_leader,
  process_message_commit_leader, process_message_decide_leader, process_message_prepare,
  process_message_pre_commit, process_message_commit, process_message_decide, process_in_state,
  process_message,
}

-- The vote that a leader counts in a phase.
pub data AwaitsVote : DecisionState → VoteTypes → Type 0 where
  prepare : {b : Bool} {n : ℕ} → AwaitsVote (DecisionState.prepare b n) VoteTypes.new_view
  pre_commit : {b : Bool} {n : ℕ} → AwaitsVote (DecisionState.pre_commit b n) VoteTypes.prepare_vote
  commit : {b : Bool} {n : ℕ} → AwaitsVote (DecisionState.commit b n) VoteTypes.pre_commit_vote
  decide : {b : Bool} {n : ℕ} → AwaitsVote (DecisionState.decide b n) VoteTypes.commit_vote

-- The proposal that a replica answers in a phase.
pub data AwaitsProposal : DecisionState → ProposalTypes → Type 0 where
  prepare : {b : Bool} {n : ℕ} → AwaitsProposal (DecisionState.prepare b n) ProposalTypes.prepare
  pre_commit :
      {b : Bool} {n : ℕ} → AwaitsProposal (DecisionState.pre_commit b n) ProposalTypes.pre_commit
  commit : {b : Bool} {n : ℕ} → AwaitsProposal (DecisionState.commit b n) ProposalTypes.commit
  decide : {b : Bool} {n : ℕ} → AwaitsProposal (DecisionState.decide b n) ProposalTypes.decide

module _ ⦃atlas : Atlas⦄ ⦃encoding : VoteEncoding⦄ (P : Run Processed → Type 0) (w : World)
    (sender : atlas.NodeId) (curr : atlas.SeqNo) where
  abbrev message_of : HotFeOxMsgType → Message
  message_of t = record { from = sender; message = record { curr_view = curr; message = t } }

  abbrev vote_of : VoteType → atlas.PartialSignature → Message
  vote_of vt s = message_of (vote (record { vote_type = vt; signature = s }))

  abbrev proposal_of : ProposalType → Message
  proposal_of pt = message_of (proposal (record { proposal_type = pt }))

  -- For a vote: dropped, kept, or given to the leader's method in the phase that awaits it.
  abbrev VoteRule : (World → Message → Run Processed) → DecisionState → Type 0
  VoteRule method state =
      (vt : VoteType) (s : atlas.PartialSignature)
      → P (ignore w)
      → P (keep w (vote_of vt s))
      → (AwaitsVote state (vote_types vt) → P (process_message_leader w (vote_of vt s)))
      → P (method w (vote_of vt s))

  abbrev ProposalRule : (World → Message → Run Processed) → DecisionState → Type 0
  ProposalRule method state =
      (pt : ProposalType)
      → P (ignore w)
      → P (keep w (proposal_of pt))
      → (is_from_leader w (proposal_of pt) ≡ true
          → AwaitsProposal state (proposal_types pt)
          → P (process_message_replica w (proposal_of pt)))
      → P (method w (proposal_of pt))

  module _ (b : Bool) (n : ℕ) where
    prepare_leader_rule : VoteRule process_message_prepare_leader (DecisionState.prepare b n)
    unfolding process_message_prepare_leader
    prepare_leader_rule (VoteType.new_view q) s i k l = if_rule P _ (λ _. l prepare) (λ _. i)
    prepare_leader_rule _ s i k l = if_rule P _ (λ _. k) (λ _. i)

    pre_commit_leader_rule :
        VoteRule process_message_pre_commit_leader (DecisionState.pre_commit b n)
    unfolding process_message_pre_commit_leader
    pre_commit_leader_rule (VoteType.prepare_vote q) s i k l =
        if_rule P _ (λ _. l pre_commit) (λ _. i)
    pre_commit_leader_rule _ s i k l = if_rule P _ (λ _. k) (λ _. i)

    commit_leader_rule : VoteRule process_message_commit_leader (DecisionState.commit b n)
    unfolding process_message_commit_leader
    commit_leader_rule (VoteType.pre_commit_vote q) s i k l = if_rule P _ (λ _. l commit) (λ _. i)
    commit_leader_rule (VoteType.prepare_vote q) s i k l = if_rule P _ (λ _. i) (λ _. i)
    commit_leader_rule _ s i k l = if_rule P _ (λ _. k) (λ _. i)

    decide_leader_rule : VoteRule process_message_decide_leader (DecisionState.decide b n)
    unfolding process_message_decide_leader
    decide_leader_rule (VoteType.commit_vote q) s i k l = if_rule P _ (λ _. l decide) (λ _. i)
    decide_leader_rule _ s i k l = if_rule P _ (λ _. i) (λ _. i)

    prepare_rule : ProposalRule process_message_prepare (DecisionState.prepare b n)
    unfolding process_message_prepare
    prepare_rule (ProposalType.prepare x q) i k l =
        if_rule P _ (λ h. l (and_right _ _ h) prepare) (λ _. i)
    prepare_rule _ i k l = if_rule P _ (λ _. k) (λ _. i)

    pre_commit_rule : ProposalRule process_message_pre_commit (DecisionState.pre_commit b n)
    unfolding process_message_pre_commit
    pre_commit_rule (ProposalType.pre_commit q) i k l =
        if_rule P _ (λ h. l (and_right _ _ h) pre_commit) (λ _. i)
    pre_commit_rule (ProposalType.prepare x q) i k l = if_rule P _ (λ _. i) (λ _. i)
    pre_commit_rule _ i k l = if_rule P _ (λ _. k) (λ _. i)

    commit_rule : ProposalRule process_message_commit (DecisionState.commit b n)
    unfolding process_message_commit
    commit_rule (ProposalType.commit q) i k l =
        if_rule P _ (λ h. l (and_right _ _ h) commit) (λ _. i)
    commit_rule (ProposalType.decide q) i k l = if_rule P _ (λ _. k) (λ _. i)
    commit_rule _ i k l = if_rule P _ (λ _. i) (λ _. i)

    decide_rule : ProposalRule process_message_decide (DecisionState.decide b n)
    unfolding process_message_decide
    decide_rule (ProposalType.decide q) i k l =
        if_rule P _ (λ h. l (and_right _ _ h) decide) (λ _. i)
    decide_rule _ i k l = if_rule P _ (λ _. i) (λ _. i)

  -- The rule for a vote in a given state: the leader's method is called if the node leads.
  vote_rule :
      (state : DecisionState) (vt : VoteType) (s : atlas.PartialSignature)
      → P (ignore w)
      → P (keep w (vote_of vt s))
      → (is_leader w.decision ≡ true
          → AwaitsVote state (vote_types vt)
          → P (process_message_leader w (vote_of vt s)))
      → P (process_in_state state w (vote_of vt s))
  unfolding process_in_state process_message_prepare process_message_pre_commit
      process_message_commit process_message_decide
  vote_rule DecisionState.init vt s i k l = k
  vote_rule (DecisionState.prepare b n) vt s i k l =
      if_rule P _ (λ h. prepare_leader_rule b n vt s i k (l h)) (λ _. i)
  vote_rule (DecisionState.pre_commit b n) vt s i k l =
      if_rule P _ (λ h. pre_commit_leader_rule b n vt s i k (l h)) (λ _. i)
  vote_rule (DecisionState.commit b n) vt s i k l =
      if_rule P _ (λ h. commit_leader_rule b n vt s i k (l h)) (λ _. i)
  vote_rule (DecisionState.decide b n) vt s i k l =
      if_rule P _ (λ h. decide_leader_rule b n vt s i k (l h)) (λ _. i)
  vote_rule DecisionState.finally vt s i k l = i
  vote_rule DecisionState.next_view vt s i k l = i

  -- The rule for a proposal: all nodes answer those of their leader.
  proposal_rule :
      (state : DecisionState) (pt : ProposalType)
      → P (ignore w)
      → P (keep w (proposal_of pt))
      → (is_from_leader w (proposal_of pt) ≡ true
          → AwaitsProposal state (proposal_types pt)
          → P (process_message_replica w (proposal_of pt)))
      → P (process_in_state state w (proposal_of pt))
  unfolding process_in_state
  proposal_rule DecisionState.init pt i k l = k
  proposal_rule (DecisionState.prepare b n) pt i k l =
      let r = prepare_rule b n pt i k l in if_rule P _ (λ _. r) (λ _. r)
  proposal_rule (DecisionState.pre_commit b n) pt i k l =
      let r = pre_commit_rule b n pt i k l in if_rule P _ (λ _. r) (λ _. r)
  proposal_rule (DecisionState.commit b n) pt i k l =
      let r = commit_rule b n pt i k l in if_rule P _ (λ _. r) (λ _. r)
  proposal_rule (DecisionState.decide b n) pt i k l =
      let r = decide_rule b n pt i k l in if_rule P _ (λ _. r) (λ _. r)
  proposal_rule DecisionState.finally pt i k l = i
  proposal_rule DecisionState.next_view pt i k l = i

  message_rule :
      (t : HotFeOxMsgType)
      → P (ignore w)
      → P (keep w (message_of t))
      → ((v : VoteMessage)
          → t ≡ vote v
          → is_leader w.decision ≡ true
          → AwaitsVote w.decision.current_state (vote_types v.vote_type)
          → P (process_message_leader w (message_of t)))
      → ((p : ProposalMessage)
          → t ≡ proposal p
          → is_from_leader w (message_of t) ≡ true
          → AwaitsProposal w.decision.current_state (proposal_types p.proposal_type)
          → P (process_message_replica w (message_of t)))
      → P (process_in_state w.decision.current_state w (message_of t))
  message_rule (vote v) i k l r =
      vote_rule w.decision.current_state v.vote_type v.signature i k (l v refl)
  message_rule (proposal p) i k l r =
      proposal_rule w.decision.current_state p.proposal_type i k (r p refl)

-- To prove a statement about processing a message, prove it for a message that is ignored, for one
-- that is kept, for a vote that the leader awaits, and for a proposal of the leader that is awaited.
pub process_message_rule :
    ⦃atlas : Atlas⦄ ⦃encoding : VoteEncoding⦄ (P : Run Processed → Type 0) (w : World) (m : Message)
    → P (ignore w)
    → P (keep w m)
    → ((v : VoteMessage)
        → m.message.message ≡ vote v
        → is_leader w.decision ≡ true
        → AwaitsVote w.decision.current_state (vote_types v.vote_type)
        → P (process_message_leader w m))
    → ((p : ProposalMessage)
        → m.message.message ≡ proposal p
        → is_from_leader w m ≡ true
        → AwaitsProposal w.decision.current_state (proposal_types p.proposal_type)
        → P (process_message_replica w m))
    → P (process_message w m)
unfolding process_message
process_message_rule P w m i k l r =
    if_rule P _ (λ _. message_rule P w m.from m.message.curr_view m.message.message i k l r)
      (λ _. i)
