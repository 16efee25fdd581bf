-- ===== src/HotIron/Queue/Delivery.antt =====
-- What the queue of src/hot_iron/protocol/msg_queue/mod.rs gives back, and what it never does.
use hot_iron_oxide.Base.{
  ◌≡◌, ◌≢◌, refl, ◌⊎◌, inl, inr, Bool, true, false, Option, none, some, ℕ, subst, sym,
  some_injective,
}
use hot_iron_oxide.Atlas.{Atlas}
use hot_iron_oxide.HotIron.Messages.{VoteTypes, ProposalTypes}
use hot_iron_oxide.HotIron.Queue.{
  DecisionState, Message, HotStuffTboQueue, pop_vote, pop_proposal, get_message_for_type,
  mark_drained, get_message_for,
}
use hot_iron_oxide.HotIron.Queue.Filing.{
  Kind, votes, proposes, kind, IsFiled, pop_vote-IsFiled, pop_proposal-IsFiled, pop_vote-kind,
  pop_proposal-kind,
}

module _ ⦃atlas : Atlas⦄ where
  -- The outcome of a request for one type of proposal and one of vote.
  abbrev Delivers : Bool → ProposalTypes → VoteTypes → Option Message × HotStuffTboQueue → Type 0
  Delivers is_leader p v (none, q) = IsFiled q
  Delivers is_leader p v (some m, q) =
      IsFiled q × ((kind m ≡ votes v) ⊎ ((is_leader ≡ true) × (kind m ≡ proposes p)))

  vote_Delivers :
      (l : Bool) (p : ProposalTypes) (v : VoteTypes) (r : Option Message × HotStuffTboQueue)
      → IsFiled r.1
      → ((m : Message) → r.0 ≡ some m → kind m ≡ votes v)
      → Delivers l p v r
  vote_Delivers l p v (none, q) f k = f
  vote_Delivers l p v (some m, q) f k = (f, inl (k m refl))

  leader_Delivers :
      (p : ProposalTypes) (v : VoteTypes) (front : Option Message) (q : HotStuffTboQueue)
      → IsFiled q
      → ((m : Message) → front ≡ some m → kind m ≡ proposes p)
      → Delivers true p v (elim front [ some m ↦ (some m, q) | none ↦ pop_vote q v ])
  leader_Delivers p v (some m) q f k = (f, inr (refl, k m refl))
  leader_Delivers p v none q f k =
      vote_Delivers true p v (pop_vote q v) (pop_vote-IsFiled q v f) (λ m. pop_vote-kind q v f)

  get_message_for_type-Delivers :
      (q : HotStuffTboQueue) (l : Bool) (p : ProposalTypes) (v : VoteTypes)
      → IsFiled q
      → Delivers l p v (get_message_for_type q l p v)
  unfolding get_message_for_type
  get_message_for_type-Delivers q true p v f =
      leader_Delivers p v (pop_proposal q p).0 (pop_proposal q p).1 (pop_proposal-IsFiled q p f)
        (λ m. pop_proposal-kind q p f)
  get_message_for_type-Delivers q false p v f =
      vote_Delivers false p v (pop_vote q v) (pop_vote-IsFiled q v f) (λ m. pop_vote-kind q v f)

  -- What a poll may hand to a node: a vote of the kind that the phase collects, or, to a leader
  -- only, the proposal of the phase. Of the phase `Decide` the vote kind is the new view.
  pub data Fits (is_leader : Bool) : DecisionState → Kind → Type 0 where
    prepare_vote :
        {b : Bool} {n : ℕ} → Fits is_leader (DecisionState.prepare b n) (votes VoteTypes.new_view)
    pre_commit_vote :
        {b : Bool} {n : ℕ}
        → Fits is_leader (DecisionState.pre_commit b n) (votes VoteTypes.prepare_vote)
    commit_vote :
        {b : Bool} {n : ℕ}
        → Fits is_leader (DecisionState.commit b n) (votes VoteTypes.pre_commit_vote)
    decide_vote :
        {b : Bool} {n : ℕ} → Fits is_leader (DecisionState.decide b n) (votes VoteTypes.new_view)
    prepare_proposal :
        {b : Bool} {n : ℕ}
        → is_leader ≡ true
        → Fits is_leader (DecisionState.prepare b n) (proposes ProposalTypes.prepare)
    pre_commit_proposal :
        {b : Bool} {n : ℕ}
        → is_leader ≡ true
        → Fits is_leader (DecisionState.pre_commit b n) (proposes ProposalTypes.pre_commit)
    commit_proposal :
        {b : Bool} {n : ℕ}
        → is_leader ≡ true
        → Fits is_leader (DecisionState.commit b n) (proposes ProposalTypes.commit)
    decide_proposal :
        {b : Bool} {n : ℕ}
        → is_leader ≡ true
        → Fits is_leader (DecisionState.decide b n) (proposes ProposalTypes.decide)

  Fits-follower :
      {s : DecisionState} {k : Kind} {p : ProposalTypes} → Fits false s k → k ≢ proposes p
  Fits-follower prepare_vote e = cc
  Fits-follower (prepare_proposal h) e = cc
  Fits-follower (pre_commit_proposal h) e = cc
  Fits-follower (commit_proposal h) e = cc
  Fits-follower (decide_proposal h) e = cc
  Fits-follower _ e = cc

  -- The same outcome once the flag is set.
  Fitting : Bool → DecisionState → Option Message × HotStuffTboQueue → Type 0
  Fitting l s r = IsFiled r.1 × ((m : Message) → r.0 ≡ some m → Fits l s (kind m))

  mark_drained-Fitting :
      (l : Bool) (s : DecisionState) (p : ProposalTypes) (v : VoteTypes)
      (r : Option Message × HotStuffTboQueue)
      → Fits l s (votes v)
      → (l ≡ true → Fits l s (proposes p))
      → Delivers l p v r
      → Fitting l s (mark_drained r)
  unfolding mark_drained Fitting
  mark_drained-Fitting l s p v (none, q) fv fp d =
      (record { of_votes = d.of_votes; of_proposals = d.of_proposals }, λ m e. cc)
  mark_drained-Fitting l s p v (some m, q) fv fp (f, inl e) =
      (f, λ m' e'. subst (λ x. Fits l s (kind x)) (some_injective e') (subst (Fits l s) (sym e) fv))
  mark_drained-Fitting l s p v (some m, q) fv fp (f, inr (t, e)) = (
    f,
    λ m' e'. subst (λ x. Fits l s (kind x)) (some_injective e') (subst (Fits l s) (sym e) (fp t)),
  )

  get_message_for-Fitting :
      (q : HotStuffTboQueue) (l : Bool) (s : DecisionState)
      → IsFiled q
      → Fitting l s (get_message_for q l s)
  unfolding get_message_for Fitting
  get_message_for-Fitting q l (DecisionState.prepare b n) f =
      mark_drained-Fitting l _ ProposalTypes.prepare VoteTypes.new_view _ prepare_vote
        prepare_proposal (get_message_for_type-Delivers q l _ _ f)
  get_message_for-Fitting q l (DecisionState.pre_commit b n) f =
      mark_drained-Fitting l _ ProposalTypes.pre_commit VoteTypes.prepare_vote _ pre_commit_vote
        pre_commit_proposal (get_message_for_type-Delivers q l _ _ f)
  get_message_for-Fitting q l (DecisionState.commit b n) f =
      mark_drained-Fitting l _ ProposalTypes.commit VoteTypes.pre_commit_vote _ commit_vote
        commit_proposal (get_message_for_type-Delivers q l _ _ f)
  get_message_for-Fitting q l (DecisionState.decide b n) f =
      mark_drained-Fitting l _ ProposalTypes.decide VoteTypes.new_view _ decide_vote decide_proposal
        (get_message_for_type-Delivers q l _ _ f)
  get_message_for-Fitting q l _ f =
      (record { of_votes = f.of_votes; of_proposals = f.of_proposals }, λ m e. cc)

  -- Polling keeps every message in the queue of its kind.
  pub get_message_for-IsFiled :
      (q : HotStuffTboQueue) (l : Bool) (s : DecisionState)
      → IsFiled q
      → IsFiled (get_message_for q l s).1
  unfolding Fitting
  get_message_for-IsFiled q l s f = (get_message_for-Fitting q l s f).0

  -- A message that a poll hands out fits the phase, from a queue where each message stands with
  -- those of its kind.
  pub get_message_for-Fits :
      (q : HotStuffTboQueue) (l : Bool) (s : DecisionState) (m : Message)
      → IsFiled q
      → (get_message_for q l s).0 ≡ some m
      → Fits l s (kind m)
  unfolding Fitting
  get_message_for-Fits q l s m f = (get_message_for-Fitting q l s f).1 m

  -- From a queue where each message stands with those of its kind, no poll hands a proposal, of any
  -- kind, to a node that does not lead.
  pub get_message_for-follower :
      (q : HotStuffTboQueue) (s : DecisionState) (m : Message) (p : ProposalTypes)
      → IsFiled q
      → (get_message_for q false s).0 ≡ some m
      → kind m ≢ proposes p
  get_message_for-follower q s m p f e = Fits-follower (get_message_for-Fits q false s m f e)
