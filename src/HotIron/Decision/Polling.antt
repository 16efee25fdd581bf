-- ===== src/HotIron/Decision/Polling.antt =====
-- The rule by which statements about `poll` of src/hot_iron/protocol/decision/mod.rs are proved.
use hot_iron_oxide.Base.{◌≡◌, refl, false, List, [], ◌∷◌, if_rule}
use hot_iron_oxide.Atlas.{Atlas}
use hot_iron_oxide.Tree.{DecisionHandler}
use hot_iron_oxide.HotIron.Messages.{Qc, VoteType, VoteEncoding, Outgoing}
use hot_iron_oxide.HotIron.Queue.{DecisionState, HotStuffTboQueue, should_poll}
use hot_iron_oxide.HotIron.Decision.{
  HsDecision, DecisionPollResult, recv, signed_vote, poll_queue, poll_state, poll,
}

module _ ⦃atlas : Atlas⦄ where
  module _ ⦃encoding : VoteEncoding⦄ where
    -- A poll starts the decision, or it leaves all but the queue as it was.
    pub poll_rule :
        (P : HsDecision × List Outgoing × DecisionPollResult → Type 0) (d : HsDecision)
        (handler : DecisionHandler Qc)
        → (d.current_state ≡ DecisionState.init
            → P (
              record d { current_state = DecisionState.prepare false 0 },
              signed_vote d (VoteType.new_view handler.latest_qc) ∷ [],
              recv,
            ))
        → ((q : HotStuffTboQueue) (result : DecisionPollResult)
            → P (record d { decision_queue = q }, [], result))
        → P (poll d handler)
    unfolding poll
    poll_rule P d handler a b = by_state d.current_state (λ e. a e)
      where
        from_queue : P (let (d', result) = poll_queue d in (d', [], result))
        from_queue =
            if_rule (λ (r : HsDecision × DecisionPollResult). P (r.0, [], r.1))
              (should_poll d.decision_queue) (λ _. b _ _) (λ _. b _ _)

        by_state :
            (s : DecisionState)
            → (s ≡ DecisionState.init
                → P (
                  record d { current_state = DecisionState.prepare false 0 },
                  signed_vote d (VoteType.new_view handler.latest_qc) ∷ [],
                  recv,
                ))
            → P (poll_state s d handler)
        by_state DecisionState.init a = a refl
        by_state (DecisionState.prepare _ _) a = from_queue
        by_state (DecisionState.pre_commit _ _) a = from_queue
        by_state (DecisionState.commit _ _) a = from_queue
        by_state (DecisionState.decide _ _) a = from_queue
        by_state DecisionState.finally a = b d.decision_queue _
        by_state DecisionState.next_view a = b d.decision_queue _
