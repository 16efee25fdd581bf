-- ===== src/HotIron/Decision/Counting.antt =====
-- How the leader counts votes (src/hot_iron/protocol/decision/mod.rs).
use hot_iron_oxide.Base.{
  ◌≡◌, refl, ℕ, ◌+◌, Bool, true, false, some, Ends, Returns, Ends-Returns, if_rule, arith,
}
use hot_iron_oxide.Atlas.{Atlas}
use hot_iron_oxide.Tree.{safe_node}
use hot_iron_oxide.HotIron.Messages.{
  qc_certificate, VoteMessage, VoteType, proposal_types, VoteTypes, vote, vote_types, VoteEncoding,
}
use hot_iron_oxide.HotIron.Queue.{DecisionState, Message}
use hot_iron_oxide.HotIron.Log.{Result, done}
use hot_iron_oxide.HotIron.Decision.{
  World, Processed, DecisionResult, DecisionError, counts, with_counts, is_leader, duplicate_vote,
}
use hot_iron_oxide.HotIron.Decision.Leader.{announce, logged, process_message_leader}
use hot_iron_oxide.HotIron.Decision.Replica.{
  is_extension_of_known_node, prepare_node, later_phase, respond,
}
use hot_iron_oxide.HotIron.Decision.Dispatch.{
  process_message, is_of_view, process_message_prepare_leader, process_message_pre_commit_leader,
  process_message_commit_leader, process_message_decide_leader, process_in_state,
}
use hot_iron_oxide.HotIron.Decision.Phases.{AwaitsVote}
use hot_iron_oxide.HotIron.Decision.Consistency.{IsConsistent}
use hot_iron_oxide.HotIron.Decision.Progress.{with_counts_lem}
use hot_iron_oxide.HotIron.Decision.Rules.{
  propose_rule, replica_phase_rule, leader_rule, process_rule,
}

module _ ⦃atlas : Atlas⦄ ⦃encoding : VoteEncoding⦄ where
  abbrev pub is_duplicate : Result DecisionError DecisionResult → Bool
  is_duplicate (done (duplicate_vote n)) = true
  is_duplicate _ = false

  abbrev NotDuplicate : Processed → Type 0
  NotDuplicate r = is_duplicate r.1 ≡ false

  -- The result that would report a vote as a duplicate is never given, for no message and in no
  -- state of a consistent decision.
  pub process_message-ne-duplicate_vote :
      (w : World) (m : Message)
      → IsConsistent w.decision
      → Returns (process_message w m) (λ r. is_duplicate r.1 ≡ false)
  unfolding announce prepare_node later_phase respond
  process_message-ne-duplicate_vote w m c = Ends-Returns _ (
      process_rule NotDuplicate w m c refl refl (λ v l sent n e k. refl)
        (λ v l sent n log k _.
          if_rule (λ r. is_duplicate (done r) ≡ false) sent (λ _. refl) (λ _. refl))
        (λ v l _ _ n q log k e h.
          propose_rule NotDuplicate _ m log (λ pool e. refl) v.vote_type (λ pool pt _. refl))
        (λ p e f a.
          replica_phase_rule (λ s. Ends NotDuplicate) w m
            (λ b n node qc.
              if_rule NotDuplicate
                (safe_node qc_certificate is_extension_of_known_node w.handler node qc) (λ _. refl)
                (λ _. refl))
            (λ b n qc. refl) (λ b n qc. refl) (λ b n qc. refl) w.decision.current_state
            (proposal_types p.proposal_type) p.proposal_type a refl))

  process_in_state_lem :
      (s : DecisionState) (w : World) (m : Message) (vt : VoteType) (sig : atlas.PartialSignature)
      (t : VoteTypes)
      → AwaitsVote s t
      → t ≡ vote_types vt
      → m.message.message ≡ vote (record { vote_type = vt; signature = sig })
      → is_of_view w m ≡ true
      → is_leader w.decision ≡ true
      → process_in_state s w m ≡ process_message_leader w m
  unfolding process_in_state process_message_prepare_leader process_message_pre_commit_leader
      process_message_commit_leader process_message_decide_leader
  process_in_state_lem _ w m (VoteType.new_view q) sig _ AwaitsVote.prepare k e o l = ground arith
  process_in_state_lem _ w m vt sig _ AwaitsVote.prepare k e o l = cc
  process_in_state_lem _ w m (VoteType.prepare_vote q) sig _ AwaitsVote.pre_commit k e o l =
      ground arith
  process_in_state_lem _ w m vt sig _ AwaitsVote.pre_commit k e o l = cc
  process_in_state_lem _ w m (VoteType.pre_commit_vote q) sig _ AwaitsVote.commit k e o l =
      ground arith
  process_in_state_lem _ w m vt sig _ AwaitsVote.commit k e o l = cc
  process_in_state_lem _ w m (VoteType.commit_vote q) sig _ AwaitsVote.decide k e o l = ground arith
  process_in_state_lem _ w m vt sig _ AwaitsVote.decide k e o l = cc

  abbrev Counts : ℕ → Processed → Type 0
  Counts n r = (sent : Bool) × (counts r.0.decision.current_state ≡ some (sent, n))

  -- The leader of a consistent decision that is given a vote of its view and of the kind that its
  -- phase awaits counts it: the count grows by one, whoever the voter is, whether it voted before or
  -- not, and also if the vote is reported as an error.
  pub process_message-Counts :
      (w : World) (m : Message) (v : VoteMessage) (sent : Bool) (n : ℕ)
      → IsConsistent w.decision
      → m.message.message ≡ vote v
      → is_of_view w m ≡ true
      → is_leader w.decision ≡ true
      → AwaitsVote w.decision.current_state (vote_types v.vote_type)
      → counts w.decision.current_state ≡ some (sent, n)
      → Returns
          (process_message w m)
          (λ r. (sent' : Bool) × (counts r.0.decision.current_state ≡ some (sent', n + 1)))
  unfolding process_message announce
  process_message-Counts w m v sent n c e o l a k = Ends-Returns _ (
      rw
        (
          o,
          process_in_state_lem w.decision.current_state w m v.vote_type v.signature _ a refl e o l,
        )
        (leader_rule (Counts (n + 1)) w m v c e l a
          (λ sent' n' error k'. (sent', counted sent' sent' n' k'))
          (λ sent' n' log k' _. (sent', counted sent' sent' n' k'))
          (λ n' q log k' e' h.
            propose_rule (Counts (n + 1)) (logged w true (n' + 1) log) m log
              (λ pool error. (true, counted false true n' k')) v.vote_type
              (λ pool pt _. (true, counted false true n' k')))))
    where
      counted :
          (b b' : Bool) (n' : ℕ)
          → counts w.decision.current_state ≡ some (b, n')
          → counts (with_counts w.decision.current_state b' (n' + 1)) ≡ some (b', n + 1)
      counted b b' n' k' =
          let same : n' ≡ n = cc in
          rw same (with_counts_lem w.decision.current_state sent b' n (n + 1) k)
