-- ===== src/HotIron/Decision/Leader.antt =====
-- The processing of a vote by the leader: `process_message_leader` of
-- src/hot_iron/protocol/decision/mod.rs.
use hot_iron_oxide.Base.{
  ℕ, ◌+◌, Bool, true, not, ◌&&◌, none, some, Run, ok, panic, unreachable, wrong_metric, ◌>>=◌, leb,
  if◌then◌else◌,
}
use hot_iron_oxide.Atlas.{Atlas}
use hot_iron_oxide.View
use hot_iron_oxide.Tree.{DecisionNode, create_leaf, create_root}
use hot_iron_oxide.Requests.{take_pool_requests}
use hot_iron_oxide.HotIron.Messages.{
  Qc, VoteType, VoteMessage, ProposalType, ProposalTypes, proposal, vote, Outgoing,
}
use hot_iron_oxide.HotIron.Queue.{Message}
use hot_iron_oxide.HotIron.Log.{
  Result, VoteAcceptError, done, failed, MsgDecisionLog, MsgLeaderDecisionLog, as_leader,
  log_accept_vote, log_generate_qc, get_high_qc, create_new_qc,
}
use hot_iron_oxide.HotIron.Decision.{
  ConsensusDecisionMetric, counts, with_counts, World, Processed, in_state, transmit,
  message_ignored, decision_progressed, vote_accept_error, vote_store_error,
  new_view_generate_error, no_leader_message_log,
}

module _ ⦃atlas : Atlas⦄ where
  -- The end of `process_message_leader`: the proposal goes to the quorum.
  unfoldable pub announce : World → Message → ProposalType → Processed
  announce w vote_message proposal_type = (
    transmit w (
        Outgoing.broadcast
          (record {
            curr_view = w.decision.view.seq;
            message = proposal (record { proposal_type = proposal_type });
          })
          w.decision.view.members),
    done (decision_progressed none none vote_message),
  )

  -- The proposal that answers the new view votes.
  unfoldable pub propose_node : World → Message → MsgLeaderDecisionLog → Processed
  unfolding announce take_pool_requests
  propose_node w vote_message log =
      let (taken, rest) = take_pool_requests w.pool in
      let w' = record w { pool = rest } in
      let node : DecisionNode = elim (get_high_qc log.high_qc) [
        | some qc ↦ create_leaf qc.decision_node taken.digest taken.requests
        | none ↦ create_root w.decision.view taken.digest taken.requests
      ] in
      elim (create_new_qc log.high_qc node.decision_header) [
        | failed error ↦ (w', failed (new_view_generate_error error))
        | done new_qc ↦ announce w' vote_message (ProposalType.prepare node new_qc)
      ]

  -- The proposals that carry the certificate of the votes received.
  unfoldable pub propose_qc :
      World → Message → MsgLeaderDecisionLog → ProposalTypes → (Qc → ProposalType) → Run Processed
  unfolding announce
  propose_qc w vote_message log proposal_type build = do
    generated ← log_generate_qc log w.decision.view proposal_type
    ok (elim generated [
      | failed error ↦ (w, failed (vote_store_error error))
      | done qc ↦ announce w vote_message (build qc)
    ])

  unfoldable pub propose : World → Message → MsgLeaderDecisionLog → VoteType → Run Processed
  unfolding propose_node propose_qc
  propose w vote_message log (VoteType.new_view _) = ok (propose_node w vote_message log)
  propose w vote_message log (VoteType.prepare_vote _) =
      propose_qc w vote_message log ProposalTypes.pre_commit ProposalType.pre_commit
  propose w vote_message log (VoteType.pre_commit_vote _) =
      propose_qc w vote_message log ProposalTypes.commit ProposalType.commit
  propose w vote_message log (VoteType.commit_vote _) =
      propose_qc w vote_message log ProposalTypes.decide ProposalType.decide

  -- The world once the vote is counted, and once it is in the log too.
  abbrev pub counted : World → Bool → ℕ → World
  counted w proposal_sent received_votes =
      in_state w (with_counts w.decision.current_state proposal_sent received_votes)

  abbrev pub logged : World → Bool → ℕ → MsgLeaderDecisionLog → World
  logged w proposal_sent received_votes log =
      let decision = record (w.decision) {
        current_state = with_counts w.decision.current_state proposal_sent received_votes;
        msg_decision_log = MsgDecisionLog.leader log;
      } in
      record w { decision = decision }

  -- What follows `accept_vote`: its error, or a proposal once there are enough votes.
  unfoldable pub after_vote :
      World
      → Message
      → VoteType
      → Bool
      → ℕ
      → Result VoteAcceptError (Bool × MsgLeaderDecisionLog)
      → Run Processed
  unfolding propose
  after_vote w vote_message vt proposal_sent received_votes (failed error) =
      ok (counted w proposal_sent received_votes, failed (vote_accept_error error))
  after_vote w vote_message vt proposal_sent received_votes (done (is_new, log)) =
      View.quorum w.decision.view >>= λ quorum.
      if leb quorum received_votes && not proposal_sent
      then propose (logged w true received_votes log) vote_message log vt
      else ok (
        logged w proposal_sent received_votes log,
        done
            (if proposal_sent then message_ignored else decision_progressed none none vote_message),
      )

  -- The leader counts the vote, and records it.
  unfoldable pub collect :
      World → Message → VoteMessage → MsgLeaderDecisionLog → Bool → ℕ → Run Processed
  unfolding after_vote
  collect w vote_message vt_msg log proposal_sent received_votes =
      after_vote w vote_message vt_msg.vote_type proposal_sent received_votes
        (log_accept_vote log vote_message.from vt_msg)

  unfoldable pub process_message_leader : World → Message → Run Processed
  unfolding collect
  process_message_leader w vote_message = elim vote_message.message.message [
    | proposal _ ↦ panic unreachable
    | vote vt_msg ↦ elim (counts w.decision.current_state) [
      | none ↦ panic unreachable
      | some (proposal_sent, received_votes) ↦ elim w.decision.consensus_metric [
        | ConsensusDecisionMetric.replica ↦ panic wrong_metric
        | ConsensusDecisionMetric.leader ↦ elim (as_leader w.decision.msg_decision_log) [
          | none ↦ ok (w, failed no_leader_message_log)
          | some log ↦ collect w vote_message vt_msg log proposal_sent (received_votes + 1)
        ]
      ]
    ]
  ]
