-- ===== src/HotIron/Decision/Dispatch.antt =====
-- Which messages a decision processes, keeps or drops: `process_message` and the method of each
-- phase and role, of src/hot_iron/protocol/decision/mod.rs.
use hot_iron_oxide.Base.{Bool, true, false, ◌&&◌, Run, ok, ite, if◌then◌else◌}
use hot_iron_oxide.Atlas.{Atlas}
use hot_iron_oxide.HotIron.Messages.{VoteType, ProposalType, proposal, vote, VoteEncoding}
use hot_iron_oxide.HotIron.Queue.{DecisionState, Message}
use hot_iron_oxide.HotIron.Log.{done}
use hot_iron_oxide.HotIron.Decision.Leader.{process_message_leader}
use hot_iron_oxide.HotIron.Decision.Replica.{process_message_replica}
use hot_iron_oxide.HotIron.Decision.{
  World, Processed, is_leader, queue, message_ignored, message_queued,
}

module _ ⦃atlas : Atlas⦄ where
  open atlas use {seq_discrete, node_discrete}

  abbrev pub ignore : World → Run Processed
  ignore w = ok (w, done message_ignored)

  abbrev pub keep : World → Message → Run Processed
  keep w message = ok (record w { decision = queue w.decision message }, done message_queued)

  -- The guards of the arms: the message is of the view, and from its leader.
  abbrev pub is_of_view : World → Message → Bool
  is_of_view w message = ite (seq_discrete w.decision.view.seq message.message.curr_view) true false

  abbrev pub is_from_leader : World → Message → Bool
  is_from_leader w message = ite (node_discrete message.from w.decision.view.leader) true false

  unfoldable pub process_message_prepare_leader : World → Message → Run Processed
  process_message_prepare_leader w message = elim message.message.message [
    | proposal _ ↦ ignore w
    | vote vote_msg ↦
        if is_of_view w message
        then elim vote_msg.vote_type [
          | VoteType.new_view _ ↦ process_message_leader w message
          | _ ↦ keep w message
        ]
        else ignore w
  ]

  unfoldable pub process_message_pre_commit_leader : World → Message → Run Processed
  process_message_pre_commit_leader w message = elim message.message.message [
    | proposal _ ↦ ignore w
    | vote vote_msg ↦
        if is_of_view w message
        then elim vote_msg.vote_type [
          | VoteType.prepare_vote _ ↦ process_message_leader w message
          | _ ↦ keep w message
        ]
        else ignore w
  ]

  unfoldable pub process_message_commit_leader : World → Message → Run Processed
  process_message_commit_leader w message = elim message.message.message [
    | proposal _ ↦ ignore w
    | vote vote_msg ↦
        if is_of_view w message
        then elim vote_msg.vote_type [
          | VoteType.pre_commit_vote _ ↦ process_message_leader w message
          | VoteType.prepare_vote _ ↦ ignore w
          | _ ↦ keep w message
        ]
        else ignore w
  ]

  unfoldable pub process_message_decide_leader : World → Message → Run Processed
  process_message_decide_leader w message = elim message.message.message [
    | proposal _ ↦ ignore w
    | vote vote_msg ↦
        if is_of_view w message
        then elim vote_msg.vote_type [
          | VoteType.commit_vote _ ↦ process_message_leader w message
          | _ ↦ ignore w
        ]
        else ignore w
  ]

  module _ ⦃encoding : VoteEncoding⦄ where
    unfoldable pub process_message_prepare : World → Message → Run Processed
    process_message_prepare w message = elim message.message.message [
      | vote _ ↦ ignore w
      | proposal prop ↦
          if is_of_view w message && is_from_leader w message
          then elim prop.proposal_type [
            | ProposalType.prepare _ _ ↦ process_message_replica w message
            | _ ↦ keep w message
          ]
          else ignore w
    ]

    unfoldable pub process_message_pre_commit : World → Message → Run Processed
    process_message_pre_commit w message = elim message.message.message [
      | vote _ ↦ ignore w
      | proposal prop ↦
          if is_of_view w message && is_from_leader w message
          then elim prop.proposal_type [
            | ProposalType.pre_commit _ ↦ process_message_replica w message
            | ProposalType.prepare _ _ ↦ ignore w
            | _ ↦ keep w message
          ]
          else ignore w
    ]

    unfoldable pub process_message_commit : World → Message → Run Processed
    process_message_commit w message = elim message.message.message [
      | vote _ ↦ ignore w
      | proposal prop ↦
          if is_of_view w message && is_from_leader w message
          then elim prop.proposal_type [
            | ProposalType.commit _ ↦ process_message_replica w message
            | ProposalType.decide _ ↦ keep w message
            | _ ↦ ignore w
          ]
          else ignore w
    ]

    unfoldable pub process_message_decide : World → Message → Run Processed
    process_message_decide w message = elim message.message.message [
      | vote _ ↦ ignore w
      | proposal prop ↦
          if is_of_view w message && is_from_leader w message
          then elim prop.proposal_type [
            | ProposalType.decide _ ↦ process_message_replica w message
            | _ ↦ ignore w
          ]
          else ignore w
    ]

    -- A leader's votes go to the first method, and all else to the second.
    abbrev pub by_role :
        World
        → Message
        → (World → Message → Run Processed)
        → (World → Message → Run Processed)
        → Run Processed
    by_role w message as_leader as_replica =
        if is_leader w.decision
        then elim message.message.message [
          | proposal _ ↦ as_replica w message
          | vote _ ↦ as_leader w message
        ]
        else as_replica w message

    unfoldable pub process_in_state : DecisionState → World → Message → Run Processed
    process_in_state DecisionState.init w message = keep w message
    process_in_state (DecisionState.prepare _ _) w message =
        by_role w message process_message_prepare_leader process_message_prepare
    process_in_state (DecisionState.pre_commit _ _) w message =
        by_role w message process_message_pre_commit_leader process_message_pre_commit
    process_in_state (DecisionState.commit _ _) w message =
        by_role w message process_message_commit_leader process_message_commit
    process_in_state (DecisionState.decide _ _) w message =
        by_role w message process_message_decide_leader process_message_decide
    process_in_state DecisionState.finally w message = ignore w
    process_in_state DecisionState.next_view w message = ignore w

    unfoldable pub process_message : World → Message → Run Processed
    unfolding process_in_state
    process_message w message =
        if is_of_view w message
        then process_in_state w.decision.current_state w message
        else ignore w
