-- ===== src/Examples/Protocols.antt =====
-- The theorems on the protocol with one decision, applied to four nodes.
use hot_iron_oxide.Base.{
  ◌≡◌, ◌≢◌, refl, inr, none, some, [], ◌∷◌, ok, panic, todo, Returns, ℕ_discrete, some_injective,
  subst,
}
use hot_iron_oxide.Examples.{toy, toy_encoding, four, four-IsWellFormed, message_of}
use hot_iron_oxide.Examples.Decisions.{leading, third_vote, leading-IsConsistent, node}
use hot_iron_oxide.Tree.{DecisionNode, default_handler}
use hot_iron_oxide.HotIron.Messages.{VoteType, vote}
use hot_iron_oxide.HotIron.Queue.{DecisionState, Message}
use hot_iron_oxide.HotIron.Decision.{HsDecision, new_decision, is_leader}
use hot_iron_oxide.HotIron.Protocol.{
  HotStuffProtocol, new_protocol, install_seq_no, finalize_decisions,
}
use hot_iron_oxide.HotIron.Protocol.Handling.{poll, process_message}
use hot_iron_oxide.HotIron.Protocol.Fuel.{poll_ends}
use hot_iron_oxide.HotIron.Protocol.Readiness.{
  IsReady, Finalized, new_protocol-IsReady, finalize_decisions-IsReady,
}
use hot_iron_oxide.HotIron.Protocol.Reception.{
  StaysReady, process_message-IsReady, process_message-todo, install_seq_no-next,
}

abbrev fresh : HotStuffProtocol
fresh = new_protocol 0 four

fresh-IsReady : IsReady fresh
fresh-IsReady = new_protocol-IsReady 0 four four-IsWellFormed

new_protocol-IsReady_example : IsReady (new_protocol 0 four)
new_protocol-IsReady_example = new_protocol-IsReady 0 four four-IsWellFormed

-- The leader's protocol, with two of the three votes of a quorum.
abbrev collecting : HotStuffProtocol
collecting = record fresh { decisions = leading.decision ∷ [] }

collecting-IsReady : IsReady collecting
unfolding new_protocol default_handler new_decision
collecting-IsReady = record {
  decision = leading.decision;
  single = refl;
  well = four-IsWellFormed;
  sound = record {
    of_view = refl;
    consistent = leading-IsConsistent;
    unlocked = refl;
    holds = record { taken = λ h. cc; every = λ node h. cc };
  };
}

process_message-IsReady_example : Returns (process_message collecting third_vote) StaysReady
unfolding new_protocol
process_message-IsReady_example =
    process_message-IsReady collecting third_vote collecting-IsReady (inr refl)

-- A protocol whose decision is made.
abbrev made : HsDecision
made = record (new_decision four 0) {
  current_state = DecisionState.finally;
  decision_log = record { current_proposal = some node };
}

abbrev finishing : HotStuffProtocol
finishing = record fresh { decisions = made ∷ [] }

finishing-IsReady : IsReady finishing
unfolding new_protocol default_handler new_decision is_leader ℕ_discrete
finishing-IsReady = record {
  decision = made;
  single = refl;
  well = four-IsWellFormed;
  sound = record {
    of_view = refl;
    consistent = record {
      occupied = four-IsWellFormed.occupied;
      metric = λ h. refl;
      log = λ h. refl;
    };
    unlocked = refl;
    holds = record {
      taken = λ h. (node, refl);
      every = λ x e.
          subst (λ (n : DecisionNode). n.decision_header.previous_block ≡ none) (some_injective e)
            refl;
    };
  };
}

finalize_decisions-IsReady_example : Returns (finalize_decisions finishing) (Finalized finishing)
finalize_decisions-IsReady_example = finalize_decisions-IsReady finishing finishing-IsReady

abbrev of_later_view : Message
of_later_view = message_of 3 2 (vote (record { vote_type = VoteType.new_view none; signature = 1 }))

process_message-todo_example : process_message fresh of_later_view ≡ panic todo
unfolding new_protocol
process_message-todo_example = process_message-todo fresh of_later_view 1 fresh-IsReady refl

install_seq_no-next_example : Returns (install_seq_no fresh 4) (λ p'.
    (p'.current_view.seq ≡ 4) × ((d : HsDecision) × (p'.decisions ≡ d ∷ []) × (d.view.seq ≡ 5)))
install_seq_no-next_example = install_seq_no-next fresh 4 fresh-IsReady

poll_ends_example : poll fresh ≢ ok none
poll_ends_example = poll_ends fresh
