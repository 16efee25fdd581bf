-- ===== src/Examples/Handling.antt =====
-- The theorems on polling and on handling a message, applied to the pipeline of four nodes.
use hot_iron_oxide.Base.{◌≡◌, refl, some, [], false}
use hot_iron_oxide.Base.{◌∷◌, Returns, ℕ_discrete, arith}
use hot_iron_oxide.Examples.{toy}
use hot_iron_oxide.Examples.Chains.{qc_for, node_of, third, fourth}
use hot_iron_oxide.Examples.Roles.{bytes}
use hot_iron_oxide.Examples.Pipelines.{view_at, decision_at, decided, decided-IsPipeline}
use hot_iron_oxide.Quorum.{get_f_for_n}
use hot_iron_oxide.View.{next_view}
use hot_iron_oxide.Tree.{default_handler}
use hot_iron_oxide.Chained.Messages.{Message, proposal}
use hot_iron_oxide.Chained.Decision.{ChainedDecision, ChainedDecisionState, is_leader}
use hot_iron_oxide.Chained.Decision.Conduct.{IsConsistent}
use hot_iron_oxide.Chained.Protocol.{ChainedHotStuffProtocol, get_decision}
use hot_iron_oxide.Chained.Protocol.Handling.{Polled, poll, process_message}
use hot_iron_oxide.Chained.Protocol.Pipeline.{IsPipeline}
use hot_iron_oxide.Chained.Protocol.Turns.{Polls}
use hot_iron_oxide.Chained.Protocol.Voting.{Settles}
use hot_iron_oxide.Chained.Protocol.Reception.{Votes, process_message-Settles}
use hot_iron_oxide.Chained.Protocol.Polling.{poll-Polls}

-- The pipeline with its first two decisions signalled, the first of which is final.
abbrev signalling : ChainedHotStuffProtocol
signalling = record decided {
  signals = record { signaled_nos = 10 ∷ 11 ∷ []; signaled_seq_no = 10 ∷ 11 ∷ [] };
}

signalling-IsPipeline : IsPipeline signalling
signalling-IsPipeline = record {
  well = decided-IsPipeline.well;
  full = refl;
  numbered = decided-IsPipeline.numbered;
  each = decided-IsPipeline.each;
}

poll-Polls_example :
    Returns
      (poll signalling default_handler)
      λ o. (r : Polled) × (o ≡ some r) × Polls 10 signalling.decision_list r
poll-Polls_example = poll-Polls signalling default_handler signalling-IsPipeline

-- The last decision of the pipeline, and the proposal for it.
abbrev last : ChainedDecision
last = decision_at (view_at 13 1) (ChainedDecisionState.prepare 0 false) (some 13)

last-IsConsistent : IsConsistent last
unfolding next_view get_f_for_n is_leader ℕ_discrete
last-IsConsistent = record {
  well = record { occupied = omega arith; leads = refl; faults = refl };
  next = view_at 14 2;
  is_next = refl;
  metrics = refl;
  log = refl;
  single = λ h. refl;
}

abbrev last_proposal : Message
last_proposal = record {
  from = 1;
  message = record {
    seq_no = 13;
    message = proposal (record { proposal = node_of fourth (some (qc_for 12 third)) });
  };
}

last_found : get_decision decided 13 ≡ some (3, last)
unfolding get_decision
last_found = refl

process_message-Settles_example :
    Settles
      (Votes decided default_handler last_proposal 3 last)
      decided
      default_handler
      3
      (process_message decided default_handler last_proposal)
process_message-Settles_example =
    process_message-Settles decided default_handler last_proposal 3 last decided-IsPipeline
      last_found refl last-IsConsistent
