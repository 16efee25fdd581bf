-- ===== src/Examples/Roles.antt =====
-- The theorems on a decision of the chain and on its proof, applied to the leader of four nodes.
use hot_iron_oxide.Base.{◌≡◌, refl, none, some, List, [], ◌∷◌, Returns, false, ℕ_discrete, arith}
use hot_iron_oxide.Base.Map
use hot_iron_oxide.Examples.{toy, four, four-IsWellFormed}
use hot_iron_oxide.Examples.Chains.{qc_for, node_of, root, second, row}
use hot_iron_oxide.Quorum.{get_f_for_n}
use hot_iron_oxide.View.{next_view}
use hot_iron_oxide.Tree.{default_handler}
use hot_iron_oxide.Requests.{default_pool}
use hot_iron_oxide.HotIron.Log.{done}
use hot_iron_oxide.Chained.Messages.{Message, ChainEncoding, proposal, new_view, from_empty}
use hot_iron_oxide.Chained.Queue.{default_queue}
use hot_iron_oxide.Chained.Log.{DecisionLog}
use hot_iron_oxide.Chained.Decision.{ChainedDecisionState, ConsensusMetricType, is_leader}
use hot_iron_oxide.Chained.Decision.Handling.{World, process_message}
use hot_iron_oxide.Chained.Decision.Conduct.{IsConsistent, Conducts}
use hot_iron_oxide.Chained.Decision.Totality.{process_message-Conducts}
use hot_iron_oxide.Chained.Proof.{ChainedProof, ProofQcType, init_proof_from, decompose_proof}
use hot_iron_oxide.Chained.Proof.Composing.{init_proof_from-decompose_proof}

instance abbrev pub bytes : ChainEncoding
bytes = record { encode_vote = λ s v. s ∷ []; encode_new_view = λ s qc. s ∷ [] }

-- The leader, with two of the three messages for its view.
abbrev leading : World
leading = record {
  decision = record {
    view = four;
    node_id = 0;
    state = ChainedDecisionState.prepare 2 false;
    decision_node_digest = none;
    decision_qc = none;
    msg_queue = default_queue;
    decision_log = DecisionLog.leader (record { new_view = (none, (1, 21) ∷ (2, 22) ∷ []) ∷ [] });
    metrics = ConsensusMetricType.leader;
  };
  handler = default_handler;
  pool = default_pool;
  sent = [];
}

leading-IsConsistent : IsConsistent leading.decision
unfolding next_view get_f_for_n is_leader ℕ_discrete
leading-IsConsistent = record {
  well = four-IsWellFormed;
  next = record { seq = 1; members = 0 ∷ 1 ∷ 2 ∷ 3 ∷ []; leader = 1; f = 1 };
  is_next = refl;
  metrics = refl;
  log = refl;
  single = λ h. refl;
}

abbrev third_message : Message
third_message = record {
  from = 3;
  message = record { seq_no = 0; message = new_view (from_empty 23) };
}

process_message-Conducts_example :
    Returns
      (process_message leading row third_message)
      λ r. Conducts leading row third_message r × IsConsistent r.0.decision
process_message-Conducts_example =
    process_message-Conducts leading row third_message leading-IsConsistent refl

-- What is stored of the decision of the second node.
abbrev stored : List Message
stored =
    third_message
    ∷ record {
      from = 1;
      message = record {
        seq_no = 11;
        message = proposal (record { proposal = node_of second (some (qc_for 10 root)) });
      };
    }
    ∷ []

abbrev composed : ChainedProof
composed = record {
  decision_node = node_of second (some (qc_for 10 root));
  proposal_message = record {
    from = 1;
    message = record {
      seq_no = 11;
      message = proposal (record { proposal = node_of second (some (qc_for 10 root)) });
    };
  };
  qcs = (ProofQcType.pre_prepare, qc_for 11 second) ∷ (ProofQcType.decide, qc_for 14 second) ∷ [];
}

init_proof_from-composed :
    init_proof_from second (qc_for 11 second ∷ qc_for 14 second ∷ []) stored ≡ done composed
unfolding init_proof_from Map.insert
init_proof_from-composed = ground arith

init_proof_from-decompose_proof_example :
    let (header', qcs', messages') = decompose_proof composed in
    init_proof_from header' qcs' messages' ≡ done composed
init_proof_from-decompose_proof_example =
    init_proof_from-decompose_proof second (qc_for 11 second ∷ qc_for 14 second ∷ []) stored
      composed init_proof_from-composed
