-- ===== src/Examples/Pipelines.antt =====
-- The theorems on the pipeline of decisions, applied to four nodes.
use hot_iron_oxide.Base.{ℕ, ◌≡◌, refl, Option, none, some, List, [], ◌∷◌, arith, Returns, false}
use hot_iron_oxide.Examples.{toy, four, four-IsWellFormed}
use hot_iron_oxide.Examples.Chains.{qc_for, root, fourth, row, row-AllLinked}
use hot_iron_oxide.Quorum.{get_f_for_n}
use hot_iron_oxide.View.{View}
use hot_iron_oxide.View.Rotation.{IsWellFormed}
use hot_iron_oxide.Tree.{default_handler}
use hot_iron_oxide.Requests.{default_pool}
use hot_iron_oxide.HotIron.Signals.{default_signals}
use hot_iron_oxide.Chained.Queue.{default_queue}
use hot_iron_oxide.Chained.Log.{DecisionLog}
use hot_iron_oxide.Chained.Decision.{
  ChainedDecision, ChainedDecisionState, ConsensusMetricType, advance_state,
}
use hot_iron_oxide.Chained.Decision.Advance.{IsPhase, Advances, advance_state-Advances}
use hot_iron_oxide.Chained.Protocol.{ChainedHotStuffProtocol, new_protocol, install_view, finalize}
use hot_iron_oxide.Chained.Protocol.Chain.{Decisions, node_chain}
use hot_iron_oxide.Chained.Protocol.Following.{Follows}
use hot_iron_oxide.Chained.Protocol.Reaching.{Reaches}
use hot_iron_oxide.Chained.Protocol.Totality.{node_chain-Returns}
use hot_iron_oxide.Chained.Protocol.Pipeline.{IsPipeline, new_protocol-IsPipeline}
use hot_iron_oxide.Chained.Protocol.Finalizing.{Ended, finalize-Ended}
use hot_iron_oxide.Chained.Protocol.Installing.{
  Installs, Doubles, install_view-IsPipeline, install_view-Doubles,
}

-- The view of this number, with its leader.
abbrev pub view_at : ℕ → ℕ → View
view_at n leader = record { seq = n; members = 0 ∷ 1 ∷ 2 ∷ 3 ∷ []; leader = leader; f = 1 }

abbrev pub decision_at : View → ChainedDecisionState → Option ℕ → ChainedDecision
decision_at view state digest = record {
  view = view;
  node_id = 3;
  state = state;
  decision_node_digest = digest;
  decision_qc = some (qc_for view.seq root);
  msg_queue = default_queue;
  decision_log = DecisionLog.replica;
  metrics = ConsensusMetricType.replica_consensus;
}

-- Four decisions, the first of which is final.
abbrev in_row : List ChainedDecision
in_row =
    decision_at (view_at 10 2) ChainedDecisionState.finalized (some 10)
    ∷ decision_at (view_at 11 3) (ChainedDecisionState.prepare 0 false) (some 11)
    ∷ decision_at (view_at 12 0) (ChainedDecisionState.prepare 0 false) (some 12)
    ∷ decision_at (view_at 13 1) (ChainedDecisionState.prepare 0 false) (some 13)
    ∷ []

abbrev pub decided : ChainedHotStuffProtocol
decided = record {
  node_id = 3;
  request_aggr = default_pool;
  decision_list = in_row;
  signals = default_signals;
  pending_nodes = row;
  curr_view = view_at 10 2;
  last_decided_view = none;
  sent = [];
}

twelve-IsWellFormed : IsWellFormed (view_at 12 0)
unfolding get_f_for_n
twelve-IsWellFormed = record { occupied = omega arith; leads = refl; faults = refl }

pub decided-IsPipeline : IsPipeline decided
unfolding get_f_for_n
decided-IsPipeline = record {
  well = record { occupied = omega arith; leads = refl; faults = refl };
  full = refl;
  numbered = (refl, (refl, (refl, (refl, tt))));
  each = (
    record {
      well = record { occupied = omega arith; leads = refl; faults = refl };
      quorum = refl;
      node = refl;
    },
    (
      record {
        well = record { occupied = omega arith; leads = refl; faults = refl };
        quorum = refl;
        node = refl;
      },
      (
        record {
          well = record { occupied = omega arith; leads = refl; faults = refl };
          quorum = refl;
          node = refl;
        },
        (
          record {
            well = record { occupied = omega arith; leads = refl; faults = refl };
            quorum = refl;
            node = refl;
          },
          tt,
        ),
      ),
    ),
  );
}

new_protocol-IsPipeline_example : Returns (new_protocol 0 default_pool four) IsPipeline
new_protocol-IsPipeline_example = new_protocol-IsPipeline 0 default_pool four four-IsWellFormed

finalize-Ended_example : Returns (finalize decided) λ o. (f : _) × (o ≡ some f) × Ended [] 10 f
finalize-Ended_example = finalize-Ended decided decided-IsPipeline

abbrev following : Decisions
following = (in_row, default_handler)

node_chain-Returns_example :
    Returns
      (node_chain row fourth 3 following)
      λ r. Follows row fourth 3 following r × Reaches row fourth 3 r
node_chain-Returns_example =
    node_chain-Returns row fourth 3 following row-AllLinked (omega arith) (omega arith)

abbrev pre_committed : ChainedDecision
pre_committed = decision_at (view_at 11 3) ChainedDecisionState.pre_commit (some 11)

advance_state-Advances_example :
    Advances pre_committed ChainedDecisionState.commit default_handler
      (advance_state pre_committed ChainedDecisionState.commit default_handler)
advance_state-Advances_example =
    advance_state-Advances pre_committed ChainedDecisionState.commit default_handler IsPhase.commit

install_view-Doubles_example :
    Returns
      (install_view decided (view_at 12 0))
      (Installs λ q. Doubles 3 (view_at 12 0) 2 in_row q.decision_list)
install_view-Doubles_example =
    install_view-Doubles decided (view_at 12 0) 2 decided-IsPipeline twelve-IsWellFormed refl refl
      (omega arith) (omega arith)

twenty-IsWellFormed : IsWellFormed (view_at 20 0)
unfolding get_f_for_n
twenty-IsWellFormed = record { occupied = omega arith; leads = refl; faults = refl }

install_view-IsPipeline_example :
    Returns
      (install_view decided (view_at 20 0))
      (Installs λ q. IsPipeline q × (q.curr_view ≡ view_at 20 0))
install_view-IsPipeline_example =
    install_view-IsPipeline decided (view_at 20 0) 10 twenty-IsWellFormed refl (omega arith)
