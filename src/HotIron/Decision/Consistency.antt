-- ===== src/HotIron/Decision/Consistency.antt =====
-- What the code of a decision takes for granted (src/hot_iron/protocol/decision/mod.rs): the leader
-- of the view has the leader's log and metrics, and the view has members.
use hot_iron_oxide.Base.{ℕ, zero, suc, ◌<◌, ◌≡◌, refl, Bool, true, false, ok, arith, length}
use hot_iron_oxide.Atlas.{Atlas}
use hot_iron_oxide.Quorum.{get_quorum_for_n, get_f_for_n}
use hot_iron_oxide.View
use hot_iron_oxide.View.{View}
use hot_iron_oxide.HotIron.Log.{MsgDecisionLog, MsgLeaderDecisionLog}
use hot_iron_oxide.HotIron.Decision.{ConsensusDecisionMetric, HsDecision, is_leader, new_decision}

module _ ⦃atlas : Atlas⦄ where
  abbrev pub keeps_votes : MsgDecisionLog → Bool
  keeps_votes (MsgDecisionLog.leader log) = true
  keeps_votes (MsgDecisionLog.replica log) = false

  -- The view has members, and the leader of the view has the leader's log and metrics.
  pub record IsConsistent (d : HsDecision) : Type 0 where
    pub occupied : 0 < length d.view.members
    pub metric : is_leader d ≡ true → d.consensus_metric ≡ ConsensusDecisionMetric.leader
    pub log : is_leader d ≡ true → keeps_votes d.msg_decision_log ≡ true

  pub new_decision-IsConsistent :
      (view : View) (node_id : atlas.NodeId)
      → 0 < length view.members
      → IsConsistent (new_decision view node_id)
  unfolding new_decision is_leader
  new_decision-IsConsistent view node_id h = record {
    occupied = h;
    metric = ground arith;
    log = ground arith;
  }

  pub quorum_total : (view : View) → 0 < length view.members → (q : ℕ) × (View.quorum view ≡ ok q)
  unfolding View.quorum get_quorum_for_n get_f_for_n
  quorum_total view h = go (length view.members) h
    where
      go : (n : ℕ) → 0 < n → (q : ℕ) × (get_quorum_for_n n ≡ ok q)
      go zero h = absurd (omega arith)
      go (suc n) h = (_, refl)

  pub keeps_votes-leader :
      (l : MsgDecisionLog)
      → keeps_votes l ≡ true
      → (log : MsgLeaderDecisionLog) × (l ≡ MsgDecisionLog.leader log)
  keeps_votes-leader (MsgDecisionLog.leader log) h = (log, refl)
  keeps_votes-leader (MsgDecisionLog.replica log) h = cc
