-- ===== src/HotIron/Entry.antt =====
-- src/hot_iron/mod.rs: the protocol as the ordering protocol of a node, which passes the calls on.
use hot_iron_oxide.Base.{Option, none, some, List, [], ◌∷◌, Run, ok, ◌>>=◌}
use hot_iron_oxide.Atlas.{Atlas}
use hot_iron_oxide.View.{View, new_from_quorum}
use hot_iron_oxide.HotIron.Messages.{VoteEncoding}
use hot_iron_oxide.HotIron.Queue.{Message}
use hot_iron_oxide.HotIron.Log.{Result}
use hot_iron_oxide.HotIron.Decision.{DecisionError}
use hot_iron_oxide.HotIron.Protocol
use hot_iron_oxide.HotIron.Protocol.{
  HotStuffProtocol, HotIronResult, HotIronPollResult, new_protocol, handle_next_view_for_decision,
  queue_message,
}
use hot_iron_oxide.HotIron.Protocol.Handling

module _ ⦃atlas : Atlas⦄ where
  open atlas use {SeqNo, seq_zero, NodeId}

  pub record HotIron : Type 0 where
    pub node_id : NodeId
    pub hot_stuff_protocol : HotStuffProtocol

  unfoldable pub initialize : NodeId → List NodeId → Run HotIron
  initialize node_id quorum_nodes = do
    view ← new_from_quorum seq_zero quorum_nodes
    ok (record { node_id = node_id; hot_stuff_protocol = new_protocol node_id view })

  -- The timeouts whose extra information is a sequence number are those of decisions.
  unfoldable pub time_out : HotStuffProtocol → List (Option SeqNo) → HotStuffProtocol
  time_out p [] = p
  time_out p (none ∷ timeouts) = time_out p timeouts
  time_out p (some seq_no ∷ timeouts) = time_out (handle_next_view_for_decision p seq_no) timeouts

  unfoldable pub handle_timeout : HotIron → List (Option SeqNo) → HotIron
  unfolding time_out
  handle_timeout node timeout = record node {
    hot_stuff_protocol = time_out node.hot_stuff_protocol timeout;
  }

  unfoldable pub handle_off_ctx_message : HotIron → Message → Run HotIron
  handle_off_ctx_message node message = do
    p ← queue_message node.hot_stuff_protocol message
    ok (record node { hot_stuff_protocol = p })

  unfoldable pub install_seq_no : HotIron → SeqNo → Run HotIron
  install_seq_no node seq_no = do
    p ← Protocol.install_seq_no node.hot_stuff_protocol seq_no
    ok (record node { hot_stuff_protocol = p })

  unfoldable pub install_view : HotIron → View → HotIron
  install_view node view = record node {
    hot_stuff_protocol = Protocol.install_view node.hot_stuff_protocol view;
  }

  module _ ⦃encoding : VoteEncoding⦄ where
    unfoldable pub poll : HotIron → Run (Option (HotIron × HotIronPollResult))
    poll node = Handling.poll node.hot_stuff_protocol >>= λ polled. elim polled [
      | none ↦ ok none
      | some (p, result) ↦ ok (some (record node { hot_stuff_protocol = p }, result))
    ]

    unfoldable pub process_message :
        HotIron → Message → Run (Option (HotIron × Result DecisionError HotIronResult))
    process_message node message =
        Handling.process_message node.hot_stuff_protocol message >>= λ handled. elim handled [
          | none ↦ ok none
          | some (p, result) ↦ ok (some (record node { hot_stuff_protocol = p }, result))
        ]
