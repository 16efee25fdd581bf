-- ===== src/Chained/Entry.antt =====
-- src/chained/mod.rs: the chained protocol as the ordering protocol of a node, which owns the handler
-- of certificates and passes the calls on.
use hot_iron_oxide.Base.{Bool, false, Option, none, some, List, Run, ok, panic, todo, ◌>>=◌}
use hot_iron_oxide.Atlas.{Atlas}
use hot_iron_oxide.View.{View, new_from_quorum, with_new_seq}
use hot_iron_oxide.Tree.{DecisionHandler, default_handler}
use hot_iron_oxide.Requests.{Pool, default_pool}
use hot_iron_oxide.HotIron.Log.{Result, done, failed}
use hot_iron_oxide.Chained.Messages.{ChainedQc, Message, ChainEncoding}
use hot_iron_oxide.Chained.Protocol
use hot_iron_oxide.Chained.Protocol.{
  ChainedHotStuffProtocol, InstallViewError, FinalizeDecisionsError, new_protocol, sequence_number,
}
use hot_iron_oxide.Chained.Protocol.Handling
use hot_iron_oxide.Chained.Protocol.Handling.{
  IronChainResult, IronChainPollResult, IronChainProcessError, queue_message,
}

module _ ⦃atlas : Atlas⦄ where
  open atlas use {SeqNo, seq_zero, NodeId}

  pub record IronChain : Type 0 where
    pub node_id : NodeId
    pub is_executing : Bool
    pub decision_handler : DecisionHandler ChainedQc
    pub protocol : ChainedHotStuffProtocol

  -- `IronChain::new`
  unfoldable pub new_chain : NodeId → Pool → View → Run IronChain
  new_chain node_id rq_aggr current_view = do
    protocol ← new_protocol node_id rq_aggr current_view
    ok (record {
      node_id = node_id;
      is_executing = false;
      decision_handler = default_handler;
      protocol = protocol;
    })

  unfoldable pub initialize : NodeId → List NodeId → Run IronChain
  unfolding new_chain
  initialize node_id quorum_nodes = do
    view ← new_from_quorum seq_zero quorum_nodes
    new_chain node_id default_pool view

  unfoldable pub handle_timeout {ℓ} : {Timeout : Type ℓ} → IronChain → List Timeout → Run IronChain
  handle_timeout chain timeout = panic todo

  unfoldable pub handle_off_ctx_message : IronChain → Message → Run IronChain
  handle_off_ctx_message chain message = do
    protocol ← queue_message chain.protocol message
    ok (record chain { protocol = protocol })

  unfoldable pub handle_execution_changed : IronChain → Bool → IronChain
  handle_execution_changed chain is_executing = record chain { is_executing = is_executing }

  -- `OrderingProtocol::install_seq_no`
  unfoldable pub install_seq_no : IronChain → SeqNo → Run (IronChain × Result InstallViewError Unit)
  install_seq_no chain seq_no = do
    view ← with_new_seq chain.protocol.curr_view seq_no
    installed ← Protocol.install_view chain.protocol view
    ok (elim installed [
      | failed error ↦ (chain, failed error)
      | done protocol ↦ (record chain { protocol = protocol }, done tt)
    ])

  -- `PermissionedOrderingProtocol::install_view`: an error is only logged.
  unfoldable pub install_view : IronChain → View → Run IronChain
  install_view chain view = do
    installed ← Protocol.install_view chain.protocol view
    ok (elim installed [ failed _ ↦ chain | done protocol ↦ record chain { protocol = protocol } ])

  module _ ⦃encoding : ChainEncoding⦄ where
    unfoldable pub poll :
        IronChain → Run (Option (IronChain × Result FinalizeDecisionsError IronChainPollResult))
    poll chain = Handling.poll chain.protocol chain.decision_handler >>= λ polled. elim polled [
      | none ↦ ok none
      | some (protocol, result) ↦ ok (some (record chain { protocol = protocol }, result))
    ]

    unfoldable pub process_message :
        IronChain
        → Message
        → Run (Option (IronChain × Result IronChainProcessError IronChainResult))
    process_message chain message =
        Handling.process_message chain.protocol chain.decision_handler message >>= λ processed.
        elim processed [
          | none ↦ ok none
          | some (protocol, handler, result) ↦
              ok (some (record chain { protocol = protocol; decision_handler = handler }, result))
        ]
