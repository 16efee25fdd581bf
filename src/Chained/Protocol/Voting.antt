-- ===== src/Chained/Protocol/Voting.antt =====
-- What follows the vote of a decision in src/chained/protocol/mod.rs: the chain of its node.
use hot_iron_oxide.Base.{
  ℕ, ◌<◌, ◌≤◌, ◌≡◌, refl, sym, ◌∙◌, ap, inl, inr, Option, none, some, ◌∷◌, ◌>>=◌, Run, ok, panic,
  Panic, ltb, Bool-cases, arith, length, Permits-ok, ite_rule,
}
use hot_iron_oxide.Base.Map
use hot_iron_oxide.Atlas.{Atlas}
use hot_iron_oxide.Tree.{DecisionHandler}
use hot_iron_oxide.HotIron.Log.{done, failed}
use hot_iron_oxide.Chained.Messages.{ChainedQc, ChainedDecisionNode}
use hot_iron_oxide.Chained.Tree.{PendingDecisionNodes, header_of, get_node, insert_node}
use hot_iron_oxide.Chained.Protocol.{ChainedHotStuffProtocol, IronChainDecision, Finalized}
use hot_iron_oxide.Chained.Protocol.Chain.{Decisions, Chained, chain_link, link_of, node_chain}
use hot_iron_oxide.Chained.Protocol.Handling.{
  Processed, IronChainProcessError, IronChainResult, conclude_chain, chain_new_node,
}
use hot_iron_oxide.Chained.Protocol.Alike.{Alike, Onward-Alike, Alike-IsPipeline}
use hot_iron_oxide.Chained.Protocol.Pipeline.{IsPipeline}
use hot_iron_oxide.Chained.Protocol.Finalizing.{finalize-Ended}
use hot_iron_oxide.Chained.Protocol.Following.{Follows}
use hot_iron_oxide.Chained.Protocol.Commit.{node_chain-Follows}
use hot_iron_oxide.Chained.Protocol.Totality.{AllLinked, node_chain-Returns}

module _ ⦃atlas : Atlas⦄ where
  open atlas use {SeqNo, Digest, digest_discrete}

  -- The node has neither a certificate nor a previous block.
  abbrev pub IsRoot : ChainedDecisionNode → Type 0
  IsRoot node = (node.justify ≡ none) × ((header_of node).previous_block ≡ none)

  get_node-insert_node :
      (pending : PendingDecisionNodes) (node : ChainedDecisionNode)
      → get_node (insert_node pending node) (header_of node).current_block_digest ≡ some node
  unfolding get_node insert_node
  get_node-insert_node pending node =
      let digest = (header_of node).current_block_digest in
      Map.get-insert digest_discrete digest digest node pending.nodes
      ∙ ite_rule (λ o. o ≡ some node) (digest_discrete digest digest) (λ _. refl)
          (λ other. absurd (other refl))

  -- Following the chain of a root that is pending changes nothing.
  node_chain-root :
      (pending : PendingDecisionNodes) (node : ChainedDecisionNode) (i : ℕ) (ds : Decisions)
      → IsRoot node
      → node_chain (insert_node pending node) (header_of node) i ds ≡ ok (ds, failed 1)
  unfolding node_chain chain_link link_of
  node_chain-root pending node i ds (unjustified, first) =
      let ends : chain_link (insert_node pending node) (header_of node) ≡ ok (done none) =
        rw (chain_link, get_node-insert_node pending node, link_of, unjustified, first) refl in
      rw (node_chain, ends) refl

  -- What handling a message comes to, where `Voted` says for which nodes the decision votes.
  pub data Settles (Voted : ChainedDecisionNode → Type 0) (p : ChainedHotStuffProtocol)
      (handler : DecisionHandler ChainedQc) (i : ℕ) : Run (Option Processed) → Type 0 where
    quiet :
        {r : Processed}
        → IsPipeline r.0
        → r.0.curr_view ≡ p.curr_view
        → r.1.latest_locked_qc ≡ handler.latest_locked_qc
        → Settles Voted p handler i (ok (some r))
    voted :
        {r : Processed} (node : ChainedDecisionNode)
        → Voted node
        → IsPipeline r.0
        → Settles Voted p handler i (ok (some r))
    breaks :
        {reason : _} (node : ChainedDecisionNode)
        → Voted node
        → (AllLinked (insert_node p.pending_nodes node) → i < 3)
        → ¬ IsRoot node
        → Settles Voted p handler i (panic reason)

  module _ (Voted : ChainedDecisionNode → Type 0) (p : ChainedHotStuffProtocol)
      (handler : DecisionHandler ChainedQc) (i : ℕ) (q : ChainedHotStuffProtocol)
      (handler' : DecisionHandler ChainedQc) (pipeline : IsPipeline q) where
    conclude_chain-Settles :
        (node : ChainedDecisionNode) (info : IronChainDecision) (r : Chained)
        → Voted node
        → Alike q.decision_list r.0.0
        → Settles Voted p handler i (conclude_chain q info r)
    unfolding conclude_chain
    conclude_chain-Settles node info ((ds, after), failed links) v alike =
        Settles.voted node v (Alike-IsPipeline q _ pipeline refl refl alike)
    conclude_chain-Settles node info ((ds, after), done _) v alike =
        let q' = record q { decision_list = ds } in
        let (o, run, (f, is, ended)) =
          finalize-Ended q' (Alike-IsPipeline q q' pipeline refl refl alike) in
        rw (conclude_chain, run, is) (by_result f ended.pipeline)
      where
        by_result :
            (f : Finalized)
            → IsPipeline f.0
            → Settles Voted p handler i (elim f.1 [
              | failed error ↦
                  ok (some (f.0, after, failed (IronChainProcessError.finalize_decisions error)))
              | done decided ↦
                  ok
                    (some (f.0, after, done (IronChainResult.progressed_decision (info ∷ decided))))
            ])
        by_result (p', failed error) h = Settles.voted node v h
        by_result (p', done decided) h = Settles.voted node v h

    pub chain_new_node-Settles :
        (node : ChainedDecisionNode) (info : IronChainDecision)
        → Voted node
        → i < length q.decision_list
        → q.pending_nodes ≡ insert_node p.pending_nodes node
        → Settles Voted p handler i (chain_new_node q handler' i node info)
    unfolding chain_new_node
    chain_new_node-Settles node info v inside pending =
        by_chain (node_chain q.pending_nodes (header_of node) i (q.decision_list, handler')) refl
      where
        stays :
            (nodes : PendingDecisionNodes) {reason : Panic}
            → node_chain nodes (header_of node) i (q.decision_list, handler') ≡ panic reason
            → AllLinked nodes
            → i < 3
        stays nodes e linked = elim (Bool-cases (ltb i 3)) [
          | inl h ↦ ground arith
          | inr h ↦
              let far : 3 ≤ i = ground arith in
              let (r, run, _) =
                node_chain-Returns nodes (header_of node) i (q.decision_list, handler') linked far
                  inside in
              absurd (ground (arith, run, e))
        ]

        by_chain :
            (r : Run Chained)
            → node_chain q.pending_nodes (header_of node) i (q.decision_list, handler') ≡ r
            → Settles Voted p handler i (r >>= conclude_chain q info)
        by_chain (ok r) e =
            let follows =
              Permits-ok (Follows q.pending_nodes (header_of node) i (q.decision_list, handler')) e
                (node_chain-Follows q.pending_nodes (header_of node) i
                  (q.decision_list, handler')) in
            conclude_chain-Settles node info r v (Onward-Alike q.decision_list r.0.0 follows.onward)
        by_chain (panic reason) e =
            let chain = λ (nodes : PendingDecisionNodes).
              node_chain nodes (header_of node) i (q.decision_list, handler') in
            let breaks = ap chain (sym pending) ∙ e in
            Settles.breaks node v (stays _ breaks) λ is_root.
              let goes =
                node_chain-root p.pending_nodes node i (q.decision_list, handler') is_root in
              absurd (ground (arith, breaks, goes))
