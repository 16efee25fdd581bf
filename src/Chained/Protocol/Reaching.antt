-- ===== src/Chained/Protocol/Reaching.antt =====
-- How far `node_chain` of src/chained/protocol/mod.rs moves the decisions before a linked node.
use hot_iron_oxide.Base.{
  ℕ, ◌-◌, ◌≤◌, ◌≡◌, refl, ok, some, Permits, Permits-mono, Permits-bind, Permits-ok, arith, Run,
}
use hot_iron_oxide.Atlas.{Atlas}
use hot_iron_oxide.Tree.{DecisionNodeHeader}
use hot_iron_oxide.HotIron.Log.{done}
use hot_iron_oxide.Chained.Tree.{PendingDecisionNodes}
use hot_iron_oxide.Chained.Decision.{ChainedDecisionState}
use hot_iron_oxide.Chained.Decision.Advance.{IsPhase}
use hot_iron_oxide.Chained.Protocol.Chain.{
  Decisions, Chained, chain_link, link_of, link_or_end, advance_before, finalize_down, third_link,
  second_link, node_chain,
}
use hot_iron_oxide.Chained.Protocol.Links.{
  Link, ReachedAt, ReachedAt-Onward, Steps, advance_before-Steps,
}
use hot_iron_oxide.Chained.Protocol.Following.{Follows}
use hot_iron_oxide.Chained.Protocol.Commit.{second_link-Follows, third_link-ThreeChain}

module _ ⦃atlas : Atlas⦄ where
  open atlas use {digest_discrete}

  Link-chain_link :
      (pending : PendingDecisionNodes) (child parent : DecisionNodeHeader)
      → Link pending child parent
      → chain_link pending child ≡ ok (done (some parent))
  unfolding chain_link link_of
  Link-chain_link pending child parent l =
      let digest = l.justify.decision_node.current_block_digest in
      elim (digest_discrete digest digest) [
        | no other ↦ absurd (other refl)
        | yes same ↦ ground (arith, l.found, l.justified, l.previous, l.parent_found, l.is_parent)
      ]

  -- With a link, what follows is what goes on with its parent.
  link_or_end-Link :
      (P : Chained → Type 0) (pending : PendingDecisionNodes) (node header : DecisionNodeHeader)
      (ds : Decisions) (n : ℕ) (go_on : DecisionNodeHeader → Run Chained)
      → Link pending node header
      → Permits P (go_on header)
      → Permits P (link_or_end pending node ds n go_on)
  link_or_end-Link P pending node header ds n go_on l h =
      rw (Link-chain_link pending node header l) h

  -- With one link from the node, the decision before the place is pre-committed or later on; with
  -- two, the one two before is committed or later on; with three, the chain is complete.
  pub record Reaches (pending : PendingDecisionNodes) (node : DecisionNodeHeader) (i : ℕ)
      (r : Chained) : Type 0 where
    pub pre_commits :
        (b_2 : DecisionNodeHeader)
        → Link pending node b_2
        → ReachedAt (i - 1) ChainedDecisionState.pre_commit r.0.0
    pub commits :
        (b_2 b_1 : DecisionNodeHeader)
        → Link pending node b_2
        → Link pending b_2 b_1
        → ReachedAt (i - 2) ChainedDecisionState.commit r.0.0
    pub completes :
        (b_2 b_1 b : DecisionNodeHeader)
        → Link pending node b_2
        → Link pending b_2 b_1
        → Link pending b_1 b
        → r.1 ≡ done tt

  module _ (pending : PendingDecisionNodes) (node : DecisionNodeHeader) (i : ℕ)
      (ds : Decisions) where
    node_chain-pre_commits :
        (b_2 : DecisionNodeHeader)
        → Link pending node b_2
        → Permits
            (λ (r : Chained). ReachedAt (i - 1) ChainedDecisionState.pre_commit r.0.0)
            (node_chain pending node i ds)
    unfolding node_chain
    node_chain-pre_commits b_2 first = link_or_end-Link _ pending node b_2 ds 1 _ first (
        Permits-bind _ (advance_before ds i 1 ChainedDecisionState.pre_commit) _ λ advanced e.
          let (near, step) =
            Permits-ok (λ r. (1 ≤ i) × Steps (i - 1) ChainedDecisionState.pre_commit ds r) e
              (advance_before-Steps ds i 1 ChainedDecisionState.pre_commit IsPhase.pre_commit) in
          Permits-mono {P = Follows pending node i advanced} (second_link pending b_2 i advanced)
            (λ r follows.
              ReachedAt-Onward advanced.0 r.0.0 (i - 1) ChainedDecisionState.pre_commit
                follows.onward step.reached)
            (second_link-Follows pending node b_2 i advanced first))

    node_chain-commits :
        (b_2 b_1 : DecisionNodeHeader)
        → Link pending node b_2
        → Link pending b_2 b_1
        → Permits
            (λ (r : Chained). ReachedAt (i - 2) ChainedDecisionState.commit r.0.0)
            (node_chain pending node i ds)
    unfolding node_chain second_link
    node_chain-commits b_2 b_1 first second = link_or_end-Link _ pending node b_2 ds 1 _ first (
        Permits-bind _ (advance_before ds i 1 ChainedDecisionState.pre_commit) _ λ advanced _.
          link_or_end-Link _ pending b_2 b_1 advanced 2 _ second (
            Permits-bind _ (advance_before advanced i 2 ChainedDecisionState.commit) _
              λ committed e.
                let (near, step) =
                  Permits-ok (λ r. (2 ≤ i) × Steps (i - 2) ChainedDecisionState.commit advanced r) e
                    (advance_before-Steps advanced i 2 ChainedDecisionState.commit
                      IsPhase.commit) in
                Permits-mono (third_link pending b_1 i committed)
                  (λ r (onward, _, _, _).
                    ReachedAt-Onward committed.0 r.0.0 (i - 2) ChainedDecisionState.commit onward
                      step.reached)
                  (third_link-ThreeChain pending node b_2 b_1 i committed first second)))

    node_chain-completes :
        (b_2 b_1 b : DecisionNodeHeader)
        → Link pending node b_2
        → Link pending b_2 b_1
        → Link pending b_1 b
        → Permits (λ (r : Chained). r.1 ≡ done tt) (node_chain pending node i ds)
    unfolding node_chain second_link third_link
    node_chain-completes b_2 b_1 b first second third =
        link_or_end-Link _ pending node b_2 ds 1 _ first (
          Permits-bind _ (advance_before ds i 1 ChainedDecisionState.pre_commit) _ λ advanced _.
            link_or_end-Link _ pending b_2 b_1 advanced 2 _ second (
              Permits-bind _ (advance_before advanced i 2 ChainedDecisionState.commit) _
                λ committed _. link_or_end-Link _ pending b_1 b committed 3 _ third (
                  Permits-bind _ (advance_before committed i 3 ChainedDecisionState.decide) _
                    λ decided _.
                      Permits-bind _ (finalize_down decided (i - 3)) _ λ finalized _. refl)))

    pub node_chain-Reaches :
        (r : Chained) → node_chain pending node i ds ≡ ok r → Reaches pending node i r
    node_chain-Reaches r e = record {
      pre_commits = λ b_2 l. Permits-ok _ e (node_chain-pre_commits b_2 l);
      commits = λ b_2 b_1 l k. Permits-ok _ e (node_chain-commits b_2 b_1 l k);
      completes = λ b_2 b_1 b l k m. Permits-ok _ e (node_chain-completes b_2 b_1 b l k m);
    }
