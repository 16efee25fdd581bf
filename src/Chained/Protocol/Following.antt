-- ===== src/Chained/Protocol/Following.antt =====
-- The three-chain rule of src/chained/protocol/mod.rs: what `node_chain` may do, and why.
use hot_iron_oxide.Base.{ℕ, ◌+◌, ◌-◌, ◌≤◌, ◌≡◌, sym, subst, ◌⊎◌, Option, some, List, get_elem?}
use hot_iron_oxide.Atlas.{Atlas}
use hot_iron_oxide.Tree.{DecisionNodeHeader}
use hot_iron_oxide.HotIron.Log.{done}
use hot_iron_oxide.Chained.Messages.{ChainedQc}
use hot_iron_oxide.Chained.Tree.{PendingDecisionNodes}
use hot_iron_oxide.Chained.Decision.{ChainedDecision, ChainedDecisionState}
use hot_iron_oxide.Chained.Protocol.Chain.{Decisions, Chained}
use hot_iron_oxide.Chained.Protocol.Links.{Link, OnlyAt, Onward, ReachedAt}

module _ ⦃atlas : Atlas⦄ where
  -- The certificate of the decision two before, once its node has two links after it.
  pub record TwoChain (pending : PendingDecisionNodes) (node : DecisionNodeHeader) (i : ℕ)
      (ds : List ChainedDecision) (locked : Option ChainedQc) : Type 0 where
    pub b_2 : DecisionNodeHeader
    pub b_1 : DecisionNodeHeader
    pub first : Link pending node b_2
    pub second : Link pending b_2 b_1
    pub far : 2 ≤ i
    pub decision : ChainedDecision
    pub at : get_elem? ds (i - 2) ≡ some decision
    pub taken : locked ≡ decision.decision_qc

  -- All the decisions from three before are final, the node having three links.
  pub record ThreeChain (pending : PendingDecisionNodes) (node : DecisionNodeHeader) (i : ℕ)
      (after : List ChainedDecision) : Type 0 where
    pub b_2 : DecisionNodeHeader
    pub b_1 : DecisionNodeHeader
    pub b : DecisionNodeHeader
    pub first : Link pending node b_2
    pub second : Link pending b_2 b_1
    pub third : Link pending b_1 b
    pub far : 3 ≤ i
    pub final : (j : ℕ) → j ≤ i - 3 → ReachedAt j ChainedDecisionState.finalized after

  -- Why the state of the decision at a place changes: it is the one before, of a node with a link,
  -- and is pre-committed; or the one two before, with two links, and is committed; or one from
  -- three before on down, with three links, and is final.
  pub data Cause (pending : PendingDecisionNodes) (node : DecisionNodeHeader) (i j : ℕ)
      (s t : ChainedDecisionState) : Type 0 where
    kept : t ≡ s → Cause pending node i j s t
    pre_committed :
        (b_2 : DecisionNodeHeader)
        → j + 1 ≡ i
        → t ≡ ChainedDecisionState.pre_commit
        → Link pending node b_2
        → Cause pending node i j s t
    committed :
        (b_2 b_1 : DecisionNodeHeader)
        → j + 2 ≡ i
        → t ≡ ChainedDecisionState.commit
        → Link pending node b_2
        → Link pending b_2 b_1
        → Cause pending node i j s t
    finalized :
        (b_2 b_1 b : DecisionNodeHeader)
        → j + 3 ≤ i
        → t ≡ ChainedDecisionState.finalized
        → Link pending node b_2
        → Link pending b_2 b_1
        → Link pending b_1 b
        → Cause pending node i j s t

  pub Cause-trans :
      (pending : PendingDecisionNodes) (node : DecisionNodeHeader) (i j : ℕ)
      (s t u : ChainedDecisionState)
      → Cause pending node i j s t
      → Cause pending node i j t u
      → Cause pending node i j s u
  Cause-trans pending node i j s t u h (Cause.kept e) =
      subst (λ x. Cause pending node i j s x) (sym e) h
  Cause-trans pending node i j s t u h (Cause.pre_committed b_2 at is l) =
      Cause.pre_committed b_2 at is l
  Cause-trans pending node i j s t u h (Cause.committed b_2 b_1 at is l k) =
      Cause.committed b_2 b_1 at is l k
  Cause-trans pending node i j s t u h (Cause.finalized b_2 b_1 b at is l k m) =
      Cause.finalized b_2 b_1 b at is l k m

  pub record Follows (pending : PendingDecisionNodes) (node : DecisionNodeHeader) (i : ℕ)
      (ds : Decisions) (r : Chained) : Type 0 where
    pub onward : Onward ds.0 r.0.0
    pub lock :
        (r.0.1.latest_locked_qc ≡ ds.1.latest_locked_qc)
        ⊎ TwoChain pending node i ds.0 r.0.1.latest_locked_qc
    pub complete : r.1 ≡ done tt → ThreeChain pending node i r.0.0
    pub causes : OnlyAt (Cause pending node i) ds.0 r.0.0
