-- ===== src/Chained/Protocol/Totality.antt =====
-- When `node_chain` of src/chained/protocol/mod.rs returns, and when it panics.
use hot_iron_oxide.Base.{
  ℕ, zero, suc, ◌-◌, ◌≤◌, ◌<◌, ◌≡◌, refl, ◌∙◌, ap, inl, inr, false, Option, none, some, List, [],
  ◌∷◌, Run, ok, arith, length, ltb, get_elem?-some, Returns, Ends, Ends-ok, Ends-bind, Ends-mono,
  Ends-Returns, Defined, Defined-Permits, Defined-bind, Defined-Ends, Option-cases,
}
use hot_iron_oxide.Atlas.{Atlas}
use hot_iron_oxide.Tree.{DecisionNodeHeader}
use hot_iron_oxide.HotIron.Log.{Result, done, failed}
use hot_iron_oxide.Chained.Messages.{ChainedQc, ChainedDecisionNode}
use hot_iron_oxide.Chained.Tree.{PendingDecisionNodes, header_of, get_node}
use hot_iron_oxide.Chained.Decision.{ChainedDecision, ChainedDecisionState}
use hot_iron_oxide.Chained.Decision.Advance.{IsPhase}
use hot_iron_oxide.Chained.Protocol.Chain.{
  Decisions, Chained, ChainConstructionError, chain_link, link_of, link_or_end, advance_at,
  advance_before, finalize_down, third_link, second_link, node_chain,
}
use hot_iron_oxide.Chained.Protocol.Links.{Onward, Steps, advance_at-Steps}
use hot_iron_oxide.Chained.Protocol.Following.{Follows}
use hot_iron_oxide.Chained.Protocol.Commit.{node_chain-Follows}
use hot_iron_oxide.Chained.Protocol.Reaching.{Reaches, node_chain-Reaches}

module _ ⦃atlas : Atlas⦄ where
  open atlas use {Digest, digest_discrete}

  -- The node is a root without a certificate, or its certificate is for its parent.
  pub data IsLinked (node : ChainedDecisionNode) : Type 0 where
    root : node.justify ≡ none → (header_of node).previous_block ≡ none → IsLinked node
    leaf :
        (qc : ChainedQc)
        → node.justify ≡ some qc
        → (header_of node).previous_block ≡ some qc.decision_node.current_block_digest
        → IsLinked node

  abbrev pub AllLinked : PendingDecisionNodes → Type 0
  AllLinked pending =
      (digest : Digest) (node : ChainedDecisionNode)
      → get_node pending digest ≡ some node
      → IsLinked node

  Onward-length : (ds es : List ChainedDecision) → Onward ds es → length es ≡ length ds
  Onward-length [] [] h = refl
  Onward-length [] (e ∷ es) h = elim h [ ]
  Onward-length (d ∷ ds) [] h = elim h [ ]
  Onward-length (d ∷ ds) (e ∷ es) (p, q, h) = ap suc (Onward-length ds es h)

  abbrev SameLength : Decisions → Decisions → Type 0
  SameLength ds r = length r.0 ≡ length ds.0

  advance_at-Ends :
      (ds : Decisions) (i : ℕ) (target : ChainedDecisionState)
      → IsPhase target
      → i < length ds.0
      → Ends (SameLength ds) (advance_at ds i target)
  unfolding advance_at
  advance_at-Ends ds i target p h =
      let (d, at) = get_elem?-some ds.0 i h in
      let runs : Defined (advance_at ds i target) = rw (advance_at, at) tt in
      Ends-mono (advance_at ds i target) (λ r step. Onward-length ds.0 r.0 step.onward)
        (Defined-Permits (Steps i target ds) (advance_at ds i target) runs
          (advance_at-Steps ds i target p))

  advance_before-Ends :
      (ds : Decisions) (i k : ℕ) (target : ChainedDecisionState)
      → IsPhase target
      → k ≤ i
      → i < length ds.0
      → Ends (SameLength ds) (advance_before ds i k target)
  unfolding advance_before
  advance_before-Ends ds i k target p far h =
      let within : ltb i k ≡ false = ground arith in
      rw within (advance_at-Ends ds (i - k) target p (omega arith))

  finalize_down-Ends :
      (ds : Decisions) (last : ℕ)
      → last < length ds.0
      → Ends (SameLength ds) (finalize_down ds last)
  unfolding finalize_down
  finalize_down-Ends ds zero h =
      advance_at-Ends ds 0 ChainedDecisionState.finalized IsPhase.finalized h
  finalize_down-Ends ds (suc last) h =
      Ends-bind (SameLength ds) (SameLength ds) _ _
        (advance_at-Ends ds (suc last) ChainedDecisionState.finalized IsPhase.finalized h)
        λ r same.
          Ends-mono (finalize_down r last) (λ r' more. more ∙ same)
            (finalize_down-Ends r last (rw same (omega arith)))

  chain_link-Ends :
      (pending : PendingDecisionNodes) (node : DecisionNodeHeader)
      → AllLinked pending
      → Defined (chain_link pending node)
  unfolding chain_link link_of
  chain_link-Ends pending node linked =
      elim (Option-cases (get_node pending node.current_block_digest)) [
        | inl e ↦ rw (chain_link, e) tt
        | inr (n, e) ↦ elim (linked node.current_block_digest n e) [
          | IsLinked.root j p ↦ rw (chain_link, e, link_of, j, p) tt
          | IsLinked.leaf qc j p ↦ rw (chain_link, e, link_of, j, p) (ground arith)
        ]
      ]

  link_or_end-Defined :
      (pending : PendingDecisionNodes) (node : DecisionNodeHeader) (ds : Decisions) (n : ℕ)
      (go_on : DecisionNodeHeader → Run Chained)
      → AllLinked pending
      → ((header : DecisionNodeHeader) → Defined (go_on header))
      → Defined (link_or_end pending node ds n go_on)
  link_or_end-Defined pending node ds n go_on linked goes =
      Defined-bind (chain_link pending node) _ (chain_link-Ends pending node linked)
        (λ result _. answered result)
    where
      answered :
          (result : Result ChainConstructionError (Option DecisionNodeHeader))
          → Defined {A = Chained} (elim result [
            | failed error ↦ ok (ds, failed n)
            | done l ↦ elim l [ none ↦ ok (ds, failed n) | some header ↦ go_on header ]
          ])
      answered (failed error) = tt
      answered (done none) = tt
      answered (done (some header)) = goes header

  third_link-Defined :
      (pending : PendingDecisionNodes) (node : DecisionNodeHeader) (i : ℕ) (ds : Decisions)
      → AllLinked pending
      → 3 ≤ i
      → i < length ds.0
      → Defined (third_link pending node i ds)
  unfolding third_link
  third_link-Defined pending node i ds linked far h =
      link_or_end-Defined pending node ds 3 _ linked λ _.
        let decided = advance_before-Ends ds i 3 ChainedDecisionState.decide IsPhase.decide far h in
        Defined-bind _ _ (Defined-Ends (SameLength ds) _ decided) λ ds' e.
          let same : SameLength ds ds' = Ends-ok (SameLength ds) e decided in
          let down = finalize_down-Ends ds' (i - 3) (rw same (omega arith)) in
          Defined-bind _ _ (Defined-Ends (SameLength ds') _ down) λ _ _. tt

  second_link-Defined :
      (pending : PendingDecisionNodes) (node : DecisionNodeHeader) (i : ℕ) (ds : Decisions)
      → AllLinked pending
      → 3 ≤ i
      → i < length ds.0
      → Defined (second_link pending node i ds)
  unfolding second_link
  second_link-Defined pending node i ds linked far h =
      link_or_end-Defined pending node ds 2 _ linked λ b_1.
        let committed =
          advance_before-Ends ds i 2 ChainedDecisionState.commit IsPhase.commit (omega arith) h in
        Defined-bind _ _ (Defined-Ends (SameLength ds) _ committed) λ ds' e.
          let same : SameLength ds ds' = Ends-ok (SameLength ds) e committed in
          third_link-Defined pending b_1 i ds' linked far (rw same h)

  -- If every pending node is linked (a root has no certificate, and another one has a certificate
  -- for its parent) and there are three decisions before the one at the place, which is in the
  -- list, then following the chain of a node returns, and: no decision goes back in its states, and
  -- nothing else of one changes; where the state of a decision changes, that is the one before the
  -- place, to pre-commit, and the node has such a link; or the one two before, to commit, and two
  -- links lead from the node; or one from three before on down, to final, and three links do. The
  -- locked certificate changes only if two links lead from the node, and then to that of the
  -- decision two before; and the chain is complete only if three do, and then the decisions from
  -- three before on down are final. In turn, one link takes the decision before to pre-commit at
  -- least, two links take the one two before to commit at least, and with three the chain is
  -- complete.
  pub node_chain-Returns :
      (pending : PendingDecisionNodes) (node : DecisionNodeHeader) (i : ℕ) (ds : Decisions)
      → AllLinked pending
      → 3 ≤ i
      → i < length ds.0
      → Returns
          (node_chain pending node i ds)
          λ r. Follows pending node i ds r × Reaches pending node i r
  unfolding node_chain
  node_chain-Returns pending node i ds linked far h =
      let runs = link_or_end-Defined pending node ds 1 _ linked λ b_2.
        let advanced =
          advance_before-Ends ds i 1 ChainedDecisionState.pre_commit IsPhase.pre_commit
            (omega arith) h in
        Defined-bind _ _ (Defined-Ends (SameLength ds) _ advanced) λ ds' e.
          let same : SameLength ds ds' = Ends-ok (SameLength ds) e advanced in
          second_link-Defined pending b_2 i ds' linked far (rw same h) in
      let (r, e, follows) = Ends-Returns (node_chain pending node i ds) (
        Defined-Permits (Follows pending node i ds) _ runs
          (node_chain-Follows pending node i ds)) in
      (r, e, (follows, node_chain-Reaches pending node i ds r e))
