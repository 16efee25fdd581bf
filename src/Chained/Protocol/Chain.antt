-- ===== src/Chained/Protocol/Chain.antt =====
-- The chain of certificates that moves the decisions of src/chained/protocol/mod.rs forward:
-- `chain_link` and `node_chain`.
use hot_iron_oxide.Base.{
  ℕ, zero, suc, ◌-◌, Option, none, some, List, ite, Run, ok, panic, todo, overflow,
  index_out_of_bounds, ◌>>=◌, ltb, get_elem?, set, if◌then◌else◌,
}
use hot_iron_oxide.Atlas.{Atlas}
use hot_iron_oxide.Tree.{DecisionNodeHeader, DecisionHandler}
use hot_iron_oxide.HotIron.Log.{Result, done, failed}
use hot_iron_oxide.Chained.Messages.{ChainedQc, ChainedDecisionNode}
use hot_iron_oxide.Chained.Tree.{PendingDecisionNodes, header_of, get_node}
use hot_iron_oxide.Chained.Decision.{ChainedDecision, ChainedDecisionState, advance_state}

module _ ⦃atlas : Atlas⦄ where
  open atlas use {Digest, digest_discrete}

  pub data ChainConstructionError : Type 0 where
    missing_link_node : Digest → DecisionNodeHeader → ChainConstructionError
    failed_to_get_decision_node : Digest → ChainConstructionError
    failed_to_get_b1_node failed_to_get_b_node failed_to_get_b2_justify : ChainConstructionError

  -- The link from a pending node: to the node of its certificate, which is to be its parent too.
  unfoldable pub link_of :
      PendingDecisionNodes
      → ChainedDecisionNode
      → Run (Result ChainConstructionError (Option DecisionNodeHeader))
  link_of pending first_link = elim first_link.justify [
    | none ↦ elim (header_of first_link).previous_block [
      | none ↦ ok (done none)
      | some _ ↦ panic todo
    ]
    | some next_link ↦ elim (header_of first_link).previous_block [
      | none ↦ panic todo
      | some previous ↦
          let digest = next_link.decision_node.current_block_digest in
          ite (digest_discrete previous digest)
            (ok (elim (get_node pending digest) [
              | none ↦ failed (failed_to_get_decision_node digest)
              | some b_2 ↦ done (some (header_of b_2))
            ]))
            (panic todo)
    ]
  ]

  unfoldable pub chain_link :
      PendingDecisionNodes
      → DecisionNodeHeader
      → Run (Result ChainConstructionError (Option DecisionNodeHeader))
  unfolding link_of
  chain_link pending first_link_header =
      elim (get_node pending first_link_header.current_block_digest) [
        | none ↦ ok (failed (failed_to_get_decision_node first_link_header.current_block_digest))
        | some first_link ↦ link_of pending first_link
      ]

  abbrev pub Decisions : Type 0
  Decisions = List ChainedDecision × DecisionHandler ChainedQc

  -- `decision_list[i].advance_state(state, ..)`
  unfoldable pub advance_at : Decisions → ℕ → ChainedDecisionState → Run Decisions
  advance_at (decisions, handler) i state = elim (get_elem? decisions i) [
    | none ↦ panic index_out_of_bounds
    | some d ↦
        let (d', handler') = advance_state d state handler in ok (set decisions i d', handler')
  ]

  -- `decision_list[i - k]`, in which the subtraction on `usize` must not go below 0.
  unfoldable pub advance_before : Decisions → ℕ → ℕ → ChainedDecisionState → Run Decisions
  unfolding advance_at
  advance_before ds i k state = if ltb i k then panic overflow else advance_at ds (i - k) state

  -- The `for` over `(0..=last).rev()`.
  unfoldable pub finalize_down : Decisions → ℕ → Run Decisions
  unfolding advance_at
  finalize_down ds zero = advance_at ds 0 ChainedDecisionState.finalized
  finalize_down ds (suc last) = do
    ds' ← advance_at ds (suc last) ChainedDecisionState.finalized
    finalize_down ds' last

  -- The decisions afterwards, and at which link the chain ended if it is not complete.
  abbrev pub Chained : Type 0
  Chained = Decisions × Result ℕ Unit

  -- A link that is there, or the end of the chain at this link.
  abbrev pub link_or_end :
      PendingDecisionNodes
      → DecisionNodeHeader
      → Decisions
      → ℕ
      → (DecisionNodeHeader → Run Chained)
      → Run Chained
  link_or_end pending node ds link go_on = chain_link pending node >>= λ result. elim result [
    | failed error ↦ ok (ds, failed link)
    | done linked ↦ elim linked [ none ↦ ok (ds, failed link) | some header ↦ go_on header ]
  ]

  unfoldable pub third_link :
      PendingDecisionNodes → DecisionNodeHeader → ℕ → Decisions → Run Chained
  unfolding chain_link advance_before finalize_down
  third_link pending b_1 decision_index ds = link_or_end pending b_1 ds 3 λ _. do
    decided ← advance_before ds decision_index 3 ChainedDecisionState.decide
    finalized ← finalize_down decided (decision_index - 3)
    ok (finalized, done tt)

  unfoldable pub second_link :
      PendingDecisionNodes → DecisionNodeHeader → ℕ → Decisions → Run Chained
  unfolding third_link
  second_link pending b_2 decision_index ds = link_or_end pending b_2 ds 2 λ b_1. do
    committed ← advance_before ds decision_index 2 ChainedDecisionState.commit
    third_link pending b_1 decision_index committed

  unfoldable pub node_chain :
      PendingDecisionNodes → DecisionNodeHeader → ℕ → Decisions → Run Chained
  unfolding second_link
  node_chain pending current_node decision_index ds = link_or_end pending current_node ds 1 λ b_2.
      do
        pre_committed ← advance_before ds decision_index 1 ChainedDecisionState.pre_commit
        second_link pending b_2 decision_index pre_committed
