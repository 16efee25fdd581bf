-- ===== src/Chained/Tree.antt =====
-- src/chained/chained_decision_tree.rs: the nodes that were voted for and are not decided yet.

pub mod Numbers
pub mod Extension
use hot_iron_oxide.Base.{
  ℕ, zero, suc, Bool, true, false, Option, none, some, [], length, ite, if◌then◌else◌,
}
use hot_iron_oxide.Base.Map
use hot_iron_oxide.Base.Map.{Map}
use hot_iron_oxide.Atlas.{Atlas}
use hot_iron_oxide.Tree.{DecisionNodeHeader}
use hot_iron_oxide.Chained.Messages.{ChainedQc, ChainedDecisionNode}

module _ ⦃atlas : Atlas⦄ where
  open atlas use {SeqNo, seq_discrete, prev, Digest, digest_discrete}

  pub record PendingDecisionNodes : Type 0 where
    pub nodes : Map Digest ChainedDecisionNode

  abbrev pub default_nodes : PendingDecisionNodes
  default_nodes = record { nodes = [] }

  abbrev pub header_of : ChainedDecisionNode → DecisionNodeHeader
  header_of n = n.node.decision_header

  -- `PendingDecisionNodes::insert`
  unfoldable pub insert_node : PendingDecisionNodes → ChainedDecisionNode → PendingDecisionNodes
  insert_node pending node = record {
    nodes = Map.insert digest_discrete (header_of node).current_block_digest node pending.nodes;
  }

  unfoldable pub get_node : PendingDecisionNodes → Digest → Option ChainedDecisionNode
  get_node pending header = Map.get digest_discrete header pending.nodes

  -- `PendingDecisionNodes::remove`: the node that is removed, and the rest.
  unfoldable pub remove_node :
      PendingDecisionNodes → Digest → Option ChainedDecisionNode × PendingDecisionNodes
  unfolding get_node
  remove_node pending header =
      (get_node pending header, record { nodes = Map.remove digest_discrete header pending.nodes })

  -- Is the previous block the node of the last known certificate.
  abbrev pub is_known : Option ChainedQc → Digest → Bool
  is_known none digest = false
  is_known (some known_node) digest =
      ite (digest_discrete digest known_node.decision_node.current_block_digest) true false

  -- The `loop` of `is_extension_of_known_node`, on fuel; `none` when it is spent.
  unfoldable pub extension_loop :
      ℕ → PendingDecisionNodes → DecisionNodeHeader → Option ChainedQc → Option Bool
  extension_loop zero pending current_node last_known = none
  extension_loop (suc fuel) pending current_node last_known =
      let again = extension_loop fuel pending in
      elim current_node.previous_block [
        | none ↦ some (elim last_known [ none ↦ true | some _ ↦ false ])
        | some previous_block_digest ↦
            if is_known last_known previous_block_digest
            then some true
            else elim (get_node pending previous_block_digest) [
              | none ↦ some false
              | some known_node ↦
                  ite (seq_discrete (header_of known_node).view_no (prev current_node.view_no))
                    (again (header_of known_node) last_known) (some false)
            ]
      ]

  -- Each turn goes to another pending node, so one turn more than there are nodes is enough.
  unfoldable pub run_extension :
      PendingDecisionNodes → DecisionNodeHeader → Option ChainedQc → Option Bool
  unfolding extension_loop
  run_extension pending node last_known =
      extension_loop (suc (length pending.nodes)) pending node last_known

  unfoldable pub is_extension_of_known_node :
      PendingDecisionNodes → DecisionNodeHeader → Option ChainedQc → Bool
  unfolding run_extension
  is_extension_of_known_node pending node last_known =
      elim (run_extension pending node last_known) [ none ↦ false | some answer ↦ answer ]
