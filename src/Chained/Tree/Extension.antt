-- ===== src/Chained/Tree/Extension.antt =====
-- What `is_extension_of_known_node` of src/chained/chained_decision_tree.rs answers, and that its
-- loop ends.
use hot_iron_oxide.Base.{
  ℕ, zero, suc, ◌<◌, ◌≡◌, ◌≢◌, ◌↔◌, refl, sym, ◌∙◌, ap, Bool, true, false, Option, none, some, inl,
  inr, arith, length, Option-cases, Bool-cases, some_injective, subst,
}
use hot_iron_oxide.Base.Map
use hot_iron_oxide.Base.Map.{Map}
use hot_iron_oxide.Atlas.{Atlas}
use hot_iron_oxide.Tree.{DecisionNodeHeader}
use hot_iron_oxide.HotIron.Signals.{contains}
use hot_iron_oxide.Chained.Tree.Numbers.{
  NoRepeat, back_from, back_from-prev, pigeonhole, numbers, get-contains, length-numbers,
}
use hot_iron_oxide.Chained.Messages.{ChainedQc, ChainedDecisionNode}
use hot_iron_oxide.Chained.Tree.{
  PendingDecisionNodes, header_of, get_node, is_known, extension_loop, run_extension,
  is_extension_of_known_node,
}

module _ ⦃atlas : Atlas⦄ where
  open atlas use {SeqNo, seq_discrete, prev, Digest, digest_discrete}

  -- The node's ancestors among the pending nodes, each of the number before, lead to the node of the
  -- known certificate or, if there is none, to a root.
  pub data Extends (pending : PendingDecisionNodes) (last_known : Option ChainedQc)
      : DecisionNodeHeader → Type 0 where
    root :
        {node : DecisionNodeHeader}
        → node.previous_block ≡ none
        → last_known ≡ none
        → Extends pending last_known node
    known :
        {node : DecisionNodeHeader} {digest : Digest}
        → node.previous_block ≡ some digest
        → is_known last_known digest ≡ true
        → Extends pending last_known node
    parent :
        {node : DecisionNodeHeader} {digest : Digest} {known_node : ChainedDecisionNode}
        → node.previous_block ≡ some digest
        → get_node pending digest ≡ some known_node
        → (header_of known_node).view_no ≡ prev node.view_no
        → Extends pending last_known (header_of known_node)
        → Extends pending last_known node

  module _ (pending : PendingDecisionNodes) (last_known : Option ChainedQc) where
    -- What a turn of the loop finds.
    data Turn (fuel : ℕ) (node : DecisionNodeHeader) : Type 0 where
      at_root :
          node.previous_block ≡ none
          → extension_loop (suc fuel) pending node last_known
            ≡ some (elim last_known [ none ↦ true | some _ ↦ false ])
          → Turn fuel node
      at_known :
          (digest : Digest)
          → node.previous_block ≡ some digest
          → is_known last_known digest ≡ true
          → extension_loop (suc fuel) pending node last_known ≡ some true
          → Turn fuel node
      stops :
          (digest : Digest)
          → node.previous_block ≡ some digest
          → is_known last_known digest ≡ false
          → ((n : ChainedDecisionNode)
              → get_node pending digest ≡ some n
              → (header_of n).view_no ≢ prev node.view_no)
          → extension_loop (suc fuel) pending node last_known ≡ some false
          → Turn fuel node
      steps :
          (digest : Digest) (n : ChainedDecisionNode)
          → node.previous_block ≡ some digest
          → is_known last_known digest ≡ false
          → get_node pending digest ≡ some n
          → (header_of n).view_no ≡ prev node.view_no
          → extension_loop (suc fuel) pending node last_known
            ≡ extension_loop fuel pending (header_of n) last_known
          → Turn fuel node

    turn : (fuel : ℕ) (node : DecisionNodeHeader) → Turn fuel node
    unfolding extension_loop
    turn fuel node = elim (Option-cases node.previous_block) [
      | inl e ↦ at_root e (rw e refl)
      | inr (digest, e) ↦ elim (Bool-cases (is_known last_known digest)) [
        | inl k ↦ at_known digest e k (rw (e, k) refl)
        | inr k ↦ elim (Option-cases (get_node pending digest)) [
          | inl g ↦ stops digest e k (λ n h. cc) (rw (e, k, g) refl)
          | inr (n, g) ↦ elim (seq_discrete (header_of n).view_no (prev node.view_no)) [
            | yes same ↦ steps digest n e k g same (rw (e, k, g) (ground arith))
            | no other ↦
                stops digest e k
                  (λ m h same. other (
                    subst (λ x. (header_of x).view_no ≡ prev node.view_no)
                      (some_injective (sym h ∙ g)) same))
                  (rw (e, k, g) (ground arith))
          ]
        ]
      ]
    ]

    -- A loop that spends its fuel has gone to a pending node in each turn.
    extension_loop-none :
        (fuel : ℕ) (node : DecisionNodeHeader)
        → extension_loop fuel pending node last_known ≡ none
        → (i : ℕ) → i < fuel
        → contains (back_from (suc i) node.view_no) (numbers pending.nodes) ≡ true
    unfolding get_node
    extension_loop-none zero node h i k = absurd (omega arith)
    extension_loop-none (suc fuel) node h i k = elim (turn fuel node) [
      | at_root _ e ↦ cc
      | at_known _ _ _ e ↦ cc
      | stops _ _ _ _ e ↦ cc
      | steps digest n _ _ g same e ↦
          further i k digest n g same λ j l. extension_loop-none fuel (header_of n) (sym e ∙ h) j l
    ]
      where
        further :
            (i : ℕ)
            → i < suc fuel
            → (digest : Digest) (n : ChainedDecisionNode)
            → Map.get digest_discrete digest pending.nodes ≡ some n
            → (header_of n).view_no ≡ prev node.view_no
            → ((j : ℕ)
                → j < fuel
                → contains (back_from (suc j) (header_of n).view_no) (numbers pending.nodes) ≡ true)
            → contains (back_from (suc i) node.view_no) (numbers pending.nodes) ≡ true
        further zero k digest n g same others = rw (← same) (get-contains digest pending.nodes n g)
        further (suc j) k digest n g same others =
            rw (← back_from-prev (suc j) node.view_no, ← same) (others j (omega arith))

    -- If no number repeats on the way back over so many steps as there are pending nodes and one
    -- more, then the loop gives an answer within the fuel.
    pub run_extension_ends :
        (node : DecisionNodeHeader)
        → NoRepeat (suc (length pending.nodes)) node.view_no
        → (answer : Bool) × (run_extension pending node last_known ≡ some answer)
    unfolding run_extension
    run_extension_ends node distinct = elim (Option-cases (run_extension pending node last_known)) [
      | inr found ↦ found
      | inl e ↦
          let all = extension_loop-none (suc (length pending.nodes)) node e in
          let more =
            pigeonhole (suc (length pending.nodes)) (λ i. back_from (suc i) node.view_no)
              (numbers pending.nodes)
              (λ i j h k. distinct (suc i) (suc j) (omega arith) (omega arith)) all in
          absurd (omega (arith, length-numbers pending.nodes, more))
    ]

    extension_loop-Extends :
        (fuel : ℕ) (node : DecisionNodeHeader)
        → extension_loop fuel pending node last_known ≡ some true
        → Extends pending last_known node
    unfolding extension_loop
    extension_loop-Extends zero node h = cc
    extension_loop-Extends (suc fuel) node h = elim (turn fuel node) [
      | at_root p e ↦ Extends.root p (ground arith)
      | at_known digest p k e ↦ Extends.known p k
      | stops digest p k none_fits e ↦ cc
      | steps digest n p k g same e ↦
          Extends.parent p g same (extension_loop-Extends fuel (header_of n) (sym e ∙ h))
    ]

    Extends-extension_loop :
        (fuel : ℕ) (node : DecisionNodeHeader) (answer : Bool)
        → extension_loop fuel pending node last_known ≡ some answer
        → Extends pending last_known node
        → answer ≡ true
    unfolding extension_loop
    Extends-extension_loop zero node answer h x = cc
    Extends-extension_loop (suc fuel) node answer h x = elim (turn fuel node) [
      | at_root p e ↦ elim x [
        | Extends.root q l ↦ ground arith
        | Extends.known q k ↦ cc
        | Extends.parent q g same further ↦ cc
      ]
      | at_known digest p k e ↦ cc
      | stops digest p k none_fits e ↦ elim x [
        | Extends.root q l ↦ cc
        | Extends.known q l ↦ ground arith
        | Extends.parent {known_node = n} q g same further ↦
            absurd (none_fits n (rw (some_injective (sym p ∙ q)) g) same)
      ]
      | steps digest n p k g same e ↦ elim x [
        | Extends.root q l ↦ cc
        | Extends.known q l ↦ ground arith
        | Extends.parent {digest = d} {known_node = m} q found at further ↦
            let one : m ≡ n =
              some_injective (sym found ∙ ap (get_node pending) (some_injective (sym q ∙ p)) ∙ g) in
            Extends-extension_loop fuel (header_of n) answer (sym e ∙ h)
              (subst (λ x. Extends pending last_known (header_of x)) one further)
      ]
    ]

    -- If no number repeats on the way back over so many steps as there are pending nodes and one
    -- more, then a node is found to extend the known one exactly if its ancestors among the pending
    -- nodes, each of the number before, lead to the known node or, without one, to a root.
    pub is_extension_of_known_node-Extends :
        (node : DecisionNodeHeader)
        → NoRepeat (suc (length pending.nodes)) node.view_no
        → (is_extension_of_known_node pending node last_known ≡ true)
          ↔ Extends pending last_known node
    unfolding is_extension_of_known_node run_extension
    is_extension_of_known_node-Extends node distinct =
        let (answer, e) = run_extension_ends node distinct in
        let is_answer : is_extension_of_known_node pending node last_known ≡ answer =
          ap (λ o. elim o [ none ↦ false | some b ↦ b ]) e in
        (
          λ h.
              extension_loop-Extends (suc (length pending.nodes)) node
                (e ∙ ap some (sym is_answer ∙ h)),
          λ x. is_answer ∙ Extends-extension_loop (suc (length pending.nodes)) node answer e x,
        )
