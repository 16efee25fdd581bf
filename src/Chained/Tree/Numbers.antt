-- ===== src/Chained/Tree/Numbers.antt =====
-- The numbers of the pending nodes of src/chained/chained_decision_tree.rs, and of those that come
-- before a number.
use hot_iron_oxide.Base.{
  ℕ, zero, suc, ◌≤◌, ◌<◌, ◌≡◌, ◌≢◌, refl, ap, true, some, List, [], ◌∷◌, map, arith, length,
}
use hot_iron_oxide.Base.Map
use hot_iron_oxide.Base.Map.{Map}
use hot_iron_oxide.Atlas.{Atlas}
use hot_iron_oxide.HotIron.Signals.{contains, remove}
use hot_iron_oxide.HotIron.Signals.Order.{contains-remove}
use hot_iron_oxide.Chained.Messages.{ChainedDecisionNode}
use hot_iron_oxide.Chained.Tree.{header_of}

module _ ⦃atlas : Atlas⦄ where
  open atlas use {SeqNo, seq_discrete, prev, Digest, digest_discrete}

  -- The number so many steps back.
  abbrev pub back_from : ℕ → SeqNo → SeqNo
  back_from zero s = s
  back_from (suc n) s = prev (back_from n s)

  -- Stepping back so many times from the number gives no number twice.
  abbrev pub NoRepeat : ℕ → SeqNo → Type 0
  NoRepeat n s = (i j : ℕ) → i < j → j ≤ n → back_from i s ≢ back_from j s

  length-remove_le : (s : SeqNo) (xs : List SeqNo) → length (remove s xs) ≤ length xs
  length-remove_le s [] = omega arith
  length-remove_le s (x ∷ xs) = ground (arith, length-remove_le s xs)

  length-remove :
      (s : SeqNo) (xs : List SeqNo) → contains s xs ≡ true → length (remove s xs) < length xs
  length-remove s [] h = cc
  length-remove s (x ∷ xs) h = ground (arith, length-remove_le s xs, length-remove s xs)

  -- Distinct numbers that are all in a list are no more than it has.
  pub pigeonhole :
      (n : ℕ) (f : ℕ → SeqNo) (xs : List SeqNo)
      → ((i j : ℕ) → i < j → j < n → f i ≢ f j)
      → ((i : ℕ) → i < n → contains (f i) xs ≡ true)
      → n ≤ length xs
  pigeonhole zero f xs distinct all = omega arith
  pigeonhole (suc n) f xs distinct all =
      let fewer = length-remove (f n) xs (all n (omega arith)) in
      let rest =
        pigeonhole n f (remove (f n) xs) (λ i j h k. distinct i j h (omega arith))
          (λ i h.
            let here = all i (omega arith) in
            let other = distinct i n h (omega arith) in
            rw (contains-remove (f n) (f i) xs) (ground (arith, here, other))) in
      omega arith

  abbrev pub numbers : Map Digest ChainedDecisionNode → List SeqNo
  numbers nodes = map (λ e. (header_of e.1).view_no) nodes

  pub get-contains :
      (digest : Digest) (nodes : Map Digest ChainedDecisionNode) (node : ChainedDecisionNode)
      → Map.get digest_discrete digest nodes ≡ some node
      → contains (header_of node).view_no (numbers nodes) ≡ true
  unfolding Map.get
  get-contains digest [] node h = cc
  get-contains digest (e ∷ nodes) node h = ground (arith, get-contains digest nodes node)

  pub length-numbers :
      (nodes : Map Digest ChainedDecisionNode) → length (numbers nodes) ≡ length nodes
  length-numbers [] = refl
  length-numbers (e ∷ nodes) = ap suc (length-numbers nodes)

  pub back_from-prev : (i : ℕ) (s : SeqNo) → back_from i (prev s) ≡ prev (back_from i s)
  back_from-prev zero s = refl
  back_from-prev (suc i) s = ap prev (back_from-prev i s)
