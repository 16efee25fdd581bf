-- ===== src/Chained/Protocol/Links.antt =====
-- What a chain of certificates does to the decisions: `node_chain` of src/chained/protocol/mod.rs.
use hot_iron_oxide.Base.{
  ℕ, zero, suc, ◌-◌, ◌≤◌, ◌≡◌, refl, ap, sym, ◌∙◌, ◌⊎◌, inl, inr, some, List, [], ◌∷◌, ok, arith,
  ltb, get_elem?, set, Permits, Permits-mono, allowed, if_rule, option_rule, some_injective,
  Option-cases,
}
use hot_iron_oxide.Atlas.{Atlas}
use hot_iron_oxide.Tree.{DecisionNodeHeader}
use hot_iron_oxide.HotIron.Log.{done}
use hot_iron_oxide.Chained.Messages.{ChainedQc, ChainedDecisionNode}
use hot_iron_oxide.Chained.Tree.{PendingDecisionNodes, header_of, get_node}
use hot_iron_oxide.Chained.Decision.{ChainedDecision, ChainedDecisionState, rank, advance_state}
use hot_iron_oxide.Chained.Decision.Advance.{IsPhase, Locks, advance_state-Advances}
use hot_iron_oxide.Chained.Protocol.Chain.{
  Decisions, chain_link, link_of, advance_at, advance_before,
}

module _ ⦃atlas : Atlas⦄ where
  open atlas use {Digest, digest_discrete}

  -- The pending node of the first header carries a certificate for its parent, which is the pending
  -- node of the second header.
  pub record Link (pending : PendingDecisionNodes) (child parent : DecisionNodeHeader)
      : Type 0 where
    pub node : ChainedDecisionNode
    pub justify : ChainedQc
    pub parent_node : ChainedDecisionNode
    pub found : get_node pending child.current_block_digest ≡ some node
    pub justified : node.justify ≡ some justify
    pub previous : (header_of node).previous_block ≡ some justify.decision_node.current_block_digest
    pub parent_found :
        get_node pending justify.decision_node.current_block_digest ≡ some parent_node
    pub is_parent : header_of parent_node ≡ parent

  -- Each decision is as it was but for its state, which has not gone back.
  abbrev pub Onward : List ChainedDecision → List ChainedDecision → Type 0
  Onward [] [] = Unit
  Onward [] (e ∷ es) = ⊥
  Onward (d ∷ ds) [] = ⊥
  Onward (d ∷ ds) (e ∷ es) =
      (e ≡ record d { state = e.state }) × (rank d.state ≤ rank e.state) × Onward ds es

  pub Onward-refl : (ds : List ChainedDecision) → Onward ds ds
  Onward-refl [] = tt
  Onward-refl (d ∷ ds) = (refl, omega arith, Onward-refl ds)

  pub Onward-trans : (ds es fs : List ChainedDecision) → Onward ds es → Onward es fs → Onward ds fs
  Onward-trans [] [] fs h k = k
  Onward-trans [] (e ∷ es) fs h k = elim h [ ]
  Onward-trans (d ∷ ds) [] fs h k = elim h [ ]
  Onward-trans (d ∷ ds) (e ∷ es) [] h k = elim k [ ]
  Onward-trans (d ∷ ds) (e ∷ es) (f ∷ fs) (p, q, h) (u, v, k) =
      (ground arith, omega arith, Onward-trans ds es fs h k)

  Onward-set :
      (ds : List ChainedDecision) (i : ℕ) (d e : ChainedDecision)
      → get_elem? ds i ≡ some d
      → e ≡ record d { state = e.state }
      → rank d.state ≤ rank e.state
      → Onward ds (set ds i e)
  Onward-set [] i d e h p q = cc
  Onward-set (x ∷ xs) zero d e h p q =
      let at : x ≡ d = some_injective h in (rw at p, rw at q, Onward-refl xs)
  Onward-set (x ∷ xs) (suc i) d e h p q = (refl, omega arith, Onward-set xs i d e h p q)

  pub chain_link-Link :
      (pending : PendingDecisionNodes) (child parent : DecisionNodeHeader)
      → chain_link pending child ≡ ok (done (some parent))
      → Link pending child parent
  unfolding chain_link link_of
  chain_link-Link pending child parent h =
      elim (Option-cases (get_node pending child.current_block_digest)) [
        | inl e ↦ absurd (ground arith)
        | inr (node, found) ↦ elim (Option-cases node.justify) [
          | inl j ↦ elim (Option-cases (header_of node).previous_block) [
            | inl p ↦ absurd (ground arith)
            | inr (digest, p) ↦ absurd (ground arith)
          ]
          | inr (justify, j) ↦ elim (Option-cases (header_of node).previous_block) [
            | inl p ↦ absurd (ground arith)
            | inr (digest, p) ↦
                let parent_digest = justify.decision_node.current_block_digest in
                elim (digest_discrete digest parent_digest) [
                  | no other ↦ absurd (ground arith)
                  | yes same ↦ elim (Option-cases (get_node pending parent_digest)) [
                    | inl g ↦ absurd (ground arith)
                    | inr (parent_node, g) ↦ record {
                      node = node;
                      justify = justify;
                      parent_node = parent_node;
                      found = found;
                      justified = j;
                      previous = rw p (rw same refl);
                      parent_found = g;
                      is_parent = ground arith;
                    }
                  ]
                ]
          ]
        ]
      ]

  pub Onward-at :
      (ds es : List ChainedDecision) (j : ℕ) {d : ChainedDecision}
      → Onward ds es
      → get_elem? ds j ≡ some d
      → (e : ChainedDecision) × (get_elem? es j ≡ some e)
        × (e ≡ record d { state = e.state })
        × (rank d.state ≤ rank e.state)
  Onward-at [] es j h g = cc
  Onward-at (x ∷ ds) [] j h g = elim h [ ]
  Onward-at (x ∷ ds) (e ∷ es) zero (p, q, h) g =
      let at = some_injective g in (e, refl, rw (← at) p, rw (← at) q)
  Onward-at (x ∷ ds) (e ∷ es) (suc j) (p, q, h) g = Onward-at ds es j h g

  -- The decision at this place has come at least this far.
  abbrev pub ReachedAt : ℕ → ChainedDecisionState → List ChainedDecision → Type 0
  ReachedAt j target ds =
      (e : ChainedDecision) × (get_elem? ds j ≡ some e) × (rank target ≤ rank e.state)

  pub ReachedAt-Onward :
      (ds es : List ChainedDecision) (j : ℕ) (target : ChainedDecisionState)
      → Onward ds es
      → ReachedAt j target ds
      → ReachedAt j target es
  ReachedAt-Onward ds es j target h (d, at, far) =
      let (e, there, _, farther) = Onward-at ds es j h at in (e, there, omega arith)

  get_elem?-set :
      (ds : List ChainedDecision) (i : ℕ) (d e : ChainedDecision)
      → get_elem? ds i ≡ some d
      → get_elem? (set ds i e) i ≡ some e
  get_elem?-set [] i d e h = cc
  get_elem?-set (x ∷ xs) zero d e h = refl
  get_elem?-set (x ∷ xs) (suc i) d e h = get_elem?-set xs i d e h

  -- Between the lists, the states differ only where the test allows the new one.
  abbrev pub OnlyAt :
      (ℕ → ChainedDecisionState → ChainedDecisionState → Type 0)
      → List ChainedDecision
      → List ChainedDecision
      → Type 0
  OnlyAt P ds es =
      (j : ℕ) (d e : ChainedDecision)
      → get_elem? ds j ≡ some d
      → get_elem? es j ≡ some e
      → P j d.state e.state

  -- The state stays, or it is the target and the place the given one.
  abbrev pub Only :
      ℕ → ChainedDecisionState → ℕ → ChainedDecisionState → ChainedDecisionState → Type 0
  Only i target j s t = (t ≡ s) ⊎ ((j ≡ i) × (t ≡ target))

  Only-set :
      (ds : List ChainedDecision) (i : ℕ) (target : ChainedDecisionState) (d e : ChainedDecision)
      → get_elem? ds i ≡ some d
      → (e.state ≡ d.state) ⊎ (e.state ≡ target)
      → OnlyAt (Only i target) ds (set ds i e)
  Only-set [] i target d e h t j x y g k = cc
  Only-set (z ∷ zs) zero target d e h t zero x y g k =
      let at : e ≡ y = some_injective k in
      let was : d ≡ x = sym (some_injective h) ∙ some_injective g in
      elim t [
        | inl same ↦ inl (ap (λ a. a.state) (sym at) ∙ same ∙ ap (λ a. a.state) was)
        | inr new ↦ inr (refl, ap (λ a. a.state) (sym at) ∙ new)
      ]
  Only-set (z ∷ zs) zero target d e h t (suc j) x y g k =
      inl (ap (λ a. a.state) (some_injective (sym k ∙ g)))
  Only-set (z ∷ zs) (suc i) target d e h t zero x y g k =
      inl (ap (λ a. a.state) (some_injective (sym k ∙ g)))
  Only-set (z ∷ zs) (suc i) target d e h t (suc j) x y g k =
      elim (Only-set zs i target d e h t j x y g k) [
        | inl same ↦ inl same
        | inr (at, new) ↦ inr (ap suc at, new)
      ]

  -- What advancing the decision at a place does.
  pub record Steps (i : ℕ) (target : ChainedDecisionState) (ds r : Decisions) : Type 0 where
    pub decision : ChainedDecision
    pub at : get_elem? ds.0 i ≡ some decision
    pub lock : Locks decision target ds.1.latest_locked_qc r.1.latest_locked_qc
    pub onward : Onward ds.0 r.0
    pub reached : ReachedAt i target r.0
    pub only : OnlyAt (Only i target) ds.0 r.0

  pub advance_at-Steps :
      (ds : Decisions) (i : ℕ) (target : ChainedDecisionState)
      → IsPhase target
      → Permits (Steps i target ds) (advance_at ds i target)
  unfolding advance_at
  advance_at-Steps ds i target p =
      option_rule (Permits (Steps i target ds)) (get_elem? ds.0 i) (λ _. allowed)
        (λ d at.
          let advanced = advance_state-Advances d target ds.1 p in
          let e = (advance_state d target ds.1).0 in
          record {
            decision = d;
            at = at;
            lock = advanced.lock;
            onward = Onward-set ds.0 i d e at advanced.only_state advanced.forward;
            reached = (e, get_elem?-set ds.0 i d e at, advanced.reached);
            only = Only-set ds.0 i target d e at advanced.takes;
          })

  pub advance_before-Steps :
      (ds : Decisions) (i k : ℕ) (target : ChainedDecisionState)
      → IsPhase target
      → Permits (λ r. (k ≤ i) × Steps (i - k) target ds r) (advance_before ds i k target)
  unfolding advance_before
  advance_before-Steps ds i k target p =
      if_rule (Permits (λ r. (k ≤ i) × Steps (i - k) target ds r)) (ltb i k) (λ _. allowed)
        (λ h.
          Permits-mono (advance_at ds (i - k) target) (λ r step. (ground arith, step))
            (advance_at-Steps ds (i - k) target p))

  pub Onward-from :
      (ds es : List ChainedDecision) (j : ℕ) {e : ChainedDecision}
      → Onward ds es
      → get_elem? es j ≡ some e
      → (d : ChainedDecision) × (get_elem? ds j ≡ some d) × (e.decision_qc ≡ d.decision_qc)
  Onward-from [] [] j h g = cc
  Onward-from [] (y ∷ es) j h g = elim h [ ]
  Onward-from (x ∷ ds) [] j h g = elim h [ ]
  Onward-from (x ∷ ds) (y ∷ es) zero {e} (p, q, h) g =
      (x, refl, ap (λ d. d.decision_qc) (sym (some_injective g) ∙ p))
  Onward-from (x ∷ ds) (y ∷ es) (suc j) (p, q, h) g = Onward-from ds es j h g
