-- ===== src/Chained/Protocol/Alike.antt =====
-- What changes of the decisions of src/chained/protocol/mod.rs keep them a pipeline.
use hot_iron_oxide.Base.{
  ℕ, zero, suc, ◌≡◌, refl, ◌∙◌, ap, some, List, [], ◌∷◌, length, get_elem?, set, All,
  some_injective, inl, inr, Option-cases, arith,
}
use hot_iron_oxide.Atlas.{Atlas}
use hot_iron_oxide.Chained.Decision.{ChainedDecision}
use hot_iron_oxide.Chained.Protocol
use hot_iron_oxide.Chained.Protocol.{ChainedHotStuffProtocol}
use hot_iron_oxide.Chained.Protocol.Links.{Onward}
use hot_iron_oxide.Chained.Protocol.Pipeline.{Numbered, IsOf, IsPipeline}

module _ ⦃atlas : Atlas⦄ where
  open atlas use {SeqNo, NodeId}

  -- The decisions are for the same views, and of the same node.
  abbrev pub Alike : List ChainedDecision → List ChainedDecision → Type 0
  Alike [] [] = Unit
  Alike [] (e ∷ es) = ⊥
  Alike (d ∷ ds) [] = ⊥
  Alike (d ∷ ds) (e ∷ es) = (e.view ≡ d.view) × (e.node_id ≡ d.node_id) × Alike ds es

  pub Alike-refl : (ds : List ChainedDecision) → Alike ds ds
  Alike-refl [] = tt
  Alike-refl (d ∷ ds) = (refl, refl, Alike-refl ds)

  pub Alike-trans : (ds es fs : List ChainedDecision) → Alike ds es → Alike es fs → Alike ds fs
  Alike-trans [] [] fs h k = k
  Alike-trans [] (e ∷ es) fs h k = elim h [ ]
  Alike-trans (d ∷ ds) [] fs h k = elim h [ ]
  Alike-trans (d ∷ ds) (e ∷ es) [] h k = elim k [ ]
  Alike-trans (d ∷ ds) (e ∷ es) (f ∷ fs) (p, q, h) (u, v, k) =
      (u ∙ p, v ∙ q, Alike-trans ds es fs h k)

  pub Alike-set :
      (ds : List ChainedDecision) (i : ℕ) (d e : ChainedDecision)
      → get_elem? ds i ≡ some d
      → e.view ≡ d.view
      → e.node_id ≡ d.node_id
      → Alike ds (set ds i e)
  Alike-set [] i d e h p q = tt
  Alike-set (x ∷ xs) zero d e h p q =
      let at : x ≡ d = some_injective h in (rw at p, rw at q, Alike-refl xs)
  Alike-set (x ∷ xs) (suc i) d e h p q = (refl, refl, Alike-set xs i d e h p q)

  pub Onward-Alike : (ds es : List ChainedDecision) → Onward ds es → Alike ds es
  Onward-Alike [] [] h = tt
  Onward-Alike [] (e ∷ es) h = elim h [ ]
  Onward-Alike (d ∷ ds) [] h = elim h [ ]
  Onward-Alike (d ∷ ds) (e ∷ es) (p, q, h) =
      (ap (λ x. x.view) p, ap (λ x. x.node_id) p, Onward-Alike ds es h)

  Alike-length : (ds es : List ChainedDecision) → Alike ds es → length es ≡ length ds
  Alike-length [] [] h = refl
  Alike-length [] (e ∷ es) h = elim h [ ]
  Alike-length (d ∷ ds) [] h = elim h [ ]
  Alike-length (d ∷ ds) (e ∷ es) (p, q, h) = ap suc (Alike-length ds es h)

  Alike-Numbered :
      (s : SeqNo) (ds es : List ChainedDecision) → Alike ds es → Numbered s ds → Numbered s es
  Alike-Numbered s [] [] h n = tt
  Alike-Numbered s [] (e ∷ es) h n = elim h [ ]
  Alike-Numbered s (d ∷ ds) [] h n = elim h [ ]
  Alike-Numbered s (d ∷ ds) (e ∷ es) (p, q, h) (at, n) =
      (ap (λ v. v.seq) p ∙ at, Alike-Numbered (atlas.next s) ds es h n)

  Alike-each :
      (node : NodeId) (members : List NodeId) (ds es : List ChainedDecision)
      → Alike ds es
      → All (IsOf node members) ds
      → All (IsOf node members) es
  Alike-each node members [] [] h a = tt
  Alike-each node members [] (e ∷ es) h a = elim h [ ]
  Alike-each node members (d ∷ ds) [] h a = elim h [ ]
  Alike-each node members (d ∷ ds) (e ∷ es) (p, q, h) (of, a) = (
    record { well = rw p of.well; quorum = rw p of.quorum; node = q ∙ of.node },
    Alike-each node members ds es h a,
  )

  -- A protocol whose decisions are those of a pipeline but for their states, logs and queues.
  pub Alike-IsPipeline :
      (p p' : ChainedHotStuffProtocol)
      → IsPipeline p
      → p'.curr_view ≡ p.curr_view
      → p'.node_id ≡ p.node_id
      → Alike p.decision_list p'.decision_list
      → IsPipeline p'
  Alike-IsPipeline p p' h view node alike = record {
    well = rw view h.well;
    full = Alike-length p.decision_list p'.decision_list alike ∙ h.full;
    numbered =
        rw view (Alike-Numbered p.curr_view.seq p.decision_list p'.decision_list alike h.numbered);
    each =
        rw (view, node)
          (Alike-each p.node_id p.curr_view.members p.decision_list p'.decision_list alike h.each);
  }

  -- The decision that is found stands at its place.
  pub get_decision-there :
      (p : ChainedHotStuffProtocol) (seq : SeqNo) (i : ℕ) (d : ChainedDecision)
      → Protocol.get_decision p seq ≡ some (i, d)
      → (atlas.index seq p.curr_view.seq ≡ some i) × (get_elem? p.decision_list i ≡ some d)
  unfolding Protocol.get_decision
  get_decision-there p seq i d h = elim (Option-cases (atlas.index seq p.curr_view.seq)) [
    | inl e ↦ absurd (ground arith)
    | inr (j, e) ↦ elim (Option-cases (get_elem? p.decision_list j)) [
      | inl k ↦ absurd (ground arith)
      | inr (x, k) ↦ (ground arith, ground arith)
    ]
  ]
