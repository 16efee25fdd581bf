-- ===== src/Chained/Protocol/Popping.antt =====
-- The popping of a decision from the pipeline of src/chained/protocol/mod.rs.
use hot_iron_oxide.Base.{
  ◌≡◌, refl, sym, ◌∙◌, ap, subst, false, none, some, List, [], ◌∷◌, arith, length, length-append,
  back, push_back, Returns, Ends, Ends-bind, Ends-Returns, All, All-append,
}
use hot_iron_oxide.Atlas.{Atlas}
use hot_iron_oxide.View.{View}
use hot_iron_oxide.View.Rotation.{IsWellFormed, next_view-IsWellFormed, with_new_seq-IsWellFormed}
use hot_iron_oxide.Chained.Decision.{ChainedDecision}
use hot_iron_oxide.Chained.Protocol.{
  ChainedHotStuffProtocol, protocol_phases, populate_decision, pop_decision, is_finalized,
}
use hot_iron_oxide.Chained.Protocol.Pipeline.{Numbered, IsOf, IsPipeline, IsNew, new_decision-IsNew}

module _ ⦃atlas : Atlas⦄ where
  open atlas use {SeqNo, next, NodeId}

  abbrev last_seq : ChainedDecision → List ChainedDecision → SeqNo
  last_seq d [] = d.view.seq
  last_seq d (e ∷ ds) = last_seq e ds

  back-last_seq :
      (s : SeqNo) (d : ChainedDecision) (ds : List ChainedDecision)
      → (elim (back (d ∷ ds)) [ none ↦ s | some b ↦ b.view.seq ]) ≡ last_seq d ds
  back-last_seq s d [] = refl
  back-last_seq s d (e ∷ ds) = back-last_seq s e ds

  Numbered-push_back :
      (s : SeqNo) (d x : ChainedDecision) (ds : List ChainedDecision)
      → Numbered s (d ∷ ds)
      → x.view.seq ≡ next (last_seq d ds)
      → Numbered s (push_back (d ∷ ds) x)
  Numbered-push_back s d x [] (at, _) h = (at, (h ∙ ap next at, tt))
  Numbered-push_back s d x (e ∷ ds) (at, rest) h = (at, Numbered-push_back (next s) e x ds rest h)

  -- What popping the decision at the front leaves: the next view, and a new decision at the back.
  pub record PopsTo (p : ChainedHotStuffProtocol) (r : ChainedDecision × ChainedHotStuffProtocol)
      : Type 0 where
    pub pipeline : IsPipeline r.1
    pub number : r.0.view.seq ≡ p.curr_view.seq
    pub moves : r.1.curr_view.seq ≡ next p.curr_view.seq
    pub same_node : r.1.node_id ≡ p.node_id
    pub pushed :
        (d : ChainedDecision) × (rest : List ChainedDecision) × (p.decision_list ≡ r.0 ∷ rest)
        × (r.1.decision_list ≡ push_back rest d)
        × (is_finalized d.state ≡ false)

  -- The decision that is made for the view after the last one of the pipeline.
  populated :
      (p : ChainedHotStuffProtocol) (decision e : ChainedDecision) (rest : List ChainedDecision)
      (view : View)
      → IsPipeline p
      → p.decision_list ≡ decision ∷ e ∷ rest
      → IsWellFormed view
      → view.seq ≡ next p.curr_view.seq
      → view.members ≡ p.curr_view.members
      → Ends
          (λ p'. PopsTo p (decision, p'))
          (populate_decision (record p { decision_list = e ∷ rest; curr_view = view }))
  unfolding populate_decision
  populated p decision e rest view h list w at same =
      let seq = next (elim (back (e ∷ rest)) [ none ↦ view.seq | some d ↦ d.view.seq ]) in
      let (added, run, (well, number, members, _)) = with_new_seq-IsWellFormed view seq w in
      let numbered : Numbered p.curr_view.seq (decision ∷ e ∷ rest) =
        subst (Numbered p.curr_view.seq) list h.numbered in
      let each : All (IsOf p.node_id p.curr_view.members) (decision ∷ e ∷ rest) =
        subst (All (IsOf p.node_id p.curr_view.members)) list h.each in
      let full : length (decision ∷ e ∷ rest) ≡ protocol_phases = ap length (sym list) ∙ h.full in
      rw (run, populate_decision)
        (Ends-bind (IsNew p.node_id added) (λ p'. PopsTo p (decision, p')) _ _
          (new_decision-IsNew added p.node_id well)
          λ d (of_view, of_node, fresh). record {
            pipeline = record {
              well = w;
              full = omega (arith, full, length-append (e ∷ rest) (d ∷ []));
              numbered =
                  subst (λ s. Numbered s (push_back (e ∷ rest) d)) (sym at)
                    (Numbered-push_back (next p.curr_view.seq) e d rest numbered.1
                      (ap (λ v. v.seq) of_view ∙ number ∙ ap next (back-last_seq view.seq e rest)));
              each =
                  subst (λ m. All (IsOf p.node_id m) (push_back (e ∷ rest) d)) (sym same)
                    (All-append (IsOf p.node_id p.curr_view.members) (e ∷ rest) (d ∷ []) each.1 (
                      record {
                        well = subst IsWellFormed (sym of_view) well;
                        quorum = ap (λ v. v.members) of_view ∙ members ∙ same;
                        node = of_node;
                      },
                      tt,
                    ));
            };
            number = numbered.0;
            moves = at;
            same_node = refl;
            pushed = (d, e ∷ rest, list, refl, fresh);
          })

  -- In a pipeline of well-formed views, one decision for each of the four views from the current one,
  -- popping the decision at the front does not panic: it gives the decision of the current view,
  -- goes to the next view, and adds a new decision, which is not final, so that the pipeline is
  -- again one for each of the four views from the current one.
  pub pop_decision-PopsTo :
      (p : ChainedHotStuffProtocol) → IsPipeline p → Returns (pop_decision p) (PopsTo p)
  unfolding pop_decision
  pop_decision-PopsTo p h = popped p.decision_list refl h.full
    where
      popped :
          (ds : List ChainedDecision)
          → p.decision_list ≡ ds
          → length ds ≡ protocol_phases
          → Returns (pop_decision p) (PopsTo p)
      popped [] list full = absurd (omega (arith, full))
      popped (d ∷ []) list full = absurd (omega (arith, full))
      popped (d ∷ e ∷ rest) list full =
          let (view, run, (well, at, same)) = next_view-IsWellFormed p.curr_view h.well in
          let (p', made, to) =
            Ends-Returns {P = λ p'. PopsTo p (d, p')}
              (populate_decision (record p { decision_list = e ∷ rest; curr_view = view }))
              (populated p d e rest view h list well at same) in
          ((d, p'), rw (pop_decision, list, run, made) refl, to)
