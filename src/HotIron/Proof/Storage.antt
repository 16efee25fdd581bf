-- ===== src/HotIron/Proof/Storage.antt =====
-- That a proof made from storage survives being stored (src/hot_iron/protocol/proof/mod.rs and
-- src/hot_iron/loggable_protocol.rs).
use mathlib.Core.List.{append_assoc, append-nil}
use hot_iron_oxide.Base.{
  ◌≡◌, refl, sym, ap, ◌∙◌, subst, some, List, [], ◌∷◌, ◌++◌, map, All, arith, ite_rule,
  Option-cases, inl, inr,
}
use hot_iron_oxide.Base.Map
use hot_iron_oxide.Base.Map.{Map}
use hot_iron_oxide.Base.Keyed.{NoKey, Keyed, insert-NoKey, Keyed-insert, NoKey-push, none_keyed}
use hot_iron_oxide.Atlas.{Atlas}
use hot_iron_oxide.Tree.{DecisionNodeHeader, DecisionNodeHeader-discrete, DecisionNode}
use hot_iron_oxide.HotIron.Messages.{QcType, QcType-discrete, Qc}
use hot_iron_oxide.HotIron.Queue.{Message}
use hot_iron_oxide.HotIron.Log.{done}
use hot_iron_oxide.HotIron.Proof.{
  Proof, collect_qcs, first_prepared, new_from_storage, decompose_proof,
}

module _ ⦃atlas : Atlas⦄ where
  -- The certificate stands under its type.
  abbrev UnderType : QcType × Qc → Type 0
  UnderType e = e.0 ≡ e.1.qc_type

  Keyed-collect_qcs :
      (m : Map QcType Qc) (qs : List Qc)
      → Keyed QcType-discrete UnderType m
      → Keyed QcType-discrete UnderType (collect_qcs m qs)
  Keyed-collect_qcs m [] h = h
  Keyed-collect_qcs m (q ∷ qs) h =
      Keyed-collect_qcs (Map.insert QcType-discrete q.qc_type q m) qs
        (Keyed-insert QcType-discrete UnderType q.qc_type q m refl h)

  collect_qcs-map :
      (front m : Map QcType Qc)
      → Keyed QcType-discrete UnderType m
      → All (λ (e : QcType × Qc). NoKey QcType-discrete UnderType e.0 front) m
      → collect_qcs front (map (λ e. e.1) m) ≡ front ++ m
  collect_qcs-map front [] h a = sym (append-nil front)
  collect_qcs-map front (e ∷ m) h a =
      let step : Map.insert QcType-discrete e.1.qc_type e.1 front ≡ front ++ e ∷ [] =
        subst (λ k. Map.insert QcType-discrete k e.1 front ≡ front ++ (k, e.1) ∷ []) h.0
          (insert-NoKey QcType-discrete UnderType e.0 e.1 front a.0)
        ∙ ap (λ k. front ++ (k, e.1) ∷ []) (sym h.0) in
      ap (λ f. collect_qcs f (map (λ x. x.1) m)) step
      ∙ collect_qcs-map (front ++ e ∷ []) m h.2
          (NoKey-push QcType-discrete UnderType front e m h.1 a.1)
      ∙ append_assoc front (e ∷ []) m

  module _ (messages : List Message) (qcs : List Qc) (node : DecisionNode)
      (first : first_prepared messages ≡ some node) where
    abbrev made : Proof
    made = record { decision_node = node; qcs = collect_qcs [] qcs; messages = messages }

    made_lem :
        (header : DecisionNodeHeader) (proof : Proof)
        → new_from_storage header qcs messages ≡ done proof
        → made ≡ proof
    unfolding new_from_storage
    made_lem header proof e = ground arith

    restored :
        new_from_storage node.decision_header (map (λ e. e.1) (collect_qcs [] qcs)) messages
        ≡ done made
    unfolding new_from_storage
    restored =
        rw (new_from_storage, first)
          (ite_rule (λ r. r ≡ done made)
            (DecisionNodeHeader-discrete node.decision_header node.decision_header)
            (λ _.
              ap (λ q. done (record made { qcs = q }))
                (collect_qcs-map [] (collect_qcs [] qcs) (Keyed-collect_qcs [] qcs tt)
                  (none_keyed QcType-discrete UnderType (collect_qcs [] qcs))))
            (λ n. absurd (n refl)))

  -- A proof that was made from storage is made again from what it is taken apart into.
  pub new_from_storage-decompose_proof :
      (header : DecisionNodeHeader) (qcs : List Qc) (messages : List Message) (proof : Proof)
      → new_from_storage header qcs messages ≡ done proof
      → let (header', qcs', messages') = decompose_proof proof in
        new_from_storage header' qcs' messages' ≡ done proof
  unfolding new_from_storage decompose_proof
  new_from_storage-decompose_proof header qcs messages proof e =
      elim (Option-cases (first_prepared messages)) [
        | inl k ↦ absurd (ground arith)
        | inr (node, k) ↦
            subst
              (λ (p : Proof).
                new_from_storage p.decision_node.decision_header (map (λ x. x.1) p.qcs) p.messages
                ≡ done p)
              (made_lem messages qcs node k header proof e) (restored messages qcs node k)
      ]
