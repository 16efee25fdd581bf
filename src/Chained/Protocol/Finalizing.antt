-- ===== src/Chained/Protocol/Finalizing.antt =====
-- What `finalize` of src/chained/protocol/mod.rs gives, and that its loop ends.
use hot_iron_oxide.Base.{
  ℕ, zero, suc, ◌≤◌, ◌<◌, ◌≡◌, refl, sym, ◌∙◌, ap, subst, ◌⊎◌, inl, inr, Bool, true, false, Option,
  some, List, [], ◌∷◌, ◌++◌, ok, arith, length, push_back, Returns, Ends, Ends-bind, Ends-mono,
  Ends-Returns, if◌then◌else◌, Bool-cases, Option-cases,
}
use hot_iron_oxide.View.Rotation.{IsWellFormed}
use mathlib.Core.List.{append-nil, append_assoc}
use hot_iron_oxide.Atlas.{Atlas}
use hot_iron_oxide.HotIron.Log.{Result, done, failed, done_injective}
use hot_iron_oxide.Chained.Tree.{remove_node}
use hot_iron_oxide.Chained.Decision
use hot_iron_oxide.Chained.Decision.{ChainedDecision, ChainedDecisionState}
use hot_iron_oxide.Chained.Protocol.{
  ChainedHotStuffProtocol, IronChainDecision, ConsensusDecision, FinalizeDecisionsError, Finalized,
  is_finalized, can_finalize, complete_decision, completed, pop_decision, finalize_loop, finalize,
}
use hot_iron_oxide.Chained.Protocol.Pipeline.{IsPipeline, to_ends}
use hot_iron_oxide.Chained.Protocol.Popping.{PopsTo, pop_decision-PopsTo}

module _ ⦃atlas : Atlas⦄ where
  open atlas use {SeqNo, next}

  -- Completed decisions of consecutive numbers, from the first one up to the second, which is the
  -- number after the last.
  abbrev pub InOrder : SeqNo → SeqNo → List IronChainDecision → Type 0
  InOrder s end [] = end ≡ s
  InOrder s end (IronChainDecision.completed_decision n decision ∷ rest) =
      (n ≡ s) × (decision.seq ≡ s) × InOrder (next s) end rest
  InOrder s end (IronChainDecision.decision_info_from_metadata_and_messages n h q m ∷ rest) = ⊥

  -- What was given already comes first; a failure gives nothing.
  pub data Gives (acc : List IronChainDecision) (s end : SeqNo) (more : Bool)
      : Result FinalizeDecisionsError (List IronChainDecision) → Type 0 where
    answer :
        {all : List IronChainDecision} (out : List IronChainDecision)
        → all ≡ acc ++ out
        → InOrder s end out
        → more ≡ false
        → Gives acc s end more (done all)
    failure : (error : FinalizeDecisionsError) → Gives acc s end more (failed error)

  -- How many decisions at the front are final.
  abbrev final_prefix : List ChainedDecision → ℕ
  final_prefix [] = 0
  final_prefix (d ∷ ds) = let rest = final_prefix ds in if is_finalized d.state then suc rest else 0

  final_prefix-le : (ds : List ChainedDecision) → final_prefix ds ≤ length ds
  final_prefix-le [] = omega arith
  final_prefix-le (d ∷ ds) = ground (arith, final_prefix-le ds)

  final_prefix-push_back :
      (ds : List ChainedDecision) (d : ChainedDecision)
      → is_finalized d.state ≡ false
      → final_prefix (push_back ds d) ≡ final_prefix ds
  final_prefix-push_back [] d h = rw h refl
  final_prefix-push_back (x ∷ ds) d h = rw (final_prefix-push_back ds d h) refl

  final_prefix-front :
      (p : ChainedHotStuffProtocol) (d : ChainedDecision) (rest : List ChainedDecision)
      → can_finalize p ≡ true
      → p.decision_list ≡ d ∷ rest
      → final_prefix p.decision_list ≡ suc (final_prefix rest)
  unfolding can_finalize
  final_prefix-front p d rest h list =
      let final : is_finalized d.state ≡ true = rw (can_finalize, list) at h in
      rw (list, final) refl

  -- Completing a decision changes neither the pipeline nor the view, and what it gives, if it does
  -- not fail, is of the decision's number.
  pub record Completes (d : ChainedDecision) (p : ChainedHotStuffProtocol)
      (r : ChainedHotStuffProtocol × Result FinalizeDecisionsError IronChainDecision) : Type 0 where
    pub list : r.0.decision_list ≡ p.decision_list
    pub view : r.0.curr_view ≡ p.curr_view
    pub node : r.0.node_id ≡ p.node_id
    pub signals : r.0.signals ≡ p.signals
    pub given :
        ((error : FinalizeDecisionsError) × (r.1 ≡ failed error))
        ⊎ ((c : ConsensusDecision) × (c.seq ≡ d.view.seq)
            × (r.1 ≡ done (IronChainDecision.completed_decision d.view.seq c)))

  pub complete_decision-Completes :
      (d : ChainedDecision) (p : ChainedHotStuffProtocol) → Completes d p (complete_decision d p)
  unfolding complete_decision completed Decision.finalize
  complete_decision-Completes d p = elim (Option-cases d.decision_node_digest) [
    | inl e ↦
        rw (complete_decision, Decision.finalize, e)
          (record { list = refl; view = refl; node = refl; signals = refl; given = inl (_, refl) })
    | inr (digest, e) ↦ elim (Option-cases (remove_node p.pending_nodes digest).0) [
      | inl r ↦
          rw (complete_decision, Decision.finalize, e, r)
            (record {
              list = refl;
              view = refl;
              node = refl;
              signals = refl;
              given = inl (_, refl);
            })
      | inr (node, r) ↦
          rw (complete_decision, Decision.finalize, e, r)
            (record {
              list = refl;
              view = refl;
              node = refl;
              signals = refl;
              given = inr (_, refl, refl);
            })
    ]
  ]

  Completes-IsPipeline :
      (d : ChainedDecision) (p : ChainedHotStuffProtocol)
      (r : ChainedHotStuffProtocol × Result FinalizeDecisionsError IronChainDecision)
      → Completes d p r
      → IsPipeline p
      → IsPipeline r.0
  Completes-IsPipeline d p r c h = record {
    well = subst IsWellFormed (sym c.view) h.well;
    full = ap length c.list ∙ h.full;
    numbered = rw (c.list, c.view) h.numbered;
    each = rw (c.list, c.view, c.node) h.each;
  }

  -- What a turn gives comes before what the further turns give.
  prepend :
      {r : Result FinalizeDecisionsError (List IronChainDecision)} {end : SeqNo} {more : Bool}
      (acc : List IronChainDecision) (s s' : SeqNo) (out : IronChainDecision)
      (c : ConsensusDecision) (n : SeqNo)
      → n ≡ s
      → c.seq ≡ n
      → s' ≡ next s
      → out ≡ IronChainDecision.completed_decision n c
      → Gives (push_back acc out) s' end more r
      → Gives acc s end more r
  prepend acc s s' out c n at seq moves is (Gives.failure error) = Gives.failure error
  prepend {end = last} acc s s' out c n at seq moves is (Gives.answer rest all order m) =
      Gives.answer (IronChainDecision.completed_decision n c ∷ rest)
        (all ∙ append_assoc acc (out ∷ []) rest ∙ ap (λ o. acc ++ o ∷ rest) is)
        (at, seq ∙ at, subst (λ t. InOrder t last rest) moves order) m

  -- The loop's answer: from the number at which it starts.
  pub record Ended (acc : List IronChainDecision) (s : SeqNo) (r : Finalized) : Type 0 where
    pub pipeline : IsPipeline r.0
    pub given : Gives acc s r.0.curr_view.seq (can_finalize r.0) r.1

  pub Answers : List IronChainDecision → SeqNo → Option Finalized → Type 0
  Answers acc s r = (f : Finalized) × (r ≡ some f) × Ended acc s f

  finalize_loop-Answers :
      (fuel : ℕ) (p : ChainedHotStuffProtocol) (acc : List IronChainDecision)
      → IsPipeline p
      → final_prefix p.decision_list < fuel
      → Ends (Answers acc p.curr_view.seq) (finalize_loop fuel p acc)
  unfolding finalize_loop Answers
  finalize_loop-Answers zero p acc h enough = absurd (omega arith)
  finalize_loop-Answers (suc fuel) p acc h enough = elim (Bool-cases (can_finalize p)) [
    | inr e ↦
        rw (finalize_loop, e)
          (
            (p, done acc),
            refl,
            record { pipeline = h; given = Gives.answer [] (sym (append-nil acc)) refl e },
          )
    | inl e ↦
        rw (finalize_loop, e)
          (Ends-bind (PopsTo p) (Answers acc p.curr_view.seq) (pop_decision p) _
            (to_ends (PopsTo p) (pop_decision p) (pop_decision-PopsTo p h))
            λ (d, p') pops.
              let completes = complete_decision-Completes d p' in
              turn d p' e pops (complete_decision d p') completes λ out k small.
                finalize_loop-Answers fuel (complete_decision d p').0 (push_back acc out) k small)
  ]
    where
      turn :
          (d : ChainedDecision) (p' : ChainedHotStuffProtocol)
          → can_finalize p ≡ true
          → PopsTo p (d, p')
          → (r : ChainedHotStuffProtocol × Result FinalizeDecisionsError IronChainDecision)
          → Completes d p' r
          → ((out : IronChainDecision)
              → IsPipeline r.0
              → final_prefix r.0.decision_list < fuel
              → Ends
                  (Answers (push_back acc out) r.0.curr_view.seq)
                  (finalize_loop fuel r.0 (push_back acc out)))
          → Ends (Answers acc p.curr_view.seq) (elim r.1 [
            | failed error ↦ ok (some (r.0, failed error))
            | done decided ↦ finalize_loop fuel r.0 (push_back acc decided)
          ])
      turn d p' e pops (p'', failed error) completes again = (
        (p'', failed error),
        refl,
        record {
          pipeline = Completes-IsPipeline d p' (p'', failed error) completes pops.pipeline;
          given = Gives.failure error;
        },
      )
      turn d p' e pops (p'', done out) completes again =
          let (added, rest, list, left, fresh) = pops.pushed in
          let fewer : final_prefix p''.decision_list ≡ final_prefix rest =
            ap final_prefix (completes.list ∙ left) ∙ final_prefix-push_back rest added fresh in
          let one_less : final_prefix p.decision_list ≡ suc (final_prefix rest) =
            final_prefix-front p d rest e list in
          let after = Completes-IsPipeline d p' (p'', done out) completes pops.pipeline in
          Ends-mono (finalize_loop fuel p'' (push_back acc out))
            (λ o (f, run, ended). (
              f,
              run,
              record {
                pipeline = ended.pipeline;
                given = elim completes.given [
                  | inl (error, fails) ↦ cc
                  | inr (c, seq, gives) ↦
                      prepend acc p.curr_view.seq p''.curr_view.seq out c d.view.seq pops.number seq
                        (ap (λ v. v.seq) completes.view ∙ pops.moves)
                        (done_injective (done out) refl gives) ended.given
                ];
              },
            ))
            (again out after (omega arith))

  -- In a pipeline of well-formed views, finalizing ends and does not panic. What it leaves is such a
  -- pipeline again. If it gives no error then the decisions it gives are completed ones, of the
  -- numbers from the current view's on, one after the other; the current view afterwards is that
  -- after the last of them; and the decision at the front is not final.
  pub finalize-Ended :
      (p : ChainedHotStuffProtocol)
      → IsPipeline p
      → Returns (finalize p) λ o. (f : Finalized) × (o ≡ some f) × Ended [] p.curr_view.seq f
  unfolding finalize Answers
  finalize-Ended p h = Ends-Returns (finalize p) (
      finalize_loop-Answers (suc (length p.decision_list)) p [] h
        (omega (arith, final_prefix-le p.decision_list)))
