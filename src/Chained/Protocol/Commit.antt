-- ===== src/Chained/Protocol/Commit.antt =====
-- When `node_chain` of src/chained/protocol/mod.rs locks and finalizes: the three-chain rule.
use hot_iron_oxide.Base.{
  ℕ, ◌-◌, some_injective, ◌≤◌, ◌≡◌, ap, refl, sym, ◌∙◌, subst, ◌⊎◌, inl, inr, Option, none, some,
  List, Run, ok, arith, get_elem?, Permits, Permits-mono, Permits-bind, Permits-ok,
}
use hot_iron_oxide.Atlas.{Atlas}
use hot_iron_oxide.Tree.{DecisionNodeHeader}
use hot_iron_oxide.HotIron.Log.{Result, done, failed}
use hot_iron_oxide.Chained.Messages.{ChainedQc}
use hot_iron_oxide.Chained.Tree.{PendingDecisionNodes}
use hot_iron_oxide.Chained.Decision.{ChainedDecision, ChainedDecisionState, rank}
use hot_iron_oxide.Chained.Decision.Advance.{IsPhase, Locks}
use hot_iron_oxide.Chained.Protocol.Chain.{
  Decisions, Chained, ChainConstructionError, chain_link, link_or_end, advance_before,
  finalize_down, third_link, second_link, node_chain,
}
use hot_iron_oxide.Chained.Protocol.Links.{
  Link, chain_link-Link, Onward-at, OnlyAt, Only, Onward, Onward-refl, Onward-trans, Onward-from,
  ReachedAt, Steps, advance_before-Steps,
}
use hot_iron_oxide.Chained.Protocol.Downward.{
  OnlyAt-trans, UpTo, finalized_last, FinalizesTo, unlocked, finalize_down-FinalizesTo,
}
use hot_iron_oxide.Chained.Protocol.Following.{TwoChain, ThreeChain, Cause, Cause-trans, Follows}

module _ ⦃atlas : Atlas⦄ where
  unchanged :
      (pending : PendingDecisionNodes) (node : DecisionNodeHeader) (i : ℕ)
      (ds : List ChainedDecision)
      → OnlyAt (Cause pending node i) ds ds
  unchanged pending node i ds j d e g k =
      Cause.kept (ap (λ a. a.state) (some_injective (sym k ∙ g)))

  link_or_end_rule :
      (P : Chained → Type 0) (pending : PendingDecisionNodes) (node : DecisionNodeHeader)
      (ds : Decisions) (n : ℕ) (go_on : DecisionNodeHeader → Run Chained)
      → P (ds, failed n)
      → ((header : DecisionNodeHeader) → Link pending node header → Permits P (go_on header))
      → Permits P (link_or_end pending node ds n go_on)
  link_or_end_rule P pending node ds n go_on ends goes =
      Permits-bind P (chain_link pending node) _ linked
    where
      linked :
          (result : Result ChainConstructionError (Option DecisionNodeHeader))
          → chain_link pending node ≡ ok result
          → Permits P (elim result [
            | failed error ↦ ok (ds, failed n)
            | done l ↦ elim l [ none ↦ ok (ds, failed n) | some header ↦ go_on header ]
          ])
      linked (failed error) e = ends
      linked (done none) e = ends
      linked (done (some header)) e = goes header (chain_link-Link pending node header e)

  pub third_link-ThreeChain :
      (pending : PendingDecisionNodes) (node b_2 b_1 : DecisionNodeHeader) (i : ℕ) (ds : Decisions)
      → Link pending node b_2
      → Link pending b_2 b_1
      → Permits
          (λ r.
            Onward ds.0 r.0.0
            × (r.0.1.latest_locked_qc ≡ ds.1.latest_locked_qc)
            × (r.1 ≡ done tt → ThreeChain pending node i r.0.0)
            × OnlyAt (Cause pending node i) ds.0 r.0.0)
          (third_link pending b_1 i ds)
  unfolding third_link
  third_link-ThreeChain pending node b_2 b_1 i ds first second =
      link_or_end_rule _ pending b_1 ds 3 _
        (Onward-refl ds.0, refl, (λ h. cc), unchanged pending node i ds.0)
        λ b third. Permits-bind _ (advance_before ds i 3 ChainedDecisionState.decide) _ λ decided e.
          let (far, step) =
            Permits-ok (λ r. (3 ≤ i) × Steps (i - 3) ChainedDecisionState.decide ds r) e
              (advance_before-Steps ds i 3 ChainedDecisionState.decide IsPhase.decide) in
          Permits-bind _ (finalize_down decided (i - 3)) _ λ finalized f.
            let down =
              Permits-ok (FinalizesTo (i - 3) decided) f
                (finalize_down-FinalizesTo decided (i - 3)) in
            (
              Onward-trans ds.0 decided.0 finalized.0 step.onward down.onward,
              down.lock ∙ unlocked (λ h. cc) step.lock,
              λ _. record {
                b_2 = b_2;
                b_1 = b_1;
                b = b;
                first = first;
                second = second;
                third = third;
                far = far;
                final = down.final;
              },
              λ j d e g k.
                  let (x, between, _, _) = Onward-at ds.0 decided.0 j step.onward g in
                  decides b third far j (step.only j d x g between) (down.only j x e between k)
                    (λ last. final_at _ j e (down.final j last) k),
            )
    where
      final_at :
          (r : List ChainedDecision) (j : ℕ) (e : ChainedDecision)
          → ReachedAt j ChainedDecisionState.finalized r
          → get_elem? r j ≡ some e
          → e.state ≡ ChainedDecisionState.finalized
      final_at r j e (x, at, far) k =
          let same : x ≡ e = some_injective (sym at ∙ k) in
          finalized_last e.state (subst (λ (y : ChainedDecision). 5 ≤ rank y.state) same far)

      decides :
          {s t u : ChainedDecisionState} (b : DecisionNodeHeader)
          → Link pending b_1 b
          → 3 ≤ i
          → (j : ℕ) → Only (i - 3) ChainedDecisionState.decide j s t
          → UpTo (i - 3) j t u
          → (j ≤ i - 3 → u ≡ ChainedDecisionState.finalized)
          → Cause pending node i j s u
      decides b third far j (inl same) (inl same') final = Cause.kept (same' ∙ same)
      decides b third far j (inr (at, _)) (inl _) final =
          Cause.finalized b_2 b_1 b (omega arith) (final (omega arith)) first second third
      decides b third far j h (inr (last, new)) final =
          Cause.finalized b_2 b_1 b (omega arith) new first second third

  pub second_link-Follows :
      (pending : PendingDecisionNodes) (node b_2 : DecisionNodeHeader) (i : ℕ) (ds : Decisions)
      → Link pending node b_2
      → Permits (Follows pending node i ds) (second_link pending b_2 i ds)
  unfolding second_link
  second_link-Follows pending node b_2 i ds first =
      link_or_end_rule (Follows pending node i ds) pending b_2 ds 2 _
        (record {
          onward = Onward-refl ds.0;
          lock = inl refl;
          complete = λ h. cc;
          causes = unchanged pending node i ds.0;
        })
        λ b_1 second.
          Permits-bind _ (advance_before ds i 2 ChainedDecisionState.commit) _ λ committed e.
            let (far, step) =
              Permits-ok (λ r. (2 ≤ i) × Steps (i - 2) ChainedDecisionState.commit ds r) e
                (advance_before-Steps ds i 2 ChainedDecisionState.commit IsPhase.commit) in
            let locked : (after : Option ChainedQc)
                → after ≡ committed.1.latest_locked_qc
                → (after ≡ ds.1.latest_locked_qc) ⊎ TwoChain pending node i ds.0 after =
              λ after same. elim step.lock [
                | Locks.same e ↦ inl (same ∙ e)
                | Locks.locks _ e ↦ inr (record {
                  b_2 = b_2;
                  b_1 = b_1;
                  first = first;
                  second = second;
                  far = far;
                  decision = step.decision;
                  at = step.at;
                  taken = same ∙ e;
                })
              ] in
            Permits-mono (third_link pending b_1 i committed)
              (λ r (onward, same, complete, causes). record {
                onward = Onward-trans ds.0 committed.0 r.0.0 step.onward onward;
                lock = locked r.0.1.latest_locked_qc same;
                complete = complete;
                causes =
                    OnlyAt-trans ds.0 committed.0 r.0.0
                      (λ j s t u. Cause-trans pending node i j s t u) step.onward
                      (λ j d e g k. elim (step.only j d e g k) [
                        | inl same ↦ Cause.kept same
                        | inr (at, new) ↦ Cause.committed b_2 b_1 (omega arith) new first second
                      ])
                      causes;
              })
              (third_link-ThreeChain pending node b_2 b_1 i committed first second)

  TwoChain-Onward :
      (pending : PendingDecisionNodes) (node : DecisionNodeHeader) (i : ℕ)
      (ds es : List ChainedDecision) (locked : Option ChainedQc)
      → Onward ds es
      → TwoChain pending node i es locked
      → TwoChain pending node i ds locked
  TwoChain-Onward pending node i ds es locked onward h =
      let (d, at, same) = Onward-from ds es (i - 2) onward h.at in
      record {
        b_2 = h.b_2;
        b_1 = h.b_1;
        first = h.first;
        second = h.second;
        far = h.far;
        decision = d;
        at = at;
        taken = h.taken ∙ same;
      }

  -- What following the chain of a node does, when it does not panic.
  pub node_chain-Follows :
      (pending : PendingDecisionNodes) (node : DecisionNodeHeader) (i : ℕ) (ds : Decisions)
      → Permits (Follows pending node i ds) (node_chain pending node i ds)
  unfolding node_chain
  node_chain-Follows pending node i ds =
      link_or_end_rule (Follows pending node i ds) pending node ds 1 _
        (record {
          onward = Onward-refl ds.0;
          lock = inl refl;
          complete = λ h. cc;
          causes = unchanged pending node i ds.0;
        })
        λ b_2 first.
          Permits-bind _ (advance_before ds i 1 ChainedDecisionState.pre_commit) _ λ advanced e.
            let (near, step) =
              Permits-ok (λ r. (1 ≤ i) × Steps (i - 1) ChainedDecisionState.pre_commit ds r) e
                (advance_before-Steps ds i 1 ChainedDecisionState.pre_commit IsPhase.pre_commit) in
            let same = unlocked (λ h. cc) step.lock in
            Permits-mono (second_link pending b_2 i advanced)
              (λ r rest. record {
                onward = Onward-trans ds.0 advanced.0 r.0.0 step.onward rest.onward;
                lock = elim rest.lock [
                  | inl e ↦ inl (e ∙ same)
                  | inr two ↦ inr (TwoChain-Onward pending node i ds.0 advanced.0 _ step.onward two)
                ];
                complete = rest.complete;
                causes =
                    OnlyAt-trans ds.0 advanced.0 r.0.0
                      (λ j s t u. Cause-trans pending node i j s t u) step.onward
                      (λ j d e g k. elim (step.only j d e g k) [
                        | inl same ↦ Cause.kept same
                        | inr (at, new) ↦ Cause.pre_committed b_2 (omega arith) new first
                      ])
                      rest.causes;
              })
              (second_link-Follows pending node b_2 i advanced first)
