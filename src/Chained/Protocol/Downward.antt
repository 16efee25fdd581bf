-- ===== src/Chained/Protocol/Downward.antt =====
-- What the `for` of `node_chain` of src/chained/protocol/mod.rs does, which finalizes the decisions
-- from one on down.
use hot_iron_oxide.Base.{
  ℕ, zero, suc, ◌≤◌, ◌≡◌, ◌≢◌, ap, ℕ_discrete, refl, sym, ◌∙◌, subst, ◌⊎◌, inl, inr, Option, List,
  arith, Permits, Permits-mono, Permits-bind, Permits-ok,
}
use hot_iron_oxide.Atlas.{Atlas}
use hot_iron_oxide.Chained.Messages.{ChainedQc}
use hot_iron_oxide.Chained.Decision.{ChainedDecision, ChainedDecisionState, rank}
use hot_iron_oxide.Chained.Decision.Advance.{IsPhase, Locks}
use hot_iron_oxide.Chained.Protocol.Chain.{Decisions, advance_at, finalize_down}
use hot_iron_oxide.Chained.Protocol.Links.{
  Onward-at, OnlyAt, Only, Onward, Onward-trans, ReachedAt, ReachedAt-Onward, Steps,
  advance_at-Steps,
}

module _ ⦃atlas : Atlas⦄ where
  pub OnlyAt-trans :
      {P Q R : ℕ → ChainedDecisionState → ChainedDecisionState → Type 0}
      (ds es fs : List ChainedDecision)
      → ((j : ℕ) (s t u : ChainedDecisionState) → P j s t → Q j t u → R j s u)
      → Onward ds es
      → OnlyAt P ds es
      → OnlyAt Q es fs
      → OnlyAt R ds fs
  OnlyAt-trans ds es fs compose onward h k j d f at there =
      let (e, between, _, _) = Onward-at ds es j onward at in
      compose j d.state e.state f.state (h j d e at between) (k j e f between there)

  -- The state stays, or the decision is final and not after the last one.
  abbrev pub UpTo : ℕ → ℕ → ChainedDecisionState → ChainedDecisionState → Type 0
  UpTo last j s t = (t ≡ s) ⊎ ((j ≤ last) × (t ≡ ChainedDecisionState.finalized))

  pub finalized_last : (s : ChainedDecisionState) → 5 ≤ rank s → s ≡ ChainedDecisionState.finalized
  finalized_last ChainedDecisionState.init h = absurd (omega arith)
  finalized_last (ChainedDecisionState.prepare n b) h = absurd (omega arith)
  finalized_last ChainedDecisionState.pre_commit h = absurd (omega arith)
  finalized_last ChainedDecisionState.commit h = absurd (omega arith)
  finalized_last ChainedDecisionState.decide h = absurd (omega arith)
  finalized_last ChainedDecisionState.finalized h = refl

  pub record FinalizesTo (last : ℕ) (ds r : Decisions) : Type 0 where
    pub onward : Onward ds.0 r.0
    pub lock : r.1.latest_locked_qc ≡ ds.1.latest_locked_qc
    pub final : (j : ℕ) → j ≤ last → ReachedAt j ChainedDecisionState.finalized r.0
    pub only : OnlyAt (UpTo last) ds.0 r.0

  pub unlocked :
      {d : ChainedDecision} {target : ChainedDecisionState} {before after : Option ChainedQc}
      → rank target ≢ 3
      → Locks d target before after
      → after ≡ before
  unlocked h (Locks.same e) = e
  unlocked h (Locks.locks at e) = absurd (h (ap rank at))

  pub finalize_down-FinalizesTo :
      (ds : Decisions) (last : ℕ) → Permits (FinalizesTo last ds) (finalize_down ds last)
  unfolding finalize_down
  finalize_down-FinalizesTo ds zero =
      Permits-mono (advance_at ds 0 ChainedDecisionState.finalized)
        (λ r step. record {
          onward = step.onward;
          lock = unlocked (λ h. cc) step.lock;
          final = λ j h.
              subst (λ j. ReachedAt j ChainedDecisionState.finalized r.0) (omega arith)
                step.reached;
          only = λ j d e g k. elim (step.only j d e g k) [
            | inl same ↦ inl same
            | inr (at, new) ↦ inr (omega arith, new)
          ];
        })
        (advance_at-Steps ds 0 ChainedDecisionState.finalized IsPhase.finalized)
  finalize_down-FinalizesTo ds (suc last) =
      Permits-bind (FinalizesTo (suc last) ds)
        (advance_at ds (suc last) ChainedDecisionState.finalized) _
        (λ ds' e.
          let step =
            Permits-ok (Steps (suc last) ChainedDecisionState.finalized ds) e
              (advance_at-Steps ds (suc last) ChainedDecisionState.finalized IsPhase.finalized) in
          Permits-mono (finalize_down ds' last)
            (λ r rest. record {
              onward = Onward-trans ds.0 ds'.0 r.0 step.onward rest.onward;
              lock = rest.lock ∙ unlocked (λ h. cc) step.lock;
              final = λ j h. upto r ds' step rest j h;
              only = OnlyAt-trans ds.0 ds'.0 r.0 only_upto step.onward step.only rest.only;
            })
            (finalize_down-FinalizesTo ds' last))
    where
      only_upto :
          (j : ℕ) (s t u : ChainedDecisionState)
          → Only (suc last) ChainedDecisionState.finalized j s t
          → UpTo last j t u
          → UpTo (suc last) j s u
      only_upto j s t u (inl a) (inl b) = inl (b ∙ a)
      only_upto j s t u (inr (at, new)) (inl b) = inr (omega arith, b ∙ new)
      only_upto j s t u h (inr (k, new)) = inr (omega arith, new)

      upto :
          (r ds' : Decisions)
          → Steps (suc last) ChainedDecisionState.finalized ds ds'
          → FinalizesTo last ds' r
          → (j : ℕ) → j ≤ suc last
          → ReachedAt j ChainedDecisionState.finalized r.0
      upto r ds' step rest j h = elim (ℕ_discrete j (suc last)) [
        | yes same ↦
            subst (λ j. ReachedAt j ChainedDecisionState.finalized r.0) (sym same)
              (ReachedAt-Onward ds'.0 r.0 (suc last) ChainedDecisionState.finalized rest.onward
                step.reached)
        | no other ↦ rest.final j (omega arith)
      ]
