-- ===== src/Chained/Decision/Advance.antt =====
-- How a decision of src/chained/protocol/decision/mod.rs advances.
use hot_iron_oxide.Base.{
  ◌≤◌, ◌<◌, ◌⊎◌, inl, inr, ◌≡◌, refl, sym, true, false, Option, none, some, arith, ltb, if_rule,
  ◌∙◌,
}
use hot_iron_oxide.Atlas.{Atlas}
use hot_iron_oxide.Tree.{DecisionHandler, install_latest_prepare_qc, install_latest_locked_qc}
use hot_iron_oxide.Chained.Messages.{ChainedQc}
use hot_iron_oxide.Chained.Decision.{
  ChainedDecision, ChainedDecisionState, rank, lt_state, install_for, advance_state,
}

-- The states in which no votes are counted.
pub data IsPhase : ChainedDecisionState → Type 0 where
  pre_commit : IsPhase ChainedDecisionState.pre_commit
  commit : IsPhase ChainedDecisionState.commit
  decide : IsPhase ChainedDecisionState.decide
  finalized : IsPhase ChainedDecisionState.finalized

lt_state-rank : (s t : ChainedDecisionState) → IsPhase t → lt_state s t ≡ ltb (rank s) (rank t)
lt_state-rank ChainedDecisionState.init t p = refl
lt_state-rank (ChainedDecisionState.prepare n b) t IsPhase.pre_commit = refl
lt_state-rank (ChainedDecisionState.prepare n b) t IsPhase.commit = refl
lt_state-rank (ChainedDecisionState.prepare n b) t IsPhase.decide = refl
lt_state-rank (ChainedDecisionState.prepare n b) t IsPhase.finalized = refl
lt_state-rank ChainedDecisionState.pre_commit t p = refl
lt_state-rank ChainedDecisionState.commit t p = refl
lt_state-rank ChainedDecisionState.decide t p = refl
lt_state-rank ChainedDecisionState.finalized t p = refl

module _ ⦃atlas : Atlas⦄ where
  -- The certificate that nodes are locked on: as it was, or that of a decision that has reached
  -- the commit phase.
  pub data Locks (d : ChainedDecision) (target : ChainedDecisionState)
      : Option ChainedQc → Option ChainedQc → Type 0 where
    same : {before after : Option ChainedQc} → after ≡ before → Locks d target before after
    locks :
        {before after : Option ChainedQc}
        → target ≡ ChainedDecisionState.commit
        → after ≡ d.decision_qc
        → Locks d target before after

  -- What reaching a phase installs: the certificate of the decision's proposal, as the prepare
  -- certificate for pre-commit and as the locked one for commit; nothing for the other phases, or
  -- where the proposal carried no certificate.
  pub data Installs (d : ChainedDecision) (target : ChainedDecisionState)
      (before after : DecisionHandler ChainedQc) : Type 0 where
    prepares :
        (qc : ChainedQc)
        → target ≡ ChainedDecisionState.pre_commit
        → d.decision_qc ≡ some qc
        → after ≡ record before { latest_prepare_qc = some qc }
        → Installs d target before after
    locks_on :
        (qc : ChainedQc)
        → target ≡ ChainedDecisionState.commit
        → d.decision_qc ≡ some qc
        → after ≡ record before { latest_locked_qc = some qc }
        → Installs d target before after
    nothing :
        (target ≡ ChainedDecisionState.pre_commit → d.decision_qc ≡ none)
        → (target ≡ ChainedDecisionState.commit → d.decision_qc ≡ none)
        → after ≡ before
        → Installs d target before after

  -- What advancing a decision to a phase does to it and to the handler.
  pub record Advances (d : ChainedDecision) (target : ChainedDecisionState)
      (handler : DecisionHandler ChainedQc) (r : ChainedDecision × DecisionHandler ChainedQc)
      : Type 0 where
    pub only_state : r.0 ≡ record d { state = r.0.state }
    pub forward : rank d.state ≤ rank r.0.state
    pub reached : rank target ≤ rank r.0.state
    pub takes : (r.0.state ≡ d.state) ⊎ (r.0.state ≡ target)
    pub lock : Locks d target handler.latest_locked_qc r.1.latest_locked_qc
    pub advances :
        rank d.state < rank target
        → (r.0 ≡ record d { state = target }) × Installs d target handler r.1
    pub stays : rank target ≤ rank d.state → (r.0 ≡ d) × (r.1 ≡ handler)

  install_for-Locks :
      (d : ChainedDecision) (target : ChainedDecisionState) (handler : DecisionHandler ChainedQc)
      (qc : Option ChainedQc)
      → IsPhase target
      → d.decision_qc ≡ qc
      → Locks d target handler.latest_locked_qc (install_for target qc handler).latest_locked_qc
  unfolding install_latest_prepare_qc install_latest_locked_qc
  install_for-Locks d target handler none IsPhase.pre_commit e = same refl
  install_for-Locks d target handler none IsPhase.commit e = same refl
  install_for-Locks d target handler qc IsPhase.decide e = same refl
  install_for-Locks d target handler qc IsPhase.finalized e = same refl
  install_for-Locks d target handler (some qc) IsPhase.pre_commit e = same refl
  install_for-Locks d target handler (some qc) IsPhase.commit e = locks refl (sym e)

  install_for-Installs :
      (d : ChainedDecision) (target : ChainedDecisionState) (handler : DecisionHandler ChainedQc)
      (qc : Option ChainedQc)
      → IsPhase target
      → d.decision_qc ≡ qc
      → Installs d target handler (install_for target qc handler)
  unfolding install_latest_prepare_qc install_latest_locked_qc
  install_for-Installs d target handler none IsPhase.pre_commit e = nothing (λ _. e) (λ _. e) refl
  install_for-Installs d target handler none IsPhase.commit e = nothing (λ _. e) (λ _. e) refl
  install_for-Installs d target handler qc IsPhase.decide e = nothing (λ h. cc) (λ h. cc) refl
  install_for-Installs d target handler qc IsPhase.finalized e = nothing (λ h. cc) (λ h. cc) refl
  install_for-Installs d target handler (some qc) IsPhase.pre_commit e = prepares qc refl e refl
  install_for-Installs d target handler (some qc) IsPhase.commit e = locks_on qc refl e refl

  -- Advancing a decision to a phase never takes it back. If it was before the phase, it is in the
  -- phase afterwards and nothing else of it has changed; and if its proposal carried a certificate,
  -- then that is installed, as the prepare certificate for pre-commit and as the locked one for
  -- commit, and nothing else is. If it was in the phase or a later one, nothing changes.
  pub advance_state-Advances :
      (d : ChainedDecision) (target : ChainedDecisionState) (handler : DecisionHandler ChainedQc)
      → IsPhase target
      → Advances d target handler (advance_state d target handler)
  unfolding advance_state
  advance_state-Advances d target handler p =
      if_rule (Advances d target handler) (lt_state d.state target)
        (λ h.
          let below : ltb (rank d.state) (rank target) ≡ true =
            sym (lt_state-rank d.state target p) ∙ h in
          record {
            only_state = refl;
            forward = ground arith;
            reached = omega arith;
            takes = inr refl;
            lock = install_for-Locks d target handler d.decision_qc p refl;
            advances = λ _. (refl, install_for-Installs d target handler d.decision_qc p refl);
            stays = λ k. absurd (ground (arith, below));
          })
        (λ h.
          let above : ltb (rank d.state) (rank target) ≡ false =
            sym (lt_state-rank d.state target p) ∙ h in
          record {
            only_state = refl;
            forward = omega arith;
            reached = ground arith;
            takes = inl refl;
            lock = same refl;
            advances = λ k. absurd (ground (arith, above));
            stays = λ _. (refl, refl);
          })
