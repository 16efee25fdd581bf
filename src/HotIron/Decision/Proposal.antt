-- ===== src/HotIron/Decision/Proposal.antt =====
-- That a decision that took a proposal keeps it (src/hot_iron/protocol/decision/mod.rs).
use hot_iron_oxide.Base.{
  ◌≡◌, refl, ◌∙◌, sym, ℕ, ◌+◌, ap, some_injective, Bool, true, false, some, Ends, if_rule,
}
use hot_iron_oxide.Atlas.{Atlas}
use hot_iron_oxide.Tree.{DecisionNode, safe_node, install_latest_prepare_qc}
use hot_iron_oxide.HotIron.Messages.{
  Qc, qc_certificate, VoteMessage, ProposalType, proposal_types, VoteEncoding,
}
use hot_iron_oxide.HotIron.Queue.{DecisionState, Message}
use hot_iron_oxide.HotIron.Decision.{HsDecision, World, Processed, with_counts, queue}
use hot_iron_oxide.HotIron.Decision.Leader.{announce, logged}
use hot_iron_oxide.HotIron.Decision.Replica.{
  prepare_node, later_phase, replica_phase, is_extension_of_known_node,
}
use hot_iron_oxide.HotIron.Decision.Dispatch.{process_message}
use hot_iron_oxide.HotIron.Decision.Phases.{AwaitsProposal}
use hot_iron_oxide.HotIron.Decision.Consistency.{IsConsistent}
use hot_iron_oxide.HotIron.Decision.Rules.{
  propose_rule, replica_phase_rule, Proposing, process_rule,
}

-- The states after the proposal was taken.
abbrev pub is_prepared : DecisionState → Bool
is_prepared DecisionState.init = false
is_prepared (DecisionState.prepare _ _) = false
is_prepared DecisionState.next_view = false
is_prepared _ = true

is_prepared-with_counts :
    (s : DecisionState) (sent : Bool) (n : ℕ) → is_prepared (with_counts s sent n) ≡ is_prepared s
is_prepared-with_counts DecisionState.init _ _ = refl
is_prepared-with_counts (DecisionState.prepare _ _) _ _ = refl
is_prepared-with_counts (DecisionState.pre_commit _ _) _ _ = refl
is_prepared-with_counts (DecisionState.commit _ _) _ _ = refl
is_prepared-with_counts (DecisionState.decide _ _) _ _ = refl
is_prepared-with_counts DecisionState.finally _ _ = refl
is_prepared-with_counts DecisionState.next_view _ _ = refl

module _ ⦃atlas : Atlas⦄ ⦃encoding : VoteEncoding⦄ where
  -- The node taken is there once the decision is prepared, and it satisfies `Q`.
  pub record Holds (Q : DecisionNode → Type 0) (d : HsDecision) : Type 0 where
    pub taken :
        is_prepared d.current_state ≡ true
        → (node : DecisionNode) × (d.decision_log.current_proposal ≡ some node)
    pub every : (node : DecisionNode) → d.decision_log.current_proposal ≡ some node → Q node

  module _ (Q : DecisionNode → Type 0) (w : World) (m : Message)
      (safe : (node : DecisionNode) (qc : Qc)
        → safe_node qc_certificate is_extension_of_known_node w.handler node qc ≡ true
        → Q node)
      (held : Holds Q w.decision) where
    abbrev Kept : Processed → Type 0
    Kept r = Holds Q r.0.decision

    held-with_counts :
        (d : HsDecision) (sent : Bool) (n : ℕ)
        → d.current_state ≡ with_counts w.decision.current_state sent n
        → d.decision_log ≡ w.decision.decision_log
        → Holds Q d
    held-with_counts d sent n e l = record {
      taken = λ h. rw l (
          held.taken (
            sym (is_prepared-with_counts w.decision.current_state sent n)
            ∙ ap is_prepared (sym e)
            ∙ h));
      every = λ node h. held.every node (ap (λ l. l.current_proposal) (sym l) ∙ h);
    }

    proposing-Holds : (v : VoteMessage) → Proposing Kept w m v
    unfolding announce
    proposing-Holds v n q log c e l =
        propose_rule Kept (logged w true (n + 1) log) m log
          (λ pool e'. held-with_counts _ true (n + 1) refl refl) v.vote_type
          (λ pool pt _. held-with_counts _ true (n + 1) refl refl)

    prepare_node-Holds : (node : DecisionNode) (qc : Qc) → Kept (prepare_node w m node qc)
    unfolding prepare_node install_latest_prepare_qc
    prepare_node-Holds node qc =
        if_rule Kept (safe_node qc_certificate is_extension_of_known_node w.handler node qc)
          (λ h. record {
            taken = λ p. (node, refl);
            every = λ x e. rw (sym (some_injective e)) (safe node qc h);
          })
          (λ h. held)

    later-Holds :
        (s : DecisionState)
        → is_prepared w.decision.current_state ≡ true
        → Holds Q (record w.decision { current_state = s })
    later-Holds s p = record { taken = λ h. held.taken p; every = held.every }

    replica_phase-Holds :
        (s : DecisionState) (pt : ProposalType)
        → s ≡ w.decision.current_state
        → AwaitsProposal s (proposal_types pt)
        → Ends Kept (replica_phase s w m pt)
    unfolding later_phase
    replica_phase-Holds s pt k a =
        replica_phase_rule (λ s r. s ≡ w.decision.current_state → Ends Kept r) w m
          (λ b n node qc k. prepare_node-Holds node qc)
          (λ b n qc k. later-Holds _ (ap is_prepared (sym k)))
          (λ b n qc k. later-Holds _ (ap is_prepared (sym k)))
          (λ b n qc k. later-Holds _ (ap is_prepared (sym k))) s (proposal_types pt) pt a refl k

    pub process_message-Holds : IsConsistent w.decision → Ends Kept (process_message w m)
    unfolding queue
    process_message-Holds c =
        process_rule Kept w m c held (record { taken = held.taken; every = held.every })
          (λ v l sent n e k. held-with_counts _ sent (n + 1) refl refl)
          (λ v l sent n log k _. held-with_counts _ sent (n + 1) refl refl)
          (λ v l _ _. proposing-Holds v) (λ p e f a. replica_phase-Holds _ p.proposal_type refl a)
