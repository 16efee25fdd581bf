-- ===== src/HotIron/Protocol/Fuel.antt =====
-- That the loops of src/hot_iron/protocol/hotstuff.rs end: the fuel of the model is enough.
use hot_iron_oxide.Base.{
  ◌≡◌, ◌≢◌, refl, ℕ, zero, suc, ◌+◌, ◌<◌, ◌≤◌, true, Option, none, some, List, [], ◌∷◌, Run, ok,
  length, get_elem?, push_back, if_rule, Permits, Permits-bind, Permits-ok, option_rule, ap, ◌∙◌,
  allowed, arith,
}
use hot_iron_oxide.Atlas.{Atlas}
use hot_iron_oxide.View.{with_new_seq}
use hot_iron_oxide.HotIron.Messages.{VoteEncoding}
use hot_iron_oxide.HotIron.Signals.{pop_signalled, remove}
use hot_iron_oxide.HotIron.Queue.{Message}
use hot_iron_oxide.HotIron.Decision
use hot_iron_oxide.HotIron.Decision.{
  HsDecision, DecisionPollResult, DecisionFinalizationResult, new_decision, can_be_finalized,
}
use hot_iron_oxide.HotIron.Decision.Replica.{finalize_decision}
use hot_iron_oxide.HotIron.Protocol.{
  HotStuffProtocol, HotIronDecision, HotIronPollResult, can_finalize, pop_front_decision,
  next_seq_no, finalize_loop, finalize_decisions, any_final, sequence_number,
}
use hot_iron_oxide.HotIron.Protocol.Handling.{Polled, poll_finalize, poll_loop, poll}

-- What the computation gives, if it ends, is not that the fuel is spent.
abbrev pub IsThere {ℓ} : {A : Type ℓ} → Option A → Type ℓ
IsThere o = o ≢ none

module _ ⦃atlas : Atlas⦄ where
  -- How many decisions at the front are final, or left for the next view.
  abbrev final_prefix : List HsDecision → ℕ
  final_prefix [] = 0
  final_prefix (d ∷ ds) =
      let rest = final_prefix ds in
      elim (can_be_finalized d) [ DecisionFinalizationResult.not_final ↦ 0 | _ ↦ suc rest ]

  final_prefix-length : (ds : List HsDecision) → final_prefix ds ≤ length ds
  final_prefix-length [] = omega arith
  final_prefix-length (d ∷ ds) = let h = final_prefix-length ds in ground arith

  final_prefix-push_back :
      (ds : List HsDecision) (d : HsDecision)
      → can_be_finalized d ≡ DecisionFinalizationResult.not_final
      → final_prefix (push_back ds d) ≡ final_prefix ds
  final_prefix-push_back [] d h = ground arith
  final_prefix-push_back (x ∷ ds) d h = let k = final_prefix-push_back ds d h in ground arith

  pop_front_decision-prefix :
      (p : HotStuffProtocol)
      → can_finalize p ≡ true
      → Permits
          (λ (r : HsDecision × HotStuffProtocol).
            final_prefix r.1.decisions + 1 ≡ final_prefix p.decisions)
          (pop_front_decision p)
  unfolding can_finalize pop_front_decision new_decision can_be_finalized
  pop_front_decision-prefix p c = by_decisions p.decisions c
    where
      P : List HsDecision → HsDecision × HotStuffProtocol → Type 0
      P ds r = final_prefix r.1.decisions + 1 ≡ final_prefix ds

      by_decisions :
          (ds : List HsDecision)
          → any_final ds ≡ true
          → Permits (P ds) (pop_front_decision (record p { decisions = ds }))
      by_decisions [] c = cc
      by_decisions (d ∷ rest) c =
          Permits-bind (P (d ∷ rest)) (next_seq_no (record p { decisions = rest })) _ (λ p' e.
            Permits-bind (P (d ∷ rest)) (with_new_seq _ (sequence_number p')) _ (λ v e'.
              let k = final_prefix-push_back rest (new_decision v p.node_id) refl in ground arith))

  finalize_loop-Ended :
      (fuel : ℕ) (p : HotStuffProtocol) (decisions : List HotIronDecision)
      → final_prefix p.decisions < fuel
      → Permits IsThere (finalize_loop fuel p decisions)
  unfolding finalize_loop
  finalize_loop-Ended zero p decisions h = absurd (omega arith)
  finalize_loop-Ended (suc fuel) p decisions h =
      if_rule (Permits IsThere) (can_finalize p)
        (λ c. Permits-bind IsThere (pop_front_decision p) _ (λ r e.
          Permits-bind IsThere (finalize_decision r.0) _ (λ decision e'.
            let less = Permits-ok _ e (pop_front_decision-prefix p c) in
            finalize_loop-Ended fuel r.1 _ (omega arith))))
        (λ _. λ k. cc)

  -- The loop of `finalize_decisions` ends within its fuel, whatever the decisions are.
  pub finalize_decisions_ends : (p : HotStuffProtocol) → finalize_decisions p ≢ ok none
  unfolding finalize_decisions
  finalize_decisions_ends p e =
      Permits-ok IsThere e
        (finalize_loop-Ended (suc (length p.decisions)) p []
          (let h = final_prefix-length p.decisions in omega arith))
        refl

  poll_finalize-IsThere : (p : HotStuffProtocol) → Permits IsThere (poll_finalize p)
  unfolding poll_finalize
  poll_finalize-IsThere p =
      if_rule (Permits IsThere) (can_finalize p)
        (λ c. Permits-bind IsThere (finalize_decisions p) _ (λ o e.
          option_rule IsThere o (λ k. absurd (finalize_decisions_ends p (e ∙ ap ok k)))
            (λ r k. λ h. cc)))
        (λ _. λ k. cc)

  module _ ⦃encoding : VoteEncoding⦄ where
    -- A turn of `poll`, if the turns after it end.
    module _ (fuel : ℕ) (p : HotStuffProtocol)
        (again : (q : HotStuffProtocol)
          → length q.signal_queue.signaled_seq_no < fuel
          → Permits IsThere (poll_loop fuel q)) where
      abbrev signalled : List atlas.SeqNo → List atlas.SeqNo → HotStuffProtocol
      signalled nos heap = record p {
        signal_queue = record { signaled_nos = nos; signaled_seq_no = heap };
      }

      result_IsThere :
          (f : Message → HotStuffProtocol × HotIronPollResult)
          (t : HotStuffProtocol × HotIronPollResult) (rest : Run Polled)
          (result : DecisionPollResult)
          → Permits IsThere rest
          → Permits IsThere (elim result [
            | Decision.next_message message ↦ ok (some (f message))
            | Decision.try_propose ↦ ok (some t)
            | _ ↦ rest
          ])
      result_IsThere f t rest Decision.try_propose h = λ k. cc
      result_IsThere f t rest Decision.recv h = h
      result_IsThere f t rest (Decision.next_message m) h = λ k. cc
      result_IsThere f t rest Decision.decided h = h

      turn-IsThere :
          (nos heap : List atlas.SeqNo)
          → length heap < suc fuel
          → Permits IsThere (poll_loop (suc fuel) (signalled nos heap))
      unfolding poll_loop pop_signalled
      turn-IsThere nos [] h = poll_finalize-IsThere (signalled nos [])
      turn-IsThere nos (seq ∷ rest) h =
          let p' = signalled (remove seq nos) rest in
          option_rule (Permits IsThere) (atlas.index seq (sequence_number p'))
            (λ _. again p' (omega arith))
            (λ i _.
              option_rule (Permits IsThere) (get_elem? p'.decisions i) (λ _. allowed)
                (λ d _. result_IsThere _ _ _ _ (again _ (omega arith))))

    poll_loop-IsThere :
        (fuel : ℕ) (p : HotStuffProtocol)
        → length p.signal_queue.signaled_seq_no < fuel
        → Permits IsThere (poll_loop fuel p)
    poll_loop-IsThere zero p h = absurd (omega arith)
    poll_loop-IsThere (suc fuel) p h =
        turn-IsThere fuel p (poll_loop-IsThere fuel) p.signal_queue.signaled_nos
          p.signal_queue.signaled_seq_no h

    -- The loop of `poll` ends within its fuel, whatever is signalled.
    pub poll_ends : (p : HotStuffProtocol) → poll p ≢ ok none
    unfolding poll
    poll_ends p e =
        Permits-ok IsThere e
          (poll_loop-IsThere (suc (length p.signal_queue.signaled_seq_no)) p (omega arith)) refl
