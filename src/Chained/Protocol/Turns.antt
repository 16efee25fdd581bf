-- ===== src/Chained/Protocol/Turns.antt =====
-- What finalizing in `poll` of src/chained/protocol/mod.rs leaves, and when it gives nothing.
use hot_iron_oxide.Base.{
  false, Permits-mono, arith, ℕ, zero, suc, ◌≡◌, refl, sym, subst, ◌⊎◌, inl, inr, Option, none,
  some, List, [], ◌∷◌, ok, length, Ends, Permits, Permits-bind, Permits-ok, if_rule, Bool,
  push_back,
}
use hot_iron_oxide.Atlas.{Atlas}
use hot_iron_oxide.HotIron.Log.{Result, done, failed}
use hot_iron_oxide.Chained.Messages.{Message, ChainEncoding}
use hot_iron_oxide.Chained.Decision.{ChainedDecision}
use hot_iron_oxide.Chained.Protocol.{
  ChainedHotStuffProtocol, IronChainDecision, FinalizeDecisionsError, Finalized, can_finalize,
  pop_decision, complete_decision, finalize_loop, finalize,
}
use hot_iron_oxide.Chained.Protocol.Handling.{IronChainPollResult, Polled, poll_finalize}
use hot_iron_oxide.Chained.Protocol.Pipeline.{IsPipeline}
use hot_iron_oxide.Chained.Protocol.Waiting.{Queued}
use hot_iron_oxide.Chained.Protocol.Finalizing.{Gives, InOrder, Ended, finalize-Ended}

module _ ⦃atlas : Atlas⦄ where
  open atlas use {SeqNo}

  -- Finalizing gives no decision only if there were none before and none is final.
  abbrev GivesNone : ChainedHotStuffProtocol → List IronChainDecision → Option Finalized → Type 0
  GivesNone p acc o =
      (f : Finalized) → o ≡ some f → f.1 ≡ done [] → (can_finalize p ≡ false) × (acc ≡ [])

  push_back-non_empty {ℓ} : {A : Type ℓ} (xs : List A) (x : A) → push_back xs x ≡ [] → ⊥
  push_back-non_empty [] x e = cc
  push_back-non_empty (y ∷ ys) x e = cc

  finalize_loop-GivesNone :
      (fuel : ℕ) (p : ChainedHotStuffProtocol) (acc : List IronChainDecision)
      → Permits (GivesNone p acc) (finalize_loop fuel p acc)
  unfolding finalize_loop
  finalize_loop-GivesNone zero p acc = λ f e. cc
  finalize_loop-GivesNone (suc fuel) p acc =
      if_rule (Permits (GivesNone p acc)) (can_finalize p)
        (λ _. Permits-bind (GivesNone p acc) (pop_decision p) _ λ (d, p') _.
          turn (complete_decision d p')
            λ out. finalize_loop-GivesNone fuel (complete_decision d p').0 (push_back acc out))
        (λ h. λ f e z. (h, given acc e z))
    where
      given :
          {f : Finalized} (acc : List IronChainDecision)
          → some (p, done acc) ≡ some f
          → f.1 ≡ done []
          → acc ≡ []
      given [] e z = refl
      given (x ∷ xs) e z = cc

      turn :
          (r : ChainedHotStuffProtocol × Result FinalizeDecisionsError IronChainDecision)
          → ((out : IronChainDecision)
              → Permits
                  (GivesNone r.0 (push_back acc out))
                  (finalize_loop fuel r.0 (push_back acc out)))
          → Permits (GivesNone p acc) (elim r.1 [
            | failed error ↦ ok (some (r.0, failed error))
            | done decided ↦ finalize_loop fuel r.0 (push_back acc decided)
          ])
      turn (p', failed error) again = λ f e z. cc
      turn (p', done out) again =
          Permits-mono {P = GivesNone p' (push_back acc out)} {Q = GivesNone p acc} _
            (λ o k f e z. absurd (push_back-non_empty acc out (k f e z).1)) (again out)

  -- What a poll gives: nothing new, a message that one of the decisions had in its queue, or the
  -- decisions that were made, of the numbers from the first one up to the second.
  pub data Tells (s end : SeqNo) (ds : List ChainedDecision)
      : Result FinalizeDecisionsError IronChainPollResult → Type 0 where
    waits : end ≡ s → Tells s end ds (done IronChainPollResult.receive_msg)
    executes :
        (m : Message) → Queued m ds → end ≡ s → Tells s end ds (done (IronChainPollResult.exec m))
    decides :
        (out : List IronChainDecision)
        → InOrder s end out
        → Tells s end ds (done (IronChainPollResult.progressed_decision out))
    fails : (error : FinalizeDecisionsError) → Tells s end ds (failed error)

  pub record Polls (s : SeqNo) (ds : List ChainedDecision) (r : Polled) : Type 0 where
    pub pipeline : IsPipeline r.0
    pub tells : Tells s r.0.curr_view.seq ds r.1

  -- A turn that goes on finalizes nothing and changes nothing.
  unfoldable pub Finishes :
      ChainedHotStuffProtocol
      → List ChainedDecision
      → Option (ChainedHotStuffProtocol ⊎ Polled)
      → Type 0
  Finishes p ds none = ⊥
  Finishes p ds (some (inl p')) = p' ≡ p
  Finishes p ds (some (inr r)) = Polls p.curr_view.seq ds r

  module _ ⦃encoding : ChainEncoding⦄ where
    pub poll_finalize-Finishes :
        (p : ChainedHotStuffProtocol) (ds : List ChainedDecision)
        → IsPipeline p
        → Ends (Finishes p ds) (poll_finalize p)
    unfolding poll_finalize Finishes finalize
    poll_finalize-Finishes p ds h =
        if_rule (Ends (Finishes p ds)) (can_finalize p)
          (λ final.
            let (o, run, (f, is, ended)) = finalize-Ended p h in
            let nothing_given =
              Permits-ok (GivesNone p []) run
                (finalize_loop-GivesNone (suc (length p.decision_list)) p []) f is in
            rw (run, is) (by_result f (λ e. absurd (ground (arith, nothing_given e))) ended))
          (λ _. refl)
      where
        by_result :
            (f : Finalized)
            → (f.1 ≡ done [] → ⊥)
            → Ended [] p.curr_view.seq f
            → Ends (Finishes p ds) (elim f.1 [
              | failed error ↦ ok (some (inr (f.0, failed error)))
              | done decided ↦ elim decided [
                | [] ↦ ok (some (inl f.0))
                | x ∷ xs ↦
                    ok (some (inr (f.0, done (IronChainPollResult.progressed_decision (x ∷ xs)))))
              ]
            ])
        by_result (p', failed error) some_given ended = record {
          pipeline = ended.pipeline;
          tells = Tells.fails error;
        }
        by_result (p', done []) some_given ended = absurd (some_given refl)
        by_result (p', done (x ∷ xs)) some_given ended = record {
          pipeline = ended.pipeline;
          tells = given ended.given;
        }
          where
            given :
                {more : Bool} {end : SeqNo}
                → Gives [] p.curr_view.seq end more (done (x ∷ xs))
                → Tells p.curr_view.seq end ds
                    (done (IronChainPollResult.progressed_decision (x ∷ xs)))
            given (Gives.answer out all order m) =
                Tells.decides (x ∷ xs) (subst (InOrder p.curr_view.seq _) (sym all) order)
