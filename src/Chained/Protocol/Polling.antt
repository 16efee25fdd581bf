-- ===== src/Chained/Protocol/Polling.antt =====
-- What `poll` of src/chained/protocol/mod.rs gives, and that its loop ends.
use hot_iron_oxide.Base.{
  ℕ, zero, suc, ◌<◌, ◌≡◌, refl, sym, subst, ◌⊎◌, inl, inr, Option, none, some, List, [], ◌∷◌, ok,
  ◌>>=◌, arith, length, Returns, Ends, Ends-bind, Ends-Returns, option_rule,
}
use hot_iron_oxide.Atlas.{Atlas}
use hot_iron_oxide.Tree.{DecisionHandler}
use hot_iron_oxide.HotIron.Log.{done}
use hot_iron_oxide.HotIron.Signals.{pop_signalled, remove}
use hot_iron_oxide.Chained.Messages.{ChainedQc, Message, ChainEncoding}
use hot_iron_oxide.Chained.Decision
use hot_iron_oxide.Chained.Decision.{
  ChainedDecision, ChainedDecisionState, ChainedDecisionPollResult, new_decision, poll_queue,
}
use hot_iron_oxide.Chained.Protocol
use hot_iron_oxide.Chained.Protocol.{
  ChainedHotStuffProtocol, IronChainDecision, FinalizeDecisionsError, Finalized, can_finalize,
  populate_decision, pop_decision, complete_decision, finalize_loop, finalize,
}
use hot_iron_oxide.Chained.Protocol.Handling.{
  IronChainPollResult, Polled, poll_finalize, poll_loop, poll,
}
use hot_iron_oxide.Chained.Protocol.Alike.{
  Alike-refl, Alike-set, Alike-IsPipeline, get_decision-there,
}
use hot_iron_oxide.Chained.Protocol.Pipeline.{IsPipeline}
use hot_iron_oxide.Chained.Decision.Polling.{poll-Keeps}
use hot_iron_oxide.Chained.Protocol.Waiting.{Queued, Queued-there, Queued-set}
use hot_iron_oxide.Chained.Protocol.Turns.{Tells, Polls, Finishes, poll_finalize-Finishes}

module _ ⦃atlas : Atlas⦄ where
  open atlas use {SeqNo}

  module _ ⦃encoding : ChainEncoding⦄ where
    abbrev Answered : SeqNo → List ChainedDecision → Option Polled → Type 0
    Answered s ds o = (r : Polled) × (o ≡ some r) × Polls s ds r

    -- A turn of `poll`, if the turns after it end; all messages queued are those of the decisions
    -- at the start.
    module _ (fuel : ℕ) (p : ChainedHotStuffProtocol) (handler : DecisionHandler ChainedQc)
        (ds : List ChainedDecision) (h : IsPipeline p)
        (known : (m : Message) → Queued m p.decision_list → Queued m ds)
        (again : (q : ChainedHotStuffProtocol)
          → IsPipeline q
          → q.curr_view.seq ≡ p.curr_view.seq
          → ((m : Message) → Queued m q.decision_list → Queued m ds)
          → length q.signals.signaled_seq_no < fuel
          → Ends (Answered p.curr_view.seq ds) (poll_loop fuel q handler)) where
      abbrev signalled : List SeqNo → List SeqNo → ChainedHotStuffProtocol
      signalled nos heap = record p {
        signals = record { signaled_nos = nos; signaled_seq_no = heap };
      }

      resignalled : (nos heap : List SeqNo) → IsPipeline (signalled nos heap)
      resignalled nos heap =
          Alike-IsPipeline p (signalled nos heap) h refl refl (Alike-refl p.decision_list)

      -- What follows the poll of a decision, which gave this result.
      by_result :
          (q : ChainedHotStuffProtocol) (executing : Message → ChainedHotStuffProtocol)
          → IsPipeline q
          → q.curr_view.seq ≡ p.curr_view.seq
          → ((m : Message) → Queued m q.decision_list → Queued m ds)
          → length q.signals.signaled_seq_no < fuel
          → ((m : Message) → IsPipeline (executing m))
          → ((m : Message) → (executing m).curr_view.seq ≡ p.curr_view.seq)
          → (result : ChainedDecisionPollResult)
          → ((m : Message) → result ≡ ChainedDecisionPollResult.exec m → Queued m ds)
          → Ends (Answered p.curr_view.seq ds) (elim result [
            | ChainedDecisionPollResult.receive_msg ↦
                ok (some (q, done IronChainPollResult.receive_msg))
            | ChainedDecisionPollResult.exec message ↦
                ok (some (executing message, done (IronChainPollResult.exec message)))
            | ChainedDecisionPollResult.decided ↦ poll_finalize q >>= λ r. elim r [
              | none ↦ ok none
              | some (inl p'') ↦ poll_loop fuel p'' handler
              | some (inr answer) ↦ ok (some answer)
            ]
          ])
      unfolding Finishes
      by_result q executing k same sub small e v ChainedDecisionPollResult.receive_msg from =
          (_, refl, record { pipeline = k; tells = Tells.waits same })
      by_result q executing k same sub small e v (ChainedDecisionPollResult.exec m) from =
          (_, refl, record { pipeline = e m; tells = Tells.executes m (from m refl) (v m) })
      by_result q executing k same sub small e v ChainedDecisionPollResult.decided from =
          Ends-bind (Finishes q ds) (Answered p.curr_view.seq ds) (poll_finalize q) _
            (poll_finalize-Finishes q ds k) next
        where
          next :
              (r : Option (ChainedHotStuffProtocol ⊎ Polled))
              → Finishes q ds r
              → Ends (Answered p.curr_view.seq ds) (elim r [
                | none ↦ ok none
                | some (inl p'') ↦ poll_loop fuel p'' handler
                | some (inr answer) ↦ ok (some answer)
              ])
          next none f = elim f [ ]
          next (some (inl p'')) f =
              subst (λ q. Ends (Answered p.curr_view.seq ds) (poll_loop fuel q handler)) (sym f)
                (again q k same sub small)
          next (some (inr answer)) f = (answer, refl, subst (λ s. Polls s ds answer) same f)

      turn :
          (nos heap : List SeqNo)
          → length heap < suc fuel
          → Ends (Answered p.curr_view.seq ds) (poll_loop (suc fuel) (signalled nos heap) handler)
      unfolding poll_loop pop_signalled
      turn nos [] small =
          (_, refl, record { pipeline = resignalled nos []; tells = Tells.waits refl })
      turn nos (seq ∷ rest) small =
          let nos' = remove seq nos in
          let p' = signalled nos' rest in
          option_rule (Ends (Answered p.curr_view.seq ds)) (Protocol.get_decision p' seq)
            (λ _. again p' (resignalled nos' rest) refl known (omega arith))
            (λ (i, d) e.
              let there = (get_decision-there p' seq i d e).1 in
              let keeps = poll-Keeps d handler in
              let alike =
                Alike-set p.decision_list i d (Decision.poll d handler).0 there keeps.same_view
                  keeps.same_node in
              by_result _ _ (Alike-IsPipeline p _ h refl refl alike) refl
                (λ m k. known m (
                  Queued-set m p.decision_list i d (Decision.poll d handler).0 there
                    (keeps.no_more m) k))
                (omega arith) (λ m. Alike-IsPipeline p _ h refl refl alike) (λ m. refl)
                (Decision.poll d handler).2
                (λ m k. known m (Queued-there m p.decision_list i d there (keeps.from_queue m k))))

    poll_loop-Answered :
        (fuel : ℕ) (p : ChainedHotStuffProtocol) (handler : DecisionHandler ChainedQc) (s : SeqNo)
        (ds : List ChainedDecision)
        → IsPipeline p
        → p.curr_view.seq ≡ s
        → ((m : Message) → Queued m p.decision_list → Queued m ds)
        → length p.signals.signaled_seq_no < fuel
        → Ends (Answered s ds) (poll_loop fuel p handler)
    poll_loop-Answered zero p handler s ds h same known small = absurd (omega arith)
    poll_loop-Answered (suc fuel) p handler s ds h same known small =
        subst (λ s. Ends (Answered s ds) (poll_loop (suc fuel) p handler)) same
          (turn fuel p handler ds h known
            (λ q k same' known' small'.
              poll_loop-Answered fuel q handler p.curr_view.seq ds k same' known' small')
            p.signals.signaled_nos p.signals.signaled_seq_no small)

    -- In a pipeline of well-formed views, polling ends and does not panic, and leaves such a
    -- pipeline. What it gives is that there is nothing, or a message that one of the decisions had in
    -- its queue, and then the current view is still the same; or, if it gives no error, decisions
    -- that were made, which are completed ones, of the numbers from the current view's on up to that
    -- of the view which is then the current one.
    pub poll-Polls :
        (p : ChainedHotStuffProtocol) (handler : DecisionHandler ChainedQc)
        → IsPipeline p
        → Returns
            (poll p handler)
            λ o. (r : Polled) × (o ≡ some r) × Polls p.curr_view.seq p.decision_list r
    unfolding poll
    poll-Polls p handler h = Ends-Returns (poll p handler) (
        poll_loop-Answered (suc (length p.signals.signaled_seq_no)) p handler p.curr_view.seq
          p.decision_list h refl (λ m k. k) (omega arith))
