-- ===== src/HotIron/Protocol/Reception.antt =====
-- Which messages the protocol of src/hot_iron/protocol/hotstuff.rs handles while it has one decision,
-- that of its current view, and what installing a number does to it.
use hot_iron_oxide.Base.{
  ◌≡◌, refl, ℕ, suc, none, some, [], ◌∷◌, ok, panic, todo, ◌>>=◌, Ends, Returns, Ends-Returns, ◌⊎◌,
  inl, inr,
}
use hot_iron_oxide.Atlas.{Atlas}
use hot_iron_oxide.View.{with_new_seq}
use hot_iron_oxide.View.Rotation.{with_new_seq-IsWellFormed}
use hot_iron_oxide.HotIron.Messages.{VoteEncoding}
use hot_iron_oxide.HotIron.Queue.{Message}
use hot_iron_oxide.HotIron.Log.{Result, done, failed}
use hot_iron_oxide.HotIron.Decision
use hot_iron_oxide.HotIron.Decision.{
  HsDecision, World, Processed, DecisionFinalizationResult, DecisionResult, DecisionError,
  new_decision, can_be_finalized,
}
use hot_iron_oxide.HotIron.Decision.Totality.{process_message-Stable}
use hot_iron_oxide.HotIron.Decision.History.{message-IsSound}
use hot_iron_oxide.HotIron.Protocol
use hot_iron_oxide.HotIron.Protocol.{
  HotStuffProtocol, HotIronDecision, new_protocol, sequence_number, can_finalize, any_final,
  queue_message, install_seq_no, refill, next_seq_no, pop_front_decision, finalize_loop,
  finalize_decisions,
}
use hot_iron_oxide.HotIron.Protocol.Handling.{
  Handled, world_of, of_world, conclude, after_processing, process_message,
}
use hot_iron_oxide.HotIron.Protocol.Readiness.{IsReady, finalize_decisions-IsReady}

module _ ⦃atlas : Atlas⦄ ⦃encoding : VoteEncoding⦄ where
  abbrev pub StaysReady : Handled → Type 0
  StaysReady h =
      (p' : HotStuffProtocol) × (r : Result DecisionError Protocol.HotIronResult) × (h
        ≡ some (p', r))
      × IsReady p'

  conclude-IsReady :
      (p : HotStuffProtocol) (d : HsDecision) (result : DecisionResult)
      → IsReady p
      → Ends StaysReady (conclude p d result)
  unfolding conclude
  conclude-IsReady p d (Decision.duplicate_vote n) r = (_, _, refl, r)
  conclude-IsReady p d Decision.message_ignored r = (_, _, refl, r)
  conclude-IsReady p d Decision.message_queued r = (_, _, refl, r)
  conclude-IsReady p d (Decision.decision_progressed qc h m) r = (_, _, refl, r)
  conclude-IsReady p d (Decision.decided qc m) r =
      let (o, e, (p', ds, k, ready, at, n)) = finalize_decisions-IsReady p r in
      rw (e, ◌>>=◌, k) (_, _, refl, ready)

  after_processing-IsReady :
      (p : HotStuffProtocol) (w : World) (result : Result DecisionError DecisionResult)
      → IsReady (of_world p 0 w)
      → Ends StaysReady (after_processing p 0 (w, result))
  unfolding after_processing
  after_processing-IsReady p w (failed error) r = (_, _, refl, r)
  after_processing-IsReady p w (done result) r = conclude-IsReady _ w.decision result r

  -- A protocol with one sound decision, of its well-formed current view, handles a message of that
  -- view or of a past one without a panic, and has one such decision again, whether the decision
  -- makes progress, is made, or reports an error.
  pub process_message-IsReady :
      (p : HotStuffProtocol) (m : Message)
      → IsReady p
      → (atlas.index m.message.curr_view p.current_view.seq ≡ none)
        ⊎ (atlas.index m.message.curr_view p.current_view.seq ≡ some 0)
      → Returns (process_message p m) StaysReady
  unfolding process_message
  process_message-IsReady p m r (inl e) = rw (process_message, e) (_, refl, (_, _, refl, r))
  process_message-IsReady p m r (inr e) =
      let d = r.decision in
      let w = world_of p d in
      let (x, run, st) = process_message-Stable w m r.sound.consistent in
      let sound = message-IsSound p.current_view w m x r.sound run in
      let ready : IsReady (of_world p 0 x.0) = record {
        decision = x.0.decision;
        single = rw r.single refl;
        well = r.well;
        sound = sound;
      } in
      Ends-Returns _
        (rw (process_message, e, r.single, run, ◌>>=◌) (after_processing-IsReady p x.0 x.1 ready))

  -- A protocol with one sound decision, of its current view, panics on every message of a later
  -- view: the queue for these is a `todo!`.
  pub process_message-todo :
      (p : HotStuffProtocol) (m : Message) (i : ℕ)
      → IsReady p
      → atlas.index m.message.curr_view p.current_view.seq ≡ some (suc i)
      → process_message p m ≡ panic todo
  unfolding process_message queue_message
  process_message-todo p m i r e =
      rw (process_message, e, r.single, queue_message, e, r.single, ◌>>=◌) refl

  -- Installing a number at a protocol with one sound decision, of its well-formed current view,
  -- gives the current view that number, but its one decision the number that follows.
  pub install_seq_no-next :
      (p : HotStuffProtocol) (s : atlas.SeqNo)
      → IsReady p
      → Returns (install_seq_no p s) (λ p'.
        (p'.current_view.seq ≡ s)
        × ((d : HsDecision) × (p'.decisions ≡ d ∷ []) × (d.view.seq ≡ atlas.next s)))
  unfolding install_seq_no refill new_decision
  install_seq_no-next p s r =
      let (v, run, (w, at, x, y)) = with_new_seq-IsWellFormed p.current_view s r.well in
      let run' : with_new_seq r.decision.view s ≡ ok v = rw r.sound.of_view run in
      let (v', run'', (w', at', x', y')) = with_new_seq-IsWellFormed v (atlas.next s) w in
      Ends-Returns _ (rw (run, ◌>>=◌, r.single, run', run'') (at, (_, refl, at')))
