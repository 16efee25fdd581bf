-- ===== src/HotIron/Protocol/Readiness.antt =====
-- The protocol of src/hot_iron/protocol/hotstuff.rs while it has one decision, that of its current
-- view: which messages it handles without a panic, and how it goes to the next view.
use hot_iron_oxide.Base.{
  ◌≡◌, refl, sym, subst, ℕ, suc, true, false, Option, some, List, [], ◌∷◌, ok, ◌>>=◌, Ends, Returns,
  Ends-Returns, length, if◌then◌else◌, push_back,
}
use hot_iron_oxide.Atlas.{Atlas}
use hot_iron_oxide.Tree.{default_handler}
use hot_iron_oxide.View.{View, with_new_seq}
use hot_iron_oxide.View.Rotation.{IsWellFormed, with_new_seq-IsWellFormed}
use hot_iron_oxide.HotIron.Messages.{VoteEncoding}
use hot_iron_oxide.HotIron.Signals.{push_signalled}
use hot_iron_oxide.HotIron.Decision.{
  HsDecision, DecisionFinalizationResult, new_decision, can_be_finalized,
}
use hot_iron_oxide.HotIron.Decision.Replica.{ProtocolConsensusDecision, finalize_decision}
use hot_iron_oxide.HotIron.Decision.History.{IsSound, new_decision-IsSound, finalize_sound}
use hot_iron_oxide.HotIron.Protocol.{
  HotStuffProtocol, HotIronDecision, new_protocol, can_finalize, any_final, next_seq_no,
  pop_front_decision, finalize_loop, finalize_decisions,
}
use hot_iron_oxide.HotIron.Protocol.Handling.{world_of}

module _ ⦃atlas : Atlas⦄ ⦃encoding : VoteEncoding⦄ where
  -- There is one decision, of the current view; the view is well formed and the decision sound.
  pub record IsReady (p : HotStuffProtocol) : Type 0 where
    pub decision : HsDecision
    pub single : p.decisions ≡ decision ∷ []
    pub well : IsWellFormed p.current_view
    pub sound : IsSound p.current_view (world_of p decision)

  -- A new protocol for a well-formed view is ready.
  pub new_protocol-IsReady :
      (node_id : atlas.NodeId) (view : View)
      → IsWellFormed view
      → IsReady (new_protocol node_id view)
  unfolding new_protocol default_handler
  new_protocol-IsReady node_id view w = record {
    decision = new_decision view node_id;
    single = refl;
    well = w;
    sound = new_decision-IsSound view _ node_id w.occupied refl refl;
  }

  -- What finalizing gives: a ready protocol, at the next number with one decision if it could finalize.
  abbrev pub Finalized :
      HotStuffProtocol → Option (HotStuffProtocol × List HotIronDecision) → Type 0
  Finalized p o =
      (p' : HotStuffProtocol) × (ds : List HotIronDecision) × (o ≡ some (p', ds))
      × IsReady p'
      × (p'.current_view.seq
          ≡ (if can_finalize p then atlas.next p.current_view.seq else p.current_view.seq))
      × (length ds ≡ (if can_finalize p then 1 else 0))

  -- A turn of the loop, and its end.
  module _ (fuel : ℕ) (p : HotStuffProtocol) (ds : List HotIronDecision) where
    finalize_loop-turn :
        (r : HsDecision × HotStuffProtocol) (pd : ProtocolConsensusDecision)
        → can_finalize p ≡ true
        → pop_front_decision p ≡ ok r
        → finalize_decision r.0 ≡ ok pd
        → finalize_loop (suc fuel) p ds
          ≡ finalize_loop fuel r.1 (push_back ds (HotIronDecision.completed_decision pd.seq pd))
    unfolding finalize_loop
    finalize_loop-turn r pd c e e' = rw (c, e, ◌>>=◌, e', ◌>>=◌) refl

    finalize_loop-stop : can_finalize p ≡ false → finalize_loop (suc fuel) p ds ≡ ok (some (p, ds))
    unfolding finalize_loop
    finalize_loop-stop c = rw c refl

  single-can_finalize :
      (p : HotStuffProtocol) (d : HsDecision) (f : DecisionFinalizationResult)
      → can_be_finalized d ≡ f
      → can_finalize (record p { decisions = d ∷ [] })
        ≡ (elim f [ DecisionFinalizationResult.finalized ↦ true | _ ↦ false ])
  unfolding can_finalize
  single-can_finalize p d DecisionFinalizationResult.finalized h = rw (any_final, h) refl
  single-can_finalize p d DecisionFinalizationResult.next_view h = rw (any_final, h) refl
  single-can_finalize p d DecisionFinalizationResult.not_final h = rw (any_final, h) refl

  module _ (p : HotStuffProtocol) (d : HsDecision) (w : IsWellFormed p.current_view)
      (s : IsSound p.current_view (world_of p d)) where
    abbrev of_single : HotStuffProtocol
    of_single = record p { decisions = d ∷ [] }

    abbrev Popped : HsDecision × HotStuffProtocol → Type 0
    Popped r =
        (r.0 ≡ d)
        × (any_final r.1.decisions ≡ false)
        × IsReady r.1
        × (r.1.current_view.seq ≡ atlas.next p.current_view.seq)

    pop_single : Ends Popped (pop_front_decision of_single)
    unfolding pop_front_decision next_seq_no can_be_finalized new_decision
    pop_single =
        let number = atlas.next p.current_view.seq in
        let (v, run, (wv, at, members, same)) = with_new_seq-IsWellFormed p.current_view number w in
        let run' : with_new_seq d.view v.seq ≡ ok v = rw (s.of_view, at) run in
        rw (run, ◌>>=◌, run', ◌>>=◌) (refl, refl, ready v wv, at)
      where
        ready :
            (v : View)
            → IsWellFormed v
            → IsReady (record p {
              decisions = new_decision v p.node_id ∷ [];
              current_view = v;
              signal_queue = push_signalled p.signal_queue v.seq;
            })
        ready v wv = record {
          decision = new_decision v p.node_id;
          single = refl;
          well = wv;
          sound = new_decision-IsSound v _ p.node_id wv.occupied refl s.unlocked;
        }

    finalize_single :
        can_be_finalized d ≡ DecisionFinalizationResult.finalized
        → Ends (Finalized of_single) (finalize_decisions of_single)
    unfolding finalize_decisions can_finalize
    finalize_single h =
        let (r, e, (a, b, ready, at)) = Ends-Returns {P = Popped} _ pop_single in
        let (pd, e', x) = finalize_sound p.current_view (world_of p d) s h in
        let c = single-can_finalize p d _ h in
        let run = finalize_loop-turn 1 of_single [] r pd c e (rw a e') in
        rw (run, finalize_loop-stop 0 r.1 _ b, c) (_, _, refl, ready, at, refl)

  -- A protocol with one sound decision, of its well-formed current view, finalizes without a
  -- panic. If the decision is final that gives one decision, and the protocol goes to the next
  -- view number; if not, none, and the number stays. After it the protocol again has one sound
  -- decision, of its well-formed current view.
  pub finalize_decisions-IsReady :
      (p : HotStuffProtocol) → IsReady p → Returns (finalize_decisions p) (Finalized p)
  unfolding finalize_decisions can_finalize
  finalize_decisions-IsReady p r = Ends-Returns _ (
      subst (λ ds. let q = record p { decisions = ds } in Ends (Finalized q) (finalize_decisions q))
        (sym r.single) (by_state (can_be_finalized r.decision) refl))
    where
      q : HotStuffProtocol
      q = record p { decisions = r.decision ∷ [] }

      unchanged : IsReady q
      unchanged = record { decision = r.decision; single = refl; well = r.well; sound = r.sound }

      stopped : can_finalize q ≡ false → Ends (Finalized q) (finalize_decisions q)
      stopped c = rw (finalize_loop-stop 1 q [] c, c) (_, _, refl, unchanged, refl, refl)

      by_state :
          (f : DecisionFinalizationResult)
          → can_be_finalized r.decision ≡ f
          → Ends (Finalized q) (finalize_decisions q)
      by_state DecisionFinalizationResult.finalized h =
          finalize_single p r.decision r.well r.sound h
      by_state DecisionFinalizationResult.next_view h =
          stopped (single-can_finalize p r.decision _ h)
      by_state DecisionFinalizationResult.not_final h =
          stopped (single-can_finalize p r.decision _ h)
