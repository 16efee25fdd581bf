-- ===== src/Chained/Protocol/Pipeline.antt =====
-- The pipeline of src/chained/protocol/mod.rs: one decision for each of the next views, in order.
use hot_iron_oxide.Base.{
  ℕ, zero, suc, ◌≡◌, refl, sym, ap, subst, Bool, true, false, List, [], ◌∷◌, Run, length, Returns,
  Ends, Ends-bind, Ends-Returns, All, if◌then◌else◌, if_rule,
}
use hot_iron_oxide.Atlas.{Atlas}
use hot_iron_oxide.View.{View}
use hot_iron_oxide.View.Rotation.{IsWellFormed, next_view-IsWellFormed}
use hot_iron_oxide.Requests.{Pool}
use hot_iron_oxide.Chained.Decision.{
  ChainedDecision, ChainedDecisionState, new_internal, new_decision, new_first_view, next_primary,
  same_node,
}
use hot_iron_oxide.Chained.Protocol.{
  ChainedHotStuffProtocol, protocol_phases, make_decisions, new_protocol, is_finalized,
}

module _ ⦃atlas : Atlas⦄ where
  open atlas use {SeqNo, next, NodeId}

  -- The decisions are for the view of this number and for those that follow it.
  abbrev pub Numbered : SeqNo → List ChainedDecision → Type 0
  Numbered s [] = Unit
  Numbered s (d ∷ ds) = (d.view.seq ≡ s) × Numbered (next s) ds

  -- A decision of the node for a view of this quorum.
  pub record IsOf (node_id : NodeId) (members : List NodeId) (d : ChainedDecision) : Type 0 where
    pub well : IsWellFormed d.view
    pub quorum : d.view.members ≡ members
    pub node : d.node_id ≡ node_id

  pub record IsPipeline (p : ChainedHotStuffProtocol) : Type 0 where
    pub well : IsWellFormed p.curr_view
    pub full : length p.decision_list ≡ protocol_phases
    pub numbered : Numbered p.curr_view.seq p.decision_list
    pub each : All (IsOf p.node_id p.curr_view.members) p.decision_list

  pub to_ends {ℓ κ} : {A : Type ℓ} (P : A → Type κ) (r : Run A) → Returns r P → Ends P r
  to_ends P r (a, e, h) = rw e h

  -- A decision that was just made, for the view.
  abbrev pub IsNew : NodeId → View → ChainedDecision → Type 0
  IsNew node_id view d = (d.view ≡ view) × (d.node_id ≡ node_id) × (is_finalized d.state ≡ false)

  next_primary-Ends :
      (view : View) (node_id : NodeId)
      → IsWellFormed view
      → Ends (λ _. Unit {0}) (next_primary view node_id)
  unfolding next_primary
  next_primary-Ends view node_id w =
      if_rule (Ends (λ _. Unit {0})) (same_node node_id view.leader) (λ _. tt)
        (λ _. let (v, run, _) = next_view-IsWellFormed view w in rw run tt)

  new_internal-IsNew :
      (view : View) (node_id : NodeId) (state : ChainedDecisionState)
      → IsWellFormed view
      → is_finalized state ≡ false
      → Ends (IsNew node_id view) (new_internal view node_id state)
  unfolding new_internal
  new_internal-IsNew view node_id state w h =
      Ends-bind (λ _. Unit {0}) (IsNew node_id view) (next_primary view node_id) _
        (next_primary-Ends view node_id w) λ next _. (refl, refl, h)

  pub new_decision-IsNew :
      (view : View) (node_id : NodeId)
      → IsWellFormed view
      → Ends (IsNew node_id view) (new_decision view node_id)
  unfolding new_decision
  new_decision-IsNew view node_id w =
      new_internal-IsNew view node_id (ChainedDecisionState.prepare 0 false) w refl

  new_first_view-IsNew :
      (view : View) (node_id : NodeId)
      → IsWellFormed view
      → Ends (IsNew node_id view) (new_first_view view node_id)
  unfolding new_first_view
  new_first_view-IsNew view node_id w =
      if_rule (Ends (IsNew node_id view)) (same_node view.leader node_id)
        (λ _. new_decision-IsNew view node_id w)
        (λ _. new_internal-IsNew view node_id ChainedDecisionState.init w refl)

  abbrev pub Made : ℕ → View → NodeId → List ChainedDecision → Type 0
  Made n view node_id ds =
      (length ds ≡ n) × Numbered view.seq ds × All (IsOf node_id view.members) ds

  pub make_decisions-Made :
      (n : ℕ) (is_first : Bool) (view : View) (node_id : NodeId)
      → IsWellFormed view
      → Ends (Made n view node_id) (make_decisions n is_first view node_id)
  unfolding make_decisions
  make_decisions-Made zero is_first view node_id w = (refl, tt, tt)
  make_decisions-Made (suc n) is_first view node_id w =
      let (following, run, (well, at, same)) = next_view-IsWellFormed view w in
      let made : Ends (IsNew node_id view)
          (if is_first then new_first_view view node_id else new_decision view node_id) =
        if_rule (Ends (IsNew node_id view)) is_first (λ _. new_first_view-IsNew view node_id w)
          (λ _. new_decision-IsNew view node_id w) in
      rw (run, make_decisions)
        (Ends-bind (IsNew node_id view) (Made (suc n) view node_id) _ _ made
          λ d (of_view, of_node, _).
            Ends-bind (Made n following node_id) (Made (suc n) view node_id) _ _
              (make_decisions-Made n false following node_id well)
              λ ds (many, numbered, each). (
                ap suc many,
                (ap (λ v. v.seq) of_view, subst (λ s. Numbered s ds) at numbered),
                (
                  record {
                    well = subst IsWellFormed (sym of_view) w;
                    quorum = ap (λ v. v.members) of_view;
                    node = of_node;
                  },
                  subst (λ m. All (IsOf node_id m) ds) same each,
                ),
              ))

  -- In a well-formed view the protocol is made, with a decision for that view and for each of the
  -- next three, in order and of the same quorum.
  pub new_protocol-IsPipeline :
      (node_id : NodeId) (rq_aggr : Pool) (view : View)
      → IsWellFormed view
      → Returns (new_protocol node_id rq_aggr view) IsPipeline
  unfolding new_protocol
  new_protocol-IsPipeline node_id rq_aggr view w =
      Ends-Returns (new_protocol node_id rq_aggr view) (
        Ends-bind (Made protocol_phases view node_id) IsPipeline _ _
          (make_decisions-Made protocol_phases true view node_id w)
          λ ds (many, numbered, each). record {
            well = w;
            full = many;
            numbered = numbered;
            each = each;
          })
