-- ===== src/Chained/Protocol/Installing.antt =====
-- What `install_view` of src/chained/protocol/mod.rs does to the pipeline.
use hot_iron_oxide.Base.{
  ℕ, zero, suc, ◌+◌, ◌-◌, ◌≤◌, ◌<◌, ◌≡◌, refl, sym, ◌∙◌, ap, subst, true, false, some, List, [],
  ◌∷◌, ◌++◌, arith, length, leb, get_elem?, Returns, Ends-Returns, ok, Permits-ok, Permits-bind,
}
use hot_iron_oxide.Atlas.{Atlas}
use hot_iron_oxide.View.{View, next_view}
use hot_iron_oxide.View.Rotation.{IsWellFormed}
use hot_iron_oxide.HotIron.Log.{Result, done, failed}
use hot_iron_oxide.Chained.Decision.{ChainedDecision, new_first_view}
use hot_iron_oxide.Chained.Protocol.{
  ChainedHotStuffProtocol, InstallViewError, protocol_phases, sequence_number, drop_front,
  decisions_kept, install_view, make_decisions,
}
use hot_iron_oxide.Chained.Protocol.Pipeline.{Numbered, IsPipeline, Made, make_decisions-Made}

module _ ⦃atlas : Atlas⦄ where
  open atlas use {SeqNo, NodeId, next, index}

  -- What is installed, if it is not refused.
  abbrev pub Installs :
      (ChainedHotStuffProtocol → Type 0) → Result InstallViewError ChainedHotStuffProtocol → Type 0
  Installs P (done p) = P p
  Installs P (failed e) = ⊥

  installed :
      (p : ChainedHotStuffProtocol) (view : View) (i : ℕ) (P : ChainedHotStuffProtocol → Type 0)
      → IsWellFormed view
      → index view.seq (sequence_number p) ≡ some i
      → ((ds : List ChainedDecision)
          → Made (decisions_kept p.decision_list i).1 view p.node_id ds
          → make_decisions (decisions_kept p.decision_list i).1 true view p.node_id ≡ ok ds
          → (q : ChainedHotStuffProtocol)
          → q.decision_list ≡ (decisions_kept p.decision_list i).0 ++ ds
          → q.curr_view ≡ view
          → q.node_id ≡ p.node_id
          → P q)
      → Returns (install_view p view) (Installs P)
  unfolding install_view
  installed p view i P w at goal =
      let k = (decisions_kept p.decision_list i).1 in
      let (ds, run, made) =
        Ends-Returns {P = Made k view p.node_id} (make_decisions k true view p.node_id)
          (make_decisions-Made k true view p.node_id w) in
      Ends-Returns (install_view p view)
        (rw (install_view, at, run) (goal ds made run _ refl refl refl))

  -- Installing a well-formed view that lies beyond the pipeline does not panic, is not refused, and
  -- gives a pipeline of decisions for that view and the three after it.
  pub install_view-IsPipeline :
      (p : ChainedHotStuffProtocol) (view : View) (i : ℕ)
      → IsWellFormed view
      → index view.seq (sequence_number p) ≡ some i
      → length p.decision_list ≤ i
      → Returns (install_view p view) (Installs λ q. IsPipeline q × (q.curr_view ≡ view))
  install_view-IsPipeline p view i w at beyond =
      let all : leb (length p.decision_list) i ≡ true = ground arith in
      let kept : decisions_kept p.decision_list i ≡ ([], protocol_phases) = rw all refl in
      installed p view i _ w at λ ds made _ q list of_view of_node.
        let (many, numbered, each) = subst (λ k. Made k.1 view p.node_id ds) kept made in
        let same : q.decision_list ≡ ds = list ∙ ap (λ k. k.0 ++ ds) kept in
        (
          record {
            well = subst IsWellFormed (sym of_view) w;
            full = ap length same ∙ many;
            numbered = rw (same, of_view) numbered;
            each = rw (same, of_view, of_node) each;
          },
          of_view,
        )

  -- The number so many views later.
  abbrev pub ahead : ℕ → SeqNo → SeqNo
  ahead zero s = s
  ahead (suc n) s = ahead n (next s)

  Numbered-at :
      (s : SeqNo) (ds : List ChainedDecision) (i : ℕ)
      → i < length ds
      → Numbered s ds
      → (d : ChainedDecision) × (get_elem? ds i ≡ some d) × (d.view.seq ≡ ahead i s)
  Numbered-at s [] i h k = absurd (omega arith)
  Numbered-at s (d ∷ ds) zero h (at, _) = (d, refl, at)
  Numbered-at s (d ∷ ds) (suc i) h (_, rest) = Numbered-at (next s) ds i (omega arith) rest

  drop_front-front :
      (ds es : List ChainedDecision) (i : ℕ)
      → i < length ds
      → get_elem? (drop_front i ds ++ es) 0 ≡ get_elem? ds i
  drop_front-front [] es i h = absurd (omega arith)
  drop_front-front (d ∷ ds) es zero h = refl
  drop_front-front (d ∷ ds) es (suc i) h = drop_front-front ds es i (omega arith)

  drop_front-rest :
      (ds : List ChainedDecision) (e : ChainedDecision) (es : List ChainedDecision) (i k : ℕ)
      → length ds ≡ i + k
      → get_elem? (drop_front i ds ++ e ∷ es) k ≡ some e
  drop_front-rest [] e es zero zero h = refl
  drop_front-rest [] e es zero (suc k) h = absurd (omega arith)
  drop_front-rest [] e es (suc i) k h = absurd (omega arith)
  drop_front-rest (d ∷ ds) e es zero zero h = absurd (omega arith)
  drop_front-rest (d ∷ ds) e es zero (suc k) h = drop_front-rest ds e es zero k (omega arith)
  drop_front-rest (d ∷ ds) e es (suc i) k h = drop_front-rest ds e es i k (omega arith)

  drop_front-kept :
      (ds es : List ChainedDecision) (i k j : ℕ)
      → j ≡ i + k
      → j < length ds
      → get_elem? (drop_front i ds ++ es) k ≡ get_elem? ds j
  drop_front-kept [] es i k j e h = absurd (omega arith)
  drop_front-kept (d ∷ ds) es zero zero zero e h = refl
  drop_front-kept (d ∷ ds) es zero zero (suc j) e h = absurd (omega arith)
  drop_front-kept (d ∷ ds) es zero (suc k) zero e h = absurd (omega arith)
  drop_front-kept (d ∷ ds) es zero (suc k) (suc j) e h =
      drop_front-kept ds es zero k j (omega arith) (omega arith)
  drop_front-kept (d ∷ ds) es (suc i) k zero e h = absurd (omega arith)
  drop_front-kept (d ∷ ds) es (suc i) k (suc j) e h =
      drop_front-kept ds es i k j (omega arith) (omega arith)

  -- The first of the decisions that are made is a new one for the first view.
  make_decisions-first :
      (n : ℕ) (view : View) (node_id : NodeId) (e : ChainedDecision) (es : List ChainedDecision)
      → make_decisions (suc n) true view node_id ≡ ok (e ∷ es)
      → new_first_view view node_id ≡ ok e
  unfolding make_decisions
  make_decisions-first n view node_id e es run =
      Permits-ok First run
        (Permits-bind First (next_view view) _ λ following _.
          Permits-bind First (new_first_view view node_id) _ λ d made.
            Permits-bind First (make_decisions n false following node_id) _
              λ ds _. λ x xs is. made ∙ ap ok (first_of is))
        e es refl
    where
      First : List ChainedDecision → Type 0
      First ds =
          (x : ChainedDecision) (xs : List ChainedDecision)
          → ds ≡ x ∷ xs
          → new_first_view view node_id ≡ ok x

      first_of : {x y : ChainedDecision} {xs ys : List ChainedDecision} → x ∷ xs ≡ y ∷ ys → x ≡ y
      first_of h = cc

  -- The decisions from the one of the view on are kept, in their order; behind them stands a new
  -- decision, and the first one and the new one are for the view.
  pub record Doubles (node_id : NodeId) (view : View) (i : ℕ) (before after : List ChainedDecision)
      : Type 0 where
    pub first : ChainedDecision
    pub again : ChainedDecision
    pub was_there : get_elem? before i ≡ some first
    pub at_front : get_elem? after 0 ≡ some first
    pub kept : (k : ℕ) → i + k < length before → get_elem? after k ≡ get_elem? before (i + k)
    pub behind : get_elem? after (length before - i) ≡ some again
    pub is_new : new_first_view view node_id ≡ ok again
    pub of_view : first.view.seq ≡ view.seq
    pub of_view_again : again.view.seq ≡ view.seq

  -- Installing a well-formed view that lies within the pipeline, after the current one, does not
  -- panic and is not refused, but leaves two decisions for that view: the one that was there, at the
  -- front now and followed by those that followed it, and behind these one that is newly made.
  pub install_view-Doubles :
      (p : ChainedHotStuffProtocol) (view : View) (i : ℕ)
      → IsPipeline p
      → IsWellFormed view
      → index view.seq (sequence_number p) ≡ some i
      → view.seq ≡ ahead i (sequence_number p)
      → 0 < i
      → i < length p.decision_list
      → Returns
          (install_view p view)
          (Installs λ q. Doubles p.node_id view i p.decision_list q.decision_list)
  install_view-Doubles p view i h w at place positive within =
      let some_kept : leb (length p.decision_list) i ≡ false = ground arith in
      let kept : decisions_kept p.decision_list i ≡ (drop_front i p.decision_list, i) =
        rw some_kept refl in
      let (d, there, number) = Numbered-at p.curr_view.seq p.decision_list i within h.numbered in
      installed p view i _ w at λ ds made run q list of_view of_node.
        doubled d there number ds (subst (λ k. Made k.1 view p.node_id ds) kept made)
          (subst (λ k. make_decisions k.1 true view p.node_id ≡ ok ds) kept run) q
          (list ∙ ap (λ k. k.0 ++ ds) kept)
    where
      new_at :
          (n : ℕ) (e : ChainedDecision) (es : List ChainedDecision)
          → 0 < n
          → make_decisions n true view p.node_id ≡ ok (e ∷ es)
          → new_first_view view p.node_id ≡ ok e
      new_at zero e es h run = absurd (omega arith)
      new_at (suc n) e es h run = make_decisions-first n view p.node_id e es run

      doubled :
          (d : ChainedDecision)
          → get_elem? p.decision_list i ≡ some d
          → d.view.seq ≡ ahead i p.curr_view.seq
          → (ds : List ChainedDecision) → Made i view p.node_id ds
          → make_decisions i true view p.node_id ≡ ok ds
          → (q : ChainedHotStuffProtocol) → q.decision_list ≡ drop_front i p.decision_list ++ ds
          → Doubles p.node_id view i p.decision_list q.decision_list
      doubled d there number [] (many, _, _) run q list = absurd (omega (arith, many))
      doubled d there number (e ∷ es) (many, numbered, each) run q list = record {
        first = d;
        again = e;
        was_there = there;
        at_front = rw list (drop_front-front p.decision_list (e ∷ es) i within ∙ there);
        kept =
            λ k inside. rw list (drop_front-kept p.decision_list (e ∷ es) i k (i + k) refl inside);
        behind =
            rw list
              (drop_front-rest p.decision_list e es i (length p.decision_list - i) (omega arith));
        is_new = new_at i e es positive run;
        of_view = number ∙ sym place;
        of_view_again = numbered.0;
      }
