-- ===== src/HotIron/Signals/Order.antt =====
-- That `Signals` (src/hot_iron/protocol/hotstuff.rs) is a set of which the least number is popped.
use hot_iron_oxide.Base.{
  ◌≡◌, ◌≢◌, refl, ap, ◌⊎◌, inl, inr, sym, ◌∙◌, Bool, true, false, Option, none, some, List, [], ◌∷◌,
  ite, if_rule, arith,
}
use hot_iron_oxide.Atlas.{Atlas, SeqLaws}
use hot_iron_oxide.HotIron.Signals.{Signals, contains, remove, push, pop_signalled, push_signalled}

module _ ⦃atlas : Atlas⦄ where
  open atlas use {SeqNo, seq_discrete, seq_le}

  -- The number is less than all of the list.
  abbrev Below : SeqNo → List SeqNo → Type 0
  Below s ts = (t : SeqNo) → contains t ts ≡ true → (seq_le s t ≡ true) × (s ≢ t)

  pub data Ascending : List SeqNo → Type 0 where
    empty : Ascending []
    least : {s : SeqNo} {ts : List SeqNo} → Below s ts → Ascending ts → Ascending (s ∷ ts)

  -- The set and the heap agree, and the heap has no number twice.
  pub record IsSynced (signals : Signals) : Type 0 where
    pub agree : (t : SeqNo) → contains t signals.signaled_nos ≡ contains t signals.signaled_seq_no
    pub ascending : Ascending signals.signaled_seq_no

  -- The least number and the signals without it, or that there is none.
  pub data Popped (signals : Signals) : Option SeqNo × Signals → Type 0 where
    nothing :
        {rest : Signals}
        → ((t : SeqNo) → contains t signals.signaled_seq_no ≡ false)
        → rest ≡ signals
        → Popped signals (none, rest)
    least :
        {s : SeqNo} {rest : Signals}
        → contains s signals.signaled_seq_no ≡ true
        → ((t : SeqNo) → contains t signals.signaled_seq_no ≡ true → seq_le s t ≡ true)
        → ((t : SeqNo)
            → contains t rest.signaled_seq_no
              ≡ ite (seq_discrete t s) false (contains t signals.signaled_seq_no))
        → IsSynced rest
        → Popped signals (some s, rest)

  contains-push :
      (s t : SeqNo) (ts : List SeqNo)
      → contains t (push s ts) ≡ ite (seq_discrete t s) true (contains t ts)
  contains-push s t [] = refl
  contains-push s t (x ∷ xs) =
      let h = contains-push s t xs in
      if_rule (λ l. contains t l ≡ ite (seq_discrete t s) true (contains t (x ∷ xs))) (seq_le s x)
        (λ _. refl) (λ _. ground arith)

  pub contains-remove :
      (s t : SeqNo) (ts : List SeqNo)
      → contains t (remove s ts) ≡ ite (seq_discrete t s) false (contains t ts)
  contains-remove s t [] = ground arith
  contains-remove s t (x ∷ xs) = let h = contains-remove s t xs in ground arith

  ite_split : (t s : SeqNo) (b : Bool) → ite (seq_discrete t s) true b ≡ true → (t ≡ s) ⊎ (b ≡ true)
  ite_split t s b h = ground arith

  ite_split_false :
      (t s : SeqNo) (b : Bool) → ite (seq_discrete t s) true b ≡ false → (t ≢ s) × (b ≡ false)
  ite_split_false t s b h = ground arith

  absent :
      (b : Bool) (t s : SeqNo)
      → (b ≡ true → t ≢ s)
      → b ≡ ite (seq_discrete t s) false (ite (seq_discrete t s) true b)
  absent true t s h = ground arith
  absent false t s h = ground arith

  module _ (laws : SeqLaws) where
    push-Ascending :
        (s : SeqNo) (ts : List SeqNo) → contains s ts ≡ false → Ascending ts → Ascending (push s ts)
    push-Ascending s [] h a = Ascending.least (λ t h. cc) Ascending.empty
    push-Ascending s (t ∷ ts) h (Ascending.least b a) =
        if_rule Ascending (seq_le s t)
          (λ l.
            Ascending.least (λ u k. (before u (ite_split u t _ k) l, λ e. cc))
              (Ascending.least b a))
          (λ g.
            Ascending.least (λ u k. after u (ite_split u s _ (sym (contains-push s u ts) ∙ k)) g)
              (push-Ascending s ts (ite_split_false s t _ h).1 a))
      where
        before :
            (u : SeqNo) → (u ≡ t) ⊎ (contains u ts ≡ true) → seq_le s t ≡ true → seq_le s u ≡ true
        before u (inl e) l = rw e l
        before u (inr k) l = laws.seq_le_trans s t u l (b u k).0

        after :
            (u : SeqNo)
            → (u ≡ s) ⊎ (contains u ts ≡ true)
            → seq_le s t ≡ false
            → (seq_le t u ≡ true) × (t ≢ u)
        after u (inl e) g =
            (rw e (laws.seq_le_total s t g), λ k. (ite_split_false s t _ h).0 (sym (k ∙ e)))
        after u (inr k) g = b u k

    -- With totally ordered numbers, and the set and the heap in agreement and without doubles:
    -- signalling a number keeps that so, and adds exactly that number to the heap.
    pub push_signalled-IsSynced :
        (signals : Signals) (s : SeqNo)
        → IsSynced signals
        → IsSynced (push_signalled signals s)
          × ((t : SeqNo)
              → contains t (push_signalled signals s).signaled_seq_no
                ≡ ite (seq_discrete t s) true (contains t signals.signaled_seq_no))
    unfolding push_signalled
    push_signalled-IsSynced signals s h =
        if_rule
          (λ r.
            IsSynced r
            × ((t : SeqNo)
                → contains t r.signaled_seq_no
                  ≡ ite (seq_discrete t s) true (contains t signals.signaled_seq_no)))
          (contains s signals.signaled_nos)
          (λ e. (
            h,
            λ t.
                let k : t ≡ s → contains t signals.signaled_seq_no ≡ true =
                  λ q. rw q (sym (h.agree s) ∙ e) in
                ground arith,
          ))
          (λ e. (
            record {
              agree = λ t.
                  ap (λ b. ite (seq_discrete t s) true b) (h.agree t)
                  ∙ sym (contains-push s t signals.signaled_seq_no);
              ascending =
                  push-Ascending s signals.signaled_seq_no (sym (h.agree s) ∙ e) h.ascending;
            },
            λ t. contains-push s t signals.signaled_seq_no,
          ))

    -- With totally ordered numbers, and the set and the heap in agreement and without doubles:
    -- what is popped is the least number signalled, exactly that one is gone afterwards, and the
    -- agreement is kept; nothing is popped only if nothing is signalled.
    pub pop_signalled-IsSynced :
        (signals : Signals) → IsSynced signals → Popped signals (pop_signalled signals)
    unfolding pop_signalled
    pop_signalled-IsSynced signals h =
        popped signals.signaled_nos signals.signaled_seq_no h.agree h.ascending
      where
        without :
            (s : SeqNo) (ts : List SeqNo)
            → Below s ts
            → (t : SeqNo) → contains t ts ≡ ite (seq_discrete t s) false (contains t (s ∷ ts))
        without s ts b t = absent (contains t ts) t s (λ h e. (b t h).1 (sym e))

        popped :
            (nos heap : List SeqNo)
            → ((t : SeqNo) → contains t nos ≡ contains t heap)
            → Ascending heap
            → Popped
                (record { signaled_nos = nos; signaled_seq_no = heap })
                (pop_signalled (record { signaled_nos = nos; signaled_seq_no = heap }))
        popped nos [] agree a = nothing (λ t. refl) refl
        popped nos (s ∷ rest) agree (Ascending.least b a) =
            least (ground arith) (λ t k. first t (ite_split t s _ k)) (without s rest b)
              (record {
                agree = λ t.
                    contains-remove s t nos
                    ∙ ap (λ b. ite (seq_discrete t s) false b) (agree t)
                    ∙ sym (without s rest b t);
                ascending = a;
              })
          where
            first : (t : SeqNo) → (t ≡ s) ⊎ (contains t rest ≡ true) → seq_le s t ≡ true
            first t (inl e) = rw e (laws.seq_le_refl s)
            first t (inr k) = (b t k).0
