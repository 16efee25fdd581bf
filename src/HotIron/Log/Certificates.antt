-- ===== src/HotIron/Log/Certificates.antt =====
-- The certificates that the logs of src/hot_iron/protocol/log/mod.rs make of the votes.
use mathlib.Core.Bool.{false≢true}
use mathlib.Core.List.{Memᴰ}
use hot_iron_oxide.Base.{
  ℕ, ◌≤◌, ◌≡◌, refl, inl, inr, true, false, Option, none, some, arith, length, leb, Option-cases,
  Sum-cases, subst,
}
use hot_iron_oxide.Base.Maximum.{
  IsTotal, max_by_key, max_by_key-some, max_by_key-none, max_by_key-Mem,
}
use hot_iron_oxide.Atlas.{Atlas, SeqLaws}
use hot_iron_oxide.View.{View}
use hot_iron_oxide.Tree.{DecisionNodeHeader}
use hot_iron_oxide.HotIron.Messages.{QcType, Qc}
use hot_iron_oxide.HotIron.Log.{
  done, Votes, VoteStore, NewViewStore, store_generate_qc, option_seq_le, option_seq, get_high_qc,
  create_new_qc,
}

leb-IsTotal : IsTotal leb
leb-IsTotal = record { le_total = λ a b h. ground arith; le_trans = λ a b c h k. ground arith }

module _ ⦃atlas : Atlas⦄ where
  open atlas use {
    SeqNo, seq_le, seq_zero, next, NodeId, PartialSignature, CombinedSignature, combine_signatures,
  }

  -- What a certificate of a vote store is made of: all the votes of one node of the store, a node
  -- that no other outnumbers.
  pub record Certifies (store : VoteStore) (view : View) (qc : Qc) : Type 0 where
    pub votes : Votes
    pub of_type : qc.qc_type ≡ store.vote_type
    pub of_view : qc.view_seq ≡ view.seq
    pub voted : Memᴰ (qc.decision_node, votes) store.decision_nodes
    pub combined : combine_signatures votes ≡ inr qc.signature
    pub most :
        (e : DecisionNodeHeader × Votes) → Memᴰ e store.decision_nodes → length e.1 ≤ length votes

  le_of_leb : (a b : ℕ) → leb a b ≡ true → a ≤ b
  le_of_leb a b h = ground arith

  certified :
      (store : VoteStore) (view : View) (qc : Qc) (node : DecisionNodeHeader) (votes : Votes)
      (signature : CombinedSignature)
      → max_by_key leb (λ e. length e.1) store.decision_nodes ≡ some (node, votes)
      → combine_signatures votes ≡ inr signature
      → store_generate_qc store view ≡ done qc
      → Certifies store view qc
  unfolding store_generate_qc
  certified store view qc node votes signature e c h =
      let (here, upper) =
        max_by_key-some leb (λ e. length e.1) leb-IsTotal store.decision_nodes e in
      let at : node ≡ qc.decision_node = ground arith in
      record {
        votes = votes;
        of_type = ground arith;
        of_view = ground arith;
        voted = subst (λ n. Memᴰ (n, votes) store.decision_nodes) at here;
        combined = ground arith;
        most = λ x m. le_of_leb _ _ (upper x m);
      }

  -- Every certificate that a vote store generates has the type of the store and the number of the
  -- view; its signature combines all the votes for its node, which is a node of the store that no
  -- other outnumbers.
  pub store_generate_qc-Certifies :
      (store : VoteStore) (view : View) (qc : Qc)
      → store_generate_qc store view ≡ done qc
      → Certifies store view qc
  unfolding store_generate_qc
  store_generate_qc-Certifies store view qc h =
      elim (Option-cases (max_by_key leb (λ e. length e.1) store.decision_nodes)) [
        | inl e ↦ absurd (ground arith)
        | inr ((node, votes), e) ↦ elim (Sum-cases (combine_signatures votes)) [
          | inl (error, c) ↦ absurd (ground arith)
          | inr (signature, c) ↦ certified store view qc node votes signature e c h
        ]
      ]

  module _ (laws : SeqLaws) where
    option_seq_le-IsTotal : IsTotal option_seq_le
    option_seq_le-IsTotal = record { le_total = total; le_trans = trans }
      where
        total : (a b : Option SeqNo) → option_seq_le a b ≡ false → option_seq_le b a ≡ true
        total none b h = cc
        total (some a) none h = refl
        total (some a) (some b) h = laws.seq_le_total a b h

        trans :
            (a b c : Option SeqNo)
            → option_seq_le a b ≡ true
            → option_seq_le b c ≡ true
            → option_seq_le a c ≡ true
        trans none b c h k = refl
        trans (some a) none c h k = cc
        trans (some a) (some b) none h k = cc
        trans (some a) (some b) (some c) h k = laws.seq_le_trans a b c h k

    -- With totally ordered numbers, the highest certificate is one that some vote of a new view
    -- carried, and no vote carried one of a higher view.
    pub get_high_qc-some :
        (store : NewViewStore) (qc : Qc)
        → get_high_qc store ≡ some qc
        → ((votes : Votes) × Memᴰ (some qc, votes) store.new_view)
          × ((other : Qc) (votes : Votes)
              → Memᴰ (some other, votes) store.new_view
              → seq_le other.view_seq qc.view_seq ≡ true)
    unfolding get_high_qc
    get_high_qc-some store qc h =
        elim (Option-cases (max_by_key option_seq_le (λ e. option_seq e.0) store.new_view)) [
          | inl e ↦ absurd (ground arith)
          | inr ((best, votes), e) ↦
              let (here, upper) =
                max_by_key-some option_seq_le (λ e. option_seq e.0) option_seq_le-IsTotal
                  store.new_view e in
              let at : best ≡ some qc = ground arith in
              (
                (votes, subst (λ q. Memᴰ (q, votes) store.new_view) at here),
                λ other vs m.
                    subst (λ q. option_seq_le (some other.view_seq) (option_seq q) ≡ true) at
                      (upper (some other, vs) m),
              )
        ]

    -- With totally ordered numbers, if there is no highest certificate then no vote carried any.
    pub get_high_qc-none :
        (store : NewViewStore)
        → get_high_qc store ≡ none
        → (other : Qc) (votes : Votes) → ¬ Memᴰ (some other, votes) store.new_view
    unfolding get_high_qc
    get_high_qc-none store h other votes m =
        elim (Option-cases (max_by_key option_seq_le (λ e. option_seq e.0) store.new_view)) [
          | inl e ↦
              max_by_key-none option_seq_le (λ e. option_seq e.0) option_seq_le-IsTotal
                store.new_view e m
          | inr ((best, vs), e) ↦
              let (here, upper) =
                max_by_key-some option_seq_le (λ e. option_seq e.0) option_seq_le-IsTotal
                  store.new_view e in
              let at : best ≡ none = ground arith in
              false≢true (
                subst (λ q. option_seq_le (some other.view_seq) (option_seq q) ≡ true) at
                  (upper (some other, votes) m))
        ]

  -- The view that follows a highest certificate: the first, or the one after the certificate's.
  abbrev pub following : Option Qc → SeqNo
  following none = seq_zero
  following (some high) = next high.view_seq

  get_high_qc_lem :
      (store : NewViewStore) (high : Option Qc) (votes : Votes)
      → max_by_key option_seq_le (λ e. option_seq e.0) store.new_view ≡ some (high, votes)
      → get_high_qc store ≡ high
  unfolding get_high_qc
  get_high_qc_lem store high votes e = rw (e, get_high_qc)

  -- A certificate made of the new view votes is a prepare certificate for the given node, of the
  -- view that follows the highest certificate; its signature combines the votes that carried just
  -- that certificate.
  pub create_new_qc-done :
      (store : NewViewStore) (header : DecisionNodeHeader) (qc : Qc)
      → create_new_qc store header ≡ done qc
      → (qc.qc_type ≡ QcType.prepare_vote)
        × (qc.decision_node ≡ header)
        × (qc.view_seq ≡ following (get_high_qc store))
        × ((votes : Votes) × Memᴰ (get_high_qc store, votes) store.new_view
            × (combine_signatures votes ≡ inr qc.signature))
  unfolding create_new_qc
  create_new_qc-done store header qc h =
      elim (Option-cases (max_by_key option_seq_le (λ e. option_seq e.0) store.new_view)) [
        | inl e ↦ absurd (ground arith)
        | inr ((high, votes), e) ↦ elim (Sum-cases (combine_signatures votes)) [
          | inl (error, c) ↦ absurd (ground arith)
          | inr (signature, c) ↦
              let at = get_high_qc_lem store high votes e in
              (
                ground arith,
                ground arith,
                rw at (ground arith),
                (
                  votes,
                  rw at (max_by_key-Mem option_seq_le (λ e. option_seq e.0) store.new_view e),
                  ground arith,
                ),
              )
        ]
      ]
