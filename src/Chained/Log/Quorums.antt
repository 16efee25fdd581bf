-- ===== src/Chained/Log/Quorums.antt =====
-- That a certificate of src/chained/protocol/log/mod.rs stands on a quorum of voters.
use mathlib.Core.List.{Memᴰ}
use hot_iron_oxide.Base.{
  ℕ, ◌≤◌, ◌≡◌, refl, sym, subst, inl, inr, Bool, Option, List, [], ◌∷◌, Run, ok, panic, ◌>>=◌,
  arith, length, leb, ltb, All, Option-cases, Sum-cases, Bool-cases, option_rule,
}
use hot_iron_oxide.Base.Map
use hot_iron_oxide.Base.Map.{Map, Distinct, insert-Distinct, All-insert, get_or_default_rule}
use hot_iron_oxide.Base.Maximum.{max_by_key, max_by_key-Mem}
use hot_iron_oxide.Atlas.{Atlas}
use hot_iron_oxide.View.{View, quorum}
use hot_iron_oxide.HotIron.Log.{Votes, done}
use hot_iron_oxide.Chained.Messages.{ChainedQc, VoteDetails, VoteDetails-discrete, VoteMessage}
use hot_iron_oxide.Chained.Log.{
  VoteStore, default_vote_store, accept_first, accept_vote, set_proposed, certify, get_quorum_qc,
}

module _ ⦃atlas : Atlas⦄ where
  open atlas use {NodeId, node_discrete, PartialSignature, combine_signatures}

  -- The votes that came, with who sent them.
  abbrev pub Received : Type 0
  Received = List (NodeId × VoteMessage)

  -- The stores that come of accepting votes and of recording that the proposal was made.
  pub data Collected : Received → VoteStore → Type 0 where
    start : Collected [] default_vote_store
    vote :
        {received : Received} {store : VoteStore} (voter : NodeId) (m : VoteMessage)
        → Collected received store
        → Collected ((voter, m) ∷ received) (accept_vote store voter m).1
    proposed :
        {received : Received} {store : VoteStore} (sent : Bool)
        → Collected received store
        → Collected received (set_proposed store sent)

  -- The signature is one that the voter sent, for those details.
  abbrev pub WasSent : Received → VoteDetails → NodeId × PartialSignature → Type 0
  WasSent received details (voter, s) =
      Memᴰ (voter, record { vote_details = details; signature = s }) received

  -- The votes under some details are of different nodes, which sent them.
  pub record IsSound (received : Received) (entry : VoteDetails × Votes) : Type 0 where
    pub distinct : Distinct node_discrete entry.1
    pub sent : All (WasSent received entry.0) entry.1

  All-map {ℓ κ μ} :
      {A : Type ℓ} {P : A → Type κ} {Q : A → Type μ} (xs : List A)
      → ((a : A) → P a → Q a)
      → All P xs
      → All Q xs
  All-map [] f h = tt
  All-map (x ∷ xs) f (first, rest) = (f x first, All-map xs f rest)

  IsSound-cons :
      (v : NodeId × VoteMessage) (received : Received) (entry : VoteDetails × Votes)
      → IsSound received entry
      → IsSound (v ∷ received) entry
  IsSound-cons v received entry h = record {
    distinct = h.distinct;
    sent = All-map entry.1 (λ e m. Memᴰ.tail m) h.sent;
  }

  accept_first-IsSound :
      (received : Received) (voter : NodeId) (m : VoteMessage) (votes : Map VoteDetails Votes)
      → All (IsSound received) votes
      → All
          (IsSound ((voter, m) ∷ received))
          (accept_first VoteDetails-discrete voter m.vote_details m.signature votes).1
  unfolding accept_first
  accept_first-IsSound received voter m votes h =
      let details = m.vote_details in
      let later = All-map votes (IsSound-cons (voter, m) received) h in
      let old =
        get_or_default_rule VoteDetails-discrete
          (λ vs. IsSound ((voter, m) ∷ received) (details, vs)) (IsSound ((voter, m) ∷ received))
          details [] votes (λ vs s. s) (record { distinct = Distinct.empty; sent = tt }) later in
      option_rule
        (λ (r : Option ℕ × Map VoteDetails Votes). All (IsSound ((voter, m) ∷ received)) r.1)
        (Map.get node_discrete voter (Map.get_or_default VoteDetails-discrete details [] votes))
        (λ _.
          All-insert VoteDetails-discrete (IsSound ((voter, m) ∷ received)) details _ votes
            (record {
              distinct = insert-Distinct node_discrete voter m.signature _ old.distinct;
              sent =
                  All-insert node_discrete (WasSent ((voter, m) ∷ received) details) voter
                    m.signature _ (Memᴰ.head refl) old.sent;
            })
            later)
        (λ _ _. later)

  pub Collected-IsSound :
      {received : Received} {store : VoteStore}
      → Collected received store
      → All (IsSound received) store.votes
  unfolding accept_vote
  Collected-IsSound Collected.start = tt
  Collected-IsSound (Collected.vote {received} {store} voter m before) =
      accept_first-IsSound received voter m store.votes (Collected-IsSound before)
  Collected-IsSound (Collected.proposed sent before) = Collected-IsSound before

  -- What a certificate is made of: a quorum of votes for its node, from different nodes which all
  -- sent these very votes.
  pub record Certifies (received : Received) (view : View) (qc : ChainedQc) : Type 0 where
    pub details : VoteDetails
    pub votes : Votes
    pub needed : ℕ
    pub is_quorum : quorum view ≡ ok needed
    pub enough : needed ≤ length votes
    pub sound : IsSound received (details, votes)
    pub combined : combine_signatures votes ≡ inr qc.signature
    pub of_node : qc.decision_node ≡ details.node
    pub of_view : qc.seq_no ≡ view.seq

  All-Mem {ℓ κ} : {A : Type ℓ} (P : A → Type κ) {x : A} (xs : List A) → All P xs → Memᴰ x xs → P x
  All-Mem P [] h m = elim m [ ]
  All-Mem P (y ∷ ys) (first, rest) (Memᴰ.head e) = subst P (sym e) first
  All-Mem P (y ∷ ys) (first, rest) (Memᴰ.tail m) = All-Mem P ys rest m

  certified :
      {received : Received} (view : View) (qc : ChainedQc) (details : VoteDetails) (votes : Votes)
      (needed : Run ℕ)
      → quorum view ≡ needed
      → IsSound received (details, votes)
      → (needed >>= λ n. ok (certify view details votes n)) ≡ ok (done qc)
      → Certifies received view qc
  unfolding certify
  certified view qc details votes (panic reason) at sound h = cc
  certified view qc details votes (ok q) at sound h = elim (Bool-cases (ltb (length votes) q)) [
    | inl few ↦ absurd (ground arith)
    | inr enough ↦ elim (Sum-cases (combine_signatures votes)) [
      | inl (error, c) ↦ absurd (ground arith)
      | inr (signature, c) ↦ record {
        details = details;
        votes = votes;
        needed = q;
        is_quorum = at;
        enough = ground arith;
        sound = sound;
        combined = ground arith;
        of_node = ground arith;
        of_view = ground arith;
      }
    ]
  ]

  -- A certificate that a vote store makes, of the votes that it has collected, has the number of
  -- the view, and combines at least a quorum of signatures for its node, from different nodes, each
  -- of which sent that signature with a vote for that node and the same certificate.
  pub get_quorum_qc-Certifies :
      {received : Received} {store : VoteStore} (view : View) (qc : ChainedQc)
      → Collected received store
      → get_quorum_qc store view ≡ ok (done qc)
      → Certifies received view qc
  unfolding get_quorum_qc certify
  get_quorum_qc-Certifies {received} {store} view qc collected h =
      elim (Option-cases (max_by_key leb (λ e. length e.1) store.votes)) [
        | inl e ↦ absurd (ground arith)
        | inr ((details, votes), e) ↦
            let sound =
              All-Mem (IsSound received) store.votes (Collected-IsSound collected)
                (max_by_key-Mem leb (λ e. length e.1) store.votes e) in
            certified view qc details votes (quorum view) refl sound (rw (e, get_quorum_qc) at h)
      ]
