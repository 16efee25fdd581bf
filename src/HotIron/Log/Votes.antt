-- ===== src/HotIron/Log/Votes.antt =====
-- The tally of votes of src/hot_iron/protocol/log/mod.rs.
use hot_iron_oxide.Base.{
  ℕ, ◌+◌, ◌≡◌, refl, ◌∙◌, ap, Bool, true, false, Option, none, some, [], ite, ite_rule, arith,
  length, to_nat,
}
use hot_iron_oxide.Base.Map
use hot_iron_oxide.Base.Map.{Map}
use hot_iron_oxide.Atlas.{Atlas}
use hot_iron_oxide.HotIron.Log.{
  Votes, accept, accept_vote, accept_new_view, log_accept_vote, MsgLeaderDecisionLog,
  OptionQc-discrete, done,
}
use hot_iron_oxide.HotIron.Messages.{VoteType, VoteMessage}
use hot_iron_oxide.Tree.{DecisionNodeHeader-discrete}

abbrev is_none {ℓ} : {A : Type ℓ} → Option A → Bool
is_none none = true
is_none (some a) = false

module _ ⦃atlas : Atlas⦄ {K : Type 0} (dec : Discrete K) where
  open atlas use {NodeId, node_discrete, PartialSignature}

  -- The map as a function: the signature that a voter gave for a key.
  pub signature_of : K → NodeId → Map K Votes → Option PartialSignature
  signature_of key voter m = Map.get node_discrete voter (Map.get_or_default dec key [] m)

  signature_of-accept :
      (voter : NodeId) (key : K) (s : PartialSignature) (m : Map K Votes) (j : K) (other : NodeId)
      → signature_of j other (accept dec voter key s m).1
        ≡ ite
            (dec key j)
            (ite (node_discrete voter other) (some s) (signature_of j other m))
            (signature_of j other m)
  unfolding signature_of accept
  signature_of-accept voter key s m j other =
      let old = Map.get_or_default dec key [] m in
      rw (Map.get_or_default-insert dec key j (Map.insert node_discrete voter s old) [] m)
        (ground (arith, Map.get-insert node_discrete voter other s old))

  signature_of-accept_same :
      (voter : NodeId) (key : K) (s : PartialSignature) (m : Map K Votes)
      → signature_of key voter (accept dec voter key s m).1 ≡ some s
  signature_of-accept_same voter key s m =
      signature_of-accept voter key s m key voter
      ∙ ite_rule (λ o. o ≡ some s) (dec key key)
          (λ _.
            ite_rule (λ o. o ≡ some s) (node_discrete voter voter) (λ _. refl)
              (λ n. absurd (n refl)))
          (λ n. absurd (n refl))

  signature_of-accept_other :
      (voter : NodeId) (key : K) (s : PartialSignature) (m : Map K Votes) (j : K) (other : NodeId)
      → (key ≡ j → voter ≡ other → ⊥)
      → signature_of j other (accept dec voter key s m).1 ≡ signature_of j other m
  signature_of-accept_other voter key s m j other differs =
      let P = λ (o : Option PartialSignature). o ≡ signature_of j other m in
      signature_of-accept voter key s m j other
      ∙ ite_rule P (dec key j)
          (λ a. ite_rule P (node_discrete voter other) (λ b. absurd (differs a b)) (λ _. refl))
          (λ _. refl)

  accept-is_new :
      (voter : NodeId) (key : K) (s : PartialSignature) (m : Map K Votes)
      → (accept dec voter key s m).0 ≡ is_none (signature_of key voter m)
  unfolding signature_of accept
  accept-is_new voter key s m = refl

  -- The number of voters for a key.
  pub tally : K → Map K Votes → ℕ
  tally key m = length (Map.get_or_default dec key [] m)

  -- Accepting a vote makes the number of voters for its key grow by one if the voter is reported as
  -- new, and otherwise changes no such number, of this key or of another.
  pub tally-accept :
      (voter : NodeId) (key : K) (s : PartialSignature) (m : Map K Votes) (j : K)
      → let (is_new, m') = accept dec voter key s m in
        tally j m' ≡ tally j m + ite (dec key j) (to_nat is_new) 0
  unfolding tally accept
  tally-accept voter key s m j =
      let old = Map.get_or_default dec key [] m in
      rw (Map.get_or_default-insert dec key j (Map.insert node_discrete voter s old) [] m)
        (ground (arith, Map.length-insert node_discrete voter s old))

module _ ⦃atlas : Atlas⦄ where
  open atlas use {NodeId, PartialSignature}

  -- The log of a leader as a function: the signature that a voter gave with a vote.
  abbrev pub signature_in : MsgLeaderDecisionLog → VoteType → NodeId → Option PartialSignature
  signature_in log (VoteType.new_view qc) voter =
      signature_of OptionQc-discrete qc voter log.high_qc.new_view
  signature_in log (VoteType.prepare_vote node) voter =
      signature_of DecisionNodeHeader-discrete node voter log.prepare_qc.decision_nodes
  signature_in log (VoteType.pre_commit_vote node) voter =
      signature_of DecisionNodeHeader-discrete node voter log.pre_commit_qc.decision_nodes
  signature_in log (VoteType.commit_vote node) voter =
      signature_of DecisionNodeHeader-discrete node voter log.commit_qc.decision_nodes

  -- The vote's signature is written, under the vote and the voter, and no other is changed; the
  -- voter is reported as new if it had given none.
  pub record Writes (log : MsgLeaderDecisionLog) (sender : NodeId) (v : VoteMessage)
      (r : Bool × MsgLeaderDecisionLog) : Type 0 where
    pub written : signature_in r.1 v.vote_type sender ≡ some v.signature
    pub others :
        (t : VoteType) (other : NodeId)
        → (v.vote_type ≡ t → sender ≡ other → ⊥)
        → signature_in r.1 t other ≡ signature_in log t other
    pub reported : r.0 ≡ is_none (signature_in log v.vote_type sender)

  -- A leader's log accepts every vote, of any of the four types: it writes the signature under the
  -- vote and the voter, changes no other signature, of this type of vote or of another, and reports
  -- the voter as new exactly if there was none.
  pub log_accept_vote-Writes :
      (log : MsgLeaderDecisionLog) (sender : NodeId) (v : VoteMessage)
      → (r : Bool × MsgLeaderDecisionLog) × (log_accept_vote log sender v ≡ done r)
        × Writes log sender v r
  unfolding log_accept_vote accept_vote accept_new_view
  log_accept_vote-Writes log sender v = by_type v.vote_type v.signature
    where
      Accepts : VoteMessage → Type 0
      Accepts v =
          (r : Bool × MsgLeaderDecisionLog) × (log_accept_vote log sender v ≡ done r)
          × Writes log sender v r

      by_type :
          (t : VoteType) (s : PartialSignature) → Accepts (record { vote_type = t; signature = s })
      by_type (VoteType.new_view qc) s =
          let written =
            signature_of-accept_same OptionQc-discrete sender qc s log.high_qc.new_view in
          let reported = accept-is_new OptionQc-discrete sender qc s log.high_qc.new_view in
          (_, refl, record { written = written; others = other_new_view; reported = reported })
        where
          other_new_view :
              (t : VoteType) (other : NodeId)
              → (VoteType.new_view qc ≡ t → sender ≡ other → ⊥)
              → signature_in
                  (record log {
                    high_qc = record log.high_qc {
                      new_view = (accept OptionQc-discrete sender qc s log.high_qc.new_view).1;
                    };
                  })
                  t
                  other
                ≡ signature_in log t other
          other_new_view (VoteType.new_view j) other differs =
              signature_of-accept_other OptionQc-discrete sender qc s log.high_qc.new_view j other
                (λ a b. differs (ap VoteType.new_view a) b)
          other_new_view (VoteType.prepare_vote j) other differs = refl
          other_new_view (VoteType.pre_commit_vote j) other differs = refl
          other_new_view (VoteType.commit_vote j) other differs = refl
      by_type (VoteType.prepare_vote node) s =
          let written =
            signature_of-accept_same DecisionNodeHeader-discrete sender node s
              log.prepare_qc.decision_nodes in
          let reported =
            accept-is_new DecisionNodeHeader-discrete sender node s log.prepare_qc.decision_nodes in
          (_, refl, record { written = written; others = other_prepare_vote; reported = reported })
        where
          other_prepare_vote :
              (t : VoteType) (other : NodeId)
              → (VoteType.prepare_vote node ≡ t → sender ≡ other → ⊥)
              → signature_in
                  (record log {
                    prepare_qc = record log.prepare_qc {
                      decision_nodes =
                          (accept DecisionNodeHeader-discrete sender node s
                            log.prepare_qc.decision_nodes).1;
                    };
                  })
                  t
                  other
                ≡ signature_in log t other
          other_prepare_vote (VoteType.new_view j) other differs = refl
          other_prepare_vote (VoteType.prepare_vote j) other differs =
              signature_of-accept_other DecisionNodeHeader-discrete sender node s
                log.prepare_qc.decision_nodes j other
                (λ a b. differs (ap VoteType.prepare_vote a) b)
          other_prepare_vote (VoteType.pre_commit_vote j) other differs = refl
          other_prepare_vote (VoteType.commit_vote j) other differs = refl
      by_type (VoteType.pre_commit_vote node) s =
          let written =
            signature_of-accept_same DecisionNodeHeader-discrete sender node s
              log.pre_commit_qc.decision_nodes in
          let reported =
            accept-is_new DecisionNodeHeader-discrete sender node s
              log.pre_commit_qc.decision_nodes in
          (
            _,
            refl,
            record { written = written; others = other_pre_commit_vote; reported = reported },
          )
        where
          other_pre_commit_vote :
              (t : VoteType) (other : NodeId)
              → (VoteType.pre_commit_vote node ≡ t → sender ≡ other → ⊥)
              → signature_in
                  (record log {
                    pre_commit_qc = record log.pre_commit_qc {
                      decision_nodes =
                          (accept DecisionNodeHeader-discrete sender node s
                            log.pre_commit_qc.decision_nodes).1;
                    };
                  })
                  t
                  other
                ≡ signature_in log t other
          other_pre_commit_vote (VoteType.new_view j) other differs = refl
          other_pre_commit_vote (VoteType.prepare_vote j) other differs = refl
          other_pre_commit_vote (VoteType.pre_commit_vote j) other differs =
              signature_of-accept_other DecisionNodeHeader-discrete sender node s
                log.pre_commit_qc.decision_nodes j other
                (λ a b. differs (ap VoteType.pre_commit_vote a) b)
          other_pre_commit_vote (VoteType.commit_vote j) other differs = refl
      by_type (VoteType.commit_vote node) s =
          let written =
            signature_of-accept_same DecisionNodeHeader-discrete sender node s
              log.commit_qc.decision_nodes in
          let reported =
            accept-is_new DecisionNodeHeader-discrete sender node s log.commit_qc.decision_nodes in
          (_, refl, record { written = written; others = other_commit_vote; reported = reported })
        where
          other_commit_vote :
              (t : VoteType) (other : NodeId)
              → (VoteType.commit_vote node ≡ t → sender ≡ other → ⊥)
              → signature_in
                  (record log {
                    commit_qc = record log.commit_qc {
                      decision_nodes =
                          (accept DecisionNodeHeader-discrete sender node s
                            log.commit_qc.decision_nodes).1;
                    };
                  })
                  t
                  other
                ≡ signature_in log t other
          other_commit_vote (VoteType.new_view j) other differs = refl
          other_commit_vote (VoteType.prepare_vote j) other differs = refl
          other_commit_vote (VoteType.pre_commit_vote j) other differs = refl
          other_commit_vote (VoteType.commit_vote j) other differs =
              signature_of-accept_other DecisionNodeHeader-discrete sender node s
                log.commit_qc.decision_nodes j other (λ a b. differs (ap VoteType.commit_vote a) b)
