-- ===== src/HotIron/Decision/Progress.antt =====
-- How a decision advances, and what it sends for that (src/hot_iron/protocol/decision/mod.rs).
use hot_iron_oxide.Base.{
  ◌≡◌, refl, ℕ, ◌+◌, ◌≤◌, Bool, true, false, some, ok, Ends, Returns, Ends-Returns, Ends-mono,
  subst, sym, ap, ◌∙◌, Option, none, push_back, if_rule,
}
use hot_iron_oxide.Atlas.{Atlas}
use hot_iron_oxide.Tree.{DecisionNode, safe_node, install_latest_prepare_qc}
use hot_iron_oxide.HotIron.Log.{MsgDecisionLog, MsgLeaderDecisionLog}
use hot_iron_oxide.View
use hot_iron_oxide.HotIron.Messages.{
  Qc, qc_certificate, VoteType, VoteTypes, VoteMessage, ProposalType, ProposalTypes,
  ProposalMessage, proposal, vote, vote_types, proposal_types, VoteEncoding, Outgoing,
  get_partial_signature_for_message,
}
use hot_iron_oxide.HotIron.Queue.{DecisionState, Message}
use hot_iron_oxide.HotIron.Log.{failed}
use hot_iron_oxide.HotIron.Decision.{
  DecisionError, World, Processed, counts, with_counts, is_leader, queue, signed_vote,
}
use hot_iron_oxide.HotIron.Decision.Leader.{announce, logged}
use hot_iron_oxide.HotIron.Decision.Replica.{
  is_extension_of_known_node, prepare_node, later_phase, replica_phase,
}
use hot_iron_oxide.HotIron.Decision.Dispatch.{process_message}
use hot_iron_oxide.HotIron.Decision.Phases.{AwaitsVote, AwaitsProposal}
use hot_iron_oxide.HotIron.Decision.Consistency.{IsConsistent}
use hot_iron_oxide.HotIron.Decision.Rules.{propose_rule, Due, Proposing, process_rule}

-- The phase that follows the proposal of a phase.
abbrev pub following : ProposalTypes → DecisionState
following ProposalTypes.prepare = DecisionState.pre_commit false 0
following ProposalTypes.pre_commit = DecisionState.commit false 0
following ProposalTypes.commit = DecisionState.decide false 0
following ProposalTypes.decide = DecisionState.finally

-- The steps of the state machine, for one message.
pub data Moves (leads : Bool) : DecisionState → DecisionState → Type 0 where
  stays : {s : DecisionState} → Moves leads s s
  counted :
      {s : DecisionState} {sent sent' : Bool} {n : ℕ}
      → leads ≡ true
      → counts s ≡ some (sent, n)
      → (sent ≡ true → sent' ≡ true)
      → Moves leads s (with_counts s sent' (n + 1))
  follows :
      {s : DecisionState} {t : ProposalTypes} → AwaitsProposal s t → Moves leads s (following t)

pub with_counts_lem :
    (s : DecisionState) (sent sent' : Bool) (n n' : ℕ)
    → counts s ≡ some (sent, n)
    → counts (with_counts s sent' n') ≡ some (sent', n')
with_counts_lem DecisionState.init _ _ _ _ h = cc
with_counts_lem (DecisionState.prepare _ _) _ _ _ _ h = refl
with_counts_lem (DecisionState.pre_commit _ _) _ _ _ _ h = refl
with_counts_lem (DecisionState.commit _ _) _ _ _ _ h = refl
with_counts_lem (DecisionState.decide _ _) _ _ _ _ h = refl
with_counts_lem DecisionState.finally _ _ _ _ h = cc
with_counts_lem DecisionState.next_view _ _ _ _ h = cc

module _ ⦃atlas : Atlas⦄ where
  -- The vote that answers a proposal: for its node, or for the node of its certificate.
  abbrev pub answer_to : ProposalType → Option VoteType
  answer_to (ProposalType.prepare node qc) = some (VoteType.prepare_vote node.decision_header)
  answer_to (ProposalType.pre_commit qc) = some (VoteType.pre_commit_vote qc.decision_node)
  answer_to (ProposalType.commit qc) = some (VoteType.commit_vote qc.decision_node)
  answer_to (ProposalType.decide qc) = none

  -- The leader's proposal to all members: when it gets a vote that its phase awaits, the votes
  -- counted reach the quorum and no proposal was made in the phase, which is noted. It is the one
  -- that is due, of the view, with the certificate of the votes in the log.
  pub record Proposes (w : World) (m : Message) (r : Processed) : Type 0 where
    pub received : ℕ
    pub needed : ℕ
    pub vote_message : VoteMessage
    pub log : MsgLeaderDecisionLog
    pub proposed : ProposalType
    pub leads : is_leader w.decision ≡ true
    pub is_vote : m.message.message ≡ vote vote_message
    pub awaited : AwaitsVote w.decision.current_state (vote_types vote_message.vote_type)
    pub counted : counts w.decision.current_state ≡ some (false, received)
    pub is_quorum : View.quorum w.decision.view ≡ ok needed
    pub enough : needed ≤ received + 1
    pub noted : counts r.0.decision.current_state ≡ some (true, received + 1)
    pub logged : r.0.decision.msg_decision_log ≡ MsgDecisionLog.leader log
    pub due : Due w log (vote_types vote_message.vote_type) proposed
    pub sent :
        r.0.sent
        ≡ push_back w.sent (
            Outgoing.broadcast
              (record {
                curr_view = w.decision.view.seq;
                message = proposal (record { proposal_type = proposed });
              })
              w.decision.view.members)

  module _ ⦃encoding : VoteEncoding⦄ where
    -- A vote of the view, with its partial signature, for the leader of the view.
    abbrev pub vote_to_leader : World → VoteType → Outgoing
    vote_to_leader w vote_type =
        Outgoing.send
          (record {
            curr_view = w.decision.view.seq;
            message = vote (record {
              vote_type = vote_type;
              signature = get_partial_signature_for_message w.decision.view.seq vote_type;
            });
          })
          w.decision.view.leader

    -- The signed vote to the leader, which answers the proposal that the phase awaits, and takes the
    -- phase that follows.
    pub record AnswersProposal (w : World) (m : Message) (r : Processed) : Type 0 where
      pub proposed : ProposalMessage
      pub answer : VoteType
      pub is_proposal : m.message.message ≡ proposal proposed
      pub awaited : AwaitsProposal w.decision.current_state (proposal_types proposed.proposal_type)
      pub answers : answer_to proposed.proposal_type ≡ some answer
      pub follows : r.0.decision.current_state ≡ following (proposal_types proposed.proposal_type)
      pub sent : r.0.sent ≡ push_back w.sent (vote_to_leader w answer)

    -- When nothing is sent: the message fails, it leaves the state, it is a vote that is counted with
    -- no quorum or after a proposal was made, or it is the proposal that ends the decision.
    pub data Quiet (w : World) (r : Processed) : Type 0 where
      fails : (e : DecisionError) → r.1 ≡ failed e → Quiet w r
      stays : r.0.decision.current_state ≡ w.decision.current_state → Quiet w r
      counted :
          (sent : Bool) (n : ℕ)
          → counts w.decision.current_state ≡ some (sent, n)
          → r.0.decision.current_state ≡ with_counts w.decision.current_state sent (n + 1)
          → ((q : ℕ) → View.quorum w.decision.view ≡ ok q → q ≤ n + 1 → sent ≡ true)
          → Quiet w r
      ends :
          AwaitsProposal w.decision.current_state ProposalTypes.decide
          → r.0.decision.current_state ≡ DecisionState.finally
          → Quiet w r

    -- What a message makes the node send: nothing, a vote to the leader, or a proposal to all.
    pub data Sends (w : World) (m : Message) : Processed → Type 0 where
      nothing : {r : Processed} → r.0.sent ≡ w.sent → Quiet w r → Sends w m r
      to_leader : {r : Processed} → AnswersProposal w m r → Sends w m r
      to_all : {r : Processed} → Proposes w m r → Sends w m r

  abbrev pub Advances : World → Processed → Type 0
  Advances w r = Moves (is_leader w.decision) w.decision.current_state r.0.decision.current_state

  module _ ⦃encoding : VoteEncoding⦄ (w : World) (m : Message) where
    proposing-Advances :
        (v : VoteMessage) → is_leader w.decision ≡ true → Proposing (Advances w) w m v
    unfolding announce
    proposing-Advances v l n q log k e h =
        propose_rule (Advances w) (logged w true (n + 1) log) m log
          (λ pool e'. Moves.counted l k (λ _. refl)) v.vote_type
          (λ pool pt _. Moves.counted l k (λ _. refl))

    proposing-Sends :
        (v : VoteMessage)
        → is_leader w.decision ≡ true
        → m.message.message ≡ vote v
        → AwaitsVote w.decision.current_state (vote_types v.vote_type)
        → Proposing (Sends w m) w m v
    unfolding announce
    proposing-Sends v l is_vote awaited n q log k e h =
        propose_rule (Sends w m) (logged w true (n + 1) log) m log
          (λ pool e'. Sends.nothing refl (Quiet.fails e' refl)) v.vote_type
          (λ pool pt due. Sends.to_all (record {
            received = n;
            needed = q;
            vote_message = v;
            log = log;
            proposed = pt;
            leads = l;
            is_vote = is_vote;
            awaited = awaited;
            counted = k;
            is_quorum = e;
            enough = h;
            noted = with_counts_lem w.decision.current_state false true n (n + 1) k;
            logged = refl;
            due = of_log n due;
            sent = refl;
          }))
      where
        of_log :
            (n : ℕ) {log : MsgLeaderDecisionLog} {t : VoteTypes} {pt : ProposalType}
            → Due (logged w true (n + 1) log) log t pt
            → Due w log t pt
        of_log n (Due.new_view node qc has made) = Due.new_view node qc has made
        of_log n (Due.prepare_vote qc made) = Due.prepare_vote qc made
        of_log n (Due.pre_commit_vote qc made) = Due.pre_commit_vote qc made
        of_log n (Due.commit_vote qc made) = Due.commit_vote qc made

  module _ ⦃encoding : VoteEncoding⦄ (w : World) (m : Message) where
    -- Both, for a replica in a phase that awaits the proposal.
    abbrev Answers : Processed → Type 0
    Answers r = Advances w r × Sends w m r

    module _ (p : ProposalMessage) (is_proposal : m.message.message ≡ proposal p)
        (awaited : AwaitsProposal w.decision.current_state (proposal_types p.proposal_type)) where
      -- It answers with the vote, and takes the next phase.
      answered :
          (r : Processed) (answer : VoteType)
          → answer_to p.proposal_type ≡ some answer
          → r.0.decision.current_state ≡ following (proposal_types p.proposal_type)
          → r.0.sent ≡ push_back w.sent (vote_to_leader w answer)
          → Answers r
      answered r answer answers moved sent = (
        subst (Moves (is_leader w.decision) w.decision.current_state) (sym moved)
            (Moves.follows awaited),
        Sends.to_leader (record {
          proposed = p;
          answer = answer;
          is_proposal = is_proposal;
          awaited = awaited;
          answers = answers;
          follows = moved;
          sent = sent;
        }),
      )

      same_answer :
          {pt : ProposalType} {answer : VoteType}
          → pt ≡ p.proposal_type
          → answer_to pt ≡ some answer
          → answer_to p.proposal_type ≡ some answer
      same_answer e h = ap answer_to (sym e) ∙ h

      prepare_node-Answers :
          (node : DecisionNode) (qc : Qc)
          → ProposalType.prepare node qc ≡ p.proposal_type
          → Answers (prepare_node w m node qc)
      unfolding prepare_node install_latest_prepare_qc signed_vote
      prepare_node-Answers node qc is =
          if_rule Answers (safe_node qc_certificate is_extension_of_known_node w.handler node qc)
            (λ _.
              answered _ (VoteType.prepare_vote node.decision_header) (same_answer is refl)
                (ap (λ t. following (proposal_types t)) is) refl)
            (λ _. (Moves.stays, Sends.nothing refl (Quiet.stays refl)))

      replica_phase-Answers :
          Ends Answers (replica_phase w.decision.current_state w m p.proposal_type)
      unfolding replica_phase later_phase signed_vote
      replica_phase-Answers = by_phase w.decision.current_state p.proposal_type awaited refl refl
        where
          by_phase :
              (s : DecisionState) (pt : ProposalType)
              → AwaitsProposal s (proposal_types pt)
              → s ≡ w.decision.current_state
              → pt ≡ p.proposal_type
              → Ends Answers (replica_phase s w m pt)
          by_phase s (ProposalType.prepare node qc) AwaitsProposal.prepare at is =
              prepare_node-Answers node qc is
          by_phase s (ProposalType.pre_commit qc) AwaitsProposal.pre_commit at is =
              answered _ _ (same_answer is refl) (ap (λ t. following (proposal_types t)) is) refl
          by_phase s (ProposalType.commit qc) AwaitsProposal.commit at is =
              answered _ _ (same_answer is refl) (ap (λ t. following (proposal_types t)) is) refl
          by_phase s (ProposalType.decide qc) AwaitsProposal.decide at is = (
            subst (Moves (is_leader w.decision) w.decision.current_state)
                (sym (ap (λ t. following (proposal_types t)) is)) (Moves.follows awaited),
            Sends.nothing refl (
                Quiet.ends
                  (subst (λ t. AwaitsProposal w.decision.current_state (proposal_types t)) (sym is)
                    awaited)
                  refl),
          )

    -- A message of any kind leaves the state of a consistent decision as it is, or it counts one
    -- vote, at a leader only, and never takes back that a proposal was made, or it moves the state
    -- to the phase after the proposal that the state awaits.
    pub process_message-Moves : IsConsistent w.decision → Returns (process_message w m) (Advances w)
    unfolding queue
    process_message-Moves c = Ends-Returns _ (
        process_rule (Advances w) w m c Moves.stays Moves.stays
          (λ v l sent n e k. Moves.counted l k (λ h. h))
          (λ v l sent n log k _. Moves.counted l k (λ h. h)) (λ v l _ _. proposing-Advances w m v l)
          (λ p e f a. Ends-mono _ (λ r (h : Answers r). h.0) (replica_phase-Answers p e a)))

    -- For a message of any kind, a consistent decision sends nothing, and then the message fails,
    -- leaves the state, is a vote counted with no quorum or after a proposal was made in the phase,
    -- or is the proposal that ends the decision; or it sends its leader the
    -- signed vote that answers the proposal that its phase awaits, and takes the phase that follows;
    -- or it sends all members a proposal: only at the leader, on a vote that its phase awaits, when
    -- the votes counted reach the quorum, and if none was made before in the phase, of which the new
    -- state keeps note. That is the proposal that is due after such votes, of the view, with the
    -- certificate of the votes in the log, and for a new view of the requests of the pool.
    pub process_message-Sends : IsConsistent w.decision → Returns (process_message w m) (Sends w m)
    unfolding queue
    process_message-Sends c = Ends-Returns _ (
        process_rule (Sends w m) w m c (Sends.nothing refl (Quiet.stays refl))
          (Sends.nothing refl (Quiet.stays refl))
          (λ v l sent n e k. Sends.nothing refl (Quiet.fails _ refl))
          (λ v l sent n log k due. Sends.nothing refl (Quiet.counted sent n k refl due))
          (proposing-Sends w m)
          (λ p e f a. Ends-mono _ (λ r (h : Answers r). h.1) (replica_phase-Answers p e a)))
