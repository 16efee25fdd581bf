-- ===== src/Chained/Proof/Composing.antt =====
-- That the proof of a decision survives being stored (src/chained/loggable_protocol.rs).
use mathlib.Core.List.{append_assoc, append-nil}
use hot_iron_oxide.Base.{
  ◌≡◌, refl, ◌⊎◌, sym, ap, ◌∙◌, subst, some, List, [], ◌∷◌, ◌++◌, map, ite_rule, All, arith,
  Option-cases, some_injective, inl, inr,
}
use hot_iron_oxide.Base.Map
use hot_iron_oxide.Base.Map.{Map}
use hot_iron_oxide.Base.Keyed.{NoKey, Keyed, insert-NoKey, Keyed-insert, NoKey-push, none_keyed}
use hot_iron_oxide.Atlas.{Atlas}
use hot_iron_oxide.Tree.{DecisionNodeHeader, DecisionNodeHeader-discrete}
use hot_iron_oxide.HotIron.Log.{Result-cases, done, failed, done_injective}
use hot_iron_oxide.Chained.Messages.{
  ChainedQc, ChainedDecisionNode, Message, IronChainMessageType, proposal, vote, new_view,
  ProposalMessage, VoteMessage, NewViewMessage,
}
use hot_iron_oxide.Chained.Tree.{header_of}
use hot_iron_oxide.Chained.Proof.{
  ProofQcType, ProofQcType-discrete, ChainedProof, find_proposal, get_decision_header, phase_of,
  index_qc, index_qcs, get_qcs_index_from_vec, init_proof_from, decompose_proof,
}

module _ ⦃atlas : Atlas⦄ where
  open atlas use {SeqNo, seq_discrete}

  -- The certificate is for the decision, and stands under its phase.
  abbrev InPhase : DecisionNodeHeader → ProofQcType × ChainedQc → Type 0
  InPhase header e = (e.1.decision_node ≡ header) × (phase_of e.1.seq_no header.view_no ≡ done e.0)

  index_qc-InPhase :
      (header : DecisionNodeHeader) (qc : ChainedQc) (phase : ProofQcType)
      (m : Map ProofQcType ChainedQc)
      → InPhase header (phase, qc)
      → index_qc header qc m ≡ done (Map.insert ProofQcType-discrete phase qc m)
  unfolding index_qc
  index_qc-InPhase header qc phase m (of_node, of_phase) =
      ite_rule (λ r. r ≡ done (Map.insert ProofQcType-discrete phase qc m))
        (DecisionNodeHeader-discrete qc.decision_node header)
        (λ _.
          ap
            (λ r. elim r [
              | failed error ↦ failed error
              | done p ↦ done (Map.insert ProofQcType-discrete p qc m)
            ])
            of_phase)
        (λ n. absurd (n of_node))

  -- What was put in, for it to go well.
  index_qc-done :
      (header : DecisionNodeHeader) (qc : ChainedQc) (m m' : Map ProofQcType ChainedQc)
      → index_qc header qc m ≡ done m'
      → (phase : ProofQcType) × InPhase header (phase, qc)
        × (m' ≡ Map.insert ProofQcType-discrete phase qc m)
  unfolding index_qc
  index_qc-done header qc m m' h = elim (DecisionNodeHeader-discrete qc.decision_node header) [
    | no n ↦ absurd (ground arith)
    | yes e ↦ elim (Result-cases (phase_of qc.seq_no header.view_no)) [
      | inl (error, f) ↦ absurd (ground arith)
      | inr (phase, f) ↦
          (phase, (e, f), done_injective _ h (index_qc-InPhase header qc phase m (e, f)))
    ]
  ]

  index_qcs-map :
      (header : DecisionNodeHeader) (front m : Map ProofQcType ChainedQc)
      → Keyed ProofQcType-discrete (InPhase header) m
      → All
          (λ (e : ProofQcType × ChainedQc). NoKey ProofQcType-discrete (InPhase header) e.0 front)
          m
      → index_qcs header (map (λ e. e.1) m) front ≡ done (front ++ m)
  unfolding index_qcs
  index_qcs-map header front [] h a = ap done (sym (append-nil front))
  index_qcs-map header front (e ∷ m) h a =
      let step =
        index_qc-InPhase header e.1 e.0 front h.0
        ∙ ap done (insert-NoKey ProofQcType-discrete (InPhase header) e.0 e.1 front a.0) in
      ap
        (λ r. elim r [
          | failed error ↦ failed error
          | done more ↦ index_qcs header (map (λ x. x.1) m) more
        ])
        step
      ∙ index_qcs-map header (front ++ e ∷ []) m h.2
          (NoKey-push ProofQcType-discrete (InPhase header) front e m h.1 a.1)
      ∙ ap done (append_assoc front (e ∷ []) m)

  Keyed-index_qcs :
      (header : DecisionNodeHeader) (qcs : List ChainedQc) (m m' : Map ProofQcType ChainedQc)
      → Keyed ProofQcType-discrete (InPhase header) m
      → index_qcs header qcs m ≡ done m'
      → Keyed ProofQcType-discrete (InPhase header) m'
  unfolding index_qcs
  Keyed-index_qcs header [] m m' k h =
      subst (Keyed ProofQcType-discrete (InPhase header))
        (done_injective (index_qcs header [] m) refl h) k
  Keyed-index_qcs header (qc ∷ qcs) m m' k h = elim (Result-cases (index_qc header qc m)) [
    | inl (error, e) ↦ absurd (ground arith)
    | inr (more, e) ↦
        let (phase, fits, is) = index_qc-done header qc m more e in
        Keyed-index_qcs header qcs more m'
          (subst (Keyed ProofQcType-discrete (InPhase header)) (sym is)
            (Keyed-insert ProofQcType-discrete (InPhase header) phase qc m fits k))
          (ground arith)
  ]

  kind-cases :
      (t : IronChainMessageType)
      → ((p : ProposalMessage) × (t ≡ proposal p))
        ⊎ (((v : VoteMessage) × (t ≡ vote v)) ⊎ ((n : NewViewMessage) × (t ≡ new_view n)))
  kind-cases (proposal p) = inl (p, refl)
  kind-cases (vote v) = inr (inl (v, refl))
  kind-cases (new_view n) = inr (inr (n, refl))

  find_proposal-again :
      (messages : List Message) (node : ChainedDecisionNode) (message : Message)
      → find_proposal messages ≡ some (node, message)
      → find_proposal (message ∷ []) ≡ some (node, message)
  find_proposal-again [] node message h = cc
  find_proposal-again (m ∷ messages) node message h = elim (kind-cases m.message.message) [
    | inl (p, e) ↦
        let at : some (p.proposal, m) ≡ some (node, message) = rw e at h in
        subst (λ (x : ChainedDecisionNode × Message). find_proposal (x.1 ∷ []) ≡ some x)
          (some_injective at) (simp e refl)
    | inr (inl (v, e)) ↦ find_proposal-again messages node message (ground arith)
    | inr (inr (n, e)) ↦ find_proposal-again messages node message (ground arith)
  ]

  get_decision_header-done :
      (header : DecisionNodeHeader) (messages : List Message) (node : ChainedDecisionNode)
      (message : Message)
      → get_decision_header header messages ≡ done (node, message)
      → (find_proposal messages ≡ some (node, message))
        × (message.message.seq_no ≡ header.view_no)
        × (header_of node ≡ header)
  unfolding get_decision_header
  get_decision_header-done header messages node message h =
      elim (Option-cases (find_proposal messages)) [
        | inl e ↦ absurd (ground arith)
        | inr ((found, m), e) ↦ elim (seq_discrete m.message.seq_no header.view_no) [
          | no n ↦ absurd (ground arith)
          | yes s ↦ elim (DecisionNodeHeader-discrete (header_of found) header) [
            | no n ↦ absurd (ground arith)
            | yes d ↦
                let at : (found, m) ≡ (node, message) =
                  done_injective (get_decision_header header messages)
                    (rw (get_decision_header, e) (ground arith)) h in
                subst
                  (λ (x : ChainedDecisionNode × Message).
                    (find_proposal messages ≡ some x)
                    × (x.1.message.seq_no ≡ header.view_no)
                    × (header_of x.0 ≡ header))
                  at (e, s, d)
          ]
        ]
      ]

  get_decision_header-again :
      (header : DecisionNodeHeader) (messages : List Message) (node : ChainedDecisionNode)
      (message : Message)
      → get_decision_header header messages ≡ done (node, message)
      → get_decision_header (header_of node) (message ∷ []) ≡ done (node, message)
  unfolding get_decision_header
  get_decision_header-again header messages node message h =
      let (found, number, at) = get_decision_header-done header messages node message h in
      let numbered : message.message.seq_no ≡ (header_of node).view_no =
        number ∙ ap (λ n. n.view_no) (sym at) in
      simp (get_decision_header, find_proposal-again messages node message found) (ground arith)

  -- A proof that was composed from storage is composed again from what it is taken apart into.
  pub init_proof_from-decompose_proof :
      (header : DecisionNodeHeader) (qcs : List ChainedQc) (messages : List Message)
      (proof : ChainedProof)
      → init_proof_from header qcs messages ≡ done proof
      → let (header', qcs', messages') = decompose_proof proof in
        init_proof_from header' qcs' messages' ≡ done proof
  unfolding init_proof_from decompose_proof get_qcs_index_from_vec
  init_proof_from-decompose_proof header qcs messages proof h =
      elim (Result-cases (get_decision_header header messages)) [
        | inl (error, e) ↦ absurd (ground arith)
        | inr ((node, message), e) ↦ elim (Result-cases (index_qcs header qcs [])) [
          | inl (error, q) ↦ absurd (ground arith)
          | inr (m, q) ↦
              let (_, _, at) = get_decision_header-done header messages node message e in
              let made : ChainedProof = record {
                decision_node = node;
                proposal_message = message;
                qcs = m;
              } in
              let is_made : made ≡ proof =
                done_injective (init_proof_from header qcs messages)
                  (rw (init_proof_from, e, q) refl) h in
              subst
                (λ (p : ChainedProof).
                  init_proof_from (header_of p.decision_node) (map (λ x. x.1) p.qcs)
                    (p.proposal_message ∷ [])
                  ≡ done p)
                is_made
                (rw
                  (
                    init_proof_from,
                    get_decision_header-again header messages node message e,
                    restored node m at (Keyed-index_qcs header qcs [] m tt q),
                  )
                  refl)
        ]
      ]
    where
      restored :
          (node : ChainedDecisionNode) (m : Map ProofQcType ChainedQc)
          → header_of node ≡ header
          → Keyed ProofQcType-discrete (InPhase header) m
          → index_qcs (header_of node) (map (λ x. x.1) m) [] ≡ done m
      restored node m at k =
          rw at (index_qcs-map header [] m k (none_keyed ProofQcType-discrete (InPhase header) m))
