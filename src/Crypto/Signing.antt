-- ===== src/Crypto/Signing.antt =====
-- That the keys which `QuorumInfo::initialize` of src/crypto/mod.rs makes fit the quorum of votes.
use hot_iron_oxide.Base.{
  ℕ, zero, suc, ◌+◌, ◌*◌, ◌<◌, ◌≤◌, ◌≡◌, ◌≢◌, refl, sym, ◌∙◌, ap, true, List, [], ◌∷◌, map, inr,
  some, ok, All, arith, length, get_elem?, some_injective,
}
use hot_iron_oxide.Quorum.{get_n_for_f, get_quorum_for_n}
use hot_iron_oxide.Quorum.Bounds.{get_f_for_n-get_n_for_f}
use hot_iron_oxide.Crypto.{
  ThresholdScheme, QuorumInfo, info_at, infos_from, initialize, sign_message, indexed,
  verify_partial_signature_by_node, combine_signatures, combine_partial_signatures,
  verify_combined_signature,
}

abbrev pub AllDistinct : List ℕ → Type 0
AllDistinct [] = Unit
AllDistinct (i ∷ is) = All (λ j. i ≢ j) is × AllDistinct is

-- The signature of the part with this index, with the index.
abbrev pub signed_part :
    ⦃scheme : ThresholdScheme⦄ → scheme.PrivateKeySet → List ℕ → ℕ → ℕ × scheme.Signature
signed_part ⦃scheme = scheme⦄ keys message i =
    (i, scheme.partially_sign (scheme.private_key_part keys i) message)

-- What the documentation of the threshold signatures promises: a part's signature verifies with its
-- share of the public keys, and signatures of more different parts than the threshold combine to
-- one that verifies with the public keys.
pub record ThresholdLaws ⦃scheme : ThresholdScheme⦄ : Type 0 where
  pub share_verifies :
      (keys : scheme.PrivateKeySet) (i : ℕ) (message : List ℕ)
      → scheme.verify_share
          (scheme.public_key_share (scheme.public_key_set keys) i)
          message
          (scheme.partially_sign (scheme.private_key_part keys i) message)
        ≡ true
  pub combines :
      (threshold : ℕ) (message : List ℕ) (parts : List ℕ)
      → threshold < length parts
      → AllDistinct parts
      → (c : scheme.Combined) × (scheme.combine
            (scheme.public_key_set (scheme.gen_random threshold))
            (map (signed_part (scheme.gen_random threshold) message) parts)
          ≡ inr c)
        × (scheme.verify_combined (scheme.public_key_set (scheme.gen_random threshold)) message c
            ≡ true)

module _ ⦃scheme : ThresholdScheme⦄ where
  open scheme use {PrivateKeySet, Signature, NodeId}

  infos_from-at :
      (keys : PrivateKeySet) (start n i : ℕ) (info : QuorumInfo)
      → get_elem? (infos_from keys start n) i ≡ some info
      → info ≡ info_at keys (start + i)
  unfolding infos_from
  infos_from-at keys start zero i info h = cc
  infos_from-at keys start (suc n) zero info h =
      sym (some_injective h) ∙ ap (info_at keys) (omega arith)
  infos_from-at keys start (suc n) (suc i) info h =
      infos_from-at keys (suc start) n i info h ∙ ap (info_at keys) (omega arith)

  -- The node's index among the keys made for so many faults is its number.
  abbrev pub IsMember : ℕ → NodeId × QuorumInfo → Type 0
  IsMember f (id, info) = get_elem? (initialize f) (scheme.node_value id) ≡ some info

  member-info :
      (f i : ℕ) (info : QuorumInfo)
      → get_elem? (initialize f) i ≡ some info
      → info ≡ info_at (scheme.gen_random (2 * f)) i
  unfolding initialize
  member-info f i info h =
      infos_from-at (scheme.gen_random (2 * f)) 0 (3 * f + 1) i info h
      ∙ ap (info_at _) (omega arith)

  abbrev pub sign_all : List ℕ → List (NodeId × QuorumInfo) → List (NodeId × Signature)
  sign_all message signers = map (λ (id, info). (id, sign_message info message)) signers

  -- With the laws of the threshold signatures, the signature of a replica is verified by every
  -- replica as that of the replica with its index.
  pub initialize-verifies :
      (laws : ThresholdLaws) (f i j : ℕ) (signer verifier : QuorumInfo) (message : List ℕ)
      → get_elem? (initialize f) i ≡ some signer
      → get_elem? (initialize f) j ≡ some verifier
      → verify_partial_signature_by_node verifier i (sign_message signer message) message ≡ true
  unfolding verify_partial_signature_by_node sign_message info_at
  initialize-verifies laws f i j signer verifier message h k =
      rw (member-info f i signer h, member-info f j verifier k)
        (laws.share_verifies (scheme.gen_random (2 * f)) i message)

  shares_of-members :
      (f : ℕ) (message : List ℕ) (signers : List (NodeId × QuorumInfo))
      → All (IsMember f) signers
      → map indexed (sign_all message signers)
        ≡ map
            (signed_part (scheme.gen_random (2 * f)) message)
            (map (λ s. scheme.node_value s.0) signers)
  unfolding sign_message info_at
  shares_of-members f message [] h = refl
  shares_of-members f message ((id, info) ∷ signers) (m, h) =
      rw (member-info f (scheme.node_value id) info m, shares_of-members f message signers h) refl

  length-numbers :
      (signers : List (NodeId × QuorumInfo))
      → length (map (λ s. scheme.node_value s.0) signers) ≡ length signers
  length-numbers [] = refl
  length-numbers (s ∷ signers) = ap suc (length-numbers signers)

  quorum_of : (f q : ℕ) → get_quorum_for_n (get_n_for_f f) ≡ ok q → q ≡ 2 * f + 1
  unfolding get_quorum_for_n
  quorum_of f q h = let faults = get_f_for_n-get_n_for_f f in ground (arith, h, faults)

  -- With the laws of the threshold signatures: if at least a quorum of replicas, with different
  -- numbers, each sign the message with the keys that were made for its number, then any replica
  -- combines their signatures, and every replica verifies what it gets.
  pub combine_partial_signatures-verifies :
      (laws : ThresholdLaws) (f q j k : ℕ) (combiner verifier : QuorumInfo) (message : List ℕ)
      (signers : List (NodeId × QuorumInfo))
      → get_quorum_for_n (get_n_for_f f) ≡ ok q
      → q ≤ length signers
      → All (IsMember f) signers
      → AllDistinct (map (λ s. scheme.node_value s.0) signers)
      → get_elem? (initialize f) j ≡ some combiner
      → get_elem? (initialize f) k ≡ some verifier
      → (c : scheme.Combined) × (combine_partial_signatures combiner (sign_all message signers)
          ≡ inr c)
        × (verify_combined_signature verifier c message ≡ true)
  unfolding combine_partial_signatures verify_combined_signature get_quorum_for_n info_at
  combine_partial_signatures-verifies laws f q j k combiner verifier message signers quorum enough
        members distinct is_combiner is_verifier =
      let parts = map (λ s. scheme.node_value s.0) signers in
      let (c, combined, verified) =
        laws.combines (2 * f) message parts
          (omega (arith, length-numbers signers, quorum_of f q quorum)) distinct in
      (
        c,
        rw
            (
              member-info f j combiner is_combiner,
              combine_signatures,
              shares_of-members f message signers members,
            )
            combined,
        rw (member-info f k verifier is_verifier) verified,
      )
