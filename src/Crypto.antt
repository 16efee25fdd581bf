-- ===== src/Crypto.antt =====
-- src/crypto/mod.rs: the key material of the replicas, and how votes are signed and combined.
pub mod Signing
use hot_iron_oxide.Base.{ℕ, zero, suc, ◌+◌, ◌*◌, Bool, List, [], ◌∷◌, map, ◌⊎◌}

-- `threshold_crypto` and `NodeId` of atlas_common, which are not in the repository. A set of keys is
-- made for a threshold; which one is random, and here it is the one that was drawn.
pub record ThresholdScheme : Type 1 where
  pub PrivateKeySet : Type 0
  pub PrivateKeyPart : Type 0
  pub PublicKeySet : Type 0
  pub PublicKeyPart : Type 0
  pub Signature : Type 0
  pub Combined : Type 0
  pub CombineSignatureError : Type 0
  pub NodeId : Type 0
  pub node_value : NodeId → ℕ
  pub gen_random : ℕ → PrivateKeySet
  pub private_key_part : PrivateKeySet → ℕ → PrivateKeyPart
  pub public_key_set : PrivateKeySet → PublicKeySet
  pub public_key_share : PublicKeySet → ℕ → PublicKeyPart
  pub partially_sign : PrivateKeyPart → List ℕ → Signature
  pub verify_share : PublicKeyPart → List ℕ → Signature → Bool
  pub combine : PublicKeySet → List (ℕ × Signature) → CombineSignatureError ⊎ Combined
  pub verify_combined : PublicKeySet → List ℕ → Combined → Bool

module _ ⦃scheme : ThresholdScheme⦄ where
  open scheme use {
    PrivateKeySet, PrivateKeyPart, PublicKeySet, PublicKeyPart, Signature, Combined,
    CombineSignatureError, NodeId,
  }

  pub record QuorumInfo : Type 0 where
    pub our_priv_key : PrivateKeyPart
    pub our_pub_key : PublicKeyPart
    pub pub_key : PublicKeySet

  unfoldable pub new_info : PrivateKeyPart → PublicKeyPart → PublicKeySet → QuorumInfo
  new_info private_key_part public_key_part public_key_set = record {
    our_priv_key = private_key_part;
    our_pub_key = public_key_part;
    pub_key = public_key_set;
  }

  abbrev pub get_public_key_for_index : QuorumInfo → ℕ → PublicKeyPart
  get_public_key_for_index info i = scheme.public_key_share info.pub_key i

  unfoldable pub sign_message : QuorumInfo → List ℕ → Signature
  sign_message info message = scheme.partially_sign info.our_priv_key message

  unfoldable pub verify_partial_signature_by_node : QuorumInfo → ℕ → Signature → List ℕ → Bool
  verify_partial_signature_by_node info node_index signature message =
      scheme.verify_share (get_public_key_for_index info node_index) message signature

  -- `id.0 as u64`, of a 32-bit number.
  abbrev pub indexed : NodeId × Signature → ℕ × Signature
  indexed (id, signature) = (scheme.node_value id, signature)

  unfoldable pub combine_signatures :
      QuorumInfo → List (NodeId × Signature) → CombineSignatureError ⊎ Combined
  combine_signatures info signatures = scheme.combine info.pub_key (map indexed signatures)

  unfoldable pub combine_partial_signatures :
      QuorumInfo → List (NodeId × Signature) → CombineSignatureError ⊎ Combined
  unfolding combine_signatures
  combine_partial_signatures info signatures = combine_signatures info signatures

  unfoldable pub verify_combined_signature : QuorumInfo → Combined → List ℕ → Bool
  verify_combined_signature info signature message =
      scheme.verify_combined info.pub_key message signature

  unfoldable pub info_at : PrivateKeySet → ℕ → QuorumInfo
  info_at key_set i =
      let pub_key = scheme.public_key_set key_set in
      record {
        our_priv_key = scheme.private_key_part key_set i;
        our_pub_key = scheme.public_key_share pub_key i;
        pub_key = pub_key;
      }

  -- The `map` over the numbers from the first one on, so many of them.
  unfoldable pub infos_from : PrivateKeySet → ℕ → ℕ → List QuorumInfo
  unfolding info_at
  infos_from key_set i zero = []
  infos_from key_set i (suc n) = info_at key_set i ∷ infos_from key_set (suc i) n

  unfoldable pub initialize : ℕ → List QuorumInfo
  unfolding infos_from
  initialize f = infos_from (scheme.gen_random (2 * f)) 0 (3 * f + 1)
