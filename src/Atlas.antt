-- ===== src/Atlas.antt =====
-- The parts of the Atlas crates (atlas_common, atlas_core, atlas_communication) that the protocols
-- call. Their code is not in the repository, so they are parameters: the types are opaque, and a
-- theorem that needs a law of them takes it as a hypothesis of `SeqLaws` or `HashLaws`.
use hot_iron_oxide.Base.{
  ℕ, ◌^◌, ◌<◌, ◌≡◌, ◌⊎◌, Bool, true, false, Option, some, List, [], ◌++◌, length,
}

pub record Atlas : Type 1 where
  -- `atlas_common::ordering::SeqNo`
  pub SeqNo : Type 0
  pub seq_discrete : Discrete SeqNo
  pub seq_le : SeqNo → SeqNo → Bool
  pub seq_zero : SeqNo
  pub next : SeqNo → SeqNo
  pub prev : SeqNo → SeqNo
  -- `SeqNo::index`: `none` is `Either::Left`, an invalid number.
  pub index : SeqNo → SeqNo → Option ℕ
  pub into_u32 : SeqNo → ℕ
  -- `atlas_common::node_id::NodeId`
  pub NodeId : Type 0
  pub node_discrete : Discrete NodeId
  -- `atlas_common::crypto::hash`: digests as bytes, and the hashing context
  pub Digest : Type 0
  pub digest_discrete : Discrete Digest
  pub digest_bytes : Digest → List ℕ
  pub digest_blank : Digest
  pub digest_default : Digest
  pub Context : Type 0
  pub context_new : Context
  pub context_update : Context → List ℕ → Context
  pub context_finish : Context → Digest
  -- `atlas_common::crypto::threshold_crypto`, with the keys of the node and of the quorum
  pub PartialSignature : Type 0
  pub CombinedSignature : Type 0
  pub combined_discrete : Discrete CombinedSignature
  pub CombinationError : Type 0
  pub partially_sign : List ℕ → PartialSignature
  pub combine_signatures : List (NodeId × PartialSignature) → CombinationError ⊎ CombinedSignature
  -- `StoredMessage<RQ>`: a client request with its header
  pub Request : Type 0
  pub request_digest : Request → Digest
  pub request_from : Request → NodeId
  pub request_seq : Request → SeqNo
  pub request_session : Request → SeqNo
  -- `atlas_core::messages::ClientRqInfo`, and its `From<&StoredMessage<RQ>>`
  pub RequestInfo : Type 0
  pub request_info : Request → RequestInfo

-- What the documentation of `SeqNo` promises: a total order, in which a number is at distance 0
-- from itself and its successor is the number at distance 1.
pub record SeqLaws ⦃atlas : Atlas⦄ : Type 0 where
  pub seq_le_refl : (a : atlas.SeqNo) → atlas.seq_le a a ≡ true
  pub seq_le_total : (a b : atlas.SeqNo) → atlas.seq_le a b ≡ false → atlas.seq_le b a ≡ true
  pub seq_le_trans :
      (a b c : atlas.SeqNo)
      → atlas.seq_le a b ≡ true
      → atlas.seq_le b c ≡ true
      → atlas.seq_le a c ≡ true
  pub seq_le_antisymm :
      (a b : atlas.SeqNo) → atlas.seq_le a b ≡ true → atlas.seq_le b a ≡ true → a ≡ b
  pub index_self : (a : atlas.SeqNo) → atlas.index a a ≡ some 0
  pub index-next : (a : atlas.SeqNo) → atlas.index (atlas.next a) a ≡ some 1

-- What the documentation of the hashing context and of `into_u32` promises: a context absorbs bytes
-- in order, all digests have one width, and distinct numbers have distinct 32-bit values.
pub record HashLaws ⦃atlas : Atlas⦄ : Type 0 where
  pub absorbed : atlas.Context → List ℕ
  pub absorbed-new : absorbed atlas.context_new ≡ []
  pub absorbed-update :
      (c : atlas.Context) (bytes : List ℕ)
      → absorbed (atlas.context_update c bytes) ≡ absorbed c ++ bytes
  pub width : ℕ
  pub length-digest_bytes : (d : atlas.Digest) → length (atlas.digest_bytes d) ≡ width
  pub into_u32-lt : (s : atlas.SeqNo) → atlas.into_u32 s < 256 ^ 4
  pub into_u32_injective : (s t : atlas.SeqNo) → atlas.into_u32 s ≡ atlas.into_u32 t → s ≡ t

-- `StoredMessage<M>` and `ShareableMessage<M>`: the sender that the header names, and the message.
pub record StoredMessage {ℓ} ⦃atlas : Atlas⦄ (M : Type ℓ) : Type ℓ where
  pub from : atlas.NodeId
  pub message : M
