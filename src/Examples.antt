-- ===== src/Examples.antt =====
-- Runs of the definitions on small data: a quorum of four nodes, whose numbers, digests and
-- signatures are natural numbers.
pub mod Parts
pub mod Votes
pub mod Hashing
pub mod Decisions
pub mod Protocols
pub mod Proofs
pub mod Chains
pub mod Pipelines
pub mod Handling
pub mod Signing
pub mod Roles
use hot_iron_oxide.Base.{
  ℕ, ◌+◌, ◌-◌, ◌≡◌, refl, Bool, true, false, Option, none, some, List, [], ◌∷◌, ◌++◌, inl, inr,
  ℕ_discrete, leb, ltb, arith, length, ite, if◌then◌else◌,
}
use hot_iron_oxide.Atlas.{Atlas, SeqLaws, StoredMessage}
use hot_iron_oxide.Quorum.{get_f_for_n}
use hot_iron_oxide.View.{View}
use hot_iron_oxide.View.Rotation.{IsWellFormed}
use hot_iron_oxide.Tree.{DecisionNodeHeader}
use hot_iron_oxide.HotIron.Messages.{
  QcType, Qc, VoteType, ProposalType, HotFeOxMsgType, proposal, vote, VoteEncoding,
}
use hot_iron_oxide.HotIron.Queue.{Message}

abbrev sum : List ℕ → ℕ
sum [] = 0
sum (x ∷ xs) = x + sum xs

instance abbrev pub toy : Atlas
toy = record {
  SeqNo = ℕ;
  seq_discrete = ℕ_discrete;
  seq_le = leb;
  seq_zero = 0;
  next = λ s. s + 1;
  prev = λ s. s - 1;
  index = λ s t. if ltb s t then none else some (s - t);
  into_u32 = λ s. s;
  NodeId = ℕ;
  node_discrete = ℕ_discrete;
  Digest = ℕ;
  digest_discrete = ℕ_discrete;
  digest_bytes = λ d. d ∷ [];
  digest_blank = 0;
  digest_default = 0;
  Context = List ℕ;
  context_new = [];
  context_update = λ c bytes. c ++ bytes;
  context_finish = sum;
  PartialSignature = ℕ;
  CombinedSignature = ℕ;
  combined_discrete = ℕ_discrete;
  CombinationError = Unit;
  partially_sign = λ bytes. length bytes;
  combine_signatures = λ votes. inr (length votes);
  Request = ℕ;
  request_digest = λ r. r;
  request_from = λ r. r;
  request_seq = λ r. r;
  request_session = λ r. r;
  RequestInfo = ℕ;
  request_info = λ r. r;
}

instance abbrev pub toy_encoding : VoteEncoding
toy_encoding = record { encode_to_vec = λ s v. s ∷ [] }

pub toy_laws : SeqLaws
toy_laws = record {
  seq_le_refl = λ a. ground arith;
  seq_le_total = λ a b h. ground arith;
  seq_le_trans = λ a b c h k. ground arith;
  seq_le_antisymm = λ a b h k. ground arith;
  index_self = λ a. ground arith;
  index-next = λ a. ground arith;
}

abbrev pub four : View
four = record { seq = 0; members = 0 ∷ 1 ∷ 2 ∷ 3 ∷ []; leader = 0; f = 1 }

abbrev pub message_of : ℕ → ℕ → HotFeOxMsgType → Message
message_of sender seq t = record {
  from = sender;
  message = record { curr_view = seq; message = t };
}

abbrev pub vote_of : ℕ → VoteType → Message
vote_of sender t = message_of sender 0 (vote (record { vote_type = t; signature = sender }))

abbrev pub proposal_of : ProposalType → Message
proposal_of t = message_of 0 0 (proposal (record { proposal_type = t }))

abbrev pub header : DecisionNodeHeader
header = record {
  view_no = 0;
  previous_block = none;
  current_block_digest = 7;
  contained_client_commands = 0;
}

pub four-IsWellFormed : IsWellFormed four
unfolding get_f_for_n
four-IsWellFormed = record { occupied = omega arith; leads = refl; faults = refl }
