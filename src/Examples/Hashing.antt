-- ===== src/Examples/Hashing.antt =====
-- The theorem on the hashing of nodes, applied to a context that keeps the bytes it absorbs, and to
-- view numbers of which there is one.
use hot_iron_oxide.Base.{
  ℕ, ◌+◌, ◌≡◌, refl, ◌⊎◌, inr, some, List, [], ◌∷◌, ◌++◌, true, length, ℕ_discrete, arith,
}
use hot_iron_oxide.Atlas.{Atlas, HashLaws}
use hot_iron_oxide.Tree.{to_le_bytes, calculate_node_header_digest, previous_bytes}
use hot_iron_oxide.Tree.Digests.{Collision, calculate_node_header_digest_binding}

abbrev sum : List ℕ → ℕ
sum [] = 0
sum (x ∷ xs) = x + sum xs

instance abbrev summing : Atlas
summing = record {
  SeqNo = Unit;
  seq_discrete = λ a b. yes refl;
  seq_le = λ a b. true;
  seq_zero = tt;
  next = λ s. s;
  prev = λ s. s;
  index = λ s t. some 0;
  into_u32 = λ s. 0;
  NodeId = ℕ;
  node_discrete = ℕ_discrete;
  Digest = ℕ;
  digest_discrete = ℕ_discrete;
  digest_bytes = λ d. d ∷ [];
  digest_blank = 0;
  digest_default = 0;
  Context = List ℕ;
  context_new = [];
  context_update = λ c bytes. c ++ bytes;
  context_finish = sum;
  PartialSignature = ℕ;
  CombinedSignature = ℕ;
  combined_discrete = ℕ_discrete;
  CombinationError = Unit;
  partially_sign = λ bytes. length bytes;
  combine_signatures = λ votes. inr (length votes);
  Request = ℕ;
  request_digest = λ r. r;
  request_from = λ r. r;
  request_seq = λ r. tt;
  request_session = λ r. tt;
  RequestInfo = ℕ;
  request_info = λ r. r;
}

summing_laws : HashLaws
summing_laws = record {
  absorbed = λ c. c;
  absorbed-new = refl;
  absorbed-update = λ c bytes. refl;
  width = 1;
  length-digest_bytes = λ d. refl;
  into_u32-lt = λ s. omega arith;
  into_u32_injective = λ s t e. refl;
}

abbrev count : ℕ
count = 1

calculate_node_header_digest_binding_example : ◌⊎◌ {0, 0} (Collision summing_laws) (
    (tt ≡ tt)
    × (previous_bytes (some 3) ≡ previous_bytes (some 4))
    × (summing.digest_bytes 5 ≡ summing.digest_bytes 4)
    × (count ≡ count))
unfolding calculate_node_header_digest to_le_bytes
calculate_node_header_digest_binding_example =
    calculate_node_header_digest_binding summing_laws tt tt (some 3) (some 4) 5 4 count count
      (omega arith) (omega arith) refl
