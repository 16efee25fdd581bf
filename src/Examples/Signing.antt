-- ===== src/Examples/Signing.antt =====
-- The theorems on the keys of a quorum, applied to a toy scheme, whose signature of a part is its
-- index with the message.
use hot_iron_oxide.Base.{
  ℕ, ◌<◌, ◌≡◌, refl, Bool, true, false, ok, List, [], ◌∷◌, map, ◌⊎◌, inl, inr, ltb, length, ite,
  ℕ_discrete, arith, if◌then◌else◌,
}
use hot_iron_oxide.Quorum.{get_f_for_n, get_n_for_f, get_quorum_for_n}
use hot_iron_oxide.Crypto.{
  ThresholdScheme, QuorumInfo, info_at, infos_from, initialize, combine_partial_signatures,
  verify_combined_signature,
}
use hot_iron_oxide.Crypto.Signing.{
  ThresholdLaws, signed_part, sign_all, combine_partial_signatures-verifies,
}

abbrev same : List ℕ → List ℕ → Bool
same [] [] = true
same [] (y ∷ ys) = false
same (x ∷ xs) [] = false
same (x ∷ xs) (y ∷ ys) = let rest = same xs ys in ite (ℕ_discrete x y) rest false

same_refl : (xs : List ℕ) → same xs xs ≡ true
same_refl [] = refl
same_refl (x ∷ xs) = ground (arith, same_refl xs)

abbrev first_message : List (ℕ × (ℕ × List ℕ)) → Unit {0} ⊎ List ℕ
first_message [] = inl tt
first_message ((i, (_, message)) ∷ rest) = inr message

instance abbrev toy_scheme : ThresholdScheme
toy_scheme = record {
  PrivateKeySet = ℕ;
  PrivateKeyPart = ℕ;
  PublicKeySet = ℕ;
  PublicKeyPart = ℕ;
  Signature = ℕ × List ℕ;
  Combined = List ℕ;
  CombineSignatureError = Unit;
  NodeId = ℕ;
  node_value = λ i. i;
  gen_random = λ t. t;
  private_key_part = λ keys i. i;
  public_key_set = λ keys. keys;
  public_key_share = λ keys i. i;
  partially_sign = λ i message. (i, message);
  verify_share =
      λ i message signature. ite (ℕ_discrete i signature.0) (same message signature.1) false;
  combine = λ t parts. if ltb t (length parts) then first_message parts else inl tt;
  verify_combined = λ t message c. same message c;
}

length-signed_part :
    (t : ℕ) (message : List ℕ) (parts : List ℕ)
    → length (map (signed_part t message) parts) ≡ length parts
length-signed_part t message [] = refl
length-signed_part t message (i ∷ is) = omega (arith, length-signed_part t message is)

first-signed :
    (t : ℕ) (message : List ℕ) (parts : List ℕ)
    → t < length parts
    → first_message (map (signed_part t message) parts) ≡ inr message
first-signed t message [] h = absurd (omega arith)
first-signed t message (i ∷ is) h = refl

toy_laws : ThresholdLaws
toy_laws = record {
  share_verifies = λ keys i message. ground (arith, same_refl message);
  combines = λ t message parts enough distinct. (
    message,
    ground (arith, enough, length-signed_part t message parts, first-signed t message parts enough),
    same_refl message,
  );
}

abbrev info : ℕ → QuorumInfo
info i = record { our_priv_key = i; our_pub_key = i; pub_key = 2 }

-- Three of the four replicas, for one fault.
abbrev signers : List (ℕ × QuorumInfo)
signers = (0, info 0) ∷ (2, info 2) ∷ (3, info 3) ∷ []

initialize_one : initialize 1 ≡ info 0 ∷ info 1 ∷ info 2 ∷ info 3 ∷ []
unfolding initialize infos_from info_at
initialize_one = refl

quorum_one : get_quorum_for_n (get_n_for_f 1) ≡ ok 3
unfolding get_quorum_for_n get_f_for_n get_n_for_f
quorum_one = refl

combine_partial_signatures-verifies_example :
    (c : List ℕ) × (combine_partial_signatures (info 1) (sign_all (7 ∷ []) signers) ≡ inr c)
    × (verify_combined_signature (info 0) c (7 ∷ []) ≡ true)
combine_partial_signatures-verifies_example =
    combine_partial_signatures-verifies toy_laws 1 3 1 0 (info 1) (info 0) (7 ∷ []) signers
      quorum_one (omega arith)
      (rw initialize_one refl, (rw initialize_one refl, (rw initialize_one refl, tt)))
      (((λ h. cc), ((λ h. cc), tt)), (((λ h. cc), tt), (tt, tt))) (rw initialize_one refl)
      (rw initialize_one refl)
