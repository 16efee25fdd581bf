-- ===== src/Tree/Digests.antt =====
-- What a block digest says of its block (src/decision_tree/mod.rs).
use mathlib.Core.List.{List-discrete}
use native.Mathlib.Nat.{pow-suc}
use hot_iron_oxide.Base.{
  ℕ, zero, suc, ◌+◌, ◌/◌, ◌%◌, ◌^◌, ◌<◌, ◌≡◌, ◌≢◌, refl, ap, ◌∙◌, sym, arith, Option, none, some,
  List, [], ◌∷◌, ◌++◌, ◌⊎◌, inl, inr, length, length-append, ℕ_discrete,
}
use hot_iron_oxide.Atlas.{Atlas, HashLaws}
use hot_iron_oxide.Tree.{
  to_le_bytes, previous_bytes, calculate_node_header_digest, create_blank_branch_node,
}

length-to_le_bytes : (w n : ℕ) → length (to_le_bytes w n) ≡ w
unfolding to_le_bytes
length-to_le_bytes zero n = refl
length-to_le_bytes (suc w) n = ap suc (length-to_le_bytes w (n / 256))

-- `to_le_bytes` of width w loses nothing of a number below 256 ^ w.
to_le_bytes_injective :
    (w m n : ℕ) → m < 256 ^ w → n < 256 ^ w → to_le_bytes w m ≡ to_le_bytes w n → m ≡ n
unfolding to_le_bytes
to_le_bytes_injective zero m n hm hn e = omega arith
to_le_bytes_injective (suc w) m n hm hn e =
    let low : m % 256 ≡ n % 256 = cc in
    let high : to_le_bytes w (m / 256) ≡ to_le_bytes w (n / 256) = cc in
    omega (
      arith,
      to_le_bytes_injective w (m / 256) (n / 256) (omega (arith, pow-suc 256 w))
          (omega (arith, pow-suc 256 w)) high,
    )

append_cancel {ℓ} :
    {A : Type ℓ} (xs ys us vs : List A)
    → length xs ≡ length ys
    → xs ++ us ≡ ys ++ vs
    → (xs ≡ ys) × (us ≡ vs)
append_cancel [] [] us vs h e = (refl, e)
append_cancel [] (y ∷ ys) us vs h e = absurd (omega arith)
append_cancel (x ∷ xs) [] us vs h e = absurd (omega arith)
append_cancel (x ∷ xs) (y ∷ ys) us vs h e =
    let (p, q) = append_cancel xs ys us vs (omega arith) (cc) in (cc, q)

module _ ⦃atlas : Atlas⦄ (laws : HashLaws) where
  open atlas use {SeqNo, Digest, digest_bytes, Context, context_finish, into_u32}

  -- Two contexts that absorbed different bytes and have the same digest.
  pub record Collision : Type 0 where
    pub one : Context
    pub two : Context
    pub apart : laws.absorbed one ≢ laws.absorbed two
    pub same : context_finish one ≡ context_finish two

  head : SeqNo → Option Digest → List ℕ
  head v p = to_le_bytes 4 (into_u32 v) ++ previous_bytes p

  front : SeqNo → Option Digest → Digest → List ℕ
  unfolding head
  front v p d = head v p ++ digest_bytes d

  length-head : (v : SeqNo) (p : Option Digest) → length (head v p) ≡ 4 + laws.width
  unfolding head previous_bytes
  length-head v none = omega (
    arith,
    length-append (to_le_bytes 4 (into_u32 v)) (digest_bytes atlas.digest_blank),
    length-to_le_bytes 4 (into_u32 v),
    laws.length-digest_bytes atlas.digest_blank,
  )
  length-head v (some d) = omega (
    arith,
    length-append (to_le_bytes 4 (into_u32 v)) (digest_bytes d),
    length-to_le_bytes 4 (into_u32 v),
    laws.length-digest_bytes d,
  )

  length-front :
      (v : SeqNo) (p : Option Digest) (d : Digest)
      → length (front v p d) ≡ 4 + laws.width + laws.width
  unfolding front
  length-front v p d = omega (
    arith,
    length-append (head v p) (digest_bytes d),
    length-head v p,
    laws.length-digest_bytes d,
  )

  -- The bytes that the code hashes, in its order.
  stream : SeqNo → Option Digest → Digest → ℕ → List ℕ
  unfolding front
  stream v p d n = front v p d ++ to_le_bytes 8 n

  hashing : SeqNo → Option Digest → Digest → ℕ → Context
  hashing v p d n =
      atlas.context_update
        (atlas.context_update
          (atlas.context_update
            (atlas.context_update atlas.context_new (to_le_bytes 4 (into_u32 v)))
            (previous_bytes p))
          (digest_bytes d))
        (to_le_bytes 8 n)

  absorbed-hashing :
      (v : SeqNo) (p : Option Digest) (d : Digest) (n : ℕ)
      → laws.absorbed (hashing v p d n) ≡ stream v p d n
  unfolding stream hashing
  absorbed-hashing v p d n = simp (laws.absorbed-update, laws.absorbed-new)

  stream_injective :
      (v v' : SeqNo) (p p' : Option Digest) (d d' : Digest) (n n' : ℕ)
      → n < 256 ^ 8
      → n' < 256 ^ 8
      → stream v p d n ≡ stream v' p' d' n'
      → (v ≡ v')
        × (previous_bytes p ≡ previous_bytes p')
        × (digest_bytes d ≡ digest_bytes d')
        × (n ≡ n')
  unfolding stream
  stream_injective v v' p p' d d' n n' hn hn' e =
      let (e₃, count) =
        append_cancel (front v p d) (front v' p' d') _ _
          (length-front v p d ∙ sym (length-front v' p' d')) e in
      let (e₂, digest) =
        append_cancel (head v p) (head v' p') _ _ (length-head v p ∙ sym (length-head v' p')) e₃ in
      let (e₁, previous) =
        append_cancel (to_le_bytes 4 (into_u32 v)) (to_le_bytes 4 (into_u32 v')) _ _
          (length-to_le_bytes 4 _ ∙ sym (length-to_le_bytes 4 _)) e₂ in
      (
        laws.into_u32_injective v v'
            (to_le_bytes_injective 4 _ _ (laws.into_u32-lt v) (laws.into_u32-lt v') e₁),
        previous,
        digest,
        to_le_bytes_injective 8 n n' hn hn' count,
      )

  -- The digest of a block fixes what was hashed: if two blocks of fewer than 2 ^ 64 commands have
  -- the same digest, then they have the same view number, the same bytes for the previous block,
  -- the same bytes for the digest of the commands, and the same number of commands; or else two
  -- contexts that collide are at hand.
  pub calculate_node_header_digest_binding :
      (v v' : SeqNo) (p p' : Option Digest) (d d' : Digest) (n n' : ℕ)
      → n < 256 ^ 8
      → n' < 256 ^ 8
      → calculate_node_header_digest v p d n ≡ calculate_node_header_digest v' p' d' n'
      → Collision
        ⊎ ((v ≡ v')
            × (previous_bytes p ≡ previous_bytes p')
            × (digest_bytes d ≡ digest_bytes d')
            × (n ≡ n'))
  unfolding calculate_node_header_digest hashing
  calculate_node_header_digest_binding v v' p p' d d' n n' hn hn' e =
      elim (List-discrete ℕ_discrete (stream v p d n) (stream v' p' d' n')) [
        | yes h ↦ inr (stream_injective v v' p p' d d' n n' hn hn' h)
        | no h ↦ inl (record {
          one = hashing v p d n;
          two = hashing v' p' d' n';
          apart = λ q. h (sym (absorbed-hashing v p d n) ∙ q ∙ absorbed-hashing v' p' d' n');
          same = e;
        })
      ]

module _ ⦃atlas : Atlas⦄ where
  open atlas use {SeqNo, Digest, digest_blank, Request}

  -- A missing previous block is hashed as the blank digest: the digest of a root block is that of a
  -- block with the same view, commands and count whose previous block is the blank digest.
  pub calculate_node_header_digest-none :
      (v : SeqNo) (d : Digest) (n : ℕ)
      → calculate_node_header_digest v none d n
        ≡ calculate_node_header_digest v (some digest_blank) d n
  unfolding calculate_node_header_digest
  calculate_node_header_digest-none v d n = refl

  -- A blank branch block is not bound to its view: its digest is the digest of its commands, so
  -- blank branch blocks of any two views over as many commands of one digest have the same header,
  -- block digest included, up to the number of the view.
  pub create_blank_branch_node_unbound :
      (s t : SeqNo) (d : Digest) (xs ys : List Request)
      → length xs ≡ length ys
      → let one = (create_blank_branch_node s d xs).decision_header in
        let two = (create_blank_branch_node t d ys).decision_header in
        (one.current_block_digest ≡ two.current_block_digest) × (two ≡ record one { view_no = t })
  unfolding create_blank_branch_node
  create_blank_branch_node_unbound s t d xs ys e = (refl, ground arith)
