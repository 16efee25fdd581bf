-- ===== src/View/Rotation.antt =====
-- Which views can be made, and who leads them.
use mathlib.Core.List.{Memᴰ}
use hot_iron_oxide.Base.{
  ℕ, zero, suc, ◌+◌, ◌*◌, ◌%◌, ◌≤◌, ◌<◌, ◌≡◌, refl, arith, some, List, [], ◌∷◌, ok, panic, overflow,
  Returns, length, get_elem?, get_elem?-some,
}
use hot_iron_oxide.Atlas.{Atlas}
use hot_iron_oxide.Quorum.{get_f_for_n, get_quorum_for_n}
use hot_iron_oxide.View.{View, element_at, new_from_quorum, with_new_seq, next_view, quorum}

pub mem_of_get_elem? {ℓ} :
    {A : Type ℓ} {x : A} (xs : List A) (i : ℕ) → get_elem? xs i ≡ some x → Memᴰ x xs
mem_of_get_elem? [] i h = cc
mem_of_get_elem? (y ∷ xs) zero h = Memᴰ.head (cc)
mem_of_get_elem? (y ∷ xs) (suc i) h = Memᴰ.tail (mem_of_get_elem? xs i h)

module _ ⦃atlas : Atlas⦄ where
  open atlas use {SeqNo, NodeId, next, into_u32}

  -- A view over the given quorum, as its constructor makes it.
  pub record IsWellFormed (view : View) : Type 0 where
    pub occupied : 0 < length view.members
    pub leads : get_elem? view.members (into_u32 view.seq % length view.members) ≡ some view.leader
    pub faults : get_f_for_n (length view.members) ≡ ok view.f

  -- A view is made for every non-empty quorum: it keeps the number and the members, its leader
  -- stands at the number modulo the size, and its fault bound is that of the size.
  pub new_from_quorum-IsWellFormed :
      (seq_no : SeqNo) (members : List NodeId)
      → 0 < length members
      → Returns
          (new_from_quorum seq_no members)
          λ view. IsWellFormed view × (view.seq ≡ seq_no) × (view.members ≡ members)
  unfolding new_from_quorum get_f_for_n
  new_from_quorum-IsWellFormed seq_no [] h = absurd (omega arith)
  new_from_quorum-IsWellFormed seq_no (x ∷ xs) h =
      let (leader, e) = get_elem?-some (x ∷ xs) (into_u32 seq_no % length (x ∷ xs)) (omega arith) in
      (
        record { seq = seq_no; members = x ∷ xs; leader = leader; f = _ },
        rw (e, element_at),
        (record { occupied = omega arith; leads = e; faults = refl }, refl, refl),
      )

  -- No view is made for an empty quorum: the code panics.
  pub new_from_quorum-empty : (seq_no : SeqNo) → new_from_quorum seq_no [] ≡ panic overflow
  unfolding new_from_quorum get_f_for_n
  new_from_quorum-empty seq_no = refl

  pub leader-Mem : {view : View} → IsWellFormed view → Memᴰ view.leader view.members
  leader-Mem {view} w = mem_of_get_elem? view.members _ w.leads

  -- Changing the number of a well-formed view gives a well-formed view of the same quorum.
  pub with_new_seq-IsWellFormed :
      (view : View) (seq : SeqNo)
      → IsWellFormed view
      → Returns (with_new_seq view seq) λ v.
        IsWellFormed v × (v.seq ≡ seq) × (v.members ≡ view.members) × (quorum v ≡ quorum view)
  unfolding with_new_seq quorum
  with_new_seq-IsWellFormed view seq w =
      let (v, run, (well, at, same)) = new_from_quorum-IsWellFormed seq view.members w.occupied in
      (v, run, (well, at, same, rw same))

  -- The next view of a well-formed view is a well-formed view of the same quorum, at the successor
  -- of the number.
  pub next_view-IsWellFormed :
      (view : View)
      → IsWellFormed view
      → Returns
          (next_view view)
          λ v. IsWellFormed v × (v.seq ≡ next view.seq) × (v.members ≡ view.members)
  unfolding next_view
  next_view-IsWellFormed view w =
      new_from_quorum-IsWellFormed (next view.seq) view.members w.occupied

  -- A well-formed view has a quorum, made of at most as many votes as it has members beyond the
  -- faults it tolerates, and three times the faults stay below the members.
  pub quorum_reachable :
      {view : View}
      → IsWellFormed view
      → Returns (quorum view) λ q.
        (q ≡ 2 * view.f + 1)
        × (q + view.f ≤ length view.members)
        × (3 * view.f < length view.members)
  unfolding quorum get_quorum_for_n get_f_for_n
  quorum_reachable {view} w = go view (length view.members) w.faults w.occupied
    where
      go :
          (v : View) (n : ℕ)
          → get_f_for_n n ≡ ok v.f
          → 0 < n
          → Returns (get_quorum_for_n n) λ q. (q ≡ 2 * v.f + 1) × (q + v.f ≤ n) × (3 * v.f < n)
      go v zero e h = absurd (omega arith)
      go v (suc n) e h = (_, refl, (ground arith, ground arith, ground arith))
