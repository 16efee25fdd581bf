-- ===== src/View.antt =====
-- src/view/mod.rs and src/view/leader_allocation.rs: the quorum of a view and its leader.
pub mod Rotation
use hot_iron_oxide.Base.{
  ℕ, zero, suc, ◌%◌, ◌≡◌, Option, none, some, List, Run, ok, panic, index_out_of_bounds,
  remainder_by_zero, ◌>>=◌, length, get_elem?,
}
use hot_iron_oxide.Atlas.{Atlas}
use hot_iron_oxide.Quorum.{get_f_for_n, get_quorum_for_n}

-- `a % n` and `xs[i]` on `usize`.
unfoldable pub checked_rem : ℕ → ℕ → Run ℕ
checked_rem a zero = panic remainder_by_zero
checked_rem a (suc n) = ok (a % suc n)

unfoldable pub element_at {ℓ} : {A : Type ℓ} → List A → ℕ → Run A
element_at xs i = elim (get_elem? xs i) [ none ↦ panic index_out_of_bounds | some x ↦ ok x ]

module _ ⦃atlas : Atlas⦄ where
  open atlas use {SeqNo, NodeId, next, into_u32}

  pub record View : Type 0 where
    pub seq : SeqNo
    pub members : List NodeId
    pub leader : NodeId
    pub f : ℕ

  -- `RoundRobinLA::allocate_leader_from`
  unfoldable pub allocate_leader_from : List NodeId → SeqNo → Run NodeId
  unfolding checked_rem element_at
  allocate_leader_from leader_pool seq_no = do
    index ← checked_rem (into_u32 seq_no) (length leader_pool)
    element_at leader_pool index

  unfoldable pub new_from_quorum : SeqNo → List NodeId → Run View
  unfolding allocate_leader_from
  new_from_quorum seq_no members = do
    f ← get_f_for_n (length members)
    leader ← allocate_leader_from members seq_no
    ok (record { seq = seq_no; members = members; leader = leader; f = f })

  unfoldable pub with_new_seq : View → SeqNo → Run View
  unfolding new_from_quorum
  with_new_seq view seq = new_from_quorum seq view.members

  unfoldable pub next_view : View → Run View
  unfolding new_from_quorum
  next_view view = new_from_quorum (next view.seq) view.members

  -- `NetworkView::quorum`, computed from the members on every call
  unfoldable pub quorum : View → Run ℕ
  quorum view = get_quorum_for_n (length view.members)
