-- ===== src/HotIron/Signals.antt =====
-- src/hot_iron/protocol/hotstuff.rs, `Signals`: the decisions that are to be polled. The set is
-- what stops duplicates; the heap, whose least number is popped first, is a list in ascending order.
pub mod Order
use hot_iron_oxide.Base.{Bool, true, false, Option, none, some, List, [], ◌∷◌, ite, if◌then◌else◌}
use hot_iron_oxide.Atlas.{Atlas}

module _ ⦃atlas : Atlas⦄ where
  open atlas use {SeqNo, seq_discrete, seq_le}

  pub record Signals : Type 0 where
    pub signaled_nos : List SeqNo
    pub signaled_seq_no : List SeqNo

  abbrev pub contains : SeqNo → List SeqNo → Bool
  contains s [] = false
  contains s (t ∷ ts) = ite (seq_discrete s t) true (contains s ts)

  -- `BTreeSet::remove`
  abbrev pub remove : SeqNo → List SeqNo → List SeqNo
  remove s [] = []
  remove s (t ∷ ts) = let rest = remove s ts in ite (seq_discrete s t) rest (t ∷ rest)

  -- `BinaryHeap::push`
  abbrev pub push : SeqNo → List SeqNo → List SeqNo
  push s [] = s ∷ []
  push s (t ∷ ts) = let rest = push s ts in if seq_le s t then s ∷ t ∷ ts else t ∷ rest

  unfoldable pub default_signals : Signals
  default_signals = record { signaled_nos = []; signaled_seq_no = [] }

  unfoldable pub pop_signalled : Signals → Option SeqNo × Signals
  pop_signalled signals = elim signals.signaled_seq_no [
    | [] ↦ (none, signals)
    | seq_no ∷ rest ↦ (
      some seq_no,
      record { signaled_nos = remove seq_no signals.signaled_nos; signaled_seq_no = rest },
    )
  ]

  unfoldable pub push_signalled : Signals → SeqNo → Signals
  push_signalled signals seq = if contains seq signals.signaled_nos then signals else record {
    signaled_nos = seq ∷ signals.signaled_nos;
    signaled_seq_no = push seq signals.signaled_seq_no;
  }

  unfoldable pub clear : Signals → Signals
  clear signals = record { signaled_nos = []; signaled_seq_no = [] }
