-- ===== src/Chained/Protocol/Waiting.antt =====
-- The messages in the queues of the decisions of src/chained/protocol/mod.rs.
use mathlib.Core.List.{Memᴰ}
use hot_iron_oxide.Base.{
  ℕ, zero, suc, ◌≡◌, sym, subst, ◌⊎◌, inl, inr, some, List, [], ◌∷◌, get_elem?, set, some_injective,
}
use hot_iron_oxide.Atlas.{Atlas}
use hot_iron_oxide.Chained.Messages.{Message}
use hot_iron_oxide.Chained.Decision.{ChainedDecision}

module _ ⦃atlas : Atlas⦄ where
  -- One of the decisions has the message in its queue.
  unfoldable pub Queued : Message → List ChainedDecision → Type 0
  Queued m [] = ⊥
  Queued m (d ∷ ds) = Memᴰ m d.msg_queue.pending_messages ⊎ Queued m ds

  pub Queued-there :
      (m : Message) (ds : List ChainedDecision) (i : ℕ) (d : ChainedDecision)
      → get_elem? ds i ≡ some d
      → Memᴰ m d.msg_queue.pending_messages
      → Queued m ds
  unfolding Queued
  Queued-there m [] i d at h = cc
  Queued-there m (x ∷ xs) zero d at h =
      inl (subst (λ d. Memᴰ m d.msg_queue.pending_messages) (sym (some_injective at)) h)
  Queued-there m (x ∷ xs) (suc i) d at h = inr (Queued-there m xs i d at h)

  pub Queued-set :
      (m : Message) (ds : List ChainedDecision) (i : ℕ) (d e : ChainedDecision)
      → get_elem? ds i ≡ some d
      → (Memᴰ m e.msg_queue.pending_messages → Memᴰ m d.msg_queue.pending_messages)
      → Queued m (set ds i e)
      → Queued m ds
  unfolding Queued
  Queued-set m [] i d e at no_more h = h
  Queued-set m (x ∷ xs) zero d e at no_more (inl h) =
      inl (subst (λ d. Memᴰ m d.msg_queue.pending_messages) (sym (some_injective at)) (no_more h))
  Queued-set m (x ∷ xs) zero d e at no_more (inr h) = inr h
  Queued-set m (x ∷ xs) (suc i) d e at no_more (inl h) = inl h
  Queued-set m (x ∷ xs) (suc i) d e at no_more (inr h) = inr (Queued-set m xs i d e at no_more h)
