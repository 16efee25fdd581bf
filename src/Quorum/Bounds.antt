-- ===== src/Quorum/Bounds.antt =====
-- What the quorum arithmetic of src/lib.rs guarantees.
use native.Mathlib.Numerals.{add-one}
use hot_iron_oxide.Base.{ap, ℕ, zero, suc, ◌+◌, ◌*◌, ◌≤◌, ◌<◌, ◌≡◌, refl, arith, ok, Returns}
use hot_iron_oxide.Quorum.{get_n_for_f, get_f_for_n, get_quorum_for_n}

-- `get_f_for_n` undoes `get_n_for_f`.
pub get_f_for_n-get_n_for_f : (f : ℕ) → get_f_for_n (get_n_for_f f) ≡ ok f
unfolding get_f_for_n get_n_for_f
get_f_for_n-get_n_for_f f = rw (add-one (3 * f)) (ap ok (omega arith))

-- With at least one replica, the number of faults computed for n replicas is the greatest f with
-- 3 f + 1 ≤ n, and the n - f replicas that stay correct are enough for a quorum.
pub get_f_for_n_greatest :
    (n : ℕ)
    → 0 < n
    → Returns (get_f_for_n n) λ f.
      (get_n_for_f f ≤ n)
      × (n < get_n_for_f (suc f))
      × Returns (get_quorum_for_n n) (λ q. q + f ≤ n)
unfolding get_f_for_n get_n_for_f get_quorum_for_n
get_f_for_n_greatest zero h = absurd (omega arith)
get_f_for_n_greatest (suc n) h = (_, refl, (omega arith, omega arith, (_, refl, omega arith)))
