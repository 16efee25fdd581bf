-- ===== src/Quorum.antt =====
-- src/lib.rs: how many replicas, faults and votes. `n - 1` underflows, and panics, at 0.
pub mod Bounds
pub mod Intersection
use hot_iron_oxide.Base.{ℕ, zero, suc, ◌+◌, ◌*◌, ◌/◌, Run, ok, panic, overflow, ◌>>=◌}

unfoldable pub get_n_for_f : ℕ → ℕ
get_n_for_f f = 3 * f + 1

unfoldable pub get_f_for_n : ℕ → Run ℕ
get_f_for_n zero = panic overflow
get_f_for_n (suc n) = ok (n / 3)

unfoldable pub get_quorum_for_n : ℕ → Run ℕ
unfolding get_f_for_n
get_quorum_for_n n = do f ← get_f_for_n n; ok (2 * f + 1)
