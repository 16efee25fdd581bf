-- ===== src/Quorum/Intersection.antt =====
-- When two quorums of src/lib.rs share a correct replica.
use hot_iron_oxide.Base.{
  ℕ, zero, suc, ◌+◌, ◌-◌, ◌*◌, ◌≤◌, ◌<◌, ◌≡◌, refl, inl, inr, Bool, true, false, ◌&&◌, ◌↔◌, arith,
  ok, to_nat, leb, ltb, Bool-cases,
}
use hot_iron_oxide.Quorum.{get_n_for_f, get_f_for_n, get_quorum_for_n}

-- How many of the replicas 0 to n - 1 are in the set.
abbrev pub size : (ℕ → Bool) → ℕ → ℕ
size a zero = 0
size a (suc n) = size a n + to_nat (a n)

-- Two sets of at least q of n replicas share one that is correct, whichever f are faulty.
abbrev pub Intersects : ℕ → ℕ → ℕ → Type 0
Intersects n q f =
    (a b faulty : ℕ → Bool)
    → q ≤ size a n
    → q ≤ size b n
    → size faulty n ≤ f
    → (i : ℕ) × (i < n) × (a i ≡ true) × (b i ≡ true) × (faulty i ≡ false)

abbrev both : (ℕ → Bool) → (ℕ → Bool) → ℕ → Bool
both a b i = a i && b i

size-both : (a b : ℕ → Bool) (n : ℕ) → size a n + size b n ≤ size (both a b) n + n
size-both a b zero = omega arith
size-both a b (suc n) = let h = size-both a b n in ground (arith, h)

-- A set that is larger than another has a replica that the other has not.
outnumbers :
    (a b : ℕ → Bool) (n : ℕ)
    → size b n < size a n
    → (i : ℕ) × (i < n) × (a i ≡ true) × (b i ≡ false)
outnumbers a b zero h = absurd (omega arith)
outnumbers a b (suc n) h = elim (Bool-cases (a n)) [
  | inl x ↦ elim (Bool-cases (b n)) [
    | inr y ↦ (n, omega arith, x, y)
    | inl y ↦ let (i, k, r, s) = outnumbers a b n (ground arith) in (i, omega arith, r, s)
  ]
  | inr x ↦ let (i, k, r, s) = outnumbers a b n (ground arith) in (i, omega arith, r, s)
]

intersect : (n q f : ℕ) → n + f < 2 * q → Intersects n q f
intersect n q f h a b faulty x y z =
    let more = size-both a b n in
    let (i, k, r, s) = outnumbers (both a b) faulty n (omega arith) in
    (i, k, ground arith, ground arith, s)

-- The first q replicas, and all but the first so many.
abbrev first : ℕ → ℕ → Bool
first q i = ltb i q

abbrev after : ℕ → ℕ → Bool
after lo i = leb lo i

size-first : (q n : ℕ) → n ≤ q → size (first q) n ≡ n
size-first q zero h = refl
size-first q (suc n) h = let k = size-first q n (omega arith) in ground arith

size-first_enough : (q n : ℕ) → q ≤ n → q ≤ size (first q) n
size-first_enough q zero h = omega arith
size-first_enough q (suc n) h = elim (Bool-cases (leb q n)) [
  | inl k ↦ let r = size-first_enough q n (ground arith) in omega arith
  | inr k ↦ let r = size-first q (suc n) (ground arith) in omega arith
]

size-after : (lo n : ℕ) → size (after lo) n ≡ n - lo
size-after lo zero = omega arith
size-after lo (suc n) = let k = size-after lo n in ground arith

size-middle :
    (q lo n : ℕ)
    → (size (both (first q) (after lo)) n ≤ n - lo) × (size (both (first q) (after lo)) n ≤ q - lo)
size-middle q lo zero = (omega arith, omega arith)
size-middle q lo (suc n) = let (h, k) = size-middle q lo n in (ground arith, ground arith)

-- Of too small sets, the first replicas and the last ones may share faulty ones only.
apart : (n q f : ℕ) → q ≤ n → 2 * q ≤ n + f → Intersects n q f → ⊥
apart n q f h k intersects =
    let (_, few) = size-middle q (n - q) n in
    let (i, _, x, y, z) =
      intersects (first q) (after (n - q)) (both (first q) (after (n - q)))
        (size-first_enough q n h) (omega (arith, size-after (n - q) n)) (omega arith) in
    ground (arith, x, y, z)

-- Take the number of replicas, the quorum and the number of faults that the code computes for it.
-- Any two sets of at least a quorum of the replicas share a correct one, whichever replicas up to
-- that number are faulty, exactly when the number of replicas is of the form 3 f + 1.
pub get_quorum_for_n-Intersects :
    (n q f : ℕ)
    → get_quorum_for_n n ≡ ok q
    → get_f_for_n n ≡ ok f
    → Intersects n q f ↔ (n ≡ get_n_for_f f)
unfolding get_f_for_n get_n_for_f get_quorum_for_n
get_quorum_for_n-Intersects zero q f hq hf = cc
get_quorum_for_n-Intersects (suc n) q f hq hf =
    let few : q ≤ suc n = ground arith in
    (
      λ intersects. elim (Bool-cases (ltb (suc n + f) (2 * q))) [
        | inl h ↦ ground arith
        | inr h ↦ absurd (apart (suc n) q f few (ground arith) intersects)
      ],
      λ form. intersect (suc n) q f (ground arith),
    )
