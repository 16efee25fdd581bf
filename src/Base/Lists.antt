-- ===== src/Base/Lists.antt =====
-- Lists measured and indexed by native numbers, and the queue operations of `VecDeque`.
use Prim.Native.Nat.{ℕ, zero, suc, ◌+◌, ◌<◌}
use mathlib.Core.Bool.{Bool, true, false}
use mathlib.Core.Path.{◌≡◌, refl, subst}
use mathlib.Core.List.{List, [], ◌∷◌, ◌++◌}
use mathlib.Core.Option.{Option, none, some}
use native.Mathlib.Omega.{arith}

module _ {ℓ} {A : Type ℓ} where
  abbrev pub length : List A → ℕ
  length [] = 0
  length (x ∷ xs) = suc (length xs)

  abbrev pub get_elem? : List A → ℕ → Option A
  get_elem? [] i = none
  get_elem? (x ∷ xs) zero = some x
  get_elem? (x ∷ xs) (suc i) = get_elem? xs i

  -- A write out of bounds changes nothing.
  abbrev pub set : List A → ℕ → A → List A
  set [] i v = []
  set (x ∷ xs) zero v = v ∷ xs
  set (x ∷ xs) (suc i) v = x ∷ set xs i v

  abbrev pub back : List A → Option A
  back [] = none
  back (x ∷ []) = some x
  back (x ∷ y ∷ xs) = back (y ∷ xs)

  abbrev pub push_back : List A → A → List A
  push_back xs x = xs ++ x ∷ []

  -- The element removed, and what is left.
  abbrev pub pop_front : List A → Option A × List A
  pop_front [] = (none, [])
  pop_front (x ∷ xs) = (some x, xs)

  -- Every element satisfies the predicate.
  abbrev pub All {κ} : (A → Type κ) → List A → Type κ
  All P [] = Unit
  All P (x ∷ xs) = P x × All P xs

  pub length-append : (xs ys : List A) → length (xs ++ ys) ≡ length xs + length ys
  length-append [] ys = omega arith
  length-append (x ∷ xs) ys = omega (arith, length-append xs ys)

  pub get_elem?-some : (xs : List A) (i : ℕ) → i < length xs → (x : A) × (get_elem? xs i ≡ some x)
  get_elem?-some [] i h = elim h [ ]
  get_elem?-some (x ∷ xs) zero h = (x, refl)
  get_elem?-some (x ∷ xs) (suc i) h = get_elem?-some xs i (omega arith)

  pub get_elem?-lt : (xs : List A) (i : ℕ) (x : A) → get_elem? xs i ≡ some x → i < length xs
  get_elem?-lt [] i x h = cc
  get_elem?-lt (y ∷ xs) zero x h = omega arith
  get_elem?-lt (y ∷ xs) (suc i) x h = let k = get_elem?-lt xs i x h in omega arith

  pub All-append {κ} :
      (P : A → Type κ) (front rest : List A) → All P front → All P rest → All P (front ++ rest)
  All-append P [] rest _ of_rest = of_rest
  All-append P (x ∷ front) rest (first, others) of_rest =
      (first, All-append P front rest others of_rest)

abbrev pub to_nat : Bool → ℕ
to_nat true = 1
to_nat false = 0

module _ {ℓ} {A : Type ℓ} where
  -- How many elements pass the test.
  abbrev pub count_if : (A → Bool) → List A → ℕ
  count_if p [] = 0
  count_if p (x ∷ xs) = to_nat (p x) + count_if p xs

  abbrev pub count_option : (A → Bool) → Option A → ℕ
  count_option p none = 0
  count_option p (some x) = to_nat (p x)

  pub count_if-append :
      (p : A → Bool) (xs ys : List A) → count_if p (xs ++ ys) ≡ count_if p xs + count_if p ys
  count_if-append p [] ys = omega arith
  count_if-append p (x ∷ xs) ys = omega (arith, count_if-append p xs ys)

  pub count_if-pop_front :
      (p : A → Bool) (xs : List A)
      → count_option p (pop_front xs).0 + count_if p (pop_front xs).1 ≡ count_if p xs
  count_if-pop_front p [] = refl
  count_if-pop_front p (x ∷ xs) = refl

  pub All-pop_front {κ} : (P : A → Type κ) (xs : List A) → All P xs → All P (pop_front xs).1
  All-pop_front P [] h = h
  All-pop_front P (x ∷ xs) h = h.1

  pub pop_front-All {κ} :
      (P : A → Type κ) (xs : List A) {x : A} → All P xs → (pop_front xs).0 ≡ some x → P x
  pop_front-All P [] h e = cc
  pop_front-All P (y ∷ xs) h e = subst P (cc) h.0
